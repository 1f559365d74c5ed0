-- ===== src/Libc/Decimal.antt =====
-- The decimal digits that `%d` and `%llu` print, and the number that they stand for.
use native.Mathlib.Nat.{pow-suc}
use vs_ftp.Common.{
  ℕ, zero, suc, ◌+◌, ◌-◌, ◌*◌, ◌/◌, ◌%◌, ◌^◌, ◌<◌, ◌≤◌, ◌≡◌, refl, inl, inr, List, [], ◌∷◌, ◌++◌,
  arith, ltb, ltb→lt, Bool-cases, true, if◌then◌else◌, length, length-append, All, All-append,
}

-- The digits of `n`, with fuel for that many of them.
unfoldable pub digits : ℕ → ℕ → List ℕ
digits zero n = []
digits (suc f) n =
    let rest = digits f (n / 10) ++ (48 + n % 10) ∷ [] in if ltb n 10 then (48 + n) ∷ [] else rest

-- Twenty digits are enough for a number of 64 bits.
unfoldable pub decimal : ℕ → List ℕ
unfolding digits
decimal n = digits 20 n

-- The value of a digit string, most significant digit first.
unfoldable pub value_from : ℕ → List ℕ → ℕ
value_from acc [] = acc
value_from acc (c ∷ s) = value_from (acc * 10 + (c - 48)) s

unfoldable pub value : List ℕ → ℕ
unfolding value_from
value s = value_from 0 s

abbrev pub IsDigit : ℕ → Type 0
IsDigit c = (48 ≤ c) × (c ≤ 57)

pub value_from-append :
    (acc : ℕ) (s t : List ℕ) → value_from acc (s ++ t) ≡ value_from (value_from acc s) t
unfolding value_from
value_from-append acc [] t = refl
value_from-append acc (c ∷ s) t = value_from-append (acc * 10 + (c - 48)) s t

pub value_snoc : (s : List ℕ) (c : ℕ) → value (s ++ c ∷ []) ≡ value s * 10 + (c - 48)
unfolding value value_from
value_snoc s c = value_from-append 0 s (c ∷ [])

pub value_nil : value [] ≡ 0
unfolding value value_from
value_nil = refl

value_one : (c : ℕ) → value (c ∷ []) ≡ c - 48
unfolding value value_from
value_one c = omega arith

digits-value : (f n : ℕ) → n < 10 ^ f → value (digits f n) ≡ n
unfolding digits
digits-value zero n h = omega (arith, value_nil)
digits-value (suc f) n h =
    let room : n / 10 < 10 ^ f = omega (arith, pow-suc 10 f) in
    elim (Bool-cases (ltb n 10)) [
      | inl small ↦ rw small (rw value_one (ground arith))
      | inr large ↦ rw (large, value_snoc, digits-value f (n / 10) room) (omega arith)
    ]

digits-IsDigit : (f n : ℕ) → All IsDigit (digits f n)
unfolding digits
digits-IsDigit zero n = tt
digits-IsDigit (suc f) n = elim (Bool-cases (ltb n 10)) [
  | inl small ↦ let h = ltb→lt n 10 small in rw small (omega arith)
  | inr large ↦
      rw large (All-append IsDigit (digits f (n / 10)) _ (digits-IsDigit f (n / 10)) (omega arith))
]

-- Up to 64 bits the digits that are printed stand for the number.
pub value-decimal : (n : ℕ) → n < 10 ^ 20 → value (decimal n) ≡ n
unfolding decimal
value-decimal n h = digits-value 20 n h

pub decimal-IsDigit : (n : ℕ) → All IsDigit (decimal n)
unfolding decimal
decimal-IsDigit n = digits-IsDigit 20 n

length-digits : (f n : ℕ) → length (digits f n) ≤ f
unfolding digits
length-digits zero n = omega arith
length-digits (suc f) n = elim (Bool-cases (ltb n 10)) [
  | inl small ↦ rw small (omega arith)
  | inr large ↦
      rw (large, length-append (digits f (n / 10)) ((48 + n % 10) ∷ []))
        (omega (arith, length-digits f (n / 10)))
]

pub length-decimal : (n : ℕ) → length (decimal n) ≤ 20
unfolding decimal
length-decimal n = length-digits 20 n

length-digits_le : (f k n : ℕ) → 1 ≤ k → n < 10 ^ k → length (digits f n) ≤ k
unfolding digits
length-digits_le zero k n one h = omega arith
length-digits_le (suc f) zero n one h = absurd (omega arith)
length-digits_le (suc f) (suc zero) n one h = rw (small n h) (omega arith)
  where
    small : (n : ℕ) → n < 10 ^ 1 → ltb n 10 ≡ true
    small n h = ground (arith, pow-suc 10 0)
length-digits_le (suc f) (suc (suc k)) n one h = elim (Bool-cases (ltb n 10)) [
  | inl small ↦ rw small (omega arith)
  | inr large ↦
      rw (large, length-append (digits f (n / 10)) ((48 + n % 10) ∷ []))
        (omega (
          arith,
          length-digits_le f (suc k) (n / 10) (omega arith) (omega (arith, pow-suc 10 (suc k))),
        ))
]

-- A number below `10 ^ k` prints as at most `k` digits.
pub length-decimal_le : (k n : ℕ) → 1 ≤ k → n < 10 ^ k → length (decimal n) ≤ k
unfolding decimal
length-decimal_le k n one h = length-digits_le 20 k n one h
