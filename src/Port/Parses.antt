-- ===== src/Port/Parses.antt =====
-- The number that `ParseDecimal` in src/linux/main.c finds, in its wrapping arithmetic.
use native.Mathlib.Nat.{add-mul-mod_self_left, div-add-mod, mod-eq_of_lt, mul_comm}
use vs_ftp.Common.{
  ℕ, zero, suc, ◌+◌, ◌-◌, ◌*◌, ◌/◌, ◌%◌, ◌^◌, ◌≤◌, ◌<◌, ◌≡◌, refl, sym, ap, true, [], ◌∷◌, ◌++◌,
  arith, length, All, get_or, take, take_all,
}
use vs_ftp.Libc.{Bytes}
use vs_ftp.Libc.Decimal.{
  IsDigit, value, value_snoc, value_nil, length-decimal_le, decimal, value-decimal, decimal-IsDigit,
}
use vs_ftp.Port.{parse_loop, is_decimal, parse_decimal}
use vs_ftp.Port.Accepts.{is_decimal_iff}

mod-mul-mod : (a b m : ℕ) → (a % m * b) % m ≡ (a * b) % m
mod-mul-mod a b m =
    let split : a * b ≡ a % m * b + m * (a / m * b) =
      omega (arith, ap (λ (t : ℕ). t * b) (div-add-mod a m)) in
    rw split (sym (add-mul-mod_self_left (a % m * b) m (a / m * b)))

mul-mod-mod : (a b m : ℕ) → (a * (b % m)) % m ≡ (a * b) % m
mul-mod-mod a b m = rw (mul_comm a (b % m), mod-mul-mod b a m, mul_comm b a)

take_snoc : (s : Bytes) (i : ℕ) → i < length s → take (suc i) s ≡ take i s ++ get_or s i 0 ∷ []
take_snoc [] i h = elim h [ ]
take_snoc (c ∷ s) zero h = refl
take_snoc (c ∷ s) (suc i) h = ap (λ r. c ∷ r) (take_snoc s i (omega arith))

get_or-IsDigit : (s : Bytes) (i : ℕ) → All IsDigit s → i < length s → IsDigit (get_or s i 0)
get_or-IsDigit [] i d h = elim h [ ]
get_or-IsDigit (c ∷ s) zero d h = d.0
get_or-IsDigit (c ∷ s) (suc i) d h = get_or-IsDigit s i d.1 (omega arith)

-- One round: the digit's share, reduced at each step, is the share of its plain value.
digit_mod : (val g : ℕ) → 48 ≤ g → ((g + 2 ^ 16 - 48) * val) % 2 ^ 16 ≡ (val * (g - 48)) % 2 ^ 16
digit_mod val g h =
    let shifted : g + 2 ^ 16 - 48 ≡ (g - 48) + 2 ^ 16 = omega arith in
    let split : (g + 2 ^ 16 - 48) * val ≡ val * (g - 48) + 2 ^ 16 * val =
      omega (arith, ap (λ (t : ℕ). t * val) shifted) in
    rw (split, add-mul-mod_self_left (val * (g - 48)) (2 ^ 16) val)

round_mod :
    (acc val v g : ℕ)
    → 48 ≤ g
    → ((acc + ((g + 2 ^ 16 - 48) * val) % 2 ^ 16) % 2 ^ 16 + (val * 10) % 2 ^ 16 * v) % 2 ^ 16
      ≡ (acc + val * (v * 10 + (g - 48))) % 2 ^ 16
round_mod acc val v g h = omega (arith, digit_mod val g h, mod-mul-mod (val * 10) v (2 ^ 16))

-- The loop over the first `n` digits adds their value, in units of `val`.
parse_loop-value :
    (s : Bytes) (n val acc : ℕ)
    → All IsDigit s
    → n ≤ length s
    → acc < 2 ^ 16
    → parse_loop s n val acc ≡ (acc + val * value (take n s)) % 2 ^ 16
unfolding parse_loop
parse_loop-value s zero val acc d h b = rw value_nil (omega arith)
parse_loop-value s (suc n) val acc d h b =
    let g = get_or s n 0 in
    let next =
      parse_loop-value s n ((val * 10) % 2 ^ 16)
        ((acc + ((g + 2 ^ 16 - 48) * val) % 2 ^ 16) % 2 ^ 16) d (omega arith) (omega arith) in
    rw (next, take_snoc s n h, value_snoc (take n s) g)
      (round_mod acc val (value (take n s)) g (get_or-IsDigit s n d h).0)

-- On any string of decimal digits the number is its value, modulo 2^16.
parse_decimal-value : (s : Bytes) → All IsDigit s → parse_decimal s ≡ value s % 2 ^ 16
unfolding parse_decimal
parse_decimal-value s d =
    let loop = parse_loop-value s (length s) 1 0 d (omega arith) (omega arith) in
    rw (loop, take_all (length s) s (omega arith)) (omega arith)

-- The number that `ParseDecimal` finds in a string that `IsDecimal` accepts is the value of its
-- digits: its arithmetic in 16 bits does not wrap around.
pub parse_decimal-accepted : (s : Bytes) → is_decimal s ≡ true → parse_decimal s ≡ value s
parse_decimal-accepted s h =
    let accepted = (is_decimal_iff s).0 h in
    rw (parse_decimal-value s accepted.0) (mod-eq_of_lt (omega (arith, accepted.2)))

-- A port of at most 65365, printed in decimal, is accepted by `IsDecimal`, and `ParseDecimal` finds
-- the port again.
pub parse_decimal-decimal :
    (p : ℕ) → p ≤ 65365 → (is_decimal (decimal p) ≡ true) × (parse_decimal (decimal p) ≡ p)
parse_decimal-decimal p h =
    let plain = value-decimal p (omega arith) in
    let short = length-decimal_le 5 p (omega arith) (omega arith) in
    let accepted = (is_decimal_iff (decimal p)).1 (decimal-IsDigit p, short, rw plain h) in
    (accepted, rw (parse_decimal-accepted (decimal p) accepted) plain)
