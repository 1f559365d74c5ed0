-- ===== src/Port/Accepts.antt =====
-- Which strings `IsDecimal` in src/linux/main.c accepts.
use vs_ftp.Common.{
  Bool-cases, inl, inr, ℕ, ◌≤◌, ◌≡◌, refl, ◌↔◌, Bool, true, false, [], ◌∷◌, arith, length, All,
}
use vs_ftp.Libc.{Bytes}
use vs_ftp.Libc.Decimal.{IsDigit, value}
use vs_ftp.Port.{fits_port, all_decimal, not_too_large, is_decimal, decimal_string_value_max}

pub all_decimal_iff : (s : Bytes) → (all_decimal s ≡ true) ↔ All IsDigit s
unfolding all_decimal
all_decimal_iff [] = (λ h. tt, λ h. refl)
all_decimal_iff (c ∷ s) =
    (λ h. ground (arith, (all_decimal_iff s).0), λ h. ground (arith, (all_decimal_iff s).1 h.1))

-- The comparison, digit by digit, with five digits of a bound is the comparison of the values.
not_too_large_iff :
    (a b c d e : ℕ)
    → All IsDigit (a ∷ b ∷ c ∷ d ∷ e ∷ [])
    → (not_too_large (a ∷ b ∷ c ∷ d ∷ e ∷ []) decimal_string_value_max ≡ true)
      ↔ (value (a ∷ b ∷ c ∷ d ∷ e ∷ []) ≤ 65365)
unfolding not_too_large value
not_too_large_iff a b c d e h = (λ k. ground arith, λ k. ground arith)

-- Strings of four digits at most fit, those of five by their value, and longer ones do not.
fits_port_iff :
    (s : Bytes) → All IsDigit s → (fits_port s ≡ true) ↔ ((length s ≤ 5) × (value s ≤ 65365))
unfolding fits_port value
fits_port_iff [] h = (λ _. (omega arith, omega arith), λ _. refl)
fits_port_iff (a ∷ []) h = (λ _. (omega arith, omega arith), λ _. ground arith)
fits_port_iff (a ∷ b ∷ []) h = (λ _. (omega arith, omega arith), λ _. ground arith)
fits_port_iff (a ∷ b ∷ c ∷ []) h = (λ _. (omega arith, omega arith), λ _. ground arith)
fits_port_iff (a ∷ b ∷ c ∷ d ∷ []) h = (λ _. (omega arith, omega arith), λ _. ground arith)
fits_port_iff (a ∷ b ∷ c ∷ d ∷ e ∷ []) h =
    let five = not_too_large_iff a b c d e h in
    (λ k. (omega arith, five.0 (ground arith)), λ k. ground (arith, five.1 k.1))
fits_port_iff (a ∷ b ∷ c ∷ d ∷ e ∷ f ∷ s) h =
    (λ k. absurd (ground arith), λ k. absurd (omega arith))

-- `IsDecimal` accepts exactly the strings of at most five decimal digits whose value is at most
-- 65365. The empty string is one of them.
pub is_decimal_iff :
    (s : Bytes) → (is_decimal s ≡ true) ↔ (All IsDigit s × (length s ≤ 5) × (value s ≤ 65365))
unfolding is_decimal
is_decimal_iff s =
    let digits = all_decimal_iff s in
    elim (Bool-cases (all_decimal s)) [
      | inl e ↦
          let d = digits.0 e in
          let fits = fits_port_iff s d in
          (λ h. (d, (fits.0 (rw e at h)).0, (fits.0 (rw e at h)).1), λ h. rw e (fits.1 (h.1, h.2)))
      | inr e ↦ (λ h. absurd (no_digits refl (rw e at h)), λ h. absurd (no_digits e (digits.1 h.0)))
    ]
  where
    no_digits : {b : Bool} → b ≡ false → b ≡ true → ⊥
    no_digits p q = cc
