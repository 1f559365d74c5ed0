-- ===== src/Server/Paths/Prefix.antt =====
-- The byte loops of the path functions in src/common/vsftp_server.c against prefixes of lists.
use native.Mathlib.Numerals.{add-one}
use vs_ftp.Common.{
  ℕ, zero, suc, ◌+◌, ◌≤◌, success, failure, is_zero, ◌≡◌, refl, ◌≢◌, ◌↔◌, inl, inr, true, [], ◌∷◌,
  arith, ◌==◌, Bool-cases, length, get_or, has_prefix, ap, ◌∙◌,
}
use vs_ftp.Libc.{Bytes}
use vs_ftp.Machine.{Server}
use vs_ftp.Server.Paths.{same_bytes, abs_path_is_not_above_root_path}

get_or-cons : (c : ℕ) (s : Bytes) (i : ℕ) → get_or (c ∷ s) (i + 1) 0 ≡ get_or s i 0
get_or-cons c s i = rw add-one

same_bytes-cons :
    (c d : ℕ) (root path : Bytes) (i n : ℕ)
    → same_bytes (c ∷ root) (d ∷ path) (i + 1) n ≡ same_bytes root path i n
unfolding same_bytes
same_bytes-cons c d root path i zero = refl
same_bytes-cons c d root path i (suc n) =
    rw (get_or-cons c root i, get_or-cons d path i, same_bytes-cons c d root path (i + 1) n)

-- The loop over the root path succeeds exactly on its extensions.
same_bytes-has_prefix :
    (root path : Bytes)
    → length root ≤ length path
    → is_zero (same_bytes root path 0 (length root)) ≡ has_prefix root path
unfolding same_bytes
same_bytes-has_prefix [] path h = refl
same_bytes-has_prefix (c ∷ root) [] h = absurd (omega arith)
same_bytes-has_prefix (c ∷ root) (d ∷ path) h =
    let shifted = same_bytes-cons c d root path 0 (length root) in
    let rest = same_bytes-has_prefix root path (omega arith) in
    elim (Bool-cases (c == d)) [ inl e ↦ rw e (ap is_zero shifted ∙ rest) | inr e ↦ rw e ]

length_of_prefix : (root path : Bytes) → has_prefix root path ≡ true → length root ≤ length path
length_of_prefix [] path h = omega arith
length_of_prefix (c ∷ root) [] h = cc
length_of_prefix (c ∷ root) (d ∷ path) h = ground (arith, length_of_prefix root path)

-- `VSFTPServerAbsPathIsNotAboveRootPath` accepts the paths that are not empty and begin with the
-- bytes of the root path, and no others, provided that the stored length of the root path is its
-- length.
pub not_above_iff_prefix :
    (d : Server) (path : Bytes)
    → d.root_path_len ≡ length d.root_path
    → (abs_path_is_not_above_root_path d path ≡ success)
      ↔ ((path ≢ []) × (has_prefix d.root_path path ≡ true))
unfolding abs_path_is_not_above_root_path
not_above_iff_prefix d [] e = (λ h. absurd (no_success h), λ h. absurd (h.0 refl))
  where
    no_success : failure ≡ success → ⊥
    no_success h = cc
not_above_iff_prefix d (c ∷ path) e = rw e (
    ground (
      arith,
      same_bytes-has_prefix d.root_path (c ∷ path),
      length_of_prefix d.root_path (c ∷ path),
    ))
