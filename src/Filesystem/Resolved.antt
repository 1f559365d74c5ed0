-- ===== src/Filesystem/Resolved.antt =====
-- What `VSFTPFilesystemGetRealPath` gives: a terminated string that fits, with no NUL inside.
use vs_ftp.Common.{
  ℕ, suc, zero, ◌<◌, ◌≤◌, ◌≡◌, refl, ◌≢◌, some, [], ◌∷◌, arith, All, length, take, take_all,
}
use vs_ftp.Libc.{Bytes, c_str, strncpy}
use vs_ftp.Os.{Call, Os}
use vs_ftp.Machine.{Machine, perform}
use vs_ftp.Filesystem.{path_len_max, resolve, get_real_path}

-- The bytes of a C string.
abbrev pub NoNul : Bytes → Type 0
NoNul = All (λ c. c ≢ 0)

pub c_str-NoNul : (s : Bytes) → NoNul (c_str s)
unfolding c_str
c_str-NoNul [] = tt
c_str-NoNul (c ∷ s) = ground (arith, c_str-NoNul s)

pub c_str_self : (s : Bytes) → NoNul s → c_str s ≡ s
unfolding c_str
c_str_self [] h = refl
c_str_self (c ∷ s) h = ground (arith, c_str_self s h.1)

take-NoNul : (n : ℕ) (s : Bytes) → NoNul s → NoNul (take n s)
take-NoNul zero s h = tt
take-NoNul (suc n) [] h = tt
take-NoNul (suc n) (c ∷ s) h = (h.0, take-NoNul n s h.1)

pub strncpy-NoNul : (s : Bytes) (n : ℕ) → NoNul (strncpy s n)
unfolding strncpy
strncpy-NoNul s n = take-NoNul n (c_str s) (c_str-NoNul s)

pub strncpy_self : (s : Bytes) (n : ℕ) → NoNul s → length s ≤ n → strncpy s n ≡ s
unfolding strncpy
strncpy_self s n h fits = rw (c_str_self s h) (take_all n s fits)

-- A path that `realpath` has answered, and that fits its buffer with its terminator.
pub record IsPath {K : Type 0} (os : Os K) (p : Bytes) : Type 0 where
  pub no_nul : NoNul p
  pub fits : length p < path_len_max
  pub answer :
      (q : Bytes) × (k : K) × (p ≡ strncpy (os.answer (Call.realpath q) k).0.bytes path_len_max)

module _ {K : Type 0} ⦃os : Os K⦄ where
  -- What `realpath` answers, as far as the buffer holds it.
  abbrev pub answered : Bytes → Machine K → Bytes
  answered lpath s = strncpy (perform (Call.realpath (c_str lpath)) s).0.bytes path_len_max

  pub resolve-answered :
      (lpath : Bytes) (s : Machine K) {p : Bytes}
      → (resolve lpath path_len_max s).0 ≡ some p
      → (p ≡ answered lpath s) × (length (answered lpath s) < path_len_max)
  unfolding resolve
  resolve-answered lpath s e = ground arith

  pub resolve-IsPath :
      (lpath : Bytes) (s : Machine K) {p : Bytes}
      → (resolve lpath path_len_max s).0 ≡ some p
      → IsPath os p
  resolve-IsPath lpath s e =
      let (same, fits) = resolve-answered lpath s e in
      rw same (record {
        no_nul = strncpy-NoNul _ path_len_max;
        fits = fits;
        answer = (c_str lpath, s.kernel, unfold perform in refl);
      })

  -- What holds of all that `resolve` gives holds of what `VSFTPFilesystemGetRealPath` gives.
  get_real_path-resolve :
      (R : Bytes → Type 0)
      → ((lpath : Bytes) (s : Machine K) (p : Bytes)
          → (resolve lpath path_len_max s).0 ≡ some p
          → R p)
      → (cwd path : Bytes) (s : Machine K) (p : Bytes)
      → (get_real_path cwd path path_len_max s).0 ≡ some p
      → R p
  unfolding get_real_path
  get_real_path-resolve R given cwd [] s p e = cc
  get_real_path-resolve R given cwd (c ∷ path) s p e = grind (arith, given)

  pub get_real_path-IsPath :
      (cwd path : Bytes) (s : Machine K) {p : Bytes}
      → (get_real_path cwd path path_len_max s).0 ≡ some p
      → IsPath os p
  get_real_path-IsPath cwd path s {p} e =
      get_real_path-resolve (IsPath os) (λ lpath t q r. resolve-IsPath lpath t r) cwd path s p e
