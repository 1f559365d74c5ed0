-- ===== src/Server/Paths/Views.antt =====
-- What a client sees of the system's paths: `VSFTPServerRealPathToServerPath` in
-- src/common/vsftp_server.c.
use native.Mathlib.Numerals.{add-one}
use vs_ftp.Common.{
  Bool-cases, inl, inr, length-take, ltb, ◌≤◌, ℕ, zero, suc, ◌+◌, ◌<◌, ◌≡◌, refl, ◌≢◌, some, false,
  [], ◌∷◌, ◌++◌, arith, length, get_or, drop, ◌∙◌, ◌==◌,
}
use vs_ftp.Libc.{Bytes, c_str, strncpy}
use vs_ftp.Machine.{Server}
use vs_ftp.Filesystem.{path_len_max, slash}
use vs_ftp.Server.Paths.{behind_root, reads_behind, real_path_to_server_path}

get_or-cons : (c : ℕ) (s : Bytes) (i : ℕ) → get_or (c ∷ s) (i + 1) 0 ≡ get_or s i 0
get_or-cons c s i = rw add-one

ltb-suc : (m n : ℕ) → ltb (suc m) (n + 1) ≡ ltb m n
ltb-suc m n = ground arith

drop-cons : (c : ℕ) (s : Bytes) (i : ℕ) → drop (i + 1) (c ∷ s) ≡ drop i s
drop-cons c s i = rw add-one

behind_root-cons :
    (c d : ℕ) (root path : Bytes) (i n : ℕ)
    → behind_root (c ∷ root) (d ∷ path) (i + 1) n ≡ behind_root root path i n
unfolding behind_root
behind_root-cons c d root path i zero = refl
behind_root-cons c d root path i (suc n) = rw (
  get_or-cons c root i,
  get_or-cons d path i,
  drop-cons d path i,
  behind_root-cons c d root path (i + 1) n,
)

-- What is shown fits the array for it.
pub behind_root-length :
    (root path : Bytes) (i n : ℕ) → length (behind_root root path i n) ≤ path_len_max
unfolding behind_root strncpy
behind_root-length root path i zero = omega arith
behind_root-length root path i (suc n) =
    let cut = length-take path_len_max (c_str (drop i path)) in
    elim (Bool-cases (get_or path i 0 == get_or root i 0)) [
      | inl e ↦ rw e (behind_root-length root path (i + 1) n)
      | inr e ↦ rw e (omega (arith, cut))
    ]

-- The loop copies what stands behind the root path.
behind_root-append :
    (root : Bytes) (c : ℕ) (s : Bytes) (n : ℕ)
    → c ≢ 0
    → length root < n
    → behind_root root (root ++ c ∷ s) 0 n ≡ strncpy (c ∷ s) path_len_max
unfolding behind_root
behind_root-append root c s zero h l = absurd (omega arith)
behind_root-append [] c s (suc n) h l = ground arith
behind_root-append (d ∷ root) c s (suc n) h l =
    let shifted = behind_root-cons d d root (root ++ c ∷ s) 0 n in
    let rest = behind_root-append root c s n h (omega arith) in ground (arith, shifted ∙ rest)

-- The loop over the root path itself finds nothing behind it.
behind_root_self : (root : Bytes) (i n : ℕ) → behind_root root root i n ≡ slash ∷ []
unfolding behind_root
behind_root_self root i zero = refl
behind_root_self root i (suc n) = ground (arith, behind_root_self root (i + 1) n)

reads_behind-cons :
    (c d : ℕ) (root path : Bytes) (i n : ℕ)
    → reads_behind (c ∷ root) (d ∷ path) (i + 1) n ≡ reads_behind root path i n
unfolding reads_behind
reads_behind-cons c d root path i zero = refl
reads_behind-cons c d root path i (suc n) =
    let same : ltb (length (d ∷ path)) (i + 1) ≡ ltb (length path) i = ltb-suc (length path) i in
    rw (same, get_or-cons c root i, get_or-cons d path i, reads_behind-cons c d root path (i + 1) n)

-- A path that goes on behind the root path is not read behind its terminator.
pub reads_behind-append :
    (root : Bytes) (c : ℕ) (s : Bytes) (n : ℕ)
    → c ≢ 0
    → reads_behind root (root ++ c ∷ s) 0 n ≡ false
unfolding reads_behind
reads_behind-append root c s zero h = refl
reads_behind-append [] c s (suc n) h = ground arith
reads_behind-append (d ∷ root) c s (suc n) h =
    let shifted = reads_behind-cons d d root (root ++ c ∷ s) 0 n in
    let rest = reads_behind-append root c s n h in ground (arith, shifted ∙ rest)

-- Nor is the root path itself, up to its terminator.
reads_behind_self :
    (root : Bytes) (n : ℕ) → n ≤ length root + 1 → reads_behind root root 0 n ≡ false
unfolding reads_behind
reads_behind_self root zero h = refl
reads_behind_self [] (suc n) h = let none_left : n ≡ 0 = omega arith in rw none_left refl
reads_behind_self (d ∷ root) (suc n) h =
    let shifted = reads_behind-cons d d root root 0 n in
    let rest = reads_behind_self root n (omega arith) in ground (arith, shifted ∙ rest)

pub real_path_to_server_path-behind :
    (d : Server) (c : ℕ) (s : Bytes) (n : ℕ)
    → c ≢ 0
    → length d.root_path < n
    → real_path_to_server_path d (d.root_path ++ c ∷ s) n ≡ some (strncpy (c ∷ s) path_len_max)
unfolding real_path_to_server_path
real_path_to_server_path-behind d c s n h l =
    let positive : (n == 0) ≡ false = ground arith in
    rw (positive, behind_root-append d.root_path c s n h l) refl

-- A client sees the root path as `/`, if the length that is passed is not 0 and at most one more than
-- the root path's, and a path that goes on behind the root path, with a byte that is not NUL, as what
-- stands behind it, cut to 256 bytes, if the length that is passed is more than the root path's, be it
-- that of the path or of its array. In both cases no byte behind the path's terminator is read.
pub real_path_to_server_path-below_root :
    (d : Server) (c : ℕ) (s : Bytes) (m n : ℕ)
    → c ≢ 0
    → 0 < m
    → m ≤ length d.root_path + 1
    → length d.root_path < n
    → (real_path_to_server_path d d.root_path m ≡ some (slash ∷ []))
      × (reads_behind d.root_path d.root_path 0 m ≡ false)
      × (real_path_to_server_path d (d.root_path ++ c ∷ s) n ≡ some (strncpy (c ∷ s) path_len_max))
      × (reads_behind d.root_path (d.root_path ++ c ∷ s) 0 n ≡ false)
unfolding real_path_to_server_path
real_path_to_server_path-below_root d c s m n h some_bytes inside l =
    let given : (m == 0) ≡ false = ground arith in
    (
      rw (given, behind_root_self d.root_path 0 m) refl,
      reads_behind_self d.root_path m inside,
      real_path_to_server_path-behind d c s n h l,
      reads_behind-append d.root_path c s n h,
    )
