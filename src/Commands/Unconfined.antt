-- ===== src/Commands/Unconfined.antt =====
-- What `CommandHandlerRetr` and `CommandHandlerSize` in src/common/vsftp_commands.c do with the root
-- path when they look for a file.
use vs_ftp.Common.{
  ℕ, ◌≡◌, refl, failure, Bool, true, false, Option, none, some, [], ◌∷◌, arith, ◌==◌, length,
  if◌then◌else◌,
}
use vs_ftp.Libc.{Bytes}
use vs_ftp.Os.{Os}
use vs_ftp.Machine.{Machine, M, pure, ◌>>=◌, perform}
use vs_ftp.Filesystem.{
  path_len_max, is_abs_path, is_file, resolve, get_real_path, concat_cwd_and_path,
}
use vs_ftp.Server.Paths.{get_cwd, real_path_from, server_path_to_real_path}
use vs_ftp.Commands.Handlers.{locate, located}

-- The same machine with another root path.
abbrev pub rooted : {K : Type 0} → Bytes → Machine K → Machine K
rooted root s = record s {
  server_data = record s.server_data { root_path = root; root_path_len = length root };
}

-- A function that neither reads nor writes the root path.
abbrev pub IgnoresRoot : {K A : Type 0} → M K A → Type 0
IgnoresRoot {K} m =
    (root : Bytes) (s : Machine K) → m (rooted root s) ≡ ((m s).0, rooted root (m s).1)

module _ {K : Type 0} where
  if-IgnoresRoot :
      {A : Type 0} (b : Bool) (m k : M K A)
      → IgnoresRoot m
      → IgnoresRoot k
      → IgnoresRoot (if b then m else k)
  if-IgnoresRoot true m k hm hk = hm
  if-IgnoresRoot false m k hm hk = hk

  >>=-IgnoresRoot :
      {A B : Type 0} (m : M K A) (f : A → M K B)
      → IgnoresRoot m
      → ((a : A) → IgnoresRoot (f a))
      → IgnoresRoot (m >>= f)
  >>=-IgnoresRoot m f hm hf root s = rw (hm root s) (hf (m s).0 root (m s).1)

module _ {K : Type 0} ⦃os : Os K⦄ where
  resolve-IgnoresRoot : (path : Bytes) (size : ℕ) → IgnoresRoot {K = K} (resolve path size)
  unfolding resolve perform
  resolve-IgnoresRoot path size root s = refl

  joined-IgnoresRoot :
      (path : Option Bytes) (size : ℕ)
      → IgnoresRoot {K = K} {A = Option Bytes}
          (elim path [ none ↦ pure none | some p ↦ resolve p size ])
  joined-IgnoresRoot none size root s = refl
  joined-IgnoresRoot (some p) size root s = resolve-IgnoresRoot p size root s

  get_real_path-IgnoresRoot :
      (cwd path : Bytes) (size : ℕ) → IgnoresRoot {K = K} (get_real_path cwd path size)
  unfolding get_real_path
  get_real_path-IgnoresRoot cwd [] size root s = refl
  get_real_path-IgnoresRoot cwd (c ∷ path) size root s = ground (
    arith,
    resolve-IgnoresRoot (c ∷ path) size root s,
    joined-IgnoresRoot (concat_cwd_and_path cwd (c ∷ path) path_len_max) size root s,
  )

  get_cwd-IgnoresRoot : (size : ℕ) → IgnoresRoot {K = K} (get_cwd size)
  unfolding get_cwd
  get_cwd-IgnoresRoot size root s = ground arith

  real_path_from-IgnoresRoot :
      (path : Bytes) (dir : Option Bytes) → IgnoresRoot {K = K} (real_path_from path dir)
  unfolding real_path_from
  real_path_from-IgnoresRoot path none root s = refl
  real_path_from-IgnoresRoot path (some dir) root s =
      get_real_path-IgnoresRoot dir path path_len_max root s

  is_file-IgnoresRoot : (path : Bytes) → IgnoresRoot {K = K} (is_file path)
  unfolding is_file perform
  is_file-IgnoresRoot [] root s = refl
  is_file-IgnoresRoot (c ∷ path) root s = refl

  located-IgnoresRoot : (path : Option Bytes) → IgnoresRoot {K = K} (located path)
  unfolding located
  located-IgnoresRoot none root s = refl
  located-IgnoresRoot (some path) root s = rw (is_file-IgnoresRoot path root s) refl

  relative-IgnoresRoot :
      (args : Bytes)
      → is_abs_path args ≡ failure
      → IgnoresRoot {K = K} (server_path_to_real_path args)
  unfolding server_path_to_real_path
  relative-IgnoresRoot args relative = rw relative (
      if-IgnoresRoot (length args == 0) (pure none) (get_cwd path_len_max >>= real_path_from args)
        (λ root s. refl)
        (>>=-IgnoresRoot (get_cwd path_len_max) (real_path_from args)
          (get_cwd-IgnoresRoot path_len_max) (real_path_from-IgnoresRoot args)))

  -- The file that RETR and SIZE find for an argument that does not begin with a slash does not
  -- depend on the root path: with any other root path they make the same system calls, and get
  -- the same file or the same error.
  pub locate-rooted :
      (args : Bytes) (root : Bytes) (s : Machine K)
      → is_abs_path args ≡ failure
      → locate args (rooted root s) ≡ ((locate args s).0, rooted root (locate args s).1)
  unfolding locate
  locate-rooted args root s relative =
      if-IgnoresRoot (length args == 0)
        (pure (record { retval = failure; is_file_error = false; real_path = [] }))
        (server_path_to_real_path args >>= located) (λ root s. refl)
        (>>=-IgnoresRoot (server_path_to_real_path args) located
          (relative-IgnoresRoot args relative) located-IgnoresRoot)
        root s
