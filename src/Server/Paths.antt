-- ===== src/Server/Paths.antt =====
-- The paths of src/common/vsftp_server.c: the root path, the working directory, and the way between
-- the paths that a client sees and those of the system.
pub mod Prefix
pub mod Views
pub mod Relative
pub mod RoundTrip
pub mod Places
use vs_ftp.Common.{
  ℕ, zero, suc, ◌+◌, ℤ, success, failure, is_zero, Bool, true, false, Option, none, some, [], ◌∷◌,
  ◌++◌, ltb, ◌==◌, ◌&&◌, if◌then◌else◌, length, take, drop, get_or,
}
use vs_ftp.Libc.{Bytes, c_str, strncpy}
use vs_ftp.Libc.Format.{num, expand, size_t}
use vs_ftp.Os.{Os}
use vs_ftp.Machine.{
  Server, M, bad_format, read_out_of_bounds, pure, ◌>>=◌, ◌>>◌, gets, modify, fault,
}
use vs_ftp.Filesystem.{path_len_max, slash, is_abs_path, is_dir, get_real_path}

-- The loop of `VSFTPServerAbsPathIsNotAboveRootPath`, `n` rounds from index `i` on.
unfoldable pub same_bytes : Bytes → Bytes → ℕ → ℕ → ℤ
same_bytes root path i zero = success
same_bytes root path i (suc n) =
    let rest = same_bytes root path (i + 1) n in
    if get_or root i 0 == get_or path i 0 then rest else failure

-- `VSFTPServerAbsPathIsNotAboveRootPath`
unfoldable pub abs_path_is_not_above_root_path : Server → Bytes → ℤ
unfolding same_bytes
abs_path_is_not_above_root_path d path =
    if length path == 0
    then failure
    else if ltb (length path) d.root_path_len
    then failure
    else same_bytes d.root_path path 0 d.root_path_len

-- The loop of `VSFTPServerRealPathToServerPath`, `n` rounds from index `i` on.
unfoldable pub behind_root : Bytes → Bytes → ℕ → ℕ → Bytes
behind_root root path i zero = slash ∷ []
behind_root root path i (suc n) =
    let rest = behind_root root path (i + 1) n in
    if get_or path i 0 == get_or root i 0 then rest else strncpy (drop i path) path_len_max

-- Whether that loop comes to bytes of `realPath` behind its terminator, where the array holds what
-- was there before. `rootPath` is zero behind its own terminator.
unfoldable pub reads_behind : Bytes → Bytes → ℕ → ℕ → Bool
reads_behind root path i zero = false
reads_behind root path i (suc n) =
    let rest = reads_behind root path (i + 1) n in
    if ltb (length path) i then true else if get_or path i 0 == get_or root i 0 then rest else false

-- `VSFTPServerRealPathToServerPath`, whose `realPathLen` need not be the length of the path.
unfoldable pub real_path_to_server_path : Server → Bytes → ℕ → Option Bytes
unfolding behind_root
real_path_to_server_path d path n = if n == 0 then none else some (behind_root d.root_path path 0 n)

module _ {K : Type 0} ⦃os : Os K⦄ where
  -- `VSFTPServerGetCwd`. The working directory is the format.
  unfoldable pub get_cwd : ℕ → M K (Option Bytes)
  get_cwd size = do
    cwd ← gets (λ d. d.cwd)
    len ← gets (λ d. d.cwd_len)
    if ltb 0 size && ltb 0 len && ltb len size
        then elim (expand cwd (num size_t len ∷ [])) [
          | none ↦ fault (bad_format cwd) >> pure none
          | some out ↦ pure (if ltb (length out) size then some out else none)
        ]
        else pure none

  -- The absolute case of `VSFTPServerServerPathToRealPath`: the two `strncpy` into `buf`, which
  -- leave it without a terminator if it is full.
  unfoldable pub below_root : Bytes → M K (Option Bytes)
  below_root server_path = do
    root ← gets (λ d. d.root_path)
    let buf = take path_len_max (root ++ c_str server_path)
    if ltb (length buf) path_len_max
        then get_real_path [] buf path_len_max
        else fault (read_out_of_bounds path_len_max) >> get_real_path [] buf path_len_max

  -- The relative case, on the working directory if there is one.
  unfoldable pub real_path_from : Bytes → Option Bytes → M K (Option Bytes)
  real_path_from server_path none = pure none
  real_path_from server_path (some dir) = get_real_path dir server_path path_len_max

  -- `VSFTPServerServerPathToRealPath`
  unfoldable pub server_path_to_real_path : Bytes → M K (Option Bytes)
  unfolding below_root real_path_from
  server_path_to_real_path server_path =
      if length server_path == 0
      then pure none
      else if is_zero (is_abs_path server_path)
      then below_root server_path
      else get_cwd path_len_max >>= real_path_from server_path

  -- The end of `VSFTPServerSetCwd`, from the comparison with the root path on.
  unfoldable pub store_cwd : Bytes → M K ℤ
  store_cwd real_path = do
    above ← gets (λ d. abs_path_is_not_above_root_path d real_path)
    if is_zero above && ltb (length real_path) path_len_max
        then modify
            (λ d. record d { cwd = strncpy real_path path_len_max; cwd_len = length real_path })
          >> pure success
        else pure failure

  -- `VSFTPServerSetCwd` from `VSFTPFilesystemIsDir` on.
  unfoldable pub enter : Option Bytes → M K ℤ
  unfolding store_cwd
  enter none = pure failure
  enter (some path) = do r ← is_dir path; if is_zero r then store_cwd path else pure r

  -- `VSFTPServerSetCwd`. Without a working directory the path is resolved on its own.
  unfoldable pub set_cwd : Bytes → M K ℤ
  unfolding enter
  set_cwd dir = do
    cwd ← get_cwd path_len_max
    get_real_path (elim cwd [ none ↦ [] | some c ↦ c ]) dir path_len_max >>= enter
