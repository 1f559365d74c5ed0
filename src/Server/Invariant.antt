-- ===== src/Server/Invariant.antt =====
-- The invariant of `vsftpServerData_s`, and `VSFTPServerSetCwd`, which is the one way to change the
-- working directory.
use vs_ftp.Common.{
  ◌<◌, is_nonneg, success, ◌≡◌, refl, true, Option, none, some, [], arith, length, has_prefix,
}
use vs_ftp.Libc.{Bytes, strncpy}
use vs_ftp.Os.{Os}
use vs_ftp.Machine.{Server, Machine, zeroed}
use vs_ftp.Machine.Keeps.{Keeps, Frame, Frame-and}
use vs_ftp.Filesystem.{path_len_max, is_dir, get_real_path}
use vs_ftp.Filesystem.Keeps as FilesystemKeeps
use vs_ftp.Filesystem.Resolved.{IsPath, strncpy_self, get_real_path-IsPath}
use vs_ftp.Server.Paths.{abs_path_is_not_above_root_path, get_cwd, store_cwd, enter, set_cwd}
use vs_ftp.Server.Paths.Prefix.{not_above_iff_prefix}
use vs_ftp.Server.Keeps as ServerKeeps

-- What always holds of the server's data: the lengths are those of the paths, the working directory
-- fits its buffer and, once set, begins with the bytes of the root path, and a client is connected
-- only while there is a server socket and a client socket.
pub record WellFormed (d : Server) : Type 0 where
  pub root_len : d.root_path_len ≡ length d.root_path
  pub cwd_len : d.cwd_len ≡ length d.cwd
  pub cwd_fits : length d.cwd < path_len_max
  pub confined : 0 < d.cwd_len → has_prefix d.root_path d.cwd ≡ true
  pub listening : d.is_connected ≡ true → d.is_server_socket_created ≡ true
  pub client : d.is_connected ≡ true → is_nonneg d.client_sock ≡ true

pub zeroed-WellFormed : WellFormed zeroed
zeroed-WellFormed = record {
  root_len = refl;
  cwd_len = refl;
  cwd_fits = omega arith;
  confined = λ h. absurd (omega arith);
  listening = λ h. cc;
  client = λ h. cc;
}

-- The data after the working directory has been set to `path`.
abbrev pub at_dir : Server → Bytes → Server
at_dir d path = record d { cwd = strncpy path path_len_max; cwd_len = length path }

pub at_dir-WellFormed :
    {K : Type 0} {os : Os K} (d : Server) (path : Bytes)
    → WellFormed d
    → IsPath os path
    → abs_path_is_not_above_root_path d path ≡ success
    → WellFormed (at_dir d path)
at_dir-WellFormed d path w is ok =
    let same = strncpy_self path path_len_max is.no_nul (omega (arith, is.fits)) in
    let below = (not_above_iff_prefix d path w.root_len).0 ok in
    record {
      root_len = w.root_len;
      cwd_len = rw same;
      cwd_fits = rw same is.fits;
      confined = λ _. rw same below.1;
      listening = w.listening;
      client = w.client;
    }

-- A property that the setting of the working directory keeps, for a path that has passed the checks.
pub record CwdFrame {K : Type 0} ⦃os : Os K⦄ (P : Machine K → Type 0) : Type 0 where
  pub frame : Frame P
  pub stored :
      (path : Bytes) (s : Machine K)
      → P s
      → IsPath os path
      → abs_path_is_not_above_root_path s.server_data path ≡ success
      → P (record s { server_data = at_dir s.server_data path })

module _ {K : Type 0} ⦃os : Os K⦄ {P : Machine K → Type 0} (own : CwdFrame P) where
  store_cwd-Keeps : (path : Bytes) (s : Machine K) → P s → IsPath os path → P (store_cwd path s).1
  unfolding store_cwd
  store_cwd-Keeps path s h is = grind (arith, own.stored path s h is)

  enter-Keeps :
      (o : Option Bytes) (s : Machine K)
      → P s
      → ((p : Bytes) → o ≡ some p → IsPath os p)
      → P (enter o s).1
  unfolding enter
  enter-Keeps none s h is = h
  enter-Keeps (some path) s h is = ground (
    arith,
    FilesystemKeeps.is_dir-Keeps own.frame path s h,
    store_cwd-Keeps path (is_dir path s).1,
    is path refl,
  )

  pub set_cwd-Keeps : (dir : Bytes) → Keeps P (set_cwd dir)
  unfolding set_cwd
  set_cwd-Keeps dir s h =
      let cwd = (get_cwd path_len_max s).0 in
      let t = (get_cwd path_len_max s).1 in
      let base : Bytes = elim cwd [ none ↦ [] | some c ↦ c ] in
      enter-Keeps (get_real_path base dir path_len_max t).0 _
        (FilesystemKeeps.get_real_path-Keeps own.frame base dir path_len_max t
          (ServerKeeps.get_cwd-Keeps own.frame path_len_max s h))
        (λ p e. get_real_path-IsPath base dir t e)

-- What holds of the server's data whatever its working directory is is kept with such a property.
pub CwdFrame-and :
    {K : Type 0} ⦃os : Os K⦄ {P : Machine K → Type 0}
    → CwdFrame P
    → (Q : Server → Type 0) → ((d : Server) (path : Bytes) → Q d → Q (at_dir d path))
    → CwdFrame (λ s. P s × Q s.server_data)
CwdFrame-and own Q q = record {
  frame = Frame-and own.frame Q;
  stored = λ path s h is ok. (own.stored path s h.0 is ok, q s.server_data path h.1);
}
