-- ===== src/Server/Paths/Places.antt =====
-- The change to a directory by `VSFTPServerSetCwd` in src/common/vsftp_server.c.
use vs_ftp.Common.{
  ◌<◌, ◌≡◌, refl, ap, ◌∙◌, success, true, some, none, [], ◌∷◌, ◌++◌, arith, length, ltb, has_prefix,
}
use vs_ftp.Libc.{Bytes}
use vs_ftp.Os.{Call, Os, directory}
use vs_ftp.Machine.{Server, Machine, perform}
use vs_ftp.Filesystem.{path_len_max, is_abs_path, is_dir, get_real_path}
use vs_ftp.Filesystem.Keeps as FilesystemKeeps
use vs_ftp.Filesystem.Resolved.{NoNul, c_str_self, strncpy_self}
use vs_ftp.Server.Keeps as ServerKeeps
use vs_ftp.Server.Sockets.Closing.{data_frame}
use vs_ftp.Server.Paths.{abs_path_is_not_above_root_path, get_cwd, store_cwd, enter, set_cwd}
use vs_ftp.Server.Paths.RoundTrip.{IsCanonical, resolve-IsCanonical}

-- A path of a directory, which `realpath` leaves alone.
pub record IsPlace {K : Type 0} (os : Os K) (path : Bytes) : Type 0 where
  pub canonical : (k : K) → IsCanonical ⦃os = os⦄ path k
  pub is_directory : (k : K) → (os.answer (Call.stat path) k).0.kind ≡ directory

pub has_prefix-append : (s t : Bytes) → has_prefix s (s ++ t) ≡ true
has_prefix-append [] t = refl
has_prefix-append (c ∷ s) t = ground (arith, has_prefix-append s t)

-- The data in this working directory.
abbrev pub visiting : Bytes → Server → Server
visiting path d = record d { cwd = path; cwd_len = length path }

module _ {K : Type 0} ⦃os : Os K⦄ (path : Bytes) (place : IsPlace os path)
    (absolute : is_abs_path path ≡ success) (no_nul : NoNul path)
    (fits : length path < path_len_max) where
  get_real_path-IsPlace :
      (cwd : Bytes) (s : Machine K) → (get_real_path cwd path path_len_max s).0 ≡ some path
  unfolding get_real_path is_abs_path
  get_real_path-IsPlace cwd s = at_path path absolute no_nul fits (place.canonical s.kernel)
    where
      at_path :
          (p : Bytes)
          → is_abs_path p ≡ success
          → NoNul p
          → length p < path_len_max
          → IsCanonical p s.kernel
          → (get_real_path cwd p path_len_max s).0 ≡ some p
      at_path [] h n f k = cc
      at_path (c ∷ p) h n f k = rw h (resolve-IsCanonical (c ∷ p) s n f k)

  is_dir-IsPlace : (s : Machine K) → (is_dir path s).0 ≡ success
  unfolding is_dir perform is_abs_path
  is_dir-IsPlace s = at_path path absolute no_nul (place.is_directory s.kernel)
    where
      at_path :
          (p : Bytes)
          → is_abs_path p ≡ success
          → NoNul p
          → (os.answer (Call.stat p) s.kernel).0.kind ≡ directory
          → (is_dir p s).0 ≡ success
      at_path [] h n k = cc
      at_path (c ∷ p) h n k = rw (c_str_self (c ∷ p) n) (rw k refl)

  store_cwd-IsPlace :
      (s : Machine K)
      → abs_path_is_not_above_root_path s.server_data path ≡ success
      → ((store_cwd path s).0 ≡ success)
        × ((store_cwd path s).1.server_data ≡ visiting path s.server_data)
  unfolding store_cwd
  store_cwd-IsPlace s below =
      let short : ltb (length path) path_len_max ≡ true = ground arith in
      let same = strncpy_self path path_len_max no_nul (omega arith) in
      rw below (
        rw short
          (refl, ap (λ (b : Bytes). record s.server_data { cwd = b; cwd_len = length path }) same))

  pub set_cwd-IsPlace :
      (s : Machine K)
      → abs_path_is_not_above_root_path s.server_data path ≡ success
      → ((set_cwd path s).0 ≡ success)
        × ((set_cwd path s).1.server_data ≡ visiting path s.server_data)
  unfolding set_cwd enter
  set_cwd-IsPlace s below =
      let d = s.server_data in
      let (c, t) = get_cwd path_len_max s in
      let cwd : Bytes = elim c [ none ↦ [] | some b ↦ b ] in
      let u = (get_real_path cwd path path_len_max t).1 in
      let v = (is_dir path u).1 in
      let kept = FilesystemKeeps.is_dir-Keeps (data_frame d) path u (
        FilesystemKeeps.get_real_path-Keeps (data_frame d) cwd path path_len_max t
          (ServerKeeps.get_cwd-Keeps (data_frame d) path_len_max s refl)) in
      let stored =
        store_cwd-IsPlace v
          (ap (λ (x : Server). abs_path_is_not_above_root_path x path) kept ∙ below) in
      rw (get_real_path-IsPlace cwd t)
        (rw (is_dir-IsPlace u) (stored.0, stored.1 ∙ ap (visiting path) kept))
