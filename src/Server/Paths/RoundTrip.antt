-- ===== src/Server/Paths/RoundTrip.antt =====
-- The two conversions of src/common/vsftp_server.c between the paths of a client and the system's.
use vs_ftp.Common.{
  ◌<◌, ◌≡◌, ◌∙◌, ap, refl, success, is_invalid, false, true, some, [], ◌∷◌, ◌++◌, arith, length,
  length-append, take_all, ltb, ◌==◌, is_invalid,
}
use vs_ftp.Libc.{Bytes}
use vs_ftp.Os.{Call, Os}
use vs_ftp.Machine.{Machine, perform}
use vs_ftp.Filesystem.{path_len_max, slash, is_abs_path, resolve, get_real_path}
use vs_ftp.Filesystem.Resolved.{NoNul, c_str_self, strncpy_self}
use vs_ftp.Server.Paths.{real_path_to_server_path, below_root, server_path_to_real_path}
use vs_ftp.Server.Paths.Views.{real_path_to_server_path-behind}

pub NoNul-behind : (root rest : Bytes) → NoNul (root ++ rest) → NoNul rest
NoNul-behind [] rest h = h
NoNul-behind (c ∷ root) rest h = NoNul-behind root rest h.1

module _ {K : Type 0} ⦃os : Os K⦄ where
  -- `realpath` gives the path back.
  abbrev pub IsCanonical : Bytes → K → Type 0
  IsCanonical path k =
      let a = (os.answer (Call.realpath path) k).0 in (is_invalid a.ret ≡ false) × (a.bytes ≡ path)

  pub resolve-IsCanonical :
      (path : Bytes) (s : Machine K)
      → NoNul path
      → length path < path_len_max
      → IsCanonical path s.kernel
      → (resolve path path_len_max s).0 ≡ some path
  unfolding resolve perform
  resolve-IsCanonical path s no_nul fits canonical =
      let same = strncpy_self path path_len_max no_nul (omega arith) in
      let short : ltb (length path) path_len_max ≡ true = ground arith in
      rw (c_str_self path no_nul) (rw canonical.0 (rw canonical.1 (rw same (rw short refl))))

  get_real_path-IsCanonical :
      (path : Bytes) (s : Machine K)
      → is_abs_path path ≡ success
      → NoNul path
      → length path < path_len_max
      → IsCanonical path s.kernel
      → (get_real_path [] path path_len_max s).0 ≡ some path
  unfolding get_real_path is_abs_path
  get_real_path-IsCanonical [] s absolute no_nul fits canonical = cc
  get_real_path-IsCanonical (c ∷ path) s absolute no_nul fits canonical =
      ground (arith, absolute, resolve-IsCanonical (c ∷ path) s no_nul fits canonical)

  pub below_root-IsCanonical :
      (rest : Bytes) (s : Machine K)
      → let path = s.server_data.root_path ++ rest in
        is_abs_path path ≡ success
        → NoNul path
        → length path < path_len_max
        → NoNul rest
        → IsCanonical path s.kernel
        → (below_root rest s).0 ≡ some path
  unfolding below_root
  below_root-IsCanonical rest s absolute no_nul fits behind canonical =
      let path = s.server_data.root_path ++ rest in
      let short : ltb (length path) path_len_max ≡ true = ground arith in
      rw (c_str_self rest behind) (
        rw (take_all path_len_max path (omega arith))
          (rw short (get_real_path-IsCanonical path s absolute no_nul fits canonical)))

  -- The two conversions are inverse to each other: a path that goes on behind the root path with a
  -- slash, is absolute, fits its buffer, and is left alone by `realpath`, is shown to the client as a
  -- path, and that path, given back by the client, leads to it.
  pub server_path_to_real_path-shown :
      (rest : Bytes) (s : Machine K)
      → let path = s.server_data.root_path ++ slash ∷ rest in
        is_abs_path path ≡ success
        → NoNul path
        → length path < path_len_max
        → IsCanonical path s.kernel
        → (shown : Bytes) × (real_path_to_server_path s.server_data path (length path) ≡ some shown)
          × ((server_path_to_real_path shown s).0 ≡ some path)
  unfolding server_path_to_real_path is_abs_path
  server_path_to_real_path-shown rest s absolute no_nul fits canonical =
      let root = s.server_data.root_path in
      let path = root ++ slash ∷ rest in
      let behind : NoNul (slash ∷ rest) = NoNul-behind root (slash ∷ rest) no_nul in
      let size = length-append root (slash ∷ rest) in
      let given : (length (slash ∷ rest) == 0) ≡ false = ground arith in
      let shows =
        (real_path_to_server_path-behind s.server_data slash rest (length path) (omega arith)
          (omega (arith, size))) in
      (
        slash ∷ rest,
        shows ∙ ap some (strncpy_self (slash ∷ rest) path_len_max behind (omega (arith, size))),
        rw given (below_root-IsCanonical (slash ∷ rest) s absolute no_nul fits behind canonical),
      )
