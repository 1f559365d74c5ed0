-- ===== src/Server/Paths/Relative.antt =====
-- Relative paths of a client in src/common/vsftp_server.c.
use mathlib.Core.List.{append_assoc}
use vs_ftp.Common.{
  ◌+◌, ◌<◌, ◌≡◌, refl, sym, ◌∙◌, ap, subst, success, failure, some, true, false, [], ◌∷◌, ◌++◌,
  arith, length, length-append, take_all, ltb, ◌==◌, ◌&&◌,
}
use vs_ftp.Libc.{Bytes}
use vs_ftp.Libc.Format.{IsPlain, num, expand-IsPlain, size_t}
use vs_ftp.Os.{Os}
use vs_ftp.Machine.{Machine}
use vs_ftp.Filesystem.{
  path_len_max, slash, is_abs_path, concat_cwd_and_path, resolve, get_real_path,
}
use vs_ftp.Filesystem.Resolved.{NoNul, c_str_self}
use vs_ftp.Server.Paths.RoundTrip.{NoNul-behind}
use vs_ftp.Server.Paths.{get_cwd, below_root, real_path_from, server_path_to_real_path}

pub NoNul-append : (s t : Bytes) → NoNul s → NoNul t → NoNul (s ++ t)
NoNul-append [] t h k = k
NoNul-append (c ∷ s) t h k = (h.0, NoNul-append s t h.1 k)

is_abs_path-append : (s t : Bytes) → is_abs_path s ≡ success → is_abs_path (s ++ t) ≡ success
unfolding is_abs_path
is_abs_path-append [] t h = cc
is_abs_path-append (c ∷ s) t h = h

concat_cwd_and_path-NoNul :
    (cwd path : Bytes)
    → NoNul cwd
    → NoNul path
    → length cwd + length path + 1 < path_len_max
    → concat_cwd_and_path cwd path path_len_max ≡ some (cwd ++ slash ∷ path)
unfolding concat_cwd_and_path
concat_cwd_and_path-NoNul cwd path h k fits =
    let sum = length-append cwd (slash ∷ path) in
    let first : ltb (length cwd + length path) path_len_max ≡ true = ground arith in
    let second : ltb (length (cwd ++ slash ∷ path)) path_len_max ≡ true = ground (arith, sum) in
    rw first (rw (c_str_self cwd h) (rw (c_str_self path k) (rw second refl)))

module _ {K : Type 0} ⦃os : Os K⦄ where
  -- An absolute path is resolved as it is, and a relative one behind the working directory.
  get_real_path-absolute :
      (path : Bytes) (s : Machine K)
      → is_abs_path path ≡ success
      → get_real_path [] path path_len_max s ≡ resolve path path_len_max s
  unfolding get_real_path is_abs_path
  get_real_path-absolute [] s absolute = cc
  get_real_path-absolute (c ∷ path) s absolute = rw absolute refl

  get_real_path-relative :
      (cwd path : Bytes) (s : Machine K)
      → 0 < length cwd
      → 0 < length path
      → is_abs_path path ≡ failure
      → NoNul cwd
      → NoNul path
      → length cwd + length path + 1 < path_len_max
      → get_real_path cwd path path_len_max s ≡ resolve (cwd ++ slash ∷ path) path_len_max s
  unfolding get_real_path
  get_real_path-relative cwd [] s set given relative plain_cwd plain fits = absurd (omega arith)
  get_real_path-relative cwd (c ∷ path) s set given relative cwd_no_nul no_nul fits =
      let set_cwd : (length cwd == 0) ≡ false = ground arith in
      rw relative (
        rw set_cwd
          (rw (concat_cwd_and_path-NoNul cwd (c ∷ path) cwd_no_nul no_nul (omega arith)) refl))

  -- The working directory, as it is, if it can be printed.
  pub get_cwd-IsPlain :
      (s : Machine K)
      → 0 < length s.server_data.cwd
      → length s.server_data.cwd < path_len_max
      → s.server_data.cwd_len ≡ length s.server_data.cwd
      → IsPlain s.server_data.cwd
      → get_cwd path_len_max s ≡ (some s.server_data.cwd, s)
  unfolding get_cwd
  get_cwd-IsPlain s set fits size plain =
      let n = s.server_data.cwd_len in
      let given : (ltb 0 n && ltb n path_len_max) ≡ true = ground (arith, size) in
      let short : ltb (length s.server_data.cwd) path_len_max ≡ true = ground arith in
      rw given (rw (expand-IsPlain s.server_data.cwd (num size_t n ∷ []) plain) (rw short refl))

  from_cwd :
      (path : Bytes) (s : Machine K)
      → s.server_data.cwd_len ≡ length s.server_data.cwd
      → NoNul s.server_data.cwd
      → IsPlain s.server_data.cwd
      → NoNul path
      → 0 < length path
      → 0 < length s.server_data.cwd
      → is_abs_path path ≡ failure
      → length s.server_data.cwd + length path + 1 < path_len_max
      → server_path_to_real_path path s ≡ resolve (s.server_data.cwd ++ slash ∷ path) path_len_max s
  unfolding server_path_to_real_path real_path_from
  from_cwd path s size no_nul plain path_no_nul given set relative fits =
      let some_path : (length path == 0) ≡ false = ground arith in
      rw some_path (
        rw relative (
          rw (get_cwd-IsPlain s set (omega arith) size plain) (
            get_real_path-relative s.server_data.cwd path s set given relative no_nul path_no_nul
              fits)))

  from_root :
      (rest whole : Bytes) (s : Machine K)
      → s.server_data.root_path ++ slash ∷ rest ≡ whole
      → NoNul (slash ∷ rest)
      → is_abs_path whole ≡ success
      → length whole < path_len_max
      → server_path_to_real_path (slash ∷ rest) s ≡ resolve whole path_len_max s
  unfolding server_path_to_real_path below_root is_abs_path
  from_root rest whole s is no_nul absolute fits =
      let some_path : (length (slash ∷ rest) == 0) ≡ false = ground arith in
      let short : ltb (length whole) path_len_max ≡ true = ground arith in
      rw some_path (
        rw (c_str_self (slash ∷ rest) no_nul) (
          rw is (
            rw (take_all path_len_max whole (omega arith))
              (rw short (get_real_path-absolute whole s absolute)))))

  -- A relative path means the same as the absolute path that goes from the root path through the
  -- working directory: `VSFTPServerServerPathToRealPath` makes the same system calls for both and
  -- gives the same path, where the working directory goes on behind the root path with a slash, is
  -- absolute, has its length, and neither a NUL nor a `%`, and the two paths together fit the buffer.
  pub server_path_to_real_path-relative :
      (sub path : Bytes) (s : Machine K)
      → s.server_data.cwd ≡ s.server_data.root_path ++ slash ∷ sub
      → s.server_data.cwd_len ≡ length s.server_data.cwd
      → is_abs_path s.server_data.cwd ≡ success
      → NoNul s.server_data.cwd
      → IsPlain s.server_data.cwd
      → NoNul path
      → 0 < length path
      → is_abs_path path ≡ failure
      → length s.server_data.cwd + length path + 1 < path_len_max
      → server_path_to_real_path path s ≡ server_path_to_real_path ((slash ∷ sub) ++ slash ∷ path) s
  server_path_to_real_path-relative sub path s at size absolute no_nul plain path_no_nul given
        relative fits =
      let root = s.server_data.root_path in
      let cwd = s.server_data.cwd in
      let sum = length-append cwd (slash ∷ path) in
      let set : 0 < length cwd = omega (arith, ap length at, length-append root (slash ∷ sub)) in
      let whole : root ++ ((slash ∷ sub) ++ slash ∷ path) ≡ cwd ++ slash ∷ path =
        sym (append_assoc root (slash ∷ sub) (slash ∷ path))
        ∙ ap (λ (b : Bytes). b ++ slash ∷ path) (sym at) in
      let behind : NoNul (slash ∷ sub) = NoNul-behind root (slash ∷ sub) (subst NoNul at no_nul) in
      let both : NoNul ((slash ∷ sub) ++ slash ∷ path) =
        NoNul-append (slash ∷ sub) (slash ∷ path) behind (omega arith, path_no_nul) in
      from_cwd path s size no_nul plain path_no_nul given set relative fits
      ∙ sym (
          from_root (sub ++ slash ∷ path) (cwd ++ slash ∷ path) s whole both
            (is_abs_path-append cwd (slash ∷ path) absolute) (omega (arith, sum)))
