-- ===== src/Commands/Visit.antt =====
-- A client that changes its directory and asks for it, in src/common/vsftp_commands.c.
use vs_ftp.Common.{
  ◌<◌, ◌≡◌, ◌≢◌, refl, sym, subst, ap, ◌∙◌, success, false, some, [], ◌∷◌, ◌++◌, arith, length,
  length-append, ◌==◌,
}
use vs_ftp.Libc.{Bytes, codes, crlf}
use vs_ftp.Libc.Format.{IsPlain, expand}
use vs_ftp.Os.{Call, Os}
use vs_ftp.Machine.{Server, Machine, perform}
use vs_ftp.Filesystem.{path_len_max, slash, is_abs_path}
use vs_ftp.Filesystem.Resolved.{NoNul}
use vs_ftp.Server.Keeps as ServerKeeps
use vs_ftp.Server.Sockets.Closing.{data_frame}
use vs_ftp.Server.Paths.{abs_path_is_not_above_root_path, server_path_to_real_path}
use vs_ftp.Server.Paths.Prefix.{not_above_iff_prefix}
use vs_ftp.Server.Paths.RoundTrip.{NoNul-behind, below_root-IsCanonical}
use vs_ftp.Commands.Handlers.{set_cwd_found, cwd_change, command_cwd, command_pwd}
use vs_ftp.Commands.Tells.{command_pwd-tells}
use vs_ftp.Server.Paths.Places.{IsPlace, has_prefix-append, visiting, set_cwd-IsPlace}

module _ {K : Type 0} ⦃os : Os K⦄ (sub : Bytes) (s : Machine K) where
  abbrev target : Bytes
  target = s.server_data.root_path ++ slash ∷ sub

  module _ (place : IsPlace os target) (absolute : is_abs_path target ≡ success)
      (no_nul : NoNul target) (fits : length target < path_len_max) where
    target_found : (server_path_to_real_path (slash ∷ sub) s).0 ≡ some target
    unfolding server_path_to_real_path is_abs_path
    target_found =
        let behind : NoNul (slash ∷ sub) =
          NoNul-behind s.server_data.root_path (slash ∷ sub) no_nul in
        let given : (length (slash ∷ sub) == 0) ≡ false = ground arith in
        rw given (
          below_root-IsCanonical (slash ∷ sub) s absolute no_nul fits behind
            (place.canonical s.kernel))

    cwd_change-visits :
        s.server_data.root_path_len ≡ length s.server_data.root_path
        → let (r, t) = cwd_change (slash ∷ sub) s in
          (r ≡ success) × (t.server_data ≡ visiting target s.server_data)
    unfolding cwd_change set_cwd_found
    cwd_change-visits size =
        let d = s.server_data in
        let t = (server_path_to_real_path (slash ∷ sub) s).1 in
        let kept = ServerKeeps.server_path_to_real_path-Keeps (data_frame d) (slash ∷ sub) s refl in
        let some_path : target ≢ [] =
          λ e. absurd (omega (arith, ap length e, length-append d.root_path (slash ∷ sub))) in
        let below : abs_path_is_not_above_root_path t.server_data target ≡ success =
          ap (λ (x : Server). abs_path_is_not_above_root_path x target) kept
          ∙ (not_above_iff_prefix d target size).1
              (some_path, has_prefix-append d.root_path (slash ∷ sub)) in
        let entered = set_cwd-IsPlace target place absolute no_nul fits t below in
        let given : (length (slash ∷ sub) == 0) ≡ false = ground arith in
        rw given (rw target_found (entered.0, entered.1 ∙ ap (visiting target) kept))

    command_cwd-visits :
        s.server_data.root_path_len ≡ length s.server_data.root_path
        → (command_cwd (slash ∷ sub) s).1.server_data ≡ visiting target s.server_data
    unfolding command_cwd expand
    command_cwd-visits size =
        let t = (cwd_change (slash ∷ sub) s).1 in
        let changed = cwd_change-visits size in
        rw changed.0 (
          ServerKeeps.send_reply-Keeps (data_frame (visiting target s.server_data))
            (codes "250 Directory successfully changed.") [] (_, refl) t changed.1)

    -- PWD tells the directory that CWD went to: where a path of the client that begins with a slash
    -- is, behind the root path, an absolute path of a directory that `realpath` leaves alone, that
    -- fits its buffer and has neither a NUL nor a `%`, and the root path has its length, CWD with it
    -- makes that the working directory and changes nothing else of the data, and PWD then does
    -- nothing but to send the client its own path back.
    pub command_cwd-shown :
        s.server_data.root_path_len ≡ length s.server_data.root_path
        → IsPlain target
        → (args : Bytes)
        → let t = (command_cwd (slash ∷ sub) s).1 in
          (t.server_data ≡ visiting target s.server_data)
          × ((command_pwd args t).1
              ≡ (perform
                  (Call.write t.server_data.client_sock
                    (codes "257 \"" ++ (slash ∷ sub) ++ codes "\"" ++ crlf))
                  t).1)
    command_cwd-shown size plain args =
        let t = (command_cwd (slash ∷ sub) s).1 in
        let visits = command_cwd-visits size in
        let cwd : t.server_data.cwd ≡ target = ap (λ (d : Server). d.cwd) visits in
        (
          visits,
          command_pwd-tells args sub t
              (cwd ∙ ap (λ (d : Server). d.root_path ++ slash ∷ sub) (sym visits))
              (ap (λ (d : Server). d.cwd_len) visits ∙ ap length (sym cwd))
              (subst (λ (b : Bytes). length b < path_len_max) (sym cwd) fits)
              (subst NoNul (sym cwd) no_nul) (subst IsPlain (sym cwd) plain),
        )
