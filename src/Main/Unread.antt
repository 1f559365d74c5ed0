-- ===== src/Main/Unread.antt =====
-- What the loop of `main` in src/linux/main.c does when the server reads nothing of a client.
use vs_ftp.Common.{◌≡◌, ◌≢◌, ◌⊎◌, refl, is_invalid, failure, true, Bool, some, List, ◌∷◌}
use vs_ftp.Os.{Call, Os}
use vs_ftp.Machine.{Machine}
use vs_ftp.Server.Sockets.Closing.{stopped}
use vs_ftp.Loop.{request_len_max, handler}
use vs_ftp.Loop.Errors.{handler-failed_read}
use vs_ftp.Loop.Fragments.{blocked_or_stopped}
use vs_ftp.Main.{serve, handler_failed}
use vs_ftp.Main.Exit.{IsClosed, serve-IsClosed}

module _ {K : Type 0} ⦃os : Os K⦄ where
  pub serve-failed_read :
      (quit : Bool) (later : List Bool) (s : Machine K)
      → s.server_data.is_server_socket_created ≡ true
      → s.server_data.is_connected ≡ true
      → let a = (os.answer (Call.read s.server_data.client_sock request_len_max) s.kernel).0 in
        is_invalid a.ret ≡ true
        → let (r, t) = serve (quit ∷ later) s in
          let d = (handler s).1.server_data in
          (r ≡ some failure)
          × IsClosed t.server_data
          × (((a.errno ≡ 11) × (d ≡ s.server_data))
              ⊎ ((a.errno ≢ 11) × (d ≡ stopped s.server_data)))
  unfolding serve handler_failed
  serve-failed_read quit later s there connected failed =
      let a = (os.answer (Call.read s.server_data.client_sock request_len_max) s.kernel).0 in
      let h = handler-failed_read s there connected failed in
      let ended : (serve (quit ∷ later) s).0 ≡ some failure = rw (h.0) refl in
      (
        ended,
        (serve-IsClosed (quit ∷ later) s failure ended).0,
        blocked_or_stopped a.errno s.server_data (handler s).1.server_data h.1,
      )
