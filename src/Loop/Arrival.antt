-- ===== src/Loop/Arrival.antt =====
-- What `WaitForIncomingConnection` in src/common/vsftp_server.c does for a new client.
use vs_ftp.Common.{
  ◌<◌, ◌≡◌, ◌≢◌, refl, ap, ◌∙◌, ℤ, success, is_nonneg, is_invalid, true, false, List, [], ◌∷◌, ◌++◌,
  arith, length, has_prefix, append-nil, subst,
}
use vs_ftp.Libc.{Bytes, codes, crlf}
use vs_ftp.Libc.Format.{expand}
use vs_ftp.Os.{Call, Answer, Os}
use vs_ftp.Machine.{Server, Machine, Event, did, perform}
use vs_ftp.Filesystem.{path_len_max, is_abs_path}
use vs_ftp.Filesystem.Resolved.{NoNul}
use vs_ftp.Server.Paths.{abs_path_is_not_above_root_path, set_cwd}
use vs_ftp.Server.Paths.Prefix.{not_above_iff_prefix}
use vs_ftp.Server.Paths.Places.{IsPlace, has_prefix-append, visiting, set_cwd-IsPlace}
use vs_ftp.Server.Reply.{send_reply}
use vs_ftp.Server.Reply.Writes.{send_reply-success}
use vs_ftp.Loop.{welcome, wait_for_incoming_connection}

-- The data with a new client on the socket.
abbrev pub arrived : ℤ → Server → Server
arrived client d = record (visiting d.root_path d) { client_sock = client; is_connected = true }

root_not_above :
    (d : Server)
    → d.root_path_len ≡ length d.root_path
    → is_abs_path d.root_path ≡ success
    → abs_path_is_not_above_root_path d d.root_path ≡ success
unfolding is_abs_path
root_not_above d size absolute = (not_above_iff_prefix d d.root_path size).1 (
  given d.root_path absolute,
  subst (λ (b : Bytes). has_prefix d.root_path b ≡ true) (append-nil d.root_path)
      (has_prefix-append d.root_path []),
)
  where
    given : (b : Bytes) → is_abs_path b ≡ success → b ≢ []
    given [] h = cc
    given (c ∷ b) h = λ e. cc

module _ {K : Type 0} ⦃os : Os K⦄ where
  -- What a reply leaves: the data, and its line at the end of the log.
  abbrev Greeted : ℤ → Server → ℤ × Machine K → Type 0
  Greeted client d (r, t) =
      (r ≡ success)
      × (t.server_data ≡ d)
      × (a : Answer) × (before : List Event) × (t.log
          ≡ did (Call.write client (codes "220 Service ready for new user." ++ crlf)) a ∷ before)

  welcome-fresh :
      (client : ℤ) (s : Machine K)
      → let d = s.server_data in
        d.client_sock ≡ client
        → IsPlace os d.root_path
        → is_abs_path d.root_path ≡ success
        → NoNul d.root_path
        → length d.root_path < path_len_max
        → d.root_path_len ≡ length d.root_path
        → ((b : Bytes) (k : K) → is_invalid (os.answer (Call.write client b) k).0.ret ≡ false)
        → Greeted client (arrived client d) (welcome s)
  unfolding welcome expand
  welcome-fresh client s there place absolute no_nul fits size told =
      let d = s.server_data in
      let text = codes "220 Service ready for new user." in
      let t = (set_cwd d.root_path s).1 in
      let u = (send_reply text [] t).1 in
      let entered =
        set_cwd-IsPlace d.root_path place absolute no_nul fits s (root_not_above d size absolute) in
      let still : t.server_data.client_sock ≡ client =
        ap (λ (x : Server). x.client_sock) entered.1 ∙ there in
      let sent = send_reply-success client text [] text t still refl (omega arith) (told _ _) in
      let root = visiting d.root_path d in
      let data_after : (welcome s).1.server_data ≡ arrived client d = rw entered.0 (
        rw sent.0 (
          ap (λ (x : Server). record x { is_connected = true }) (sent.1 ∙ entered.1)
          ∙ ap (λ c. record root { client_sock = c; is_connected = true }) there)) in
      (rw entered.0 (rw sent.0 refl), data_after, sent.2, t.log, rw entered.0 (rw sent.0 sent.3))

  -- A new client starts afresh: where `accept` gives a socket and the client takes the replies, the
  -- root path is an absolute path of a directory that `realpath` leaves alone, has its length, fits
  -- its buffer and has no NUL, the call succeeds, the client is connected on that socket and in the
  -- root directory, whatever the directory of the client before it was, no other member of the data
  -- changes, and the last line that is written greets it.
  pub wait_for_incoming_connection-fresh :
      (s : Machine K)
      → let d = s.server_data in
        let client = (os.answer (Call.accept d.server_sock) s.kernel).0.ret in
        is_nonneg client ≡ true
        → IsPlace os d.root_path
        → is_abs_path d.root_path ≡ success
        → NoNul d.root_path
        → length d.root_path < path_len_max
        → d.root_path_len ≡ length d.root_path
        → ((b : Bytes) (k : K) → is_invalid (os.answer (Call.write client b) k).0.ret ≡ false)
        → let (r, t) = wait_for_incoming_connection s in
          (r ≡ success)
          × (t.server_data ≡ arrived client d)
          × (a : Answer) × (before : List Event) × (t.log
              ≡ did (Call.write client (codes "220 Service ready for new user." ++ crlf)) a
                ∷ before)
  unfolding wait_for_incoming_connection perform
  wait_for_incoming_connection-fresh s valid place absolute no_nul fits size told =
      let (a, t) = perform (Call.accept s.server_data.server_sock) s in
      let u = record t { server_data = record t.server_data { client_sock = a.ret } } in
      rw valid (welcome-fresh a.ret u refl place absolute no_nul fits size told)
