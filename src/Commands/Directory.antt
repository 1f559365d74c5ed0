-- ===== src/Commands/Directory.antt =====
-- What `CommandHandlerNlst` in src/common/vsftp_commands.c does where nothing goes wrong.
use vs_ftp.Common.{
  All-imp, map, Bool, true, some, ltb, length-append, ◌+◌, ◌<◌, ◌≡◌, refl, ◌∙◌, ap, ℕ, ℤ,
  is_invalid, success, false, List, [], ◌∷◌, ◌++◌, arith, length, All, none,
}
use vs_ftp.Libc.{Bytes, c_str, codes, crlf}
use vs_ftp.Libc.Format.{IsPlain, expand}
use vs_ftp.Os.{Call, Answer, Os}
use vs_ftp.Machine.{Server, Machine, did, Event, perform}
use vs_ftp.Filesystem.{path_len_max}
use vs_ftp.Server.Sockets.{
  accept_transfer_client_connection, close_transfer_client_socket, close_transfer_socket,
}
use vs_ftp.Server.Reply.{send_reply}
use vs_ftp.Server.Paths.Relative.{get_cwd-IsPlain}
use vs_ftp.Commands.Handlers.{nlst_dir, nlst_path, nlst_found, nlst_all, nlst_send, command_nlst}
use vs_ftp.Commands.Keeps.Listing.{nlst_loop-Keeps}
use vs_ftp.Commands.Streams.{Streams, FitsLine, Printable}
use vs_ftp.Machine.{◌>>=◌}
use vs_ftp.Filesystem.{slash}
use vs_ftp.Filesystem.Resolved.{NoNul}
use vs_ftp.Server.Sockets.Closing.{data_frame}
use vs_ftp.Commands.Keeps.Listing.{nlst_path-Keeps}
use vs_ftp.Commands.Entries.{lines_then_last, nlst_all-sends}
use vs_ftp.Commands.Connected.{
  Connects, client_frame, send_reply-tells, accept-Connects, closed-Connects,
}
use vs_ftp.Commands.Shown.{plain_entry, entry_path, shown_entry}

-- An environment with a directory whose stream is `d`, where the peer connects on `sock`, and the
-- client, on another socket, takes the replies.
pub record Shows {K : Type 0} (os : Os K) (d : ℕ) (sock client : ℤ)
    (names received : K → List Bytes) : Type 0 where
  pub streams : Streams os d sock names received
  pub connects : Connects {V = List Bytes × List Bytes} os sock client (λ k. (names k, received k))

module _ {K : Type 0} ⦃os : Os K⦄ {d : ℕ} {sock client : ℤ} {names received : K → List Bytes}
    (shows : Shows os d sock client names received) where
  -- A listing of `path`, whose entries the client sees as `shown`.
  module _ (prepend_dir : Bool) (path root : Bytes) (shown : Bytes → Bytes) where
    -- Listing keeps the client.
    nlst_all-client :
        (s : Machine K)
        → s.server_data.client_sock ≡ client
        → (nlst_all path prepend_dir s).1.server_data.client_sock ≡ client
    unfolding nlst_all perform
    nlst_all-client s there =
        nlst_loop-Keeps (client_frame client) (os.entries (c_str path) s.kernel + 2) path
          prepend_dir [] none (λ s h. h) (omega arith) s there

    abbrev Prints : Bytes → Type 0
    Prints n = Printable os prepend_dir path root n (shown n)

    -- The part of the handler that lists the directory.
    nlst_send-Shows :
        (n : Bytes) (ns : List Bytes) (s : Machine K)
        → is_invalid s.server_data.transfer_sock ≡ false
        → s.server_data.client_sock ≡ client
        → s.server_data.root_path ≡ root
        → 0 < length path
        → names s.kernel ≡ n ∷ ns
        → All Prints (n ∷ ns)
        → let (r, t) = nlst_send path prepend_dir s in
          (r ≡ success)
          × (received t.kernel
              ≡ received s.kernel ++ (shown n ++ crlf) ∷ lines_then_last (shown n) (map shown ns))
          × (t.server_data.client_sock ≡ client)
    unfolding nlst_send expand
    nlst_send-Shows n ns s listens there rooted set left prints =
        let here = codes "150 Here comes the directory listing." in
        let t = (accept_transfer_client_connection s).1 in
        let u = (send_reply here [] t).1 in
        let a = accept-Connects shows.connects s listens in
        let m =
          send_reply-tells shows.connects here [] here t
            (ap (λ (d : Server). d.client_sock) a.2 ∙ there) refl (omega arith) in
        let written = m.0.1.1 ∙ a.2 in
        let seen = m.0.1.0 ∙ a.1 in
        let lines = (shown n ++ crlf) ∷ lines_then_last (shown n) (map shown ns) in
        let sent =
          nlst_all-sends shows.streams prepend_dir path root shown n ns u
            (
              ap (λ (d : Server). d.transfer_client_sock) written,
              ap (λ (d : Server). d.root_path) written ∙ rooted,
            )
            set (ap (λ v. v.0) seen ∙ left) prints in
        let kept = nlst_all-client u (ap (λ (d : Server). d.client_sock) written ∙ there) in
        rw a.0 (
          rw m.0.0
            (sent.0, sent.1 ∙ ap (λ (b : List Bytes). b ++ lines) (ap (λ v. v.1) seen), kept))

    -- The whole handler, once it is known which directory it lists.
    command_nlst-Shows :
        (args n : Bytes) (ns : List Bytes) (s t : Machine K)
        → (nlst_path args >>= nlst_found args) s ≡ nlst_send path prepend_dir t
        → is_invalid t.server_data.transfer_sock ≡ false
        → t.server_data.client_sock ≡ client
        → t.server_data.root_path ≡ root
        → 0 < length path
        → names t.kernel ≡ n ∷ ns
        → All Prints (n ∷ ns)
        → let (r, u) = command_nlst args s in
          (r ≡ success)
          × (received u.kernel
              ≡ received t.kernel ++ (shown n ++ crlf) ∷ lines_then_last (shown n) (map shown ns))
          × (a : Answer) × (before : List Event) × (u.log
              ≡ did (Call.write client (codes "226 Directory send OK." ++ crlf)) a ∷ before)
    unfolding command_nlst expand
    command_nlst-Shows args n ns s t comes_to listens there rooted set left prints =
        let sent = nlst_send-Shows n ns t listens there rooted set left prints in
        let u = (nlst_send path prepend_dir t).1 in
        let w = (close_transfer_socket (close_transfer_client_socket u).1).1 in
        let closes = closed-Connects shows.connects u in
        let ok = codes "226 Directory send OK." in
        let told =
          send_reply-tells shows.connects ok [] ok w (closes.1 ∙ sent.2) refl (omega arith) in
        let seen = told.0.1.0 ∙ closes.0 in
        rw comes_to (rw sent.0 (told.0.0, ap (λ v. v.1) seen ∙ sent.1, told.1.0, w.log, told.1.1))

  -- Without an argument it is the working directory.
  nlst_result :
      (s : Machine K)
      → 0 < length s.server_data.cwd
      → length s.server_data.cwd < path_len_max
      → s.server_data.cwd_len ≡ length s.server_data.cwd
      → IsPlain s.server_data.cwd
      → (nlst_path [] >>= nlst_found []) s ≡ nlst_send s.server_data.cwd false s
  unfolding nlst_path nlst_dir nlst_found
  nlst_result s set fits size plain = rw (get_cwd-IsPlain s set fits size plain) refl

  -- NLST delivers: without an argument, where PASV has been given, the working directory has its
  -- length, fits its buffer, is not empty and has no `%`, and has entries, each of them short enough
  -- for a line and none empty, in an environment where nothing goes wrong, the peer gets a line for
  -- each entry in order and then the line of the last entry once more, and the client is told of the
  -- success in the last line that is written.
  pub command_nlst-delivers :
      (n : Bytes) (ns : List Bytes) (s : Machine K)
      → is_invalid s.server_data.transfer_sock ≡ false
      → s.server_data.client_sock ≡ client
      → 0 < length s.server_data.cwd
      → length s.server_data.cwd < path_len_max
      → s.server_data.cwd_len ≡ length s.server_data.cwd
      → IsPlain s.server_data.cwd
      → names s.kernel ≡ n ∷ ns
      → All (λ m. FitsLine (c_str m)) (n ∷ ns)
      → let (r, u) = command_nlst [] s in
        (r ≡ success)
        × (received u.kernel
            ≡ received s.kernel ++ (c_str n ++ crlf) ∷ lines_then_last (c_str n) (map c_str ns))
        × (a : Answer) × (before : List Event) × (u.log
            ≡ did (Call.write client (codes "226 Directory send OK." ++ crlf)) a ∷ before)
  command_nlst-delivers n ns s listens there set fits size plain left lines_fit =
      let cwd = s.server_data.cwd in
      let root = s.server_data.root_path in
      command_nlst-Shows false cwd root c_str [] n ns s s (nlst_result s set fits size plain)
        listens there refl set left (All-imp (plain_entry cwd root) (n ∷ ns) lines_fit)

  -- With an argument it is the directory that the argument names.
  nlst_found_result :
      (args path : Bytes) (s : Machine K)
      → 0 < length args
      → (nlst_path args s).0 ≡ some path
      → (nlst_path args >>= nlst_found args) s ≡ nlst_send path true (nlst_path args s).1
  unfolding nlst_found
  nlst_found_result args path s given found =
      let prepends : ltb 0 (length args) ≡ true = ground arith in rw found (rw prepends refl)

  -- NLST lists what the client asks for: with an argument that has been found as a directory behind
  -- the root path, without NUL, where PASV has been given and the directory has entries, each of them
  -- short enough for a line behind the directory, in an environment where nothing goes wrong, the
  -- peer gets a line for each entry in order, with the path of the directory that the client sees in
  -- front, and then the last line once more, and the client is told of the success in the last line
  -- that is written.
  pub command_nlst-lists :
      (args sub n : Bytes) (ns : List Bytes) (s : Machine K)
      → let (o, t) = nlst_path args s in
        let root = s.server_data.root_path in
        0 < length args
        → o ≡ some (root ++ slash ∷ sub)
        → NoNul (root ++ slash ∷ sub)
        → is_invalid s.server_data.transfer_sock ≡ false
        → s.server_data.client_sock ≡ client
        → names t.kernel ≡ n ∷ ns
        → All (λ m. length root + length (entry_path sub m) + 2 < path_len_max) (n ∷ ns)
        → let (r, u) = command_nlst args s in
          (r ≡ success)
          × (received u.kernel
              ≡ received t.kernel
                ++ (entry_path sub n ++ crlf)
                  ∷ lines_then_last (entry_path sub n) (map (entry_path sub) ns))
          × (a : Answer) × (before : List Event) × (u.log
              ≡ did (Call.write client (codes "226 Directory send OK." ++ crlf)) a ∷ before)
  command_nlst-lists args sub n ns s given found no_nul listens there left fits =
      let root = s.server_data.root_path in
      let path = root ++ slash ∷ sub in
      let t = (nlst_path args s).1 in
      let same : t.server_data ≡ s.server_data =
        nlst_path-Keeps (data_frame s.server_data) args s refl in
      command_nlst-Shows true path root (entry_path sub) args n ns s t
        (nlst_found_result args path s given found)
        (ap (λ (d : Server). is_invalid d.transfer_sock) same ∙ listens)
        (ap (λ (d : Server). d.client_sock) same ∙ there) (ap (λ (d : Server). d.root_path) same)
        (omega (arith, length-append root (slash ∷ sub))) left
        (All-imp (λ m h. shown_entry root sub m no_nul h) (n ∷ ns) fits)
