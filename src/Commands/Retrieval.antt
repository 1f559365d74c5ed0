-- ===== src/Commands/Retrieval.antt =====
-- What `CommandHandlerRetr` in src/common/vsftp_commands.c does where nothing goes wrong.
use vs_ftp.Common.{
  ◌<◌, ◌^◌, ◌≡◌, refl, ◌∙◌, sym, ap, subst, ℕ, ℤ, is_invalid, Bool, success, true, false, List, [],
  ◌∷◌, ◌++◌, arith, length, if◌then◌else◌,
}
use vs_ftp.Libc.{Bytes, c_str, codes, crlf}
use vs_ftp.Libc.Format.{str, expand}
use vs_ftp.Os.{Call, Answer, Os}
use vs_ftp.Machine.{Server, Machine, M, did, Event}
use vs_ftp.Server.Keeps as ServerKeeps
use vs_ftp.Server.Sockets.{
  accept_transfer_client_connection, close_transfer_client_socket, close_transfer_socket,
}
use vs_ftp.Server.Reply.{send_reply}
use vs_ftp.Server.Transfer.{get_transfer_mode, send_file_transfer}
use vs_ftp.Server.Transfer.WholeFile.{Offers, send_file_transfer-delivers}
use vs_ftp.Commands.Handlers.{Located, locate, retr_mode, retr_transfer, command_retr}
use vs_ftp.Commands.Keeps.{locate-Keeps}
use vs_ftp.Server.Sockets.Closing.{data_frame}
use vs_ftp.Commands.Connected.{
  Connects, Fine, client_frame, send_reply-tells, accept-Connects, closed-Connects,
}

-- An environment with a file at `path` where the peer connects on `sock`, and the client, on another
-- socket, takes the replies.
pub record Meets {K : Type 0} (os : Os K) (path : Bytes) (fd sock client : ℤ)
    (content received : K → Bytes) : Type 0 where
  pub offers : Offers os path fd sock content received
  pub connects : Connects {V = Bytes × Bytes} os sock client (λ k. (content k, received k))

module _ {K V : Type 0} ⦃os : Os K⦄ {sock client : ℤ} {view : K → V}
    (connects : Connects os sock client view) where
  either-Fine :
      (b : Bool) (m k : M K ℤ) (s : Machine K)
      → Fine connects s (m s)
      → Fine connects s (k s)
      → Fine connects s ((if b then m else k) s)
  either-Fine true m k s hm hk = hm
  either-Fine false m k s hm hk = hk

  retr_mode-Fine :
      (args : Bytes) (s : Machine K)
      → s.server_data.client_sock ≡ client
      → length args < 200
      → Fine connects s (retr_mode args s)
  unfolding retr_mode get_transfer_mode expand
  retr_mode-Fine args s there short =
      let binary =
        send_reply-tells connects (codes "150 BINARY mode data connection for %s.") (str args ∷ [])
          _ s there refl (omega arith) in
      let ascii =
        send_reply-tells connects (codes "150 ASCII mode data connection for %s.") (str args ∷ []) _
          s there refl (omega arith) in
      either-Fine s.server_data.transfer_mode_binary
        (send_reply (codes "150 BINARY mode data connection for %s.") (str args ∷ []))
        (send_reply (codes "150 ASCII mode data connection for %s.") (str args ∷ [])) s binary.0
        ascii.0

  -- The part of the handler that transfers the file comes down to sending it to the peer.
  pub retr_transfer-Connects :
      (args : Bytes) (file : Located) (s : Machine K)
      → file.retval ≡ success
      → is_invalid s.server_data.transfer_sock ≡ false
      → s.server_data.client_sock ≡ client
      → length args < 200
      → let u = (retr_mode args (accept_transfer_client_connection s).1).1 in
        (retr_transfer args file s ≡ send_file_transfer file.real_path u)
        × (view u.kernel ≡ view s.kernel)
        × (u.server_data ≡ record s.server_data { transfer_client_sock = sock })
  unfolding retr_transfer
  retr_transfer-Connects args file s found listens there short =
      let t = (accept_transfer_client_connection s).1 in
      let a = accept-Connects connects s listens in
      let still : t.server_data.client_sock ≡ client =
        ap (λ (d : Server). d.client_sock) a.2 ∙ there in
      let m = retr_mode-Fine args t still short in
      (rw found (rw a.0 (rw m.0 refl)), m.1.0 ∙ a.1, m.1.1 ∙ a.2)

module _ {K : Type 0} ⦃os : Os K⦄ (c : ℕ) (p : Bytes) {fd sock client : ℤ}
    {content received : K → Bytes}
    (meets : Meets os (c_str (c ∷ p)) fd sock client content received) where
  -- Where nothing goes wrong, the file is sent.
  retr_transfer-Meets :
      (args : Bytes) (file : Located) (s : Machine K)
      → file.retval ≡ success
      → file.real_path ≡ c ∷ p
      → is_invalid s.server_data.transfer_sock ≡ false
      → s.server_data.client_sock ≡ client
      → length args < 200
      → length (content s.kernel) < 2 ^ 64
      → let (r, t) = retr_transfer args file s in
        (r ≡ success)
        × (received t.kernel ≡ received s.kernel ++ content s.kernel)
        × (t.server_data.client_sock ≡ client)
  retr_transfer-Meets args file s found at listens there short bound =
      let u = (retr_mode args (accept_transfer_client_connection s).1).1 in
      let ready = retr_transfer-Connects meets.connects args file s found listens there short in
      let unread : content u.kernel ≡ content s.kernel = ap (λ v. v.0) ready.1 in
      let unsent : received u.kernel ≡ received s.kernel = ap (λ v. v.1) ready.1 in
      let sent =
        send_file_transfer-delivers c p meets.offers u
          (ap (λ (d : Server). d.transfer_client_sock) ready.2)
          (subst (λ (b : Bytes). length b < 2 ^ 64) (sym unread) bound) in
      let kept =
        ServerKeeps.send_file_transfer-Keeps (client_frame client) (c ∷ p) u
          (ap (λ (d : Server). d.client_sock) ready.2 ∙ there) in
      rw ready.0 (
        rw at (
          sent.0,
          sent.1
              ∙ ap (λ (b : Bytes). b ++ content u.kernel) unsent
              ∙ ap (λ (b : Bytes). received s.kernel ++ b) unread,
          kept,
        ))

  -- RETR delivers: where the argument has been found as a file, PASV has been given, the argument is
  -- not too long for the reply, and the environment is one where nothing goes wrong, the peer gets the
  -- whole content of the file, in order, behind what it had when the file was found, and the client
  -- is told so in the last line that is written.
  pub command_retr-delivers :
      (args : Bytes) (s : Machine K)
      → (locate args s).0.retval ≡ success
      → (locate args s).0.real_path ≡ c ∷ p
      → is_invalid s.server_data.transfer_sock ≡ false
      → s.server_data.client_sock ≡ client
      → length args < 200
      → length (content (locate args s).1.kernel) < 2 ^ 64
      → let t = (locate args s).1 in
        let (r, u) = command_retr args s in
        (r ≡ success)
        × (received u.kernel ≡ received t.kernel ++ content t.kernel)
        × (a : Answer) × (before : List Event) × (u.log
            ≡ did (Call.write client (codes "226 Transfer Complete." ++ crlf)) a ∷ before)
  unfolding command_retr expand
  command_retr-delivers args s found at listens there short bound =
      let (file, t) = locate args s in
      let same : t.server_data ≡ s.server_data =
        locate-Keeps (data_frame s.server_data) args s refl in
      let sent =
        retr_transfer-Meets args file t found at
          (ap (λ (d : Server). is_invalid d.transfer_sock) same ∙ listens)
          (ap (λ (d : Server). d.client_sock) same ∙ there) short bound in
      let u = (retr_transfer args file t).1 in
      let w = (close_transfer_socket (close_transfer_client_socket u).1).1 in
      let closes = closed-Connects meets.connects u in
      let told =
        send_reply-tells meets.connects (codes "226 Transfer Complete.") []
          (codes "226 Transfer Complete.") w (closes.1 ∙ sent.2) refl (omega arith) in
      let seen = told.0.1.0 ∙ closes.0 in
      rw sent.0 (told.0.0, ap (λ v. v.1) seen ∙ sent.1, told.1.0, w.log, told.1.1)
