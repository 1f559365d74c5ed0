-- ===== src/Commands/Broken.antt =====
-- What `CommandHandlerRetr` in src/common/vsftp_commands.c does where the peer breaks off.
use vs_ftp.Common.{
  ℕ, zero, suc, min, ◌<◌, ◌≡◌, refl, ◌∙◌, sym, ap, subst, ℤ, pos, is_zero, is_invalid, success,
  failure, false, not, Bool-cases, inl, inr, Option, none, some, List, [], ◌∷◌, ◌++◌, ◌==◌, arith,
  length, length-take, take,
}
use vs_ftp.Libc.{Bytes, c_str, crlf}
use vs_ftp.Libc.Format.{expand}
use vs_ftp.Os.{Call, Answer, Os}
use vs_ftp.Machine.{Server, Machine, did, Event, perform}
use vs_ftp.Filesystem.{open_file}
use vs_ftp.Server.Keeps as ServerKeeps
use vs_ftp.Server.Sockets.{
  accept_transfer_client_connection, close_transfer_client_socket, close_transfer_socket,
}
use vs_ftp.Server.Sockets.Closing.{data_frame}
use vs_ftp.Server.Paths.{server_path_to_real_path}
use vs_ftp.Server.Transfer.{
  Round, stop, continue, file_read_buf_size, send_own_sock, forward, send_round, send_loop,
  send_file_transfer,
}
use vs_ftp.Server.Transfer.WholeFile.{Opens, open_file-Opens}
use vs_ftp.Commands.Handlers.{located, locate, local_error, retr_mode, retr_transfer, command_retr}
use vs_ftp.Commands.Keeps.{locate-Keeps}
use vs_ftp.Commands.Transfers.{NoTransfer, transfers-NoTransfer}
use vs_ftp.Commands.Connected.{Connects, client_frame, send_reply-tells, closed-Connects}
use vs_ftp.Commands.Retrieval.{retr_transfer-Connects}

-- An environment with a file that can be read, where a peer connects but takes nothing that is
-- written to it, and the client, on another socket, takes the replies.
pub record Breaks {K : Type 0} (os : Os K) (path : Bytes) (fd sock client : ℤ)
    (content received : K → Bytes) : Type 0 where
  pub file : Opens os path fd sock content received
  pub connects : Connects {V = Bytes × Bytes} os sock client (λ k. (content k, received k))
  pub reads :
      (n : ℕ) (k : K) → (os.answer (Call.read fd n) k).0.ret ≡ pos (length (take n (content k)))
  pub breaks : (b : Bytes) (k : K) → (os.answer (Call.write sock b) k).0.ret ≡ failure

module _ {K : Type 0} ⦃os : Os K⦄ where
  located-no_error :
      (o : Option Bytes) (s : Machine K)
      → (located o s).0.retval ≡ success
      → (located o s).0.is_file_error ≡ false
  unfolding located
  located-no_error none s found = cc
  located-no_error (some path) s found = ap (λ r. not (is_zero r)) found

  -- What has been found as a file is no error of the file.
  locate-no_error :
      (args : Bytes) (s : Machine K)
      → (locate args s).0.retval ≡ success
      → (locate args s).0.is_file_error ≡ false
  unfolding locate
  locate-no_error args s found = elim (Bool-cases (length args == 0)) [
    | inl e ↦ absurd (not_found (rw e at found))
    | inr e ↦
        let (o, t) = server_path_to_real_path args s in rw e (located-no_error o t (rw e at found))
  ]
    where
      not_found : failure ≡ success → ⊥
      not_found h = cc

module _ {K : Type 0} ⦃os : Os K⦄ (c : ℕ) (p : Bytes) {fd sock client : ℤ}
    {content received : K → Bytes}
    (broken : Breaks os (c_str (c ∷ p)) fd sock client content received) where
  forward-Breaks :
      (count : ℕ) (b : Bytes) (s : Machine K)
      → s.server_data.transfer_client_sock ≡ sock
      → (forward count b s).0 ≡ stop failure
  unfolding forward send_own_sock perform
  forward-Breaks count b s there = rw there (rw (broken.breaks b s.kernel) refl)

  send_round-Breaks :
      (count : ℕ) (s : Machine K)
      → s.server_data.transfer_client_sock ≡ sock
      → 0 < length (content s.kernel)
      → 0 < count
      → (send_round fd count s).0 ≡ stop failure
  unfolding send_round perform
  send_round-Breaks count s there some_bytes some_left =
      let n = min count file_read_buf_size in
      let a = perform (Call.read fd n) s in
      let some_read : is_zero (pos (length (take n (content s.kernel)))) ≡ false =
        not_zero _ (omega (arith, length-take n (content s.kernel))) in
      let read_well : is_invalid a.0.ret ≡ false = rw (broken.reads n s.kernel) refl in
      let not_ended : is_zero a.0.ret ≡ false = ap is_zero (broken.reads n s.kernel) ∙ some_read in
      rw read_well (rw not_ended (forward-Breaks count a.0.bytes a.1 there))
    where
      not_zero : (m : ℕ) → 0 < m → is_zero (pos m) ≡ false
      not_zero zero h = absurd (omega arith)
      not_zero (suc m) h = refl

  abbrev after_round : ℕ → Round → Machine K → ℤ × Machine K
  after_round f o t = elim o [ stop r ↦ (r, t) | continue left ↦ send_loop f fd left t ]

  -- The first round fails.
  send_loop-Breaks :
      (count : ℕ) (s : Machine K)
      → s.server_data.transfer_client_sock ≡ sock
      → 0 < length (content s.kernel)
      → 0 < count
      → (send_loop count fd count s).0 ≡ failure
  unfolding send_loop
  send_loop-Breaks zero s there some_bytes h = absurd (omega arith)
  send_loop-Breaks (suc count) s there some_bytes h =
      let t = (send_round fd (suc count) s).1 in
      ap (λ o. (after_round count o t).0) (send_round-Breaks (suc count) s there some_bytes h)

  send_file_transfer-Breaks :
      (s : Machine K)
      → s.server_data.transfer_client_sock ≡ sock
      → 0 < length (content s.kernel)
      → (send_file_transfer (c ∷ p) s).0 ≡ failure
  unfolding send_file_transfer
  send_file_transfer-Breaks s there some_bytes =
      let t = (open_file (c ∷ p) s).1 in
      let o = open_file-Opens c p broken.file s in
      let n = length (content s.kernel) in
      rw o.0 (
        send_loop-Breaks n t (ap (λ (d : Server). d.transfer_client_sock) o.1.2 ∙ there)
          (subst (λ (b : Bytes). 0 < length b) (sym o.1.0) some_bytes) some_bytes)

  -- RETR owns up: where the argument has been found as a file that is not empty, PASV has been given
  -- and the argument is not too long for the reply, in an environment where the peer connects but
  -- takes nothing, both transfer sockets are marked as closed, and the last line that is written
  -- tells the client that the transfer was aborted.
  pub command_retr-aborts :
      (args : Bytes) (s : Machine K)
      → (locate args s).0.retval ≡ success
      → (locate args s).0.real_path ≡ c ∷ p
      → is_invalid s.server_data.transfer_sock ≡ false
      → s.server_data.client_sock ≡ client
      → length args < 200
      → 0 < length (content (locate args s).1.kernel)
      → let (r, u) = command_retr args s in
        NoTransfer u.server_data
        × (a : Answer) × (before : List Event) × (u.log
            ≡ did (Call.write client (local_error ++ crlf)) a ∷ before)
  unfolding command_retr expand
  command_retr-aborts args s found at listens there short some_bytes =
      let (file, t) = locate args s in
      let same : t.server_data ≡ s.server_data =
        locate-Keeps (data_frame s.server_data) args s refl in
      let ready =
        retr_transfer-Connects broken.connects args file t found
          (ap (λ (d : Server). is_invalid d.transfer_sock) same ∙ listens)
          (ap (λ (d : Server). d.client_sock) same ∙ there) short in
      let u = (retr_mode args (accept_transfer_client_connection t).1).1 in
      let unread : content u.kernel ≡ content t.kernel = ap (λ v. v.0) ready.1 in
      let fails =
        send_file_transfer-Breaks u (ap (λ (d : Server). d.transfer_client_sock) ready.2)
          (subst (λ (b : Bytes). 0 < length b) (sym unread) some_bytes) in
      let v = (send_file_transfer (c ∷ p) u).1 in
      let kept = ServerKeeps.send_file_transfer-Keeps (client_frame client) (c ∷ p) u (
        ap (λ (d : Server). d.client_sock) ready.2
        ∙ ap (λ (d : Server). d.client_sock) same
        ∙ there) in
      let w = (close_transfer_socket (close_transfer_client_socket v).1).1 in
      let closes = closed-Connects broken.connects v in
      let told =
        send_reply-tells broken.connects local_error [] local_error w (closes.1 ∙ kept) refl
          (omega arith) in
      let transfer : retr_transfer args file t ≡ send_file_transfer (c ∷ p) u =
        ready.0 ∙ ap (λ b. send_file_transfer b u) at in
      let no_error = locate-no_error args s found in
      (
        (transfers-NoTransfer args s).1,
        told.1.0,
        w.log,
        rw transfer (rw fails (rw no_error told.1.1)),
      )
