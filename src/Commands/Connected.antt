-- ===== src/Commands/Connected.antt =====
-- A client that takes its replies while a peer connects for a transfer: what both handlers of
-- src/common/vsftp_commands.c that transfer have in common.
use vs_ftp.Common.{
  ◌+◌, ◌<◌, ◌≡◌, ◌≢◌, refl, ◌∙◌, sym, ap, subst, ℤ, is_invalid, is_nonneg, Bool-cases, inl, inr,
  success, true, false, some, List, ◌∷◌, ◌++◌, leb, arith, length,
}
use vs_ftp.Libc.{Bytes, crlf}
use vs_ftp.Libc.Format.{Arg, expand, room, expand-length}
use vs_ftp.Os.{Call, Answer, Os}
use vs_ftp.Machine.{Server, Machine, did, perform, invoke}
use vs_ftp.Machine.Keeps.{Frame, ⨾-cases}
use vs_ftp.Server.Sockets.{
  shut, accept_transfer_client_connection, close_transfer_client_socket, close_transfer_socket,
}
use vs_ftp.Server.Reply.{response_len_max, append_crlf, send, send_line, send_reply}
use vs_ftp.Server.Reply.Answers.{reply_of}
use vs_ftp.Server.Transfer.WholeFile.{IsQuiet}

-- An environment where a peer connects on the socket `sock` and the client, on another socket, takes
-- the replies. What is looked at changes only by reading and by what is written on `sock`.
pub record Connects {K V : Type 0} (os : Os K) (sock client : ℤ) (view : K → V) : Type 0 where
  pub quiet : (c : Call) (k : K) → IsQuiet sock c → view (os.answer c k).1 ≡ view k
  pub accepts : (listener : ℤ) (k : K) → (os.answer (Call.accept listener) k).0.ret ≡ sock
  pub accepted : is_nonneg sock ≡ true
  pub apart : client ≢ sock
  pub tells : (b : Bytes) (k : K) → is_invalid (os.answer (Call.write client b) k).0.ret ≡ false

-- What is looked at is what it was, and so are the server's data.
abbrev pub Same : {K V : Type 0} → (K → V) → Machine K → Machine K → Type 0
Same view s t = (view t.kernel ≡ view s.kernel) × (t.server_data ≡ s.server_data)

module _ {K : Type 0} ⦃os : Os K⦄ where
  pub client_frame : (client : ℤ) → Frame (λ (s : Machine K). s.server_data.client_sock ≡ client)
  unfolding perform
  client_frame client = record { call = λ c e s h. h; undefined = λ f s h r. h }

module _ {K V : Type 0} ⦃os : Os K⦄ {sock client : ℤ} {view : K → V}
    (connects : Connects os sock client view) where
  -- A result with the machine after it: it succeeded and left what is looked at and the data alone.
  abbrev pub Fine : Machine K → ℤ × Machine K → Type 0
  Fine s (r, t) = (r ≡ success) × Same view s t

  -- The same, and the last thing was a line for the client.
  abbrev pub Told : Bytes → Machine K → ℤ × Machine K → Type 0
  Told text s (r, t) =
      Fine s (r, t) × ((a : Answer) × (t.log ≡ did (Call.write client (text ++ crlf)) a ∷ s.log))

  pub perform-Same : (c : Call) (s : Machine K) → IsQuiet sock c → Same view s (perform c s).1
  unfolding perform
  perform-Same c s q = (connects.quiet c s.kernel q, refl)

  send_line-tells :
      (text : Bytes) (s : Machine K)
      → s.server_data.client_sock ≡ client
      → length text + 2 < response_len_max
      → Told text s (send_line text s)
  unfolding send_line append_crlf send perform
  send_line-tells text s there fits =
      let small : leb response_len_max (length text) ≡ false = ground arith in
      let inside : leb (length text) response_len_max ≡ true = ground arith in
      let both : leb response_len_max (length text + 2) ≡ false = ground arith in
      let same = connects.quiet (Call.write client (text ++ crlf)) s.kernel connects.apart in
      rw small (
        rw inside (
          rw both (
            rw there
              (rw (connects.tells (text ++ crlf) s.kernel) ((refl, (same, refl)), (_, refl))))))

  -- A reply that fits reaches the client.
  pub send_reply-tells :
      (format : Bytes) (args : List Arg) (text : Bytes) (s : Machine K)
      → s.server_data.client_sock ≡ client
      → expand format args ≡ some text
      → length format + room args + 2 < response_len_max
      → Told text s (send_reply format args s)
  unfolding send_reply
  send_reply-tells format args text s there e fits =
      subst (λ o. Told text s (reply_of format o s)) (sym e)
        (send_line-tells text s there (omega (arith, expand-length format args text e)))

  -- The peer is there.
  pub accept-Connects :
      (s : Machine K)
      → is_invalid s.server_data.transfer_sock ≡ false
      → let (r, t) = accept_transfer_client_connection s in
        (r ≡ success)
        × (view t.kernel ≡ view s.kernel)
        × (t.server_data ≡ record s.server_data { transfer_client_sock = sock })
  unfolding accept_transfer_client_connection perform
  accept-Connects s listens =
      let listener = s.server_data.transfer_sock in
      let same = connects.quiet (Call.accept listener) s.kernel tt in
      rw listens (rw (connects.accepts listener s.kernel) (rw connects.accepted (refl, same, refl)))

  shut-Same : (x : ℤ) (s : Machine K) → Same view s (shut x s).1
  unfolding shut
  shut-Same x s =
      let t = (perform (Call.shutdown x) s).1 in
      let a = perform-Same (Call.shutdown x) s tt in
      let b = perform-Same (Call.close x) t tt in
      let closes : Same view s (invoke (Call.close x) t).1 = (b.0 ∙ a.0, b.1 ∙ a.1) in
      elim (Bool-cases (is_invalid x)) [
        | inl e ↦ rw e (refl, refl)
        | inr e ↦ rw e (
            ⨾-cases (λ (y : ℤ × Machine K). Same view s y.1) (invoke (Call.shutdown x))
              (invoke (Call.close x)) s (λ f. a) closes)
      ]

  -- Closing both transfer sockets changes nothing of what is looked at, and the client stays.
  pub closed-Connects :
      (s : Machine K)
      → let t = (close_transfer_socket (close_transfer_client_socket s).1).1 in
        (view t.kernel ≡ view s.kernel) × (t.server_data.client_sock ≡ s.server_data.client_sock)
  unfolding close_transfer_client_socket close_transfer_socket
  closed-Connects s =
      let t = (close_transfer_client_socket s).1 in
      let a = shut-Same s.server_data.transfer_client_sock s in
      let b = shut-Same t.server_data.transfer_sock t in
      (b.0 ∙ a.0, ap (λ (d : Server). d.client_sock) b.1 ∙ ap (λ (d : Server). d.client_sock) a.1)
