-- ===== src/Loop/Answers.antt =====
-- What `VSFTPServerHandler` in src/common/vsftp_server.c does with what it reads from the client.
use vs_ftp.Common.{
  ◌-◌, ◌<◌, ◌≡◌, refl, sym, subst, ℕ, ℤ, is_zero, is_invalid, Bool-cases, inl, inr, true, false,
  some, [], arith, ltb, ◌&&◌, length, take, drop, List,
}
use vs_ftp.Libc.{Bytes, crlf, strncmp_eq}
use vs_ftp.Os.{Call, Os}
use vs_ftp.Machine.{fault, Event, Machine, perform, write_out_of_bounds}
use vs_ftp.Machine.Keeps.{Keeps}
use vs_ftp.Server.Sockets.{close_transfer_socket, close_transfer_client_socket}
use vs_ftp.Server.Transfer.{receive_own_sock}
use vs_ftp.Server.Reply.Answers.{Extends-cons, Replied, Pending, preparing_frame, answered_frame}
use vs_ftp.Server.Keeps as ServerKeeps
use vs_ftp.Commands.{commands_parse}
use vs_ftp.Commands.Codes.{answer_codes}
use vs_ftp.Commands.Replies.{parse-Replied}
use vs_ftp.Loop.{
  request_len_max, terminate_buffer, handle_request, handle_bytes, handle_received,
  handle_connection, handler,
}

-- What was read is a request: a line with its end.
abbrev pub IsRequest : Bytes → Type 0
IsRequest b = (2 < length b) × (strncmp_eq (drop (length b - 2) b) crlf 2 ≡ true)

-- The request without its line end.
abbrev pub request_of : Bytes → Bytes
request_of b = take (length b - 2) b

module _ {K : Type 0} ⦃os : Os K⦄ (sock : ℤ) (base : List Event) where
  handle_request-Replied :
      (buffer : Bytes) (s : Machine K)
      → Pending sock base s
      → Replied (answer_codes buffer) sock base (handle_request buffer s).1.log
  unfolding handle_request close_transfer_socket close_transfer_client_socket
  handle_request-Replied buffer s h =
      let r = parse-Replied sock base buffer s h in
      let log_frame = answered_frame (answer_codes buffer) sock base in
      let t = (commands_parse buffer s).1 in
      let u = (close_transfer_client_socket t).1 in
      let c = ServerKeeps.shut-Keeps log_frame.call t.server_data.transfer_client_sock t r in
      let d = ServerKeeps.shut-Keeps log_frame.call u.server_data.transfer_sock u c in
      elim (Bool-cases (is_zero (commands_parse buffer s).0)) [ inl e ↦ rw e r | inr e ↦ rw e d ]

  handle_bytes-Replied :
      (b : Bytes) (s : Machine K)
      → IsRequest b
      → Pending sock base s
      → Replied (answer_codes (request_of b)) sock base (handle_bytes b s).1.log
  unfolding handle_bytes
  handle_bytes-Replied b s is h =
      let request : (ltb 2 (length b) && strncmp_eq (drop (length b - 2) b) crlf 2) ≡ true =
        ground (arith, is.0, is.1) in
      rw request (handle_request-Replied (request_of b) s h)

  receive-Pending : (from : ℤ) (n : ℕ) → Keeps (Pending {K = K} sock base) (receive_own_sock from n)
  unfolding receive_own_sock
  receive-Pending from n s h = (preparing_frame sock base).call (Call.read from n) refl s h

  terminate_buffer-Pending : (n : ℕ) → Keeps (Pending {K = K} sock base) (terminate_buffer n)
  unfolding terminate_buffer
  terminate_buffer-Pending n s h =
      let f : Pending sock base (fault (write_out_of_bounds request_len_max) s).1 =
        (h.0, Extends-cons _ base s.log h.1) in
      elim (Bool-cases (ltb n request_len_max)) [ inl e ↦ rw e h | inr e ↦ rw e f ]

module _ {K : Type 0} ⦃os : Os K⦄ where
  pub handler-connected :
      (s : Machine K)
      → s.server_data.is_server_socket_created ≡ true
      → s.server_data.is_connected ≡ true
      → handler s ≡ handle_connection s
  unfolding handler
  handler-connected s there connected = ground (arith, there, connected)

  received :
      (sock : ℤ) (n : ℕ) (s : Machine K)
      → is_invalid (os.answer (Call.read sock n) s.kernel).0.ret ≡ false
      → (receive_own_sock sock n s).0 ≡ some (os.answer (Call.read sock n) s.kernel).0.bytes
  unfolding receive_own_sock perform
  received sock n s read = rw read refl

  -- While a client is connected, the handler answers: if `read` yields a line with its end, a line is
  -- written on the client's socket, and it begins with one of the codes for the command that the
  -- request names, or with 502 if it names none.
  pub handler-Replied :
      (s : Machine K)
      → s.server_data.is_server_socket_created ≡ true
      → s.server_data.is_connected ≡ true
      → let sock = s.server_data.client_sock in
        let a = (os.answer (Call.read sock request_len_max) s.kernel).0 in
        is_invalid a.ret ≡ false
        → IsRequest a.bytes
        → Replied (answer_codes (request_of a.bytes)) sock s.log (handler s).1.log
  unfolding handle_connection handle_received
  handler-Replied s there connected read is =
      let sock = s.server_data.client_sock in
      let b = (os.answer (Call.read sock request_len_max) s.kernel).0.bytes in
      let t = (receive_own_sock sock request_len_max s).1 in
      let pending = receive-Pending sock s.log sock request_len_max s (refl, ([], refl)) in
      let u = (terminate_buffer (length b) t).1 in
      let answered =
        handle_bytes-Replied sock s.log b u is
          (terminate_buffer-Pending sock s.log (length b) t pending) in
      subst (λ r. Replied (answer_codes (request_of b)) sock s.log r.1.log)
        (sym (handler-connected s there connected))
        (subst (λ o. Replied (answer_codes (request_of b)) sock s.log (handle_received o t).1.log)
          (sym (received sock request_len_max s read)) answered)
