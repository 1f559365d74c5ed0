-- ===== src/Loop/Request.antt =====
-- What `HandleConnection` in src/common/vsftp_server.c makes of a complete line.
use vs_ftp.Common.{
  ◌+◌, ◌-◌, ◌<◌, ◌≡◌, refl, ap, is_invalid, success, true, false, some, [], ◌∷◌, ◌++◌, arith, ltb,
  length, length-append, take, drop-append,
}
use vs_ftp.Libc.{Bytes, crlf, strncmp_eq}
use vs_ftp.Os.{Call, Os}
use vs_ftp.Machine.{Machine, perform}
use vs_ftp.Server.Transfer.{receive_own_sock}
use vs_ftp.Commands.{commands_parse}
use vs_ftp.Loop.{
  request_len_max, terminate_buffer, handle_request, handle_bytes, handle_received,
  handle_connection, handler,
}
use vs_ftp.Loop.Answers.{handler-connected}

take-append_front : (text rest : Bytes) → take (length text) (text ++ rest) ≡ text
take-append_front [] rest = refl
take-append_front (c ∷ text) rest = ap (λ b. c ∷ b) (take-append_front text rest)

crlf-crlf : strncmp_eq crlf crlf 2 ≡ true
unfolding strncmp_eq
crlf-crlf = refl

module _ {K : Type 0} ⦃os : Os K⦄ where
  handle_bytes-line :
      (text : Bytes) (s : Machine K)
      → 0 < length text
      → handle_bytes (text ++ crlf) s ≡ handle_request text s
  unfolding handle_bytes
  handle_bytes-line text s some_text =
      let whole = length-append text crlf in
      let front : length (text ++ crlf) - 2 ≡ length text = omega (arith, whole) in
      let long : ltb 2 (length (text ++ crlf)) ≡ true = ground (arith, whole) in
      rw long (
        rw front
          (rw (drop-append text crlf) (rw crlf-crlf (rw (take-append_front text crlf) refl))))

  handle_received-line :
      (text : Bytes) (s : Machine K)
      → 0 < length text
      → length text + 2 < request_len_max
      → handle_received (some (text ++ crlf)) s ≡ handle_request text s
  unfolding handle_received terminate_buffer
  handle_received-line text s some_text fits =
      let inside : ltb (length (text ++ crlf)) request_len_max ≡ true =
        ground (arith, length-append text crlf) in
      rw inside (handle_bytes-line text s some_text)

  -- A complete line that fits the array is handled as a request, without its end.
  pub handler-line :
      (text : Bytes) (s : Machine K)
      → s.server_data.is_server_socket_created ≡ true
      → s.server_data.is_connected ≡ true
      → 0 < length text
      → length text + 2 < request_len_max
      → let (a, t) = perform (Call.read s.server_data.client_sock request_len_max) s in
        is_invalid a.ret ≡ false → a.bytes ≡ text ++ crlf → handler s ≡ handle_request text t
  unfolding handle_connection receive_own_sock
  handler-line text s there connected some_text fits read is =
      let t = (perform (Call.read s.server_data.client_sock request_len_max) s).1 in
      rw (handler-connected s there connected)
        (rw read (rw is (handle_received-line text t some_text fits)))

  -- A request that goes well is all that is done.
  pub handle_request-success :
      (text : Bytes) (s : Machine K)
      → (commands_parse text s).0 ≡ success
      → handle_request text s ≡ commands_parse text s
  unfolding handle_request
  handle_request-success text s ok = rw ok refl
