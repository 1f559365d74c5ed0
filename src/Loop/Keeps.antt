-- ===== src/Loop/Keeps.antt =====
-- The life of the server in src/common/vsftp_server.c keeps what its commands, its system calls and
-- its writes keep.
use vs_ftp.Common.{
  subst, ltb, ◌≤◌, is_invalid, ℕ, ◌-◌, ℤ, failure, success, is_nonneg, ◌≡◌, refl, inl, inr, true,
  false, Option, none, some, [], arith, Bool-cases, length, take,
}
use vs_ftp.Libc.{Bytes, codes}
use vs_ftp.Os.{Call, Os}
use vs_ftp.Machine.{
  fault, htons, write_out_of_bounds, Server, SockAddr, Machine, M, ◌>>◌, ◌⨾◌, pure, modify, perform,
  invoke,
}
use vs_ftp.Libc.Format.{expand}
use vs_ftp.Machine.Keeps.{Reason, Keeps, Frame, Frame-and, ⨾-Keeps}
use vs_ftp.Server.Sockets.{close_transfer_client_socket, stop}
use vs_ftp.Server.Reply.{send_reply}
use vs_ftp.Server.Paths.{set_cwd}
use vs_ftp.Server.Keeps as ServerKeeps
use vs_ftp.Server.Invariant.{WellFormed, CwdFrame-and, set_cwd-Keeps}
use vs_ftp.Server.Transfer.{receive_own_sock}
use vs_ftp.Commands.{commands_parse}
use vs_ftp.Commands.Keeps.{CommandFrame, commands_parse-Keeps}
use vs_ftp.Loop.{
  mark_created, request_len_max, open_server_socket, start, welcome, stop_unless_blocked,
  wait_for_incoming_connection, terminate_buffer, handle_request, handle_received, handle_bytes,
  handle_connection, handler,
}

-- A property of valid states that everything in the server's life keeps.
pub record LoopFrame {K : Type 0} ⦃os : Os K⦄ (P : Machine K → Type 0) : Type 0 where
  pub valid : (s : Machine K) → P s → WellFormed s.server_data
  pub commands : CommandFrame P
  pub stopping : Keeps P stop
  pub reset :
      (s : Machine K)
      → P s
      → s.server_data.is_connected ≡ false
      → P
          (modify
            (λ d. record d {
              transfer_sock = failure;
              server_sock = failure;
              client_sock = failure;
            })
            s).1
  pub configured :
      (a : SockAddr) → Keeps P (modify (λ d. record d { transfer_mode_binary = true; server = a }))
  pub bound : (x : ℤ) → Keeps P (modify (λ d. record d { server_sock = x }))
  pub created : Keeps P (modify (λ d. record d { is_server_socket_created = true }))
  pub arrived :
      (x : ℤ) (s : Machine K)
      → P s
      → s.server_data.is_connected ≡ false
      → P (modify (λ d. record d { client_sock = x }) s).1
  pub connected :
      (s : Machine K)
      → P s
      → s.server_data.is_server_socket_created ≡ true
      → is_nonneg s.server_data.client_sock ≡ true
      → P (modify (λ d. record d { is_connected = true }) s).1

module _ {K : Type 0} ⦃os : Os K⦄ {P : Machine K → Type 0} (own : LoopFrame P) where
  frame : Frame P
  frame = own.commands.transfers.frame

  mark_created-Keeps : (r : ℤ) → Keeps P (mark_created r)
  unfolding mark_created
  mark_created-Keeps r s h = ground (arith, own.created s)

  open_server_socket-Keeps : Keeps P open_server_socket
  unfolding open_server_socket
  open_server_socket-Keeps s h =
      let addr : SockAddr = record { sin_port = htons s.server_data.port } in
      mark_created-Keeps _ _ (
        own.bound _ _
          (ServerKeeps.create_passive_socket-Keeps frame addr _ (own.configured addr s h)))

  start-Keeps : (s : Machine K) → P s → s.server_data.is_connected ≡ false → P (start s).1
  unfolding start
  start-Keeps s h idle =
      ⨾-Keeps P (set_cwd s.server_data.root_path) open_server_socket
        (set_cwd-Keeps own.commands.cwd s.server_data.root_path) open_server_socket-Keeps _
        (own.reset s h idle)

  -- A client has arrived, and the server socket is there.
  abbrev Arrived : Server → Type 0
  Arrived d = (d.is_server_socket_created ≡ true) × (is_nonneg d.client_sock ≡ true)

  abbrev Welcoming : Machine K → Type 0
  Welcoming s = P s × Arrived s.server_data

  welcome-Keeps : Keeps Welcoming welcome
  unfolding welcome expand
  welcome-Keeps s h =
      let greeting = codes "220 Service ready for new user." in
      let connect : M K ℤ = modify (λ d. record d { is_connected = true }) >> pure success in
      ⨾-Keeps Welcoming (set_cwd s.server_data.root_path) (send_reply greeting [] ⨾ connect)
        (set_cwd-Keeps (CwdFrame-and own.commands.cwd Arrived (λ d path q. q))
          s.server_data.root_path)
        (⨾-Keeps Welcoming (send_reply greeting []) connect
          (ServerKeeps.send_reply-Keeps (Frame-and frame Arrived) greeting [] (_, refl))
          (λ t k. (own.connected t k.0 k.1.0 k.1.1, k.1)))
        s h

  stop_unless_blocked-Keeps : Keeps P stop_unless_blocked
  unfolding stop_unless_blocked
  stop_unless_blocked-Keeps s h = ground (arith, own.stopping s h)

  wait-Keeps :
      (s : Machine K)
      → P s
      → s.server_data.is_connected ≡ false
      → s.server_data.is_server_socket_created ≡ true
      → P (wait_for_incoming_connection s).1
  unfolding wait_for_incoming_connection
  wait-Keeps s h idle there =
      let a = invoke (Call.accept s.server_data.server_sock) s in
      let t = (modify (λ d. record d { client_sock = a.0 }) a.1).1 in
      let accepted : P t = own.arrived a.0 a.1 (frame.call _ refl s h) (unfold perform in idle) in
      elim (Bool-cases (is_nonneg a.0)) [
        | inl arrived ↦
            rw arrived ((welcome-Keeps t (accepted, ((unfold perform in there), arrived))).0)
        | inr failed ↦ rw failed (stop_unless_blocked-Keeps t accepted)
      ]

  -- The terminator of what was read, of which there may be too much.
  terminate_buffer-Keeps :
      (n : ℕ) (s : Machine K)
      → P s
      → (ltb n request_len_max ≡ false → Reason (write_out_of_bounds request_len_max) s)
      → P (terminate_buffer n s).1
  unfolding terminate_buffer
  terminate_buffer-Keeps n s h over =
      let overflow : ltb n request_len_max ≡ false
          → P (fault (write_out_of_bounds request_len_max) s).1 =
        λ e. frame.undefined (write_out_of_bounds request_len_max) s h (over e) in
      elim (Bool-cases (ltb n request_len_max)) [ inl e ↦ rw e h | inr e ↦ rw e (overflow e) ]

  handle_request-Keeps : (buffer : Bytes) → Keeps P (handle_request buffer)
  unfolding handle_request
  handle_request-Keeps buffer s h =
      let t = (commands_parse buffer s).1 in
      ground (
        arith,
        commands_parse-Keeps own.commands buffer s h,
        ServerKeeps.close_transfer_client_socket-Keeps own.commands.transfers t,
        ServerKeeps.close_transfer_socket-Keeps own.commands.transfers
            (close_transfer_client_socket t).1,
      )

  handle_bytes-Keeps : (buffer : Bytes) → Keeps P (handle_bytes buffer)
  unfolding handle_bytes
  handle_bytes-Keeps buffer s h = ground (
    arith,
    handle_request-Keeps (take (length buffer - 2) buffer) s,
    own.commands.disconnect s,
    stop_unless_blocked-Keeps s,
  )

  -- What was received is what some call of `read` answers.
  abbrev IsRead : Option Bytes → Type 0
  IsRead none = Unit
  IsRead (some buffer) =
      (sock : ℤ) × (k : K) × (buffer ≡ (os.answer (Call.read sock request_len_max) k).0.bytes)

  received-Keeps : (o : Option Bytes) (s : Machine K) → P s → IsRead o → P (handle_received o s).1
  unfolding handle_received
  received-Keeps none s h is =
      stop_unless_blocked-Keeps _ (terminate_buffer-Keeps 0 s h (λ e. absurd (ground arith)))
  received-Keeps (some buffer) s h (sock, k, is) = handle_bytes-Keeps buffer _ (
      terminate_buffer-Keeps (length buffer) s h
        (λ e. (refl, sock, k, subst (λ b. request_len_max ≤ length b) is (ground (arith, e)))))

  receive_own_sock-IsRead :
      (sock : ℤ) (s : Machine K) → IsRead (receive_own_sock sock request_len_max s).0
  unfolding receive_own_sock perform
  receive_own_sock-IsRead sock s =
      elim (Bool-cases (is_invalid (os.answer (Call.read sock request_len_max) s.kernel).0.ret)) [
        | inl e ↦ rw e tt
        | inr e ↦ rw e (sock, s.kernel, refl)
      ]

  handle_connection-Keeps : Keeps P handle_connection
  unfolding handle_connection receive_own_sock
  handle_connection-Keeps s h =
      let sock = s.server_data.client_sock in
      let t = receive_own_sock sock request_len_max s in
      received-Keeps t.0 t.1 (frame.call (Call.read sock request_len_max) refl s h)
        (receive_own_sock-IsRead sock s)

  -- An iteration of the server keeps the property.
  pub handler-Keeps : Keeps P handler
  unfolding handler
  handler-Keeps s h =
      let listening = (own.valid s h).listening in
      ground (arith, handle_connection-Keeps s h, wait-Keeps s h, start-Keeps s h)
