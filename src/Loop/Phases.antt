-- ===== src/Loop/Phases.antt =====
-- The phases that `VSFTPServerHandler` in src/common/vsftp_server.c goes through, as a state machine.
pub mod Steps
mod Opening
use vs_ftp.Common.{
  is_zero-success, ◌≡◌, refl, ap, ◌∙◌, ℕ, zero, suc, is_zero, success, failure, Bool, Bool-cases,
  inl, inr, true, false, Option, none, some, if◌then◌else◌, ltb, length, ◌==◌, ◌&&◌, take, ◌-◌,
  drop,
}
use vs_ftp.Libc.{Bytes, crlf, strncmp_eq}
use vs_ftp.Os.{Os}
use vs_ftp.Machine.{Server, Machine, M, perform}
use vs_ftp.Server.Sockets.{close_transfer_socket, close_transfer_client_socket}
use vs_ftp.Server.Sockets.Closing.{client_disconnect-data}
use vs_ftp.Server.Transfer.{receive_own_sock, set_transfer_mode}
use vs_ftp.Server.Keeps as ServerKeeps
use vs_ftp.Server.Invariant.{WellFormed}
use vs_ftp.Commands.{commands_parse}
use vs_ftp.Commands.Keeps.{CommandFrame, commands_parse-Keeps}
use vs_ftp.Loop.Errors.{terminate_buffer-same}
use vs_ftp.Loop.{
  request_len_max, terminate_buffer, handle_request, handle_bytes, handle_received,
  handle_connection, start, wait_for_incoming_connection, handler,
}
pub use Steps.*
use Opening.*

created-Step : (d : Server) → d.is_server_socket_created ≡ true → Step connected success (phase d)
created-Step d h = elim (Bool-cases d.is_connected) [
  | inl e ↦ rw (h, e) served
  | inr e ↦ rw (h, e) left
]

module _ {K : Type 0} ⦃os : Os K⦄ where
  -- Commands leave the server socket.
  abbrev Created : Machine K → Type 0
  Created s = s.server_data.is_server_socket_created ≡ true

  created_commands : CommandFrame Created
  unfolding perform set_transfer_mode
  created_commands = record {
    handlers = record {
      transfers = record {
        frame = record { call = λ c e s h. h; undefined = λ f s h r. h };
        address = λ a s h. h;
        listening = λ x s h. h;
        accepted = λ x s h. h;
      };
      cwd = record {
        frame = record { call = λ c e s h. h; undefined = λ f s h r. h };
        stored = λ path s h is ok. h;
      };
      mode = λ b s h. h;
      listed = λ path s h l. h;
    };
    disconnect =
        λ s h. ap (λ (d : Server). d.is_server_socket_created) (client_disconnect-data s).1 ∙ h;
  }

  handle_request-Step :
      (buffer : Bytes) (s : Machine K) → Created s → LeadsFrom connected (handle_request buffer s)
  unfolding handle_request
  handle_request-Step buffer s h =
      let own = created_commands.transfers in
      let r = commands_parse buffer s in
      let parsed = commands_parse-Keeps created_commands buffer s h in
      let t = (close_transfer_socket (close_transfer_client_socket r.1).1).1 in
      let closed =
        ServerKeeps.close_transfer_socket-Keeps own _
          (ServerKeeps.close_transfer_client_socket-Keeps own r.1 parsed) in
      elim (Bool-cases (is_zero r.0)) [
        | inl e ↦ rw e (rw (is_zero-success r.0 e) (created-Step r.1.server_data parsed))
        | inr e ↦ rw e (created-Step t.server_data closed)
      ]

  handle_bytes-Step :
      (b : Bytes) (s : Machine K) → Flags true true s → LeadsFrom connected (handle_bytes b s)
  unfolding handle_bytes
  handle_bytes-Step b s h =
      let gone = (client_disconnect-data s).1 in
      elim (Bool-cases (ltb 2 (length b) && strncmp_eq (drop (length b - 2) b) crlf 2)) [
        | inl request ↦ rw request (handle_request-Step (take (length b - 2) b) s h.0)
        | inr other ↦ elim (Bool-cases (length b == 0)) [
          | inl ended ↦ rw other (rw ended (rw gone (rw h.0 left)))
          | inr part ↦
              rw other
                (rw part (blocked-Step connected success s (rw (h.0, h.1) refl) served incomplete))
        ]
      ]

  terminated-Flags :
      (n : ℕ) (s : Machine K) → Flags true true s → Flags true true (terminate_buffer n s).1
  terminated-Flags n s h =
      let same = (terminate_buffer-same n s).0 in
      (
        ap (λ (d : Server). d.is_server_socket_created) same ∙ h.0,
        ap (λ (d : Server). d.is_connected) same ∙ h.1,
      )

  received-Step :
      (o : Option Bytes) (s : Machine K)
      → Flags true true s
      → LeadsFrom connected (handle_received o s)
  unfolding handle_received
  received-Step none s h =
      let t = terminated-Flags 0 s h in
      blocked-Step connected failure (terminate_buffer 0 s).1 (rw (t.0, t.1) refl)
        (unread connected (λ e. cc)) (unread down (λ e. cc))
  received-Step (some b) s h =
      handle_bytes-Step b (terminate_buffer (length b) s).1 (terminated-Flags (length b) s h)

  connection-Step : (s : Machine K) → Flags true true s → LeadsFrom connected (handle_connection s)
  unfolding handle_connection
  connection-Step s h =
      let r = receive_own_sock s.server_data.client_sock request_len_max s in
      received-Step r.0 r.1 (unfold receive_own_sock perform in h)

  by_branch :
      (a b : Bool) (s : Machine K)
      → Flags a b s
      → WellFormed s.server_data
      → LeadsFrom
          (phase_of a b)
          ((if a then if b then handle_connection else wait_for_incoming_connection else start) s)
  by_branch false false s h w = start-Step s h
  by_branch false true s h w = absurd (not_listening h.0 (w.listening h.1))
    where
      not_listening : {c : Bool} → c ≡ false → c ≡ true → ⊥
      not_listening p q = cc
  by_branch true false s h w = wait-Step s h
  by_branch true true s h w = connection-Step s h

  -- Each call of `VSFTPServerHandler` is a step of the state machine, with the value that it
  -- returns, whatever the system calls answer: the server listens before a client is served, a
  -- failure never opens a new phase but may end the server, and after a success the server is in one
  -- of the phases that the steps name.
  pub handler-Step :
      (s : Machine K)
      → WellFormed s.server_data
      → Step (phase s.server_data) (handler s).0 (phase (handler s).1.server_data)
  unfolding handler
  handler-Step s w =
      by_branch s.server_data.is_server_socket_created s.server_data.is_connected s (refl, refl) w
