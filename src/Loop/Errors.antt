-- ===== src/Loop/Errors.antt =====
-- What `VSFTPServerHandler` in src/common/vsftp_server.c does when it reads no request.
use vs_ftp.Common.{
  ◌-◌, ◌<◌, ◌≡◌, refl, ℕ, is_invalid, success, failure, Bool-cases, inl, inr, true, false, none,
  some, arith, ltb, ◌==◌, ◌&&◌, length, drop, if◌then◌else◌,
}
use vs_ftp.Libc.{Bytes, crlf, strncmp_eq}
use vs_ftp.Os.{Call, Os}
use vs_ftp.Machine.{Server, Machine, perform}
use vs_ftp.Server.Sockets.Closing.{stopped, stop-data}
use vs_ftp.Server.Transfer.{receive_own_sock}
use vs_ftp.Loop.{
  request_len_max, would_block, stop_unless_blocked, terminate_buffer, handle_bytes,
  handle_received, handle_connection, handler,
}
use vs_ftp.Loop.Answers.{handler-connected}

-- Nothing changes if there was nothing to wait for, else the server is stopped.
abbrev pub stopped_unless_blocked : ℕ → Server → Server
stopped_unless_blocked e d = if would_block e then d else stopped d

module _ {K : Type 0} ⦃os : Os K⦄ where
  stop_unless_blocked-data :
      (s : Machine K)
      → (stop_unless_blocked s).1.server_data ≡ stopped_unless_blocked s.errno s.server_data
  unfolding stop_unless_blocked
  stop_unless_blocked-data s = elim (Bool-cases (would_block s.errno)) [
    | inl e ↦ rw e refl
    | inr e ↦ rw e ((stop-data s).1)
  ]

  -- The terminator changes neither the data nor `errno`.
  pub terminate_buffer-same :
      (n : ℕ) (s : Machine K)
      → ((terminate_buffer n s).1.server_data ≡ s.server_data)
        × ((terminate_buffer n s).1.errno ≡ s.errno)
  unfolding terminate_buffer
  terminate_buffer-same n s = elim (Bool-cases (ltb n request_len_max)) [
    | inl e ↦ rw e (refl, refl)
    | inr e ↦ rw e (refl, refl)
  ]

  unread :
      (s : Machine K)
      → ((handle_received none s).0 ≡ failure)
        × ((handle_received none s).1.server_data ≡ stopped_unless_blocked s.errno s.server_data)
  unfolding handle_received
  unread s =
      let t = (terminate_buffer 0 s).1 in
      let same = terminate_buffer-same 0 s in
      (refl, rw (stop_unless_blocked-data t, same.0, same.1) refl)

  incomplete :
      (b : Bytes) (s : Machine K)
      → 0 < length b
      → (ltb 2 (length b) && strncmp_eq (drop (length b - 2) b) crlf 2) ≡ false
      → ((handle_received (some b) s).0 ≡ success)
        × ((handle_received (some b) s).1.server_data
            ≡ stopped_unless_blocked s.errno s.server_data)
  unfolding handle_received handle_bytes
  incomplete b s some_bytes no_request =
      let t = (terminate_buffer (length b) s).1 in
      let same = terminate_buffer-same (length b) s in
      let positive : (length b == 0) ≡ false = ground arith in
      rw no_request (rw positive (refl, rw (stop_unless_blocked-data t, same.0, same.1) refl))

  -- A failed read ends the program: while a client is connected and `read` returns -1, the handler
  -- fails, also if there was only nothing to read yet. In that case the server's data stay as they
  -- are, and otherwise the server is stopped.
  pub handler-failed_read :
      (s : Machine K)
      → s.server_data.is_server_socket_created ≡ true
      → s.server_data.is_connected ≡ true
      → let a = (os.answer (Call.read s.server_data.client_sock request_len_max) s.kernel).0 in
        is_invalid a.ret ≡ true
        → ((handler s).0 ≡ failure)
          × ((handler s).1.server_data ≡ stopped_unless_blocked a.errno s.server_data)
  unfolding handle_connection receive_own_sock perform
  handler-failed_read s there connected failed =
      rw (handler-connected s there connected)
        (rw failed (unread (perform (Call.read s.server_data.client_sock request_len_max) s).1))

  -- A piece of a request that has come without its line end is dropped. The handler succeeds, but the
  -- server is stopped unless `errno`, which the successful read need not have set, happens to say
  -- that a call would block.
  pub handler-incomplete :
      (s : Machine K)
      → s.server_data.is_server_socket_created ≡ true
      → s.server_data.is_connected ≡ true
      → let a = (os.answer (Call.read s.server_data.client_sock request_len_max) s.kernel).0 in
        is_invalid a.ret ≡ false
        → 0 < length a.bytes
        → (ltb 2 (length a.bytes) && strncmp_eq (drop (length a.bytes - 2) a.bytes) crlf 2) ≡ false
        → ((handler s).0 ≡ success)
          × ((handler s).1.server_data ≡ stopped_unless_blocked a.errno s.server_data)
  unfolding handle_connection receive_own_sock perform
  handler-incomplete s there connected read some_bytes no_request =
      let a = (os.answer (Call.read s.server_data.client_sock request_len_max) s.kernel).0 in
      rw (handler-connected s there connected) (
        rw read (
          incomplete a.bytes (perform (Call.read s.server_data.client_sock request_len_max) s).1
            some_bytes no_request))
