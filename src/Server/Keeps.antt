-- ===== src/Server/Keeps.antt =====
-- The sockets, replies, paths and transfers of src/common/vsftp_server.c keep what their system
-- calls and their writes to the server's data keep.
use vs_ftp.Common.{
  Bool-cases, inl, inr, true, leb, ◌≤◌, false, subst, sym, ◌≡◌, refl, ltb, length, if◌then◌else◌,
  ◌∷◌, [], none, some, Option, take, ◌++◌, arith, ℕ, zero, suc, ℤ, failure, List,
}
use vs_ftp.Filesystem.{get_real_path, path_len_max}
use vs_ftp.Libc.{Bytes, c_str}
use vs_ftp.Libc.Format.{Arg, num, expand, size_t}
use vs_ftp.Os.{Call, Os}
use vs_ftp.Machine.{
  perform, M, pure, ◌>>◌, bad_format, Server, fault, read_out_of_bounds, Machine, SockAddr, modify,
}
use vs_ftp.Machine.Keeps.{lists, Keeps, Reason, Frame, Frame-and}
use vs_ftp.Filesystem.Keeps as FilesystemKeeps
use vs_ftp.Server.Sockets.{
  create_passive_socket, shut, close_transfer_socket, close_transfer_client_socket,
  create_transfer_socket, accept_transfer_client_connection,
}
use vs_ftp.Server.Reply.{
  response_len_max, append_crlf, send_line, send_reply, send_own_buf, send_reply_own_buf,
  send_reply_own_buf_transfer,
}
use vs_ftp.Server.Reply.Answers.{reply_of}
use vs_ftp.Server.Paths.{real_path_from, get_cwd, below_root, server_path_to_real_path}
use vs_ftp.Server.Transfer.{send_round, send_loop, send_file_transfer}

-- The conversions of a format fit the arguments.
abbrev pub Formats : Bytes → List Arg → Type 0
Formats format args = (text : Bytes) × (expand format args ≡ some text)

-- A property that the server's own writes of its transfer sockets keep too.
pub record TransferFrame {K : Type 0} ⦃os : Os K⦄ (P : Machine K → Type 0) : Type 0 where
  pub frame : Frame P
  pub open frame use *
  pub address : (a : SockAddr) → Keeps P (modify (λ d. record d { transfer = a }))
  pub listening : (x : ℤ) → Keeps P (modify (λ d. record d { transfer_sock = x }))
  pub accepted : (x : ℤ) → Keeps P (modify (λ d. record d { transfer_client_sock = x }))

module _ {K : Type 0} ⦃os : Os K⦄ {P : Machine K → Type 0} (frame : Frame P) where
  pub send_line-Keeps : (text : Bytes) → Keeps P (send_line text)
  unfolding send_line append_crlf
  send_line-Keeps text s h = elim (Bool-cases (leb response_len_max (length text))) [
    | inl e ↦ rw e h
    | inr e ↦
        let inside : leb (length text) response_len_max ≡ true = ground (arith, e) in
        rw e (rw inside (grind (arith, frame.call)))
  ]

  -- A reply whose format fits its arguments.
  pub send_reply-Keeps :
      (format : Bytes) (args : List Arg) → Formats format args → Keeps P (send_reply format args)
  unfolding send_reply
  send_reply-Keeps format args (text, e) s h =
      subst (λ o. P (reply_of format o s).1) (sym e) (send_line-Keeps text s h)

  -- The line end is stored inside the buffer.
  append_crlf-Keeps : (size at : ℕ) → at ≤ size → Keeps P (append_crlf size at)
  unfolding append_crlf
  append_crlf-Keeps size at inside s h = let fits : leb at size ≡ true = ground arith in rw fits h

  send_own_buf-Keeps :
      (sock : ℤ) (buf : Bytes) (size : ℕ) → length buf ≤ size → Keeps P (send_own_buf sock buf size)
  unfolding send_own_buf
  send_own_buf-Keeps sock buf size inside s h = grind (
    arith,
    frame.call,
    frame.undefined (read_out_of_bounds size),
    append_crlf-Keeps size (length buf) inside s h,
  )

  pub send_reply_own_buf-Keeps :
      (buf : Bytes) (size : ℕ) → length buf ≤ size → Keeps P (send_reply_own_buf buf size)
  unfolding send_reply_own_buf
  send_reply_own_buf-Keeps buf size inside s h = send_own_buf-Keeps _ buf size inside s h

  pub send_reply_own_buf_transfer-Keeps :
      (buf : Bytes) (size : ℕ) → length buf ≤ size → Keeps P (send_reply_own_buf_transfer buf size)
  unfolding send_reply_own_buf_transfer
  send_reply_own_buf_transfer-Keeps buf size inside s h = send_own_buf-Keeps _ buf size inside s h

  -- What `VSFTPServerGetCwd` does with what its `snprintf` made of the working directory.
  printed_cwd :
      (size : ℕ) (o : Option Bytes) (s : Machine K)
      → P s
      → (o ≡ none → Reason (bad_format s.server_data.cwd) s)
      → P
          (elim o as (λ _. M K (Option Bytes)) [
            | none ↦ fault (bad_format s.server_data.cwd) >> pure none
            | some out ↦ pure (if ltb (length out) size then some out else none)
          ]
            s).1
  printed_cwd size none s h r = frame.undefined (bad_format s.server_data.cwd) s h (r refl)
  printed_cwd size (some out) s h r = h

  pub get_cwd-Keeps : (size : ℕ) → Keeps P (get_cwd size)
  unfolding get_cwd
  get_cwd-Keeps size s h =
      let cwd = s.server_data.cwd in
      let n = s.server_data.cwd_len in
      let printed =
        printed_cwd size (expand cwd (num size_t n ∷ [])) s h (λ none_of_it. (refl, none_of_it)) in
      ground arith

  resolved_from : (cwd path : Bytes) → Keeps P (get_real_path cwd path path_len_max)
  resolved_from cwd path = FilesystemKeeps.get_real_path-Keeps frame cwd path path_len_max

  below_root-Keeps : (path : Bytes) → Keeps P (below_root path)
  unfolding below_root
  below_root-Keeps path s h =
      let buf = take path_len_max (s.server_data.root_path ++ c_str path) in
      ground (
        arith,
        resolved_from [] buf s,
        resolved_from [] buf (fault (read_out_of_bounds path_len_max) s).1,
        λ (k : P s). frame.undefined (read_out_of_bounds path_len_max) s k tt,
      )

  relative_to :
      (path : Bytes) (cwd : Option Bytes) (s : Machine K) → P s → P (real_path_from path cwd s).1
  unfolding real_path_from
  relative_to path none s h = h
  relative_to path (some dir) s h = resolved_from dir path s h

  pub server_path_to_real_path-Keeps : (path : Bytes) → Keeps P (server_path_to_real_path path)
  unfolding server_path_to_real_path
  server_path_to_real_path-Keeps path s h = ground (
    arith,
    below_root-Keeps path s,
    relative_to path (get_cwd path_len_max s).0 (get_cwd path_len_max s).1,
    get_cwd-Keeps path_len_max s,
  )

  pub send_round-Keeps : (fd : ℤ) (count : ℕ) → Keeps P (send_round fd count)
  unfolding send_round
  send_round-Keeps fd count s h = grind (arith, frame.call)

  pub send_loop-Keeps : (f : ℕ) (fd : ℤ) (count : ℕ) → Keeps P (send_loop f fd count)
  unfolding send_loop
  send_loop-Keeps zero fd count s h = h
  send_loop-Keeps (suc f) fd zero s h = h
  send_loop-Keeps (suc f) fd (suc count) s h =
      grind (arith, send_round-Keeps fd (suc count) s h, send_loop-Keeps f)

  pub send_file_transfer-Keeps : (path : Bytes) → Keeps P (send_file_transfer path)
  unfolding send_file_transfer
  send_file_transfer-Keeps path s h = grind (
    arith,
    FilesystemKeeps.open_file-Keeps frame,
    FilesystemKeeps.close_file-Keeps frame,
    send_loop-Keeps,
  )

  pub create_passive_socket-Keeps : (a : SockAddr) → Keeps P (create_passive_socket a)
  unfolding create_passive_socket
  create_passive_socket-Keeps a s h = grind (arith, frame.call)

module _ {K : Type 0} ⦃os : Os K⦄ {P : Machine K → Type 0}
    (call : (c : Call) → lists c ≡ false → Keeps P (perform c)) where
  pub shut-Keeps : (sock : ℤ) → Keeps P (shut sock)
  unfolding shut
  shut-Keeps sock s h = grind (arith, call)

module _ {K : Type 0} ⦃os : Os K⦄ {P : Machine K → Type 0} (own : TransferFrame P) where
  pub close_transfer_socket-Keeps : Keeps P close_transfer_socket
  unfolding close_transfer_socket
  close_transfer_socket-Keeps s h =
      own.listening failure _ (shut-Keeps own.frame.call s.server_data.transfer_sock s h)

  pub close_transfer_client_socket-Keeps : Keeps P close_transfer_client_socket
  unfolding close_transfer_client_socket
  close_transfer_client_socket-Keeps s h =
      own.accepted failure _ (shut-Keeps own.frame.call s.server_data.transfer_client_sock s h)

  pub create_transfer_socket-Keeps : (port_num : ℕ) → Keeps P (create_transfer_socket port_num)
  unfolding create_transfer_socket
  create_transfer_socket-Keeps port_num s h =
      grind (arith, own.address, own.listening, create_passive_socket-Keeps own.frame)

  pub accept_transfer_client_connection-Keeps : Keeps P accept_transfer_client_connection
  unfolding accept_transfer_client_connection
  accept_transfer_client_connection-Keeps s h = grind (arith, own.frame.call, own.accepted)

-- What holds of the server's data whatever its transfer sockets are is kept with such a property.
pub TransferFrame-and :
    {K : Type 0} ⦃os : Os K⦄ {P : Machine K → Type 0}
    → TransferFrame P
    → (Q : Server → Type 0) → ((d : Server) (a : SockAddr) → Q d → Q (record d { transfer = a }))
    → ((d : Server) (x : ℤ) → Q d → Q (record d { transfer_sock = x }))
    → ((d : Server) (x : ℤ) → Q d → Q (record d { transfer_client_sock = x }))
    → TransferFrame (λ s. P s × Q s.server_data)
TransferFrame-and own Q qa ql qc = record {
  frame = Frame-and own.frame Q;
  address = λ a s h. (own.address a s h.0, qa s.server_data a h.1);
  listening = λ x s h. (own.listening x s h.0, ql s.server_data x h.1);
  accepted = λ x s h. (own.accepted x s h.0, qc s.server_data x h.1);
}
