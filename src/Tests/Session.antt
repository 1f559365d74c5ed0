-- ===== src/Tests/Session.antt =====
-- A client that gives PASV and then RETR, in the environment of a retrieval.
use mathlib.Core.List.{Memᴰ}
use vs_ftp.Common.{
  get_or, ap, length-append, false, is_invalid, ◌≢◌, ◌⊎◌, ◌<◌, ◌^◌, ◌≡◌, refl, pos, failure,
  success, List, [], ◌∷◌, ◌++◌, arith, length,
}
use vs_ftp.Libc.{Bytes, codes, c_str, crlf, strncpy, strncmp_eq}
use vs_ftp.Libc.Decimal.{decimal}
use vs_ftp.Libc.Format.{expand}
use vs_ftp.Os.{Call, Answer}
use vs_ftp.Machine.{Event, did, Machine, perform}
use vs_ftp.Filesystem.{slash, is_file, is_abs_path, resolve, get_real_path}
use vs_ftp.Server.Paths.{below_root, server_path_to_real_path}
use vs_ftp.Commands.{entry, pwd, dispatch, commands_parse, run_entry, find, argument}
use vs_ftp.Commands.Handlers.{located, locate, command_pasv, pasv_address, pasv_reply, to_commas}
use vs_ftp.Server.Sockets.{
  shut, create_passive_socket, prepare_socket, create_transfer_socket, close_transfer_socket,
  close_transfer_client_socket,
}
use vs_ftp.Server.Transfer.{get_server_ip4, receive_own_sock}
use vs_ftp.Server.Reply.{send, send_line, send_reply}
use vs_ftp.Commands.Passive.{Listens, passive, command_pasv-listens}
use vs_ftp.Commands.Requests.{commands_parse-runs}
use vs_ftp.Loop.{
  handler, handle_connection, handle_received, handle_bytes, handle_request, terminate_buffer,
}
use vs_ftp.Loop.{request_len_max, stop_unless_blocked}
use vs_ftp.Loop.Fragments.{handler-fragments}
use vs_ftp.Server.Sockets.Closing.{stopped}
use vs_ftp.Loop.Session.{Requested, next_line, handler-transfers}
use vs_ftp.Tests.Wire.{Wire}
use vs_ftp.Tests.Post.{office, office-Meets, waiting}

office-Listens : Listens office (pos 3)
office-Listens = record {
  creates = λ k. refl;
  created = refl;
  unblocks = λ k. refl;
  reuses = λ k. refl;
  binds = λ port k. refl;
  listens = λ k. refl;
}

-- The client is connected, and no socket for transfers is open.
abbrev idle : Machine Wire
idle = record waiting {
  server_data = record waiting.server_data {
    ip_addr = codes "127.0.0.1";
    ip_addr_len = 9;
    transfer_sock = failure;
    transfer_client_sock = failure;
  };
}

abbrev view : Wire → Bytes × Bytes
view w = (w.content, w.received)

command_pasv-listens_example :
    let (r, t) = command_pasv [] idle in
    (r ≡ success)
    × (view t.kernel ≡ view idle.kernel)
    × (t.server_data ≡ passive (pos 3) idle.server_data)
    × (a : Answer) × (before : List Event) × (t.log
        ≡ did
            (Call.write (pos 6) (
              (codes "227 Entering Passive Mode ("
                ++ to_commas (codes "127.0.0.1")
                ++ codes ",156,64).")
              ++ crlf))
            a
          ∷ before)
command_pasv-listens_example =
    command_pasv-listens ((office-Meets []).connects) office-Listens [] idle refl (ground arith)
      (omega arith)

-- The client sends the two lines, after which the argument `/f` is the file `/srv/f`.
abbrev asking : Machine Wire
asking = record idle {
  kernel = record idle.kernel {
    requests = (codes "PASV" ++ crlf) ∷ ((codes "RETR " ++ codes "/f") ++ crlf) ∷ [];
  };
}

asks_pasv : Requested (codes "PASV") asking
unfolding perform
asks_pasv = record { created = refl; connected = refl; read = refl; line = refl }

abbrev in_passive_mode : Machine Wire
in_passive_mode = (handler asking).1

-- What the handler leaves for the second line.
after_pasv :
    Requested (codes "RETR " ++ codes "/f") in_passive_mode
    × ((locate (codes "/f") (next_line in_passive_mode).1).0.retval ≡ success)
    × ((locate (codes "/f") (next_line in_passive_mode).1).0.real_path ≡ codes "/srv/f")
    × (length (locate (codes "/f") (next_line in_passive_mode).1).1.kernel.content < 2 ^ 64)
unfolding locate located server_path_to_real_path below_root get_real_path resolve is_abs_path
    is_file c_str strncpy perform commands_parse run_entry find argument dispatch strncmp_eq
    command_pasv pasv_address pasv_reply to_commas shut create_passive_socket prepare_socket
    create_transfer_socket close_transfer_socket close_transfer_client_socket get_server_ip4 send
    send_line send_reply expand decimal handler handle_connection handle_received handle_bytes
    handle_request terminate_buffer receive_own_sock
after_pasv =
    (record { created = refl; connected = refl; read = refl; line = refl }, refl, refl, omega arith)

handler-transfers_example :
    let (q, t) = handler asking in
    let v = (locate (codes "/f") (next_line t).1).1 in
    let (r, u) = handler t in
    (q ≡ success)
    × (t.server_data ≡ passive (pos 3) asking.server_data)
    × (r ≡ success)
    × (u.kernel.received ≡ v.kernel.received ++ v.kernel.content)
    × (a : Answer) × (before : List Event) × (u.log
        ≡ did (Call.write (pos 6) (codes "226 Transfer Complete." ++ crlf)) a ∷ before)
handler-transfers_example =
    handler-transfers slash (codes "srv/f") (office-Meets (c_str (codes "/srv/f"))) office-Listens
      (codes "/f") asking refl (ground arith) (omega arith) (omega arith) asks_pasv after_pasv.0
      after_pasv.1 after_pasv.2 after_pasv.3

commands_parse-runs_example :
    (commands_parse (codes "PWD") idle ≡ dispatch pwd [] idle)
    × (commands_parse (codes "PWD" ++ b' ' ∷ codes "x") idle ≡ dispatch pwd (codes "x") idle)
commands_parse-runs_example =
    commands_parse-runs (entry "PWD" pwd) b' ' (codes "x") idle
      (Memᴰ.tail (Memᴰ.tail (Memᴰ.tail (Memᴰ.tail (Memᴰ.head refl)))))

-- A request comes in two pieces.
abbrev in_pieces : Machine Wire
in_pieces = record idle {
  kernel = record idle.kernel { requests = codes "PW" ∷ (codes "D" ++ crlf) ∷ [] };
}

no_line : (line : Bytes) → codes "PW" ≢ line ++ crlf
no_line [] e = absurd (omega (arith, ap (λ b. get_or b 0 0) e))
no_line (c ∷ line) e = absurd (omega (arith, ap length e, length-append line crlf))

second_piece :
    let (b, u) = perform (Call.read (pos 6) request_len_max) (handler in_pieces).1 in
    (is_invalid b.ret ≡ false) × (b.bytes ≡ codes "D" ++ crlf)
unfolding handler handle_connection handle_received handle_bytes terminate_buffer receive_own_sock
    strncmp_eq stop_unless_blocked perform
second_piece = (refl, refl)

handler-fragments_example :
    let a = (office.answer (Call.read (pos 6) request_len_max) in_pieces.kernel).0 in
    let (r, t) = handler in_pieces in
    let (b, u) = perform (Call.read (pos 6) request_len_max) t in
    (r ≡ success)
    × (((a.errno ≡ 11)
          × (t.server_data ≡ in_pieces.server_data)
          × (handler t ≡ handle_request (codes "D") u))
        ⊎ ((a.errno ≢ 11) × (t.server_data ≡ stopped in_pieces.server_data)))
handler-fragments_example =
    handler-fragments (codes "D") in_pieces refl refl refl (omega arith) no_line (omega arith)
      (omega arith) second_piece.0 second_piece.1
