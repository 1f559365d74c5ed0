-- ===== src/Tests/Serving.antt =====
-- The theorems about the server while it serves a client, at concrete inputs.
use vs_ftp.Common.{
  ℕ, get_or, ◌≡◌, refl, pos, failure, success, true, false, some, List, [], ◌∷◌, ◌++◌, arith, drop,
  ◌⊎◌, ◌≢◌,
}
use vs_ftp.Libc.{Bytes, codes, crlf, strncmp_eq}
use vs_ftp.Os.{Answer, directory, Os}
use vs_ftp.Machine.{Server, Machine, zeroed}
use vs_ftp.Server.Reply.Answers.{Replied}
use vs_ftp.Commands.{commands_parse}
use vs_ftp.Commands.Codes.{answer_codes}
use vs_ftp.Commands.Replies.{commands_parse-Replied}
use vs_ftp.Filesystem.{is_abs_path}
use vs_ftp.Server.Paths.{real_path_to_server_path, server_path_to_real_path}
use vs_ftp.Server.Paths.RoundTrip.{server_path_to_real_path-shown}
use vs_ftp.Loop.{handler}
use vs_ftp.Loop.Answers.{IsRequest, handler-Replied}
use vs_ftp.Loop.Errors.{handler-failed_read}
use vs_ftp.Main.{serve, handler_failed}
use vs_ftp.Machine.{Event, did, perform}
use vs_ftp.Os.{Call}
use vs_ftp.Commands.Handlers.{command_pwd, command_cwd, command_user, command_type}
use vs_ftp.Server.Paths.Places.{IsPlace, visiting}
use vs_ftp.Commands.Visit.{command_cwd-shown}
use vs_ftp.Commands.Mode.{IsLetter, in_mode, command_type-decides}
use vs_ftp.Commands.Login.{anonymous, told, command_user-decides}
use vs_ftp.Server.Sockets.{client_disconnect}
use vs_ftp.Server.Sockets.Closing.{disconnected}
use vs_ftp.Loop.{wait_for_incoming_connection}
use vs_ftp.Loop.Arrival.{arrived, wait_for_incoming_connection-fresh}
use vs_ftp.Commands.Tells.{command_pwd-tells}
use vs_ftp.Server.Paths.Relative.{server_path_to_real_path-relative}
use vs_ftp.Main.Unread.{serve-failed_read}
use vs_ftp.Server.Sockets.Closing.{stopped}
use vs_ftp.Main.Exit.{IsClosed, Reaches, round, serve-IsClosed}
use vs_ftp.Tests.World.{World, world, booted}

-- A client is connected.
abbrev serving : Server
serving = record zeroed {
  client_sock = pos 5;
  is_connected = true;
  is_server_socket_created = true;
}

-- The client sends the requests.
abbrev visited : List Bytes → Machine World
visited requests = record (booted requests) { server_data = serving }

-- An environment where every call fails, because it would block.
abbrev refused : Answer
refused = record { ret = failure; bytes = []; errno = 11; kind = directory; size = 0 }

instance abbrev refusing : Os (Unit {0})
refusing = record { answer = λ c k. (refused, k); entries = λ p k. 0 }

abbrev blocked : Machine (Unit {0})
blocked = record { server_data = serving; errno = 0; kernel = tt; log = [] }

commands_parse-Replied_example :
    Replied
      (answer_codes (codes "PWD"))
      (pos 5)
      []
      (commands_parse (codes "PWD") (visited [])).1.log
commands_parse-Replied_example = commands_parse-Replied (codes "PWD") (visited [])

complete_line : IsRequest (codes "PWD" ++ crlf)
unfolding strncmp_eq
complete_line = (omega arith, refl)

handler-Replied_example :
    Replied
      (answer_codes (codes "PWD"))
      (pos 5)
      []
      (handler (visited ((codes "PWD" ++ crlf) ∷ []))).1.log
handler-Replied_example =
    handler-Replied (visited ((codes "PWD" ++ crlf) ∷ [])) refl refl refl complete_line

serve-failed_read_example :
    let (r, t) = serve (false ∷ []) blocked in
    let d = (handler blocked).1.server_data in
    (r ≡ some failure)
    × IsClosed t.server_data
    × (((refused.errno ≡ 11) × (d ≡ serving)) ⊎ ((refused.errno ≢ 11) × (d ≡ stopped serving)))
serve-failed_read_example = serve-failed_read false [] blocked refl refl refl

ended : (serve (false ∷ []) blocked).0 ≡ some failure
unfolding serve handler_failed
ended = rw ((handler-failed_read blocked refl refl refl).0) refl

serve-IsClosed_example :
    IsClosed (serve (false ∷ []) blocked).1.server_data
    × ((n : ℕ) × Reaches n (false ∷ []) blocked
        × ((handler (round n blocked)).0 ≡ failure)
        × ((failure ≢ success) ⊎ (get_or (drop n (false ∷ [])) 0 false ≡ true)))
serve-IsClosed_example = serve-IsClosed (false ∷ []) blocked failure ended

-- The root path is a directory of its own, below which the client sees `/pub`.
abbrev rooted_at : Machine World
rooted_at = record (booted []) {
  server_data = record zeroed { root_path = codes "/srv"; root_path_len = 4 };
}

relative : is_abs_path (codes "a") ≡ failure
unfolding is_abs_path
relative = refl

absolute : is_abs_path (codes "/srv/pub") ≡ success
unfolding is_abs_path
absolute = refl

-- The working directory is `/srv/pub`, which the client sees as `/pub`.
abbrev in_pub : Machine World
in_pub = record rooted_at {
  server_data = record rooted_at.server_data {
    client_sock = pos 5;
    cwd = codes "/srv/pub";
    cwd_len = 8;
  };
}

server_path_to_real_path-relative_example :
    server_path_to_real_path (codes "a") in_pub ≡ server_path_to_real_path (codes "/pub/a") in_pub
server_path_to_real_path-relative_example =
    server_path_to_real_path-relative (codes "pub") (codes "a") in_pub refl refl absolute
      (ground arith) (ground arith) (ground arith) (omega arith) relative (omega arith)

command_pwd-tells_example :
    (command_pwd [] in_pub).1
    ≡ (perform (Call.write (pos 5) (codes "257 \"" ++ codes "/pub" ++ codes "\"" ++ crlf)) in_pub).1
command_pwd-tells_example =
    command_pwd-tells [] (codes "pub") in_pub refl refl (omega arith) (ground arith) (ground arith)

server_path_to_real_path-shown_example :
    (shown : Bytes) × (real_path_to_server_path rooted_at.server_data (codes "/srv/pub") 8
      ≡ some shown)
    × ((server_path_to_real_path shown rooted_at).0 ≡ some (codes "/srv/pub"))
server_path_to_real_path-shown_example =
    server_path_to_real_path-shown (codes "pub") rooted_at absolute (ground arith) (omega arith)
      (refl, refl)

srv_pub-IsPlace : IsPlace world (codes "/srv/pub")
srv_pub-IsPlace = record { canonical = λ k. (refl, refl); is_directory = λ k. refl }

command_cwd-shown_example :
    let t = (command_cwd (codes "/pub") rooted_at).1 in
    (t.server_data ≡ visiting (codes "/srv/pub") rooted_at.server_data)
    × ((command_pwd [] t).1
        ≡ (perform
            (Call.write t.server_data.client_sock
              (codes "257 \"" ++ codes "/pub" ++ codes "\"" ++ crlf))
            t).1)
command_cwd-shown_example =
    command_cwd-shown (codes "pub") rooted_at srv_pub-IsPlace absolute (ground arith) (omega arith)
      refl (ground arith) []

command_user-decides_example :
    ((codes "root" ≡ anonymous)
      × ((command_user (codes "root") in_pub).1
          ≡ told (codes "230 User logged in, proceed.") in_pub))
    ⊎ ((codes "root" ≢ anonymous)
        × ((command_user (codes "root") in_pub).1
            ≡ (client_disconnect (told (codes "530 Login incorrect.") in_pub)).1)
        × ((command_user (codes "root") in_pub).1.server_data ≡ disconnected in_pub.server_data))
command_user-decides_example = command_user-decides (codes "root") in_pub

srv-IsPlace : IsPlace world (codes "/srv")
srv-IsPlace = record { canonical = λ k. (refl, refl); is_directory = λ k. refl }

srv_absolute : is_abs_path (codes "/srv") ≡ success
unfolding is_abs_path
srv_absolute = refl

-- The first client has left its directory `/srv/pub` behind.
wait_for_incoming_connection-fresh_example :
    let (r, t) = wait_for_incoming_connection in_pub in
    (r ≡ success)
    × (t.server_data ≡ arrived (pos 3) in_pub.server_data)
    × (a : Answer) × (before : List Event) × (t.log
        ≡ did (Call.write (pos 3) (codes "220 Service ready for new user." ++ crlf)) a ∷ before)
wait_for_incoming_connection-fresh_example =
    wait_for_incoming_connection-fresh in_pub refl srv-IsPlace srv_absolute (ground arith)
      (omega arith) refl (λ b k. refl)

command_type-decides_example :
    let x = command_type (codes "a") in_pub in
    (IsLetter b'I' b'i' (codes "a")
      × (x ≡ (success, in_mode true (told (codes "200 Switching to Binary mode.") in_pub))))
    ⊎ (IsLetter b'A' b'a' (codes "a")
        × (x ≡ (success, in_mode false (told (codes "200 Switching to ASCII mode.") in_pub))))
    ⊎ ((¬ (IsLetter b'I' b'i' (codes "a") ⊎ IsLetter b'A' b'a' (codes "a")))
        × (x ≡ (success, told (codes "504 Command not implemented for that parameter.") in_pub)))
command_type-decides_example = command_type-decides (codes "a") in_pub (λ b. refl)
