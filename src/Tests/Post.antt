-- ===== src/Tests/Post.antt =====
-- An environment where a client retrieves a file: the file is opened as 4, the peer of the transfer
-- is on the socket 5, and the client on any other; it is the socket 6 that requests are read from.
use vs_ftp.Common.{
  ◌%◌, ◌⊎◌, ◌<◌, ◌^◌, List, ◌≡◌, ◌≢◌, refl, ap, ℕ, ℤ, pos, negsuc, success, Bool-cases, inl, inr,
  true, [], ◌∷◌, ◌++◌, ◌==◌, arith, length, take, drop, if◌then◌else◌,
}
use vs_ftp.Libc.{Bytes, codes, c_str, crlf, strncpy}
use vs_ftp.Os.{Call, Answer, regular, Os}
use vs_ftp.Machine.{Event, did, Machine, zeroed, perform}
use vs_ftp.Filesystem.{slash, is_file, is_abs_path, resolve, get_real_path}
use vs_ftp.Server.Paths.{below_root, server_path_to_real_path}
use vs_ftp.Machine.Handles.{Handle, Used, opened, closed}
use vs_ftp.Server.Transfer.{send_file_transfer}
use vs_ftp.Server.Transfer.Closes.{send_file_transfer-closes}
use vs_ftp.Server.Transfer.WholeFile.{IsQuiet, Offers}
use vs_ftp.Commands.Size.{Announced, not_found, command_size-announces}
use vs_ftp.Commands.Login.{told}
use vs_ftp.Commands.Handlers.{local_error, command_size, Located, located, locate, command_retr}
use vs_ftp.Commands.Retrieval.{Meets, command_retr-delivers}
use vs_ftp.Tests.Wire.{Wire}

abbrev pub plain : ℤ → ℕ → Bytes → Answer
plain r n b = record { ret = r; bytes = b; errno = 11; kind = regular; size = n }

abbrev post : Bytes → ℕ → Wire → Wire
post b n w = if n == 5 then record w { received = w.received ++ b } else w

abbrev read_file : ℕ → Wire → Answer × Wire
read_file n w = (
  plain (pos (length (take n w.content))) 0 (take n w.content),
  record w { content = drop n w.content },
)

abbrev take_request : List Bytes → Wire → Answer × Wire
take_request [] w = (plain success 0 [], w)
take_request (b ∷ bs) w = (plain (pos (length b)) 0 b, record w { requests = bs })

abbrev pub post_answer : Call → Wire → Answer × Wire
post_answer (Call.read (pos fd) n) w = if fd == 6 then take_request w.requests w else read_file n w
post_answer (Call.read (negsuc fd) n) w = read_file n w
post_answer (Call.write (pos n) b) w = (plain (pos (length b)) 0 [], post b n w)
post_answer (Call.write (negsuc n) b) w = (plain (pos (length b)) 0 [], w)
post_answer (Call.accept listener) w = (plain (pos 5) 0 [], w)
post_answer Call.socket w = (plain (pos 3) 0 [], w)
post_answer (Call.open_file p) w = (plain (pos 4) 0 [], w)
post_answer (Call.fstat fd) w = (plain success (length w.content) [], w)
post_answer (Call.realpath p) w = (plain success 0 p, w)
post_answer (Call.stat p) w = (plain success (length w.content) [], w)
post_answer _ w = (plain success 0 [], w)

instance abbrev pub office : Os Wire
office = record { answer = post_answer; entries = λ p w. 0 }

abbrev pub Same : Wire → Wire → Type 0
Same w v = (v.content ≡ w.content) × (v.received ≡ w.received)

other_write : (n : ℕ) (b : Bytes) (w : Wire) → pos n ≢ pos 5 → Same w (post b n w)
other_write n b w h = elim (Bool-cases (n == 5)) [
  | inl e ↦ absurd (h (ap pos (ground (arith, e))))
  | inr e ↦ rw e (refl, refl)
]

pub office-IsQuiet : (c : Call) (w : Wire) → IsQuiet (pos 5) c → Same w (post_answer c w).1
office-IsQuiet (Call.read f n) w q = elim q [ ]
office-IsQuiet (Call.write (pos n) b) w q = other_write n b w q
office-IsQuiet (Call.write (negsuc n) b) w q = (refl, refl)
office-IsQuiet Call.socket w q = (refl, refl)
office-IsQuiet (Call.fcntl_getfl s) w q = (refl, refl)
office-IsQuiet (Call.fcntl_setfl s) w q = (refl, refl)
office-IsQuiet (Call.set_reuse_port s) w q = (refl, refl)
office-IsQuiet (Call.listen s) w q = (refl, refl)
office-IsQuiet (Call.accept s) w q = (refl, refl)
office-IsQuiet (Call.shutdown s) w q = (refl, refl)
office-IsQuiet (Call.close s) w q = (refl, refl)
office-IsQuiet (Call.fstat s) w q = (refl, refl)
office-IsQuiet (Call.bind s n) w q = (refl, refl)
office-IsQuiet (Call.access p) w q = (refl, refl)
office-IsQuiet (Call.open_file p) w q = (refl, refl)
office-IsQuiet (Call.stat p) w q = (refl, refl)
office-IsQuiet (Call.realpath p) w q = (refl, refl)
office-IsQuiet (Call.opendir p) w q = (refl, refl)
office-IsQuiet (Call.inet_pton p) w q = (refl, refl)
office-IsQuiet (Call.readdir d) w q = elim q [ ]
office-IsQuiet (Call.closedir d) w q = (refl, refl)
office-IsQuiet (Call.print t) w q = (refl, refl)

office-Offers :
    (path : Bytes) → Offers office path (pos 4) (pos 5) (λ w. w.content) (λ w. w.received)
office-Offers path = record {
  reliable = record { reads = λ n k. (refl, refl, refl, refl); writes = λ b k. (refl, refl, refl) };
  file = record {
    quiet = office-IsQuiet;
    accessible = λ k. refl;
    opens = λ k. refl;
    opened = refl;
    measures = λ k. (refl, refl);
  };
}

pub office-Meets :
    (path : Bytes) → Meets office path (pos 4) (pos 5) (pos 6) (λ w. w.content) (λ w. w.received)
office-Meets path = record {
  offers = office-Offers path;
  connects = record {
    quiet = λ c w q. let (a, b) = office-IsQuiet c w q in rw a (rw b refl);
    accepts = λ listener k. refl;
    accepted = refl;
    apart = λ e. ground (arith, e);
    tells = λ b k. refl;
  };
}

-- The client is connected and has given PASV.
abbrev pub waiting : Machine Wire
waiting = record {
  server_data = record zeroed {
    root_path = codes "/srv";
    root_path_len = 4;
    client_sock = pos 6;
    transfer_sock = pos 3;
    is_connected = true;
    is_server_socket_created = true;
  };
  errno = 0;
  kernel = record { content = codes "hello"; received = []; requests = [] };
  log = [];
}

-- A transfer that the peer has connected for.
abbrev connected : Machine Wire
connected = record waiting {
  server_data = record waiting.server_data { transfer_client_sock = pos 5 };
}

-- The argument `/f` is the file `/srv/f`.
abbrev file : Located × Machine Wire
file = locate (codes "/f") waiting

found : (file.0.retval ≡ success) × (file.0.real_path ≡ codes "/srv/f")
unfolding locate located server_path_to_real_path below_root get_real_path resolve is_abs_path
    is_file c_str strncpy perform
found = (refl, refl)

short_content : length file.1.kernel.content < 2 ^ 64
unfolding locate located server_path_to_real_path below_root get_real_path resolve is_abs_path
    is_file c_str strncpy perform
short_content = omega arith

command_retr-delivers_example :
    let (r, u) = command_retr (codes "/f") waiting in
    (r ≡ success)
    × (u.kernel.received ≡ file.1.kernel.received ++ file.1.kernel.content)
    × (a : Answer) × (before : List Event) × (u.log
        ≡ did (Call.write (pos 6) (codes "226 Transfer Complete." ++ crlf)) a ∷ before)
command_retr-delivers_example =
    command_retr-delivers slash (codes "srv/f") (office-Meets (c_str (codes "/srv/f"))) (codes "/f")
      waiting found.0 found.1 refl refl (omega arith) short_content

command_size-announces_example :
    let (f, t) = locate (codes "/f") waiting in
    let (a, u) = perform (Call.stat (c_str f.real_path)) t in
    let x = (command_size (codes "/f") waiting).1 in
    ((f.retval ≡ success)
      × (a.ret ≡ success)
      × (text : Bytes) × Announced (a.size % 2 ^ 64) text
      × (x ≡ told text u))
    ⊎ ((f.retval ≡ success) × (a.ret ≢ success) × (x ≡ told local_error u))
    ⊎ ((f.retval ≢ success)
        × (x ≡ told (if length (codes "/f") == 0 then local_error else not_found) t))
command_size-announces_example = command_size-announces (codes "/f") waiting

send_file_transfer-closes_example :
    let t = (send_file_transfer (codes "/srv/f") connected).1 in
    (hs : List Handle) × Used (hs ++ opened connected.log) (hs ++ closed connected.log) t
send_file_transfer-closes_example = send_file_transfer-closes (codes "/srv/f") connected
