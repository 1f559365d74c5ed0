-- ===== src/Tests/Refusal.antt =====
-- An environment where a peer connects for a file on the socket 5 and takes nothing.
use vs_ftp.Common.{
  ◌<◌, ◌≡◌, refl, pos, failure, success, List, [], ◌∷◌, ◌++◌, ◌==◌, arith, length, if◌then◌else◌,
}
use vs_ftp.Libc.{Bytes, codes, c_str, crlf, strncpy}
use vs_ftp.Os.{Call, Answer, Os}
use vs_ftp.Machine.{Event, did, Machine, perform}
use vs_ftp.Filesystem.{slash, is_file, is_abs_path, resolve, get_real_path}
use vs_ftp.Server.Paths.{below_root, server_path_to_real_path}
use vs_ftp.Commands.Handlers.{Located, located, locate, local_error, command_retr}
use vs_ftp.Commands.Transfers.{NoTransfer}
use vs_ftp.Commands.Broken.{Breaks, command_retr-aborts}
use vs_ftp.Tests.Wire.{Wire}
use vs_ftp.Tests.Post.{plain, post_answer, office-IsQuiet, waiting}

-- What is written to the peer is not taken.
abbrev refuse : Call → Answer → Answer
refuse (Call.write (pos n) b) a = if n == 5 then plain failure 0 [] else a
refuse c a = a

instance abbrev deaf : Os Wire
deaf = record {
  answer = λ c w. let (a, v) = post_answer c w in (refuse c a, v);
  entries = λ p w. 0;
}

deaf-Breaks :
    (path : Bytes) → Breaks deaf path (pos 4) (pos 5) (pos 6) (λ w. w.content) (λ w. w.received)
deaf-Breaks path = record {
  file = record {
    quiet = office-IsQuiet;
    accessible = λ k. refl;
    opens = λ k. refl;
    opened = refl;
    measures = λ k. (refl, refl);
  };
  connects = record {
    quiet = λ c w q. let (a, b) = office-IsQuiet c w q in rw a (rw b refl);
    accepts = λ listener k. refl;
    accepted = refl;
    apart = λ e. ground (arith, e);
    tells = λ b k. refl;
  };
  reads = λ n k. refl;
  breaks = λ b k. refl;
}

-- The argument `/f` is the file `/srv/f`.
abbrev file : Located × Machine Wire
file = locate (codes "/f") waiting

found :
    (file.0.retval ≡ success)
    × (file.0.real_path ≡ codes "/srv/f")
    × (0 < length file.1.kernel.content)
unfolding locate located server_path_to_real_path below_root get_real_path resolve is_abs_path
    is_file c_str strncpy perform
found = (refl, refl, omega arith)

command_retr-aborts_example :
    let u = (command_retr (codes "/f") waiting).1 in
    NoTransfer u.server_data
    × (a : Answer) × (before : List Event) × (u.log
        ≡ did (Call.write (pos 6) (local_error ++ crlf)) a ∷ before)
command_retr-aborts_example =
    command_retr-aborts slash (codes "srv/f") (deaf-Breaks (c_str (codes "/srv/f"))) (codes "/f")
      waiting found.0 found.1 refl refl (omega arith) found.2
