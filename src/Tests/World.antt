-- ===== src/Tests/World.antt =====
-- A small environment: a client that sends requests, one file, and one directory.
pub mod Promises
use vs_ftp.Common.{
  ℕ, ◌+◌, ℤ, true, false, pos, negsuc, success, failure, Bool, List, [], ◌∷◌, ◌==◌, if◌then◌else◌,
  length, take, drop,
}
use vs_ftp.Libc.{Bytes, codes}
use vs_ftp.Os.{Call, Answer, FileKind, directory, regular, Os}
use vs_ftp.Machine.{Machine, zeroed}

-- What is still to come: requests, directory entries, bytes of the file; and the next descriptor.
pub record World : Type 0 where
  pub requests : List Bytes
  pub names : List Bytes
  pub content : Bytes
  pub next : ℕ

abbrev pub answer_of : ℤ → Bytes → FileKind → ℕ → Answer
answer_of r b k n = record { ret = r; bytes = b; errno = 0; kind = k; size = n }

abbrev number : ℤ → Answer
number r = answer_of r [] directory 0

-- The descriptor of the file.
abbrev pub file_fd : ℕ
file_fd = 100

abbrev pub has_byte : ℕ → Bytes → Bool
has_byte c [] = false
has_byte c (d ∷ s) = if c == d then true else has_byte c s

-- A path with a dot names the file, any other the directory.
abbrev kind_of : Bytes → FileKind
kind_of p = if has_byte b'.' p then regular else directory

abbrev pub read_request : List Bytes → ℕ → World → Answer × World
read_request [] size w = (number success, w)
read_request (r ∷ rs) size w =
    (answer_of (pos (length (take size r))) (take size r) directory 0, record w { requests = rs })

abbrev read_name : List Bytes → World → Answer × World
read_name [] w = (number failure, w)
read_name (n ∷ ns) w = (answer_of success n directory 0, record w { names = ns })

abbrev read_from : ℤ → ℕ → World → Answer × World
read_from (negsuc n) size w = (number failure, w)
read_from (pos n) size w =
    if n == file_fd
    then (
      answer_of (pos (length (take size w.content))) (take size w.content) regular 0,
      record w { content = drop size w.content },
    )
    else read_request w.requests size w

-- Every path is real but those with a `%`, which do not exist.
abbrev pub real_path : Bytes → Answer
real_path p = if has_byte b'%' p then number failure else answer_of success p directory 0

abbrev take_fd : World → Answer × World
take_fd w = (number (pos w.next), record w { next = w.next + 1 })

abbrev pub world_answer : Call → World → Answer × World
world_answer Call.socket w = take_fd w
world_answer (Call.accept s) w = take_fd w
world_answer (Call.read s n) w = read_from s n w
world_answer (Call.write s b) w = (number (pos (length b)), w)
world_answer (Call.open_file p) w = (number (pos file_fd), w)
world_answer (Call.fstat s) w = (answer_of success [] regular (length w.content), w)
world_answer (Call.stat p) w = (answer_of success [] (kind_of p) (length w.content), w)
world_answer (Call.realpath p) w = (real_path p, w)
world_answer (Call.opendir p) w = (number (pos 7), w)
world_answer (Call.readdir d) w = read_name w.names w
world_answer (Call.inet_pton p) w = (number (pos 1), w)
world_answer _ w = (number success, w)

instance abbrev pub world : Os World
world = record { answer = world_answer; entries = λ p w. length w.names }

-- The file's content, the directory's entries, and what the client will send.
abbrev pub booted : List Bytes → Machine World
booted requests = record {
  server_data = zeroed;
  errno = 0;
  kernel = record {
    requests = requests;
    names = codes "." ∷ codes "a.txt" ∷ [];
    content = codes "hello";
    next = 3;
  };
  log = [];
}
