-- ===== src/Tests/Folder.antt =====
-- A directory and a peer: the entries that are still to be read, and the lines that the peer
-- of the transfer, on the socket 5, got.
use vs_ftp.Common.{
  ℕ, negsuc, ◌==◌, if◌then◌else◌, refl, ℤ, pos, success, failure, List, [], ◌∷◌, ◌++◌, All, arith,
  length,
}
use vs_ftp.Libc.{Bytes, codes, c_str}
use vs_ftp.Os.{Call, Answer, directory, Os}
use vs_ftp.Machine.{Machine, zeroed}
use vs_ftp.Commands.Streams.{Streams, FitsLine}

pub record Folder : Type 0 where
  pub names : List Bytes
  pub received : List Bytes

abbrev reply : ℤ → Bytes → Answer
reply r b = record { ret = r; bytes = b; errno = 0; kind = directory; size = 0 }

abbrev next_entry : List Bytes → Folder → Answer × Folder
next_entry [] f = (reply failure [], f)
next_entry (n ∷ ns) f = (reply success n, record f { names = ns })

abbrev pub take_line : Bytes → ℕ → Folder → Folder
take_line b n f = if n == 5 then record f { received = f.received ++ b ∷ [] } else f

abbrev pub folder_answer : Call → Folder → Answer × Folder
folder_answer (Call.opendir p) f = (reply (pos 7) [], f)
folder_answer (Call.readdir d) f = next_entry f.names f
folder_answer (Call.write (pos n) b) f = (reply (pos (length b)) [], take_line b n f)
folder_answer (Call.write (negsuc n) b) f = (reply (pos (length b)) [], f)
folder_answer (Call.accept listener) f = (reply (pos 5) [], f)
folder_answer (Call.realpath p) f = (reply success p, f)
folder_answer _ f = (reply success [], f)

instance abbrev pub folder : Os Folder
folder = record { answer = folder_answer; entries = λ p f. length f.names }

pub folder-Streams : Streams folder 7 (pos 5) (λ f. f.names) (λ f. f.received)
folder-Streams = record {
  entry = λ n ns k e. rw e (refl, refl, refl, refl);
  ended = λ k e. rw e (refl, refl);
  opens = λ p k. (refl, refl, refl);
  counted = λ p k. refl;
  closes = λ k. refl;
  writes = λ b k. (refl, refl, refl);
}

-- A listing of these entries to a peer at socket 5.
abbrev pub listing : List Bytes → Machine Folder
listing names = record {
  server_data = record zeroed { transfer_client_sock = pos 5 };
  errno = 0;
  kernel = record { names = names; received = [] };
  log = [];
}

pub dots-FitsLine : All (λ n. FitsLine (c_str n)) (codes "." ∷ codes ".." ∷ [])
unfolding c_str
dots-FitsLine = ((omega arith, omega arith), ((omega arith, omega arith), tt))
