-- ===== src/Tests/Listings.antt =====
-- A client that lists a directory: the peer of the transfer is on the socket 5, the client on 6.
use vs_ftp.Common.{
  map, false, is_zero, ◌⊎◌, Option, some, All, length, ◌+◌, ◌<◌, ◌≡◌, ◌≢◌, refl, ap, ℕ, pos, negsuc,
  success, Bool-cases, inl, inr, true, List, [], ◌∷◌, ◌++◌, ◌==◌, arith,
}
use vs_ftp.Libc.{Bytes, codes, c_str, crlf}
use vs_ftp.Os.{Call, Answer}
use vs_ftp.Machine.{Event, did, Machine}
use vs_ftp.Server.Transfer.WholeFile.{IsQuiet}
use vs_ftp.Commands.Handlers.{nlst_all, command_nlst, nlst_path, nlst_dir, checked_dir}
use vs_ftp.Commands.Shown.{entry_path}
use vs_ftp.Libc.{strncpy}
use vs_ftp.Libc.Format.{expand}
use vs_ftp.Machine.{perform}
use vs_ftp.Machine.Handles.{Handle, opened, closed}
use vs_ftp.Filesystem.{path_len_max, is_dir, resolve, get_real_path, is_abs_path}
use vs_ftp.Server.Paths.{
  same_bytes, abs_path_is_not_above_root_path, below_root, server_path_to_real_path, get_cwd,
}
use vs_ftp.Commands.Closes.{nlst_all-closes}
use vs_ftp.Commands.Entries.{lines_then_last}
use vs_ftp.Commands.Directory.{Shows, command_nlst-delivers, command_nlst-lists}
use vs_ftp.Tests.Folder.{
  Folder, take_line, folder_answer, folder, folder-Streams, listing, dots-FitsLine,
}

abbrev view : Folder → List Bytes × List Bytes
view f = (f.names, f.received)

other_line : (n : ℕ) (b : Bytes) (f : Folder) → pos n ≢ pos 5 → view (take_line b n f) ≡ view f
other_line n b f h = elim (Bool-cases (n == 5)) [
  | inl e ↦ absurd (h (ap pos (ground (arith, e))))
  | inr e ↦ rw e refl
]

folder-IsQuiet : (c : Call) (f : Folder) → IsQuiet (pos 5) c → view (folder_answer c f).1 ≡ view f
folder-IsQuiet (Call.read fd n) f q = elim q [ ]
folder-IsQuiet (Call.readdir d) f q = elim q [ ]
folder-IsQuiet (Call.write (pos n) b) f q = other_line n b f q
folder-IsQuiet (Call.write (negsuc n) b) f q = refl
folder-IsQuiet Call.socket f q = refl
folder-IsQuiet (Call.fcntl_getfl s) f q = refl
folder-IsQuiet (Call.fcntl_setfl s) f q = refl
folder-IsQuiet (Call.set_reuse_port s) f q = refl
folder-IsQuiet (Call.listen s) f q = refl
folder-IsQuiet (Call.accept s) f q = refl
folder-IsQuiet (Call.shutdown s) f q = refl
folder-IsQuiet (Call.close s) f q = refl
folder-IsQuiet (Call.fstat s) f q = refl
folder-IsQuiet (Call.bind s n) f q = refl
folder-IsQuiet (Call.access p) f q = refl
folder-IsQuiet (Call.open_file p) f q = refl
folder-IsQuiet (Call.stat p) f q = refl
folder-IsQuiet (Call.realpath p) f q = refl
folder-IsQuiet (Call.opendir p) f q = refl
folder-IsQuiet (Call.inet_pton p) f q = refl
folder-IsQuiet (Call.closedir d) f q = refl
folder-IsQuiet (Call.print t) f q = refl

folder-Shows : Shows folder 7 (pos 5) (pos 6) (λ f. f.names) (λ f. f.received)
folder-Shows = record {
  streams = folder-Streams;
  connects = record {
    quiet = λ c f q. folder-IsQuiet c f q;
    accepts = λ listener f. refl;
    accepted = refl;
    apart = λ e. ground (arith, e);
    tells = λ b f. refl;
  };
}

-- The client is connected, has given PASV, and is in `/srv`.
abbrev waiting : Machine Folder
waiting =
    let s = listing (codes "." ∷ codes ".." ∷ []) in
    record s {
      server_data = record s.server_data {
        root_path = codes "/srv";
        root_path_len = 4;
        cwd = codes "/srv";
        cwd_len = 4;
        client_sock = pos 6;
        transfer_sock = pos 3;
        is_connected = true;
        is_server_socket_created = true;
      };
    }

command_nlst-delivers_example :
    let (r, u) = command_nlst [] waiting in
    (r ≡ success)
    × (u.kernel.received
        ≡ []
          ++ (c_str (codes ".") ++ crlf)
            ∷ lines_then_last (c_str (codes ".")) (map c_str (codes ".." ∷ [])))
    × (a : Answer) × (before : List Event) × (u.log
        ≡ did (Call.write (pos 6) (codes "226 Directory send OK." ++ crlf)) a ∷ before)
command_nlst-delivers_example =
    command_nlst-delivers folder-Shows (codes ".") (codes ".." ∷ []) waiting refl refl (omega arith)
      (omega arith) refl (ground arith) refl dots-FitsLine

-- The argument `/pub` is the directory `/srv/pub`.
abbrev pub_dir : Option Bytes × Machine Folder
pub_dir = nlst_path (codes "/pub") waiting

pub_found : (pub_dir.0 ≡ some (codes "/srv/pub")) × (pub_dir.1.kernel.names ≡ waiting.kernel.names)
unfolding nlst_path nlst_dir checked_dir get_cwd server_path_to_real_path below_root get_real_path
    resolve is_abs_path is_dir abs_path_is_not_above_root_path same_bytes expand c_str strncpy
    perform
pub_found = (refl, refl)

short_lines :
    All
      (λ m. length (codes "/srv") + length (entry_path (codes "pub") m) + 2 < path_len_max)
      (codes "." ∷ codes ".." ∷ [])
unfolding c_str
short_lines = (omega arith, (omega arith, tt))

command_nlst-lists_example :
    let (r, u) = command_nlst (codes "/pub") waiting in
    (r ≡ success)
    × (u.kernel.received
        ≡ pub_dir.1.kernel.received
          ++ (entry_path (codes "pub") (codes ".") ++ crlf)
            ∷ lines_then_last
                (entry_path (codes "pub") (codes "."))
                (map (entry_path (codes "pub")) (codes ".." ∷ [])))
    × (a : Answer) × (before : List Event) × (u.log
        ≡ did (Call.write (pos 6) (codes "226 Directory send OK." ++ crlf)) a ∷ before)
command_nlst-lists_example =
    command_nlst-lists folder-Shows (codes "/pub") (codes "pub") (codes ".") (codes ".." ∷ [])
      waiting (omega arith) pub_found.0 (ground arith) refl refl pub_found.1 short_lines

nlst_all-closes_example :
    let (r, t) = nlst_all (codes "/srv") false waiting in
    (hs : List Handle) × (opened t.log ≡ hs ++ opened waiting.log)
    × ((closed t.log ≡ hs ++ closed waiting.log)
        ⊎ ((is_zero r ≡ false) × (closed t.log ≡ closed waiting.log)))
nlst_all-closes_example = nlst_all-closes (codes "/srv") false waiting
