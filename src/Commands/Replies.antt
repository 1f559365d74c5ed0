-- ===== src/Commands/Replies.antt =====
-- Every command of src/common/vsftp_commands.c is answered.
mod Pieces
mod Folders
use vs_ftp.Common.{
  zero, ◌+◌, ◌≡◌, refl, ℤ, is_zero, Bool, true, false, Option, none, some, List, [], ◌∷◌, ◌++◌,
  arith, ◌%◌, Bool-cases, inl, inr, ◌==◌, ◌&&◌, ◌||◌, length, get_or, if◌then◌else◌,
}
use vs_ftp.Libc.{Bytes, codes, c_str, strncmp_eq}
use vs_ftp.Libc.Format.{str, num, expand, long_long}
use vs_ftp.Os.{Call, Os}
use vs_ftp.Machine.{◌>>◌, ◌>>=◌, Event, Machine, M, pure, ◌⨾◌, perform}
use vs_ftp.Server.Reply.{send_reply}
use vs_ftp.Server.Sockets.{client_disconnect}
use vs_ftp.Server.Reply.Answers.{
  Replied, Pending, preparing_frame, answered_frame, plain-Replied, is_reply, send_reply-Replied,
  send_reply_own_buf-Replied,
}
use vs_ftp.Server.Sockets.Closing.{client_disconnect-log}
use vs_ftp.Server.Transfer.{set_transfer_mode}
use vs_ftp.Server.Keeps as ServerKeeps
use vs_ftp.Commands.{
  Command, user, syst, pasv, nlst, pwd, cwd, retr, size, type, help, quit, Entry, commands, find,
  argument, dispatch, run_entry, commands_parse,
}
use vs_ftp.Commands.Handlers.{
  help_text, help_reply, command_user, command_syst, command_retr, locate, retr_transfer,
  command_size, size_reply, command_type, command_help, command_quit, local_error, help_first,
  help_last,
}
use vs_ftp.Commands.Keeps.{closed, retr_transfer-Keeps, locate-Keeps}
use vs_ftp.Commands.Codes.{reply_codes, codes_of, answer_codes}
use Pieces.*
use Folders.*

-- What HELP answers.
abbrev help_lines : Bytes
help_lines =
    help_first ++ codes " USER SYST PASV NLST PWD CWD RETR SIZE TYPE HELP QUIT" ++ help_last

module _ {K : Type 0} ⦃os : Os K⦄ (sock : ℤ) (base : List Event) where
  user-Replied :
      (args : Bytes) (s : Machine K)
      → Pending sock base s
      → Replied (reply_codes user) sock base (command_user args s).1.log
  unfolding command_user
  user-Replied args s h =
      if-Replied (reply_codes user) sock base
        (length args == 9 && strncmp_eq (codes "anonymous") args 9)
        (send_reply (codes "230 User logged in, proceed.") [])
        (do r ← send_reply (codes "530 Login incorrect.") []; client_disconnect; pure r) s
        (plain-Replied (reply_codes user) sock base _ s h refl)
        (client_disconnect-log (λ l. Replied (reply_codes user) sock base l)
          (answered_frame (reply_codes user) sock base).call _
          (plain-Replied (reply_codes user) sock base _ s h refl))

  -- The reply that a handler sends for a file that it did not find, or could not read.
  file_error-Replied :
      (allowed : List Bytes) (b : Bool) (text : Bytes) (s : Machine K)
      → Pending sock base s
      → is_reply allowed text ≡ true
      → is_reply allowed local_error ≡ true
      → Replied allowed sock base (send_reply (if b then text else local_error) [] s).1.log
  file_error-Replied allowed true text s h p q = plain-Replied allowed sock base text s h p
  file_error-Replied allowed false text s h p q = plain-Replied allowed sock base local_error s h q

  retr-Replied :
      (args : Bytes) (s : Machine K)
      → Pending sock base s
      → Replied (reply_codes retr) sock base (command_retr args s).1.log
  unfolding command_retr
  retr-Replied args s h =
      let file = locate args s in
      let t =
        closed (preparing_handlers sock base) (retr_transfer args file.0)
          (retr_transfer-Keeps (preparing_handlers sock base) args file.0) file.1
          (locate-Keeps (preparing_frame sock base) args s h) in
      if-Replied (reply_codes retr) sock base _ (send_reply (codes "226 Transfer Complete.") [])
        (send_reply (if file.0.is_file_error then codes "551 File not found." else local_error) [])
        _ (plain-Replied (reply_codes retr) sock base _ _ t refl)
        (file_error-Replied (reply_codes retr) file.0.is_file_error (codes "551 File not found.") _
          t refl refl)

  size_reply-Replied :
      (path : Bytes) (s : Machine K)
      → Pending sock base s
      → Replied (reply_codes size) sock base (size_reply path s).1.log
  unfolding size_reply expand
  size_reply-Replied path s h =
      let a = perform (Call.stat (c_str path)) s in
      let t : Pending sock base a.1 = (preparing_frame sock base).call _ refl s h in
      if-Replied (reply_codes size) sock base _
        (send_reply (codes "213 %llu") (num long_long a.0.size ∷ [])) (send_reply local_error []) _
        (send_reply-Replied (reply_codes size) sock base (codes "213 %llu")
          (num long_long a.0.size ∷ []) _ _ t refl (omega arith) refl)
        (plain-Replied (reply_codes size) sock base _ _ t refl)

  size-Replied :
      (args : Bytes) (s : Machine K)
      → Pending sock base s
      → Replied (reply_codes size) sock base (command_size args s).1.log
  unfolding command_size
  size-Replied args s h =
      let file = locate args s in
      let t = locate-Keeps (preparing_frame sock base) args s h in
      if-Replied (reply_codes size) sock base _ (size_reply file.0.real_path)
        (send_reply (if file.0.is_file_error then codes "550 File not found." else local_error) [])
        _ (size_reply-Replied file.0.real_path _ t)
        (file_error-Replied (reply_codes size) file.0.is_file_error (codes "550 File not found.") _
          t refl refl)

  -- A reply, and then the mode of the transfers.
  mode-Replied :
      (text : Bytes) (b : Bool) (s : Machine K)
      → Pending sock base s
      → is_reply (reply_codes type) text ≡ true
      → Replied (reply_codes type) sock base ((send_reply text [] ⨾ set_transfer_mode b) s).1.log
  unfolding set_transfer_mode
  mode-Replied text b s h p =
      let sent = plain-Replied (reply_codes type) sock base text s h p in
      elim (Bool-cases (is_zero (send_reply text [] s).0)) [ inl e ↦ rw e sent | inr e ↦ rw e sent ]

  type-Replied :
      (args : Bytes) (s : Machine K)
      → Pending sock base s
      → Replied (reply_codes type) sock base (command_type args s).1.log
  unfolding command_type
  type-Replied args s h =
      let c = get_or args 0 0 in
      let refused = send_reply (codes "504 Command not implemented for that parameter.") [] in
      let ascii = send_reply (codes "200 Switching to ASCII mode.") [] ⨾ set_transfer_mode false in
      let binary = send_reply (codes "200 Switching to Binary mode.") [] ⨾ set_transfer_mode true in
      let is_ascii = length args == 1 && (c == b'A' || c == b'a') in
      if-Replied (reply_codes type) sock base (length args == 1 && (c == b'I' || c == b'i')) binary
        (if is_ascii then ascii else refused) s (mode-Replied _ true s h refl)
        (if-Replied (reply_codes type) sock base is_ascii ascii refused s
          (mode-Replied _ false s h refl) (plain-Replied (reply_codes type) sock base _ s h refl))

  help-Replied :
      (args : Bytes) (s : Machine K)
      → Pending sock base s
      → Replied (reply_codes help) sock base (command_help args s).1.log
  unfolding command_help help_reply help_text
  help-Replied args s h =
      send_reply_own_buf-Replied (reply_codes help) sock base help_lines s h (omega arith)
        (omega arith) refl

  dispatch-Replied :
      (c : Command) (args : Bytes) (s : Machine K)
      → Pending sock base s
      → Replied (reply_codes c) sock base (dispatch c args s).1.log
  unfolding dispatch command_syst command_quit
  dispatch-Replied user = user-Replied
  dispatch-Replied syst = λ args s h. plain-Replied (reply_codes syst) sock base _ s h refl
  dispatch-Replied pasv = pasv-Replied sock base
  dispatch-Replied nlst = nlst-Replied sock base
  dispatch-Replied pwd = pwd-Replied sock base
  dispatch-Replied cwd = cwd-Replied sock base
  dispatch-Replied retr = retr-Replied
  dispatch-Replied size = size-Replied
  dispatch-Replied type = type-Replied
  dispatch-Replied help = help-Replied
  dispatch-Replied quit = λ args s h. plain-Replied (reply_codes quit) sock base _ s h refl

  run_entry-Replied :
      (buffer : Bytes) (o : Option Entry) (s : Machine K)
      → Pending sock base s
      → Replied (codes_of o) sock base (run_entry buffer o s).1.log
  unfolding run_entry
  run_entry-Replied buffer none s h = plain-Replied (codes_of none) sock base _ s h refl
  run_entry-Replied buffer (some e) s h = dispatch-Replied e.handle (argument e.name buffer) s h

  pub parse-Replied :
      (buffer : Bytes) (s : Machine K)
      → Pending sock base s
      → Replied (answer_codes buffer) sock base (commands_parse buffer s).1.log
  unfolding commands_parse
  parse-Replied buffer s h = run_entry-Replied buffer (find commands buffer) s h

module _ {K : Type 0} ⦃os : Os K⦄ where
  -- Every request is answered: whatever the request and the answers of the system calls are,
  -- `VSFTPCommandsParse` writes a line on the client's socket, the one that it had at the call, that
  -- begins with one of the codes for the command that the request names, or with 502 if it names
  -- none.
  pub commands_parse-Replied :
      (buffer : Bytes) (s : Machine K)
      → Replied
          (answer_codes buffer)
          s.server_data.client_sock
          s.log
          (commands_parse buffer s).1.log
  commands_parse-Replied buffer s =
      parse-Replied s.server_data.client_sock s.log buffer s (refl, ([], refl))
