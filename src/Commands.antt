-- ===== src/Commands.antt =====
-- src/common/vsftp_commands.c: the table of the commands and `VSFTPCommandsParse`.
pub mod Handlers
pub mod Keeps
pub mod Tells
pub mod Size
pub mod Connected
pub mod Retrieval
pub mod Directory
pub mod Passive
pub mod Visit
pub mod Replies
pub mod Table
pub mod Codes
pub mod Login
pub mod Mode
pub mod Broken
pub mod Requests
pub mod Streams
pub mod Shown
pub mod Traffic
pub mod Closes
pub mod Entries
pub mod Transfers
pub mod Unconfined
use vs_ftp.Common.{
  String, ℕ, ◌+◌, ℤ, pos, Bool, Option, none, some, List, [], ◌∷◌, ltb, if◌then◌else◌, length, drop,
}
use vs_ftp.Libc.{Bytes, codes, strncmp_eq}
use vs_ftp.Os.{Os}
use vs_ftp.Machine.{M, pure, ◌>>=◌, ◌>>◌}
use vs_ftp.Server.Reply.{send_reply}
use Handlers.{
  command_user, command_syst, command_pasv, command_nlst, command_pwd, command_cwd, command_retr,
  command_size, command_type, command_help, command_quit,
}

-- What the table's function pointers can be.
pub data Command : Type 0 where
  user syst pasv nlst pwd cwd retr size type help quit : Command

-- `Command_s`; `nameLen` is the length of the name.
pub record Entry : Type 0 where
  pub name : Bytes
  pub handle : Command

abbrev pub entry : String → Command → Entry
entry s c = record { name = codes s; handle = c }

-- `commands[]`
abbrev pub commands : List Entry
commands =
    entry "USER" user
    ∷ entry "SYST" syst
    ∷ entry "PASV" pasv
    ∷ entry "NLST" nlst
    ∷ entry "PWD" pwd
    ∷ entry "CWD" cwd
    ∷ entry "RETR" retr
    ∷ entry "SIZE" size
    ∷ entry "TYPE" type
    ∷ entry "HELP" help
    ∷ entry "QUIT" quit
    ∷ []

-- The loop of `VSFTPCommandsParse`: the first entry whose name the buffer starts with.
unfoldable pub find : List Entry → Bytes → Option Entry
find [] buffer = none
find (e ∷ es) buffer = if strncmp_eq buffer e.name (length e.name) then some e else find es buffer

-- The argument that the handler is called with. The byte behind the name is skipped unread.
unfoldable pub argument : Bytes → Bytes → Bytes
argument name buffer =
    if ltb (length name) (length buffer) then drop (length name + 1) buffer else []

-- `ENOTSUP` on Linux.
abbrev pub enotsup : ℤ
enotsup = pos 95

module _ {K : Type 0} ⦃os : Os K⦄ where
  -- The calls through `commands[i].handle`.
  unfoldable pub dispatch : Command → Bytes → M K ℤ
  dispatch user args = command_user args
  dispatch syst args = command_syst args
  dispatch pasv args = command_pasv args
  dispatch nlst args = command_nlst args
  dispatch pwd args = command_pwd args
  dispatch cwd args = command_cwd args
  dispatch retr args = command_retr args
  dispatch size args = command_size args
  dispatch type args = command_type args
  dispatch help args = command_help args
  dispatch quit args = command_quit args

  -- What is done with the entry found: its handler is called, or the command is refused.
  unfoldable pub run_entry : Bytes → Option Entry → M K ℤ
  unfolding dispatch
  run_entry buffer none = send_reply (codes "502 Command not implemented.") [] >> pure enotsup
  run_entry buffer (some e) = dispatch e.handle (argument e.name buffer)

  -- `VSFTPCommandsParse`
  unfoldable pub commands_parse : Bytes → M K ℤ
  unfolding run_entry find
  commands_parse buffer = run_entry buffer (find commands buffer)
