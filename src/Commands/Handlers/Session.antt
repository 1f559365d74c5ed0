-- ===== src/Commands/Handlers/Session.antt =====
-- The handlers of USER, SYST, PASV, TYPE, HELP and QUIT in src/common/vsftp_commands.c.
use vs_ftp.Common.{
  pos, ℕ, ◌+◌, ◌/◌, ◌%◌, ℤ, failure, is_zero, true, false, Option, none, some, [], ◌∷◌, ◌++◌, ltb,
  ◌==◌, ◌||◌, ◌&&◌, if◌then◌else◌, length, map, get_or, List,
}
use vs_ftp.Libc.{Bytes, codes, strncmp_eq, crlf}
use vs_ftp.Libc.Format.{str, int}
use vs_ftp.Os.{Os}
use vs_ftp.Machine.{M, pure, ◌>>=◌, ◌>>◌, ◌⨾◌}
use vs_ftp.Server.Sockets.{
  create_transfer_socket, close_transfer_socket, close_transfer_client_socket, client_disconnect,
}
use vs_ftp.Server.Reply.{send_reply, send_reply_own_buf}
use vs_ftp.Server.Transfer.{inet_addrstrlen, get_server_ip4, set_transfer_mode}

-- `PASV_PORT_NUMBER`
abbrev pub pasv_port_number : ℕ
pasv_port_number = 40000

-- `HELP_LEN_MAX`
abbrev pub help_len_max : ℕ
help_len_max = 256

-- The dots of an address become commas.
unfoldable pub to_commas : Bytes → Bytes
to_commas = map (λ c. if c == b'.' then b',' else c)

-- The names of the table `commands[]`, in its order.
abbrev pub command_names : List Bytes
command_names =
    codes "USER"
    ∷ codes "SYST"
    ∷ codes "PASV"
    ∷ codes "NLST"
    ∷ codes "PWD"
    ∷ codes "CWD"
    ∷ codes "RETR"
    ∷ codes "SIZE"
    ∷ codes "TYPE"
    ∷ codes "HELP"
    ∷ codes "QUIT"
    ∷ []

-- `snprintf` of `text` behind the bytes that `buf` holds: `none` if it does not fit.
unfoldable pub append_text : Bytes → Bytes → Option Bytes
append_text buf text =
    if ltb (length buf + length text) help_len_max then some (buf ++ text) else none

-- The loop of `CommandHandlerHelp` over the names.
unfoldable pub append_names : Bytes → List Bytes → Option Bytes
unfolding append_text
append_names buf [] = some buf
append_names buf (name ∷ names) = elim (append_text buf (b' ' ∷ name)) [
  | none ↦ none
  | some buf' ↦ append_names buf' names
]

abbrev pub help_first : Bytes
help_first = codes "214-The following commands are recognized." ++ crlf

abbrev pub help_last : Bytes
help_last = crlf ++ codes "214 Help OK."

-- The text that `CommandHandlerHelp` builds.
unfoldable pub help_text : Option Bytes
unfolding append_names
help_text = elim (append_text [] help_first) [
  | none ↦ none
  | some buf ↦ elim (append_names buf command_names) [
    | none ↦ none
    | some buf' ↦ append_text buf' help_last
  ]
]

module _ {K : Type 0} ⦃os : Os K⦄ where
  -- `CommandHandlerUser`
  unfoldable pub command_user : Bytes → M K ℤ
  command_user args =
      if length args == 9 && strncmp_eq (codes "anonymous") args 9
      then send_reply (codes "230 User logged in, proceed.") []
      else (do r ← send_reply (codes "530 Login incorrect.") []; client_disconnect; pure r)

  -- `CommandHandlerSyst`
  unfoldable pub command_syst : Bytes → M K ℤ
  command_syst args = send_reply (codes "215 UNIX Type: L8") []

  -- The reply of `CommandHandlerPasv`, once the transfer socket is there.
  unfoldable pub pasv_reply : Option Bytes → M K ℤ
  unfolding to_commas
  pasv_reply none = send_reply (codes "425 Cannot open data connection.") []
  pasv_reply (some addr) = send_reply (codes "227 Entering Passive Mode (%s,%d,%d).") (
      str (to_commas addr)
      ∷ int (pos (pasv_port_number / 256))
      ∷ int (pos (pasv_port_number % 256))
      ∷ [])

  -- The server's address, if the transfer socket was created.
  unfoldable pub pasv_address : ℤ → M K (Option Bytes)
  pasv_address r = if is_zero r then get_server_ip4 inet_addrstrlen else pure none

  -- `CommandHandlerPasv`
  unfoldable pub command_pasv : Bytes → M K ℤ
  unfolding pasv_reply pasv_address
  command_pasv args = do
    close_transfer_client_socket
    close_transfer_socket
    r ← create_transfer_socket pasv_port_number
    pasv_address r >>= pasv_reply

  -- `CommandHandlerType`
  unfoldable pub command_type : Bytes → M K ℤ
  command_type args =
      let c = get_or args 0 0 in
      if length args == 1 && (c == b'I' || c == b'i')
      then send_reply (codes "200 Switching to Binary mode.") [] ⨾ set_transfer_mode true
      else if length args == 1 && (c == b'A' || c == b'a')
      then send_reply (codes "200 Switching to ASCII mode.") [] ⨾ set_transfer_mode false
      else send_reply (codes "504 Command not implemented for that parameter.") []

  -- The reply of `CommandHandlerHelp`, if its text fits the buffer.
  unfoldable pub help_reply : Option Bytes → M K ℤ
  help_reply none = pure failure
  help_reply (some buf) = send_reply_own_buf buf help_len_max

  -- `CommandHandlerHelp`
  unfoldable pub command_help : Bytes → M K ℤ
  unfolding help_reply
  command_help args = help_reply help_text

  -- `CommandHandlerQuit`
  unfoldable pub command_quit : Bytes → M K ℤ
  command_quit args = send_reply (codes "221 Bye.") []
