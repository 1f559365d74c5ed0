-- ===== src/Commands/Transfers.antt =====
-- What the handlers of src/common/vsftp_commands.c leave of the transfer sockets.
use vs_ftp.Common.{Option, none, some, failure, ◌≡◌, refl, Bool, if◌then◌else◌, [], List}
use vs_ftp.Libc.{Bytes}
use vs_ftp.Server.Reply.Answers.{reply_of}
use vs_ftp.Libc.Format.{expand, Arg}
use vs_ftp.Os.{Os}
use vs_ftp.Machine.{Server, Machine}
use vs_ftp.Machine.Keeps.{if-Keeps}
use vs_ftp.Server.Sockets.{close_transfer_socket, close_transfer_client_socket}
use vs_ftp.Server.Sockets.Closing.{
  data_frame, close_transfer_socket-data, close_transfer_client_socket-data,
}
use vs_ftp.Server.Reply.{send_reply}
use vs_ftp.Server.Keeps as ServerKeeps
use vs_ftp.Commands.Handlers.{
  command_nlst, nlst_path, nlst_found, command_retr, locate, retr_transfer,
}

-- No data connection is open or awaited.
abbrev pub NoTransfer : Server → Type 0
NoTransfer d = (d.transfer_sock ≡ failure) × (d.transfer_client_sock ≡ failure)

module _ {K : Type 0} ⦃os : Os K⦄ where
  send_reply-data :
      (format : Bytes) (args : List Arg) (s : Machine K)
      → (send_reply format args s).1.server_data ≡ s.server_data
  unfolding send_reply
  send_reply-data format args s = replied (expand format args)
    where
      replied : (o : Option Bytes) → (reply_of format o s).1.server_data ≡ s.server_data
      replied none = refl
      replied (some text) = ServerKeeps.send_line-Keeps (data_frame s.server_data) text s refl

  closed :
      (s : Machine K)
      → NoTransfer (close_transfer_socket (close_transfer_client_socket s).1).1.server_data
  closed s =
      let t = (close_transfer_client_socket s).1 in
      rw (close_transfer_socket-data t, close_transfer_client_socket-data s) (refl, refl)

  -- A reply sent afterwards leaves them so.
  closed-reply :
      (format : Bytes) (args : List Arg) (s : Machine K)
      → NoTransfer s.server_data
      → NoTransfer (send_reply format args s).1.server_data
  closed-reply format args s h = rw (send_reply-data format args s) h

  -- So does one of two replies.
  closed-either :
      (b : Bool) (format other : Bytes) (s : Machine K)
      → let t = (close_transfer_socket (close_transfer_client_socket s).1).1 in
        NoTransfer ((if b then send_reply format [] else send_reply other []) t).1.server_data
  closed-either b format other s =
      if-Keeps (λ t. NoTransfer t.server_data) b (send_reply format []) (send_reply other [])
        (closed-reply format []) (closed-reply other []) _ (closed s)

  -- However a listing or a file transfer ends, and whatever the system calls answer, both
  -- transfer sockets are marked as closed afterwards.
  pub transfers-NoTransfer :
      (args : Bytes) (s : Machine K)
      → NoTransfer (command_nlst args s).1.server_data
        × NoTransfer (command_retr args s).1.server_data
  unfolding command_nlst command_retr
  transfers-NoTransfer args s =
      let path = nlst_path args s in
      let listed = nlst_found args path.0 path.1 in
      let file = locate args s in
      let sent = retr_transfer args file.0 file.1 in
      (closed-either _ _ _ listed.1, closed-either _ _ _ sent.1)
