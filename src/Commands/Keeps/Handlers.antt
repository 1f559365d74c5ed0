-- ===== src/Commands/Keeps/Handlers.antt =====
-- The handlers of src/common/vsftp_commands.c but USER and NLST keep what their calls and writes
-- keep.
use vs_ftp.Common.{
  refl, ◌==◌, ◌&&◌, ◌||◌, get_or, length, Bool, true, false, is_zero, if◌then◌else◌, [], ◌∷◌, List,
  ℤ, Option, none, some, arith,
}
use vs_ftp.Libc.{Bytes, codes, c_str}
use vs_ftp.Libc.Format.{Arg, str, num, expand, long_long}
use vs_ftp.Os.{Os}
use vs_ftp.Os.{Call}
use vs_ftp.Machine.{perform, Machine, M, ◌>>◌, ◌⨾◌, pure}
use vs_ftp.Machine.Keeps.{Keeps, Frame, if-Keeps, ⨾-Keeps}
use vs_ftp.Filesystem.{path_len_max}
use vs_ftp.Filesystem.Keeps as FilesystemKeeps
use vs_ftp.Server.Sockets.{
  close_transfer_socket, close_transfer_client_socket, accept_transfer_client_connection,
}
use vs_ftp.Server.Reply.{send_reply}
use vs_ftp.Server.Transfer.{
  set_transfer_mode, send_file_transfer, get_transfer_mode, get_server_ip4,
}
use vs_ftp.Server.Keeps as ServerKeeps
use vs_ftp.Server.Keeps.{Formats, TransferFrame, TransferFrame-and}
use vs_ftp.Server.Invariant.{set_cwd-Keeps}
use vs_ftp.Commands.Handlers.{
  help_reply, help_len_max, help_text, pasv_address, pwd_reply, retr_transfer, size_reply,
  command_syst, pasv_reply, command_pasv, pwd_path, command_pwd, set_cwd_found, cwd_change,
  command_cwd, locate, retr_mode, command_retr, command_size, command_type, command_help,
  command_quit, pasv_port_number, Located, local_error,
}
use vs_ftp.Commands.Keeps.Frames.{HandlerFrame}

module _ {K : Type 0} ⦃os : Os K⦄ {P : Machine K → Type 0} (frame : Frame P) where
  pub locate-Keeps : (args : Bytes) → Keeps P (locate args)
  unfolding locate
  locate-Keeps args s h = grind (
    arith,
    ServerKeeps.server_path_to_real_path-Keeps frame args s h,
    FilesystemKeeps.is_file-Keeps frame,
  )

  pub replied :
      (format : Bytes) (args : List Arg) → Formats format args → Keeps P (send_reply format args)
  replied = ServerKeeps.send_reply-Keeps frame

  pub retr_mode-Keeps : (args : Bytes) → Keeps P (retr_mode args)
  unfolding retr_mode get_transfer_mode expand
  retr_mode-Keeps args s h =
      if-Keeps P s.server_data.transfer_mode_binary
        (send_reply (codes "150 BINARY mode data connection for %s.") (str args ∷ []))
        (send_reply (codes "150 ASCII mode data connection for %s.") (str args ∷ []))
        (replied _ _ (_, refl)) (replied _ _ (_, refl)) s h

module _ {K : Type 0} ⦃os : Os K⦄ {P : Machine K → Type 0} (own : HandlerFrame P) where
  pub frame : Frame P
  frame = own.transfers.frame

  pub reply :
      (format : Bytes) (args : List Arg) → Formats format args → Keeps P (send_reply format args)
  reply = ServerKeeps.send_reply-Keeps frame

  pub closed :
      {A : Type 0} (m : M K A)
      → Keeps P m
      → Keeps P (m >> close_transfer_client_socket >> close_transfer_socket)
  closed m hm s h =
      ServerKeeps.close_transfer_socket-Keeps own.transfers _
        (ServerKeeps.close_transfer_client_socket-Keeps own.transfers _ (hm s h))

  pub pasv_reply-Keeps : (o : Option Bytes) → Keeps P (pasv_reply o)
  unfolding pasv_reply expand
  pasv_reply-Keeps none = reply _ _ (_, refl)
  pasv_reply-Keeps (some addr) = reply _ _ (_, refl)

  pub pasv_address-Keeps : (r : ℤ) → Keeps P (pasv_address r)
  unfolding pasv_address get_server_ip4
  pasv_address-Keeps r s h = ground arith

  pub command_pasv-Keeps : (args : Bytes) → Keeps P (command_pasv args)
  unfolding command_pasv
  command_pasv-Keeps args s h = pasv_reply-Keeps _ _ (
      pasv_address-Keeps _ _ (
        ServerKeeps.create_transfer_socket-Keeps own.transfers pasv_port_number _ (
          ServerKeeps.close_transfer_socket-Keeps own.transfers _
            (ServerKeeps.close_transfer_client_socket-Keeps own.transfers s h))))

  pub pwd_path-Keeps : (o : Option Bytes) → Keeps P (pwd_path o)
  unfolding pwd_path
  pwd_path-Keeps none s h = h
  pwd_path-Keeps (some dir) s h = h

  pub pwd_reply-Keeps : (o : Option Bytes) → Keeps P (pwd_reply o)
  unfolding pwd_reply expand
  pwd_reply-Keeps none = reply _ _ (_, refl)
  pwd_reply-Keeps (some path) = reply _ _ (_, refl)

  pub command_pwd-Keeps : (args : Bytes) → Keeps P (command_pwd args)
  unfolding command_pwd
  command_pwd-Keeps args s h =
      pwd_reply-Keeps _ _ (pwd_path-Keeps _ _ (ServerKeeps.get_cwd-Keeps frame path_len_max s h))

  pub set_cwd_found-Keeps : (o : Option Bytes) → Keeps P (set_cwd_found o)
  unfolding set_cwd_found
  set_cwd_found-Keeps none s h = h
  set_cwd_found-Keeps (some path) s h = set_cwd-Keeps own.cwd path s h

  pub cwd_change-Keeps : (args : Bytes) → Keeps P (cwd_change args)
  unfolding cwd_change
  cwd_change-Keeps args s h =
      grind (arith, set_cwd_found-Keeps, ServerKeeps.server_path_to_real_path-Keeps frame args s h)

  pub command_cwd-Keeps : (args : Bytes) → Keeps P (command_cwd args)
  unfolding command_cwd expand
  command_cwd-Keeps args s h =
      if-Keeps P _ (send_reply (codes "250 Directory successfully changed.") [])
        (send_reply (codes "550 Failed to change directory.") []) (reply _ _ (_, refl))
        (reply _ _ (_, refl)) _ (cwd_change-Keeps args s h)

  pub retr_transfer-Keeps : (args : Bytes) (file : Located) → Keeps P (retr_transfer args file)
  unfolding retr_transfer
  retr_transfer-Keeps args file =
      ⨾-Keeps P (pure file.retval)
        (accept_transfer_client_connection ⨾ retr_mode args ⨾ send_file_transfer file.real_path)
        (λ s h. h)
        (⨾-Keeps P accept_transfer_client_connection
          (retr_mode args ⨾ send_file_transfer file.real_path)
          (ServerKeeps.accept_transfer_client_connection-Keeps own.transfers)
          (⨾-Keeps P (retr_mode args) (send_file_transfer file.real_path)
            (retr_mode-Keeps frame args)
            (ServerKeeps.send_file_transfer-Keeps frame file.real_path)))

  -- The reply that a handler sends for a file that it did not find, or could not read.
  file_error-Keeps :
      (b : Bool) (text : Bytes)
      → Formats text []
      → Keeps P (send_reply (if b then text else local_error) [])
  unfolding expand
  file_error-Keeps true text f = reply text [] f
  file_error-Keeps false text f = reply local_error [] (_, refl)

  pub command_retr-Keeps : (args : Bytes) → Keeps P (command_retr args)
  unfolding command_retr expand
  command_retr-Keeps args s h =
      let file = locate args s in
      let t =
        closed (retr_transfer args file.0) (retr_transfer-Keeps args file.0) file.1
          (locate-Keeps frame args s h) in
      if-Keeps P _ (send_reply (codes "226 Transfer Complete.") [])
        (send_reply (if file.0.is_file_error then codes "551 File not found." else local_error) [])
        (reply _ _ (_, refl))
        (file_error-Keeps file.0.is_file_error (codes "551 File not found.") (_, refl)) _ t

  pub size_reply-Keeps : (path : Bytes) → Keeps P (size_reply path)
  unfolding size_reply expand
  size_reply-Keeps path s h =
      let a = perform (Call.stat (c_str path)) s in
      if-Keeps P (is_zero a.0.ret) (send_reply (codes "213 %llu") (num long_long a.0.size ∷ []))
        (send_reply local_error []) (reply _ _ (_, refl)) (reply _ _ (_, refl)) a.1
        (frame.call _ refl s h)

  pub command_size-Keeps : (args : Bytes) → Keeps P (command_size args)
  unfolding command_size expand
  command_size-Keeps args s h =
      let file = (locate args s).0 in
      if-Keeps P (is_zero file.retval) (size_reply file.real_path)
        (send_reply (if file.is_file_error then codes "550 File not found." else local_error) [])
        (size_reply-Keeps file.real_path)
        (file_error-Keeps file.is_file_error (codes "550 File not found.") (_, refl)) _
        (locate-Keeps frame args s h)

  pub command_type-Keeps : (args : Bytes) → Keeps P (command_type args)
  unfolding command_type expand
  command_type-Keeps args s h =
      let c = get_or args 0 0 in
      if-Keeps P (length args == 1 && (c == b'I' || c == b'i'))
        (send_reply (codes "200 Switching to Binary mode.") [] ⨾ set_transfer_mode true)
        (if length args == 1 && (c == b'A' || c == b'a')
          then send_reply (codes "200 Switching to ASCII mode.") [] ⨾ set_transfer_mode false
          else send_reply (codes "504 Command not implemented for that parameter.") [])
        (⨾-Keeps P _ (set_transfer_mode true) (reply _ _ (_, refl)) (own.mode true))
        (if-Keeps P (length args == 1 && (c == b'A' || c == b'a'))
          (send_reply (codes "200 Switching to ASCII mode.") [] ⨾ set_transfer_mode false)
          (send_reply (codes "504 Command not implemented for that parameter.") [])
          (⨾-Keeps P _ (set_transfer_mode false) (reply _ _ (_, refl)) (own.mode false))
          (reply _ _ (_, refl)))
        s h

  pub command_help-Keeps : (args : Bytes) → Keeps P (command_help args)
  unfolding command_help help_reply help_text
  command_help-Keeps args s h =
      ServerKeeps.send_reply_own_buf-Keeps frame _ help_len_max (omega arith) s h

  pub command_syst-Keeps : (args : Bytes) → Keeps P (command_syst args)
  unfolding command_syst expand
  command_syst-Keeps args = reply _ _ (_, refl)

  pub command_quit-Keeps : (args : Bytes) → Keeps P (command_quit args)
  unfolding command_quit expand
  command_quit-Keeps args = reply _ _ (_, refl)
