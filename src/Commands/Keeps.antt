-- ===== src/Commands/Keeps.antt =====
-- The commands of src/common/vsftp_commands.c keep what their calls and writes keep.
mod Frames
mod Handlers
pub mod Listing
pub use Handlers.{
  closed, pwd_path-Keeps, cwd_change-Keeps, retr_transfer-Keeps, locate-Keeps, pasv_address-Keeps,
}
pub use Listing.{nlst_result-Keeps}
pub use Frames.{IsListed, HandlerFrame, CommandFrame}
use mathlib.Core.Option.{some-injective}
use vs_ftp.Common.{
  ◌<◌, Bool-cases, subst, ◌==◌, List, ℕ, zero, suc, ◌+◌, ℤ, success, ◌≡◌, refl, ◌⊎◌, inl, inr, Bool,
  true, false, Option, none, some, [], ◌∷◌, arith, length, ltb,
}
use vs_ftp.Libc.{Bytes, c_str, codes}
use vs_ftp.Libc.Format.{Arg, num, expand}
use vs_ftp.Os.{Call, Os}
use vs_ftp.Machine.{Server, Machine, M, ◌>>=◌, ◌>>◌, ◌⨾◌, perform, pure}
use vs_ftp.Machine.Keeps.{Keeps, Frame, ⨾-Keeps}
use vs_ftp.Filesystem.{path_len_max, list_dir_per_line, is_dir}
use vs_ftp.Filesystem.Keeps as FilesystemKeeps
use vs_ftp.Server.Sockets.{
  close_transfer_socket, close_transfer_client_socket, client_disconnect,
  accept_transfer_client_connection,
}
use vs_ftp.Server.Reply.{send_reply}
use vs_ftp.Server.Paths.{abs_path_is_not_above_root_path, get_cwd, server_path_to_real_path}
use vs_ftp.Server.Transfer.{
  send_file_transfer, get_transfer_mode, set_transfer_mode, get_server_ip4,
}
use vs_ftp.Server.Keeps as ServerKeeps
use vs_ftp.Server.Keeps.{TransferFrame, TransferFrame-and}
use vs_ftp.Server.Invariant.{CwdFrame, set_cwd-Keeps}
use vs_ftp.Commands.{
  run_entry, Command, user, syst, pasv, nlst, pwd, cwd, retr, size, type, help, quit, dispatch,
  commands_parse, find, commands, Entry, argument,
}
use vs_ftp.Commands.Handlers.{
  nlst_all, help_reply, help_len_max, help_text, pasv_address, pwd_reply, retr_transfer, size_reply,
  nlst_server_line, command_user, command_syst, pasv_reply, command_pasv, checked_dir, nlst_dir,
  nlst_path, nlst_line, nlst_loop, nlst_send, nlst_found, command_nlst, pwd_path, command_pwd,
  set_cwd_found, cwd_change, command_cwd, locate, retr_mode, command_retr, command_size,
  command_type, command_help, command_quit, pasv_port_number, Located,
}
use Handlers.{
  reply, command_syst-Keeps, command_pasv-Keeps, command_pwd-Keeps, command_cwd-Keeps,
  command_retr-Keeps, command_size-Keeps, command_type-Keeps, command_help-Keeps,
  command_quit-Keeps,
}
use Listing.{command_nlst-Keeps}

module _ {K : Type 0} ⦃os : Os K⦄ {P : Machine K → Type 0} (own : CommandFrame P) where
  command_user-Keeps : (args : Bytes) → Keeps P (command_user args)
  unfolding command_user expand
  command_user-Keeps args s h =
      let welcome = codes "230 User logged in, proceed." in
      let refusal = codes "530 Login incorrect." in
      ground (
        arith,
        reply own.handlers welcome [] (_, refl) s h,
        own.disconnect _ (reply own.handlers refusal [] (_, refl) s h),
      )

  -- Every command keeps the property.
  pub dispatch-Keeps : (c : Command) (args : Bytes) → Keeps P (dispatch c args)
  unfolding dispatch
  dispatch-Keeps user = command_user-Keeps
  dispatch-Keeps syst = command_syst-Keeps own.handlers
  dispatch-Keeps pasv = command_pasv-Keeps own.handlers
  dispatch-Keeps nlst = command_nlst-Keeps own.handlers
  dispatch-Keeps pwd = command_pwd-Keeps own.handlers
  dispatch-Keeps cwd = command_cwd-Keeps own.handlers
  dispatch-Keeps retr = command_retr-Keeps own.handlers
  dispatch-Keeps size = command_size-Keeps own.handlers
  dispatch-Keeps type = command_type-Keeps own.handlers
  dispatch-Keeps help = command_help-Keeps own.handlers
  dispatch-Keeps quit = command_quit-Keeps own.handlers

  run_entry-Keeps : (buffer : Bytes) (o : Option Entry) → Keeps P (run_entry buffer o)
  unfolding run_entry expand
  run_entry-Keeps buffer none s h = reply own.handlers _ _ (_, refl) s h
  run_entry-Keeps buffer (some e) s h = dispatch-Keeps e.handle (argument e.name buffer) s h

  pub commands_parse-Keeps : (buffer : Bytes) → Keeps P (commands_parse buffer)
  unfolding commands_parse
  commands_parse-Keeps buffer s h = run_entry-Keeps buffer (find commands buffer) s h
