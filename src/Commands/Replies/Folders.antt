-- ===== src/Commands/Replies/Folders.antt =====
-- PASV, NLST, PWD and CWD in src/common/vsftp_commands.c send a reply.
use vs_ftp.Common.{
  pos, ◌≤◌, ◌≡◌, refl, ℤ, Option, none, some, List, [], ◌∷◌, arith, ◌/◌, ◌%◌, length,
}
use vs_ftp.Libc.{Bytes, codes}
use vs_ftp.Libc.Format.{str, expand, int}
use vs_ftp.Os.{Os}
use vs_ftp.Machine.{Event, Machine, ◌>>=◌}
use vs_ftp.Filesystem.{path_len_max}
use vs_ftp.Server.Sockets.{
  close_transfer_socket, close_transfer_client_socket, create_transfer_socket,
}
use vs_ftp.Server.Reply.Answers.{
  Replied, Pending, preparing_frame, plain-Replied, send_reply-Replied,
}
use vs_ftp.Server.Paths.{get_cwd, real_path_to_server_path}
use vs_ftp.Server.Transfer.{inet_addrstrlen, get_server_ip4}
use vs_ftp.Server.Keeps as ServerKeeps
use vs_ftp.Commands.Handlers.{
  to_commas, pasv_port_number, command_pasv, pasv_address, pasv_reply, command_nlst, nlst_path,
  nlst_found, command_pwd, pwd_path, pwd_reply, command_cwd,
}
use vs_ftp.Commands.Keeps.{
  closed, cwd_change-Keeps, nlst_result-Keeps, pwd_path-Keeps, pasv_address-Keeps,
}
use vs_ftp.Commands.{pasv, nlst, pwd, cwd}
use vs_ftp.Commands.Codes.{reply_codes}
use vs_ftp.Commands.Replies.Pieces.{
  length-strncpy, length-to_commas, length-behind_root, preparing_handlers, either-Replied,
}

module _ {K : Type 0} ⦃os : Os K⦄ (sock : ℤ) (base : List Event) where
  pub pasv_reply-Replied :
      (o : Option Bytes) (s : Machine K)
      → Pending sock base s
      → ((addr : Bytes) → o ≡ some addr → length addr ≤ inet_addrstrlen)
      → Replied (reply_codes pasv) sock base (pasv_reply o s).1.log
  unfolding pasv_reply expand
  pasv_reply-Replied none s h short = plain-Replied (reply_codes pasv) sock base _ s h refl
  pasv_reply-Replied (some addr) s h short =
      send_reply-Replied (reply_codes pasv) sock base
        (codes "227 Entering Passive Mode (%s,%d,%d).")
        (str (to_commas addr)
          ∷ int (pos (pasv_port_number / 256))
          ∷ int (pos (pasv_port_number % 256))
          ∷ [])
        _ s h refl (omega (arith, length-to_commas addr, short addr refl)) refl

  pub pasv_address-short :
      (r : ℤ) (s : Machine K) (addr : Bytes)
      → (pasv_address r s).0 ≡ some addr
      → length addr ≤ inet_addrstrlen
  unfolding pasv_address get_server_ip4
  pasv_address-short r s addr e =
      ground (arith, length-strncpy s.server_data.ip_addr inet_addrstrlen, e)

  pub pasv-Replied :
      (args : Bytes) (s : Machine K)
      → Pending sock base s
      → Replied (reply_codes pasv) sock base (command_pasv args s).1.log
  unfolding command_pasv
  pasv-Replied args s h =
      let own = (preparing_handlers sock base).transfers in
      let t = (close_transfer_socket (close_transfer_client_socket s).1).1 in
      let c = create_transfer_socket pasv_port_number t in
      let a = pasv_address c.0 c.1 in
      pasv_reply-Replied a.0 a.1
        (pasv_address-Keeps (preparing_handlers sock base) c.0 c.1 (
          ServerKeeps.create_transfer_socket-Keeps own pasv_port_number t (
            ServerKeeps.close_transfer_socket-Keeps own _
              (ServerKeeps.close_transfer_client_socket-Keeps own s h))))
        (pasv_address-short c.0 c.1)

  pub nlst-Replied :
      (args : Bytes) (s : Machine K)
      → Pending sock base s
      → Replied (reply_codes nlst) sock base (command_nlst args s).1.log
  unfolding command_nlst
  nlst-Replied args s h =
      let t =
        closed (preparing_handlers sock base) (nlst_path args >>= nlst_found args)
          (nlst_result-Keeps (preparing_handlers sock base) args) s h in
      either-Replied (reply_codes nlst) sock base _ (codes "226 Directory send OK.")
        (codes "550 Permission Denied.") _ t refl refl

  pub pwd_reply-Replied :
      (o : Option Bytes) (s : Machine K)
      → Pending sock base s
      → ((path : Bytes) → o ≡ some path → length path ≤ path_len_max)
      → Replied (reply_codes pwd) sock base (pwd_reply o s).1.log
  unfolding pwd_reply expand
  pwd_reply-Replied none s h short = plain-Replied (reply_codes pwd) sock base _ s h refl
  pwd_reply-Replied (some path) s h short =
      send_reply-Replied (reply_codes pwd) sock base (codes "257 \"%s\"") (str path ∷ []) _ s h refl
        (omega (arith, short path refl)) refl

  pub pwd_path-short :
      (o : Option Bytes) (s : Machine K) (path : Bytes)
      → (pwd_path o s).0 ≡ some path
      → length path ≤ path_len_max
  unfolding pwd_path real_path_to_server_path
  pwd_path-short none s path e = cc
  pwd_path-short (some dir) s path e =
      ground (arith, length-behind_root s.server_data.root_path dir 0 (length dir), e)

  pub pwd-Replied :
      (args : Bytes) (s : Machine K)
      → Pending sock base s
      → Replied (reply_codes pwd) sock base (command_pwd args s).1.log
  unfolding command_pwd
  pwd-Replied args s h =
      let c = get_cwd path_len_max s in
      let p = pwd_path c.0 c.1 in
      pwd_reply-Replied p.0 p.1
        (pwd_path-Keeps (preparing_handlers sock base) c.0 c.1
          (ServerKeeps.get_cwd-Keeps (preparing_frame sock base) path_len_max s h))
        (pwd_path-short c.0 c.1)

  pub cwd-Replied :
      (args : Bytes) (s : Machine K)
      → Pending sock base s
      → Replied (reply_codes cwd) sock base (command_cwd args s).1.log
  unfolding command_cwd
  cwd-Replied args s h =
      either-Replied (reply_codes cwd) sock base _ (codes "250 Directory successfully changed.")
        (codes "550 Failed to change directory.") _
        (cwd_change-Keeps (preparing_handlers sock base) args s h) refl refl
