-- ===== src/Commands/Traffic.antt =====
-- The lines that `CommandHandlerNlst` in src/common/vsftp_commands.c sends keep what writing keeps.
use vs_ftp.Common.{
  if◌then◌else◌, length, ◌==◌, ◌||◌, ℕ, ℤ, Bool, true, false, Option, none, some, arith,
}
use vs_ftp.Libc.{Bytes}
use vs_ftp.Os.{Os}
use vs_ftp.Machine.{Machine, fault, read_out_of_bounds, pure}
use vs_ftp.Machine.Keeps.{Keeps, if-Keeps}
use vs_ftp.Machine.Handles.{Traffic}
use vs_ftp.Filesystem.{path_len_max}
use vs_ftp.Server.Reply.{append_crlf, send, send_own_buf, send_reply_own_buf_transfer}
use vs_ftp.Server.Paths.{reads_behind, real_path_to_server_path}
use vs_ftp.Commands.Handlers.{nlst_server_line, nlst_line}

module _ {K : Type 0} ⦃os : Os K⦄ {P : Machine K → Type 0} (traffic : Traffic P) where
  send_own_buf-Traffic : (sock : ℤ) (buf : Bytes) (size : ℕ) → Keeps P (send_own_buf sock buf size)
  unfolding send_own_buf append_crlf send
  send_own_buf-Traffic sock buf size s h = grind (arith, traffic.writes, traffic.faults)

  nlst_server_line-Traffic : (o : Option Bytes) → Keeps P (nlst_server_line o)
  unfolding nlst_server_line send_reply_own_buf_transfer
  nlst_server_line-Traffic none s h = h
  nlst_server_line-Traffic (some line) s h = send_own_buf-Traffic _ line path_len_max s h

  pub nlst_line-Traffic : (b : Bool) (buf : Bytes) → Keeps P (nlst_line b buf)
  unfolding nlst_line send_reply_own_buf_transfer
  nlst_line-Traffic false buf s h = send_own_buf-Traffic _ buf path_len_max s h
  nlst_line-Traffic true buf s h =
      let bad = length buf == 0 || reads_behind s.server_data.root_path buf 0 path_len_max in
      let t = ((if bad then fault (read_out_of_bounds path_len_max) else pure tt) s).1 in
      nlst_server_line-Traffic (real_path_to_server_path t.server_data buf path_len_max) t (
        if-Keeps P bad (fault (read_out_of_bounds path_len_max)) (pure tt)
          (traffic.faults (read_out_of_bounds path_len_max)) (λ t k. k) s h)
