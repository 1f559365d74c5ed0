-- ===== src/Server/Transfer.antt =====
-- The file transfer and the small accessors of src/common/vsftp_server.c.
pub mod Rounds
pub mod Delivery
pub mod WholeFile
pub mod Account
pub mod Closes
use vs_ftp.Common.{
  ℕ, zero, suc, ◌+◌, ◌-◌, ◌%◌, ◌^◌, min, ℤ, success, failure, is_zero, is_invalid, to_size, Bool,
  Option, none, some, ◌==◌, leb, if◌then◌else◌,
}
use vs_ftp.Libc.{Bytes, c_str, strncpy}
use vs_ftp.Os.{Call, Os}
use vs_ftp.Machine.{M, pure, ◌>>=◌, ◌>>◌, gets, modify, perform, invoke}
use vs_ftp.Filesystem.{open_file, close_file}

-- `FILE_READ_BUF_SIZE`
abbrev pub file_read_buf_size : ℕ
file_read_buf_size = 8192

-- `INET_ADDRSTRLEN`
abbrev pub inet_addrstrlen : ℕ
inet_addrstrlen = 16

-- `count -= numSent` on `size_t`
unfoldable pub sub_size : ℕ → ℕ → ℕ
sub_size count sent = (count + 2 ^ 64 - sent) % 2 ^ 64

-- How one round of the loop of `VSFTPServerSendfileTransfer` ends.
pub data Round : Type 0 where
  -- `break` with this `retval`
  stop : ℤ → Round
  -- on with what is left to send
  continue : ℕ → Round

module _ {K : Type 0} ⦃os : Os K⦄ where
  -- `SendOwnSock`: `none` for an error, else `*send`.
  unfoldable pub send_own_sock : ℤ → Bytes → M K (Option ℕ)
  send_own_sock sock buf = do
    r ← invoke (Call.write sock buf)
    pure (if is_invalid r then none else some (to_size r))

  -- `ReceiveOwnSock`: `none` for an error, else the bytes in the buffer.
  unfoldable pub receive_own_sock : ℤ → ℕ → M K (Option Bytes)
  receive_own_sock sock size = do
    a ← perform (Call.read sock size)
    pure (if is_invalid a.ret then none else some a.bytes)

  -- What a round does with the bytes read.
  unfoldable pub forward : ℕ → Bytes → M K Round
  unfolding send_own_sock sub_size
  forward count bytes = do
    sock ← gets (λ d. d.transfer_client_sock)
    sent ← send_own_sock sock bytes
    pure (elim sent [
      | none ↦ stop failure
      | some n ↦ if n == 0 then stop failure else continue (sub_size count n)
    ])

  -- One round with `count > 0`.
  unfoldable pub send_round : ℤ → ℕ → M K Round
  unfolding forward
  send_round fd count = do
    a ← perform (Call.read fd (min count file_read_buf_size))
    if is_invalid a.ret
        then pure (stop failure)
        else if is_zero a.ret
        then pure (stop success)
        else forward count a.bytes

  -- `while (count > 0)`, on fuel for the rounds.
  unfoldable pub send_loop : ℕ → ℤ → ℕ → M K ℤ
  unfolding send_round
  send_loop zero fd count s = (success, s)
  send_loop (suc f) fd zero s = (success, s)
  send_loop (suc f) fd (suc count) s =
      let (round, s') = send_round fd (suc count) s in
      elim round [ stop r ↦ (r, s') | continue left ↦ send_loop f fd left s' ]

  -- `VSFTPServerSendfileTransfer`. Each round sends a byte at least, so the size is fuel enough.
  unfoldable pub send_file_transfer : Bytes → M K ℤ
  unfolding send_loop
  send_file_transfer path = do
    o ← open_file path
    r ← (if is_zero o.retval then send_loop o.count o.fd o.count else pure o.retval)
    close_file o.fd
    pure r

  -- `VSFTPServerSetTransferMode`
  unfoldable pub set_transfer_mode : Bool → M K ℤ
  set_transfer_mode binary = do
    modify (λ d. record d { transfer_mode_binary = binary })
    pure success

  -- `VSFTPServerGetTransferMode`, whose callers pass a place for the answer.
  unfoldable pub get_transfer_mode : M K Bool
  get_transfer_mode = gets (λ d. d.transfer_mode_binary)

  -- `VSFTPServerIsValidIPAddress`
  unfoldable pub is_valid_ip_address : Bytes → M K ℤ
  is_valid_ip_address address = invoke (Call.inet_pton (c_str address))

  -- `VSFTPServerGetServerIP4`
  unfoldable pub get_server_ip4 : ℕ → M K (Option Bytes)
  get_server_ip4 size = do
    addr ← gets (λ d. d.ip_addr)
    pure (if leb inet_addrstrlen size then some (strncpy addr size) else none)
