-- ===== src/Server/Reply.antt =====
-- The replies of src/common/vsftp_server.c.
pub mod Answers
pub mod Writes
use vs_ftp.Common.{
  ℕ, ◌+◌, ◌-◌, ℤ, success, failure, is_invalid, none, some, List, [], ◌∷◌, ◌++◌, leb, ◌==◌, ◌||◌,
  if◌then◌else◌, length, take,
}
use vs_ftp.Libc.{Bytes, crlf}
use vs_ftp.Libc.Format.{Arg, expand}
use vs_ftp.Os.{Call, Os}
use vs_ftp.Machine.{
  M, bad_format, write_out_of_bounds, read_out_of_bounds, pure, ◌>>=◌, ◌>>◌, gets, fault, invoke,
}

-- `RESPONSE_LEN_MAX`
abbrev pub response_len_max : ℕ
response_len_max = 288

module _ {K : Type 0} ⦃os : Os K⦄ where
  -- `write`, of which only a -1 counts.
  unfoldable pub send : ℤ → Bytes → M K ℤ
  send sock text = do
    r ← invoke (Call.write sock text)
    pure (if is_invalid r then failure else success)

  -- `snprintf(&buf[at], size - at, "\r\n")` on an array of the given size. The difference is one of
  -- `size_t`, so that it is no limit where `at` is behind the end of the array.
  unfoldable pub append_crlf : ℕ → ℕ → M K (Unit {0})
  append_crlf size at = if leb at size then pure tt else fault (write_out_of_bounds size)

  -- The part of `VSFTPServerSendReply` behind `vsnprintf`, which gave `text` if its array can hold it.
  unfoldable pub send_line : Bytes → M K ℤ
  unfolding send append_crlf
  send_line text = if leb response_len_max (length text) then pure failure else (do
    append_crlf response_len_max (length text)
    if leb response_len_max (length text + 2)
        then pure failure
        else (do sock ← gets (λ d. d.client_sock); send sock (text ++ crlf)))

  -- `VSFTPServerSendReply`
  unfoldable pub send_reply : Bytes → List Arg → M K ℤ
  unfolding send_line
  send_reply format args = elim (expand format args) [
    | none ↦ fault (bad_format format) >> pure failure
    | some text ↦ send_line text
  ]

  -- The common body of the next two. `snprintf` has room for `size - len` bytes, its terminator
  -- included, and is taken to have written two, so the bytes sent may run over the array's end.
  unfoldable pub send_own_buf : ℤ → Bytes → ℕ → M K ℤ
  unfolding send append_crlf
  send_own_buf sock buf size =
      if size == 0 || length buf == 0
      then pure failure
      else append_crlf size (length buf)
        >> (let stored = buf ++ take (size - length buf - 1) crlf ++ 0 ∷ [] in
            if leb (length buf + 2) size
            then send sock (take (length buf + 2) stored)
            else fault (read_out_of_bounds size) >> send sock (take (length buf + 2) stored))

  -- `VSFTPServerSendReplyOwnBuf`
  unfoldable pub send_reply_own_buf : Bytes → ℕ → M K ℤ
  unfolding send_own_buf
  send_reply_own_buf buf size = do sock ← gets (λ d. d.client_sock); send_own_buf sock buf size

  -- `VSFTPServerSendReplyOwnBufTransfer`
  unfoldable pub send_reply_own_buf_transfer : Bytes → ℕ → M K ℤ
  unfolding send_own_buf
  send_reply_own_buf_transfer buf size = do
    sock ← gets (λ d. d.transfer_client_sock)
    send_own_buf sock buf size
