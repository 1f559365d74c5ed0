-- ===== src/Server/Reply/Writes.antt =====
-- What `VSFTPServerSendReply` in src/common/vsftp_server.c does with a reply that fits: it writes it.
use vs_ftp.Common.{
  true, ◌+◌, ◌<◌, ◌≡◌, refl, sym, ap, subst, ◌∷◌, ℤ, is_invalid, success, false, some, List, ◌++◌,
  leb, arith, length,
}
use vs_ftp.Libc.{Bytes, crlf}
use vs_ftp.Libc.Format.{Arg, expand, room, expand-length}
use vs_ftp.Os.{Call, Answer, Os}
use vs_ftp.Machine.{Machine, did, perform}
use vs_ftp.Server.Reply.{response_len_max, send, append_crlf, send_line, send_reply}
use vs_ftp.Server.Reply.Answers.{reply_of}

module _ {K : Type 0} ⦃os : Os K⦄ where
  send_line-perform :
      (sock : ℤ) (text : Bytes) (s : Machine K)
      → s.server_data.client_sock ≡ sock
      → length text + 2 < response_len_max
      → (send_line text s).1 ≡ (perform (Call.write sock (text ++ crlf)) s).1
  unfolding send_line append_crlf send
  send_line-perform sock text s there fits =
      let small : leb response_len_max (length text) ≡ false = ground arith in
      let inside : leb (length text) response_len_max ≡ true = ground arith in
      let both : leb response_len_max (length text + 2) ≡ false = ground arith in
      subst (λ c. (send_line text s).1 ≡ (perform (Call.write c (text ++ crlf)) s).1) there
        (rw small (rw inside (rw both refl)))

  -- All that a reply does is one write to the client.
  pub send_reply-perform :
      (sock : ℤ) (format : Bytes) (args : List Arg) (text : Bytes) (s : Machine K)
      → s.server_data.client_sock ≡ sock
      → expand format args ≡ some text
      → length format + room args + 2 < response_len_max
      → (send_reply format args s).1 ≡ (perform (Call.write sock (text ++ crlf)) s).1
  unfolding send_reply
  send_reply-perform sock format args text s there e fits =
      subst (λ o. (reply_of format o s).1 ≡ (perform (Call.write sock (text ++ crlf)) s).1) (sym e)
        (send_line-perform sock text s there (omega (arith, expand-length format args text e)))

  send_line-success :
      (sock : ℤ) (text : Bytes) (s : Machine K)
      → s.server_data.client_sock ≡ sock
      → length text + 2 < response_len_max
      → is_invalid (os.answer (Call.write sock (text ++ crlf)) s.kernel).0.ret ≡ false
      → (send_line text s).0 ≡ success
  unfolding send_line append_crlf send perform
  send_line-success sock text s there fits told =
      let small : leb response_len_max (length text) ≡ false = ground arith in
      let inside : leb (length text) response_len_max ≡ true = ground arith in
      let both : leb response_len_max (length text + 2) ≡ false = ground arith in
      rw small (rw inside (rw both (rw there (rw told refl))))

  -- A reply that fits is sent, unless the write gives -1: it succeeds, leaves the data alone, and its
  -- line is the last that is written.
  pub send_reply-success :
      (sock : ℤ) (format : Bytes) (args : List Arg) (text : Bytes) (s : Machine K)
      → s.server_data.client_sock ≡ sock
      → expand format args ≡ some text
      → length format + room args + 2 < response_len_max
      → is_invalid (os.answer (Call.write sock (text ++ crlf)) s.kernel).0.ret ≡ false
      → let (r, t) = send_reply format args s in
        (r ≡ success)
        × (t.server_data ≡ s.server_data)
        × (a : Answer) × (t.log ≡ did (Call.write sock (text ++ crlf)) a ∷ s.log)
  unfolding send_reply perform
  send_reply-success sock format args text s there e fits told =
      let short = expand-length format args text e in
      let ok =
        subst (λ o. (reply_of format o s).0 ≡ success) (sym e)
          (send_line-success sock text s there (omega (arith, short)) told) in
      let does = send_reply-perform sock format args text s there e fits in
      (ok, ap (λ (t : Machine K). t.server_data) does, _, ap (λ (t : Machine K). t.log) does)
