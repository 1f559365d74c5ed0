-- ===== src/Loop/Session.antt =====
-- A client that gives PASV and then RETR to `VSFTPServerHandler` in src/common/vsftp_server.c.
use mathlib.Core.List.{Memᴰ}
use vs_ftp.Common.{
  ℕ, ◌<◌, ◌^◌, ◌+◌, ◌≡◌, ◌∙◌, ap, refl, ℤ, is_invalid, true, false, success, List, [], ◌∷◌, ◌++◌,
  length, arith,
}
use vs_ftp.Libc.{Bytes, c_str, codes, crlf}
use vs_ftp.Os.{Call, Answer, Os}
use vs_ftp.Machine.{Server, Machine, did, Event, perform}
use vs_ftp.Filesystem.Resolved.{NoNul}
use vs_ftp.Server.Transfer.{inet_addrstrlen}
use vs_ftp.Commands.{commands, entry, pasv, retr, dispatch, commands_parse}
use vs_ftp.Commands.Handlers.{locate, command_pasv, command_retr}
use vs_ftp.Commands.Requests.{commands_parse-runs}
use vs_ftp.Commands.Passive.{Listens, passive, command_pasv-listens}
use vs_ftp.Commands.Retrieval.{Meets, command_retr-delivers}
use vs_ftp.Loop.{request_len_max, handler}
use vs_ftp.Loop.Request.{handler-line, handle_request-success}

pasv_entry : Memᴰ (entry "PASV" pasv) commands
pasv_entry = Memᴰ.tail (Memᴰ.tail (Memᴰ.head refl))

retr_entry : Memᴰ (entry "RETR" retr) commands
retr_entry = Memᴰ.tail (Memᴰ.tail (Memᴰ.tail (Memᴰ.tail (Memᴰ.tail (Memᴰ.tail (Memᴰ.head refl))))))

module _ {K : Type 0} ⦃os : Os K⦄ where
  -- What the server reads next of its client.
  abbrev pub next_line : Machine K → Answer × Machine K
  next_line s = perform (Call.read s.server_data.client_sock request_len_max) s

-- The server's next request is this line of the client that is connected.
pub record Requested {K : Type 0} ⦃os : Os K⦄ (text : Bytes) (s : Machine K) : Type 0 where
  pub created : s.server_data.is_server_socket_created ≡ true
  pub connected : s.server_data.is_connected ≡ true
  pub read : is_invalid (next_line s).0.ret ≡ false
  pub line : (next_line s).0.bytes ≡ text ++ crlf

module _ {K : Type 0} ⦃os : Os K⦄ where
  -- A request that goes well is what the handler does.
  handler-succeeds :
      (text : Bytes) (s : Machine K) (x : ℤ × Machine K)
      → Requested text s
      → 0 < length text
      → length text + 2 < request_len_max
      → commands_parse text (next_line s).1 ≡ x
      → x.0 ≡ success
      → handler s ≡ x
  handler-succeeds text s x h some_text fits is ok =
      let t = (next_line s).1 in
      handler-line text s h.created h.connected some_text fits h.read h.line
      ∙ handle_request-success text t (ap (λ (y : ℤ × Machine K). y.0) is ∙ ok)
      ∙ is

module _ {K : Type 0} ⦃os : Os K⦄ (c : ℕ) (p : Bytes) {fd sock client listener : ℤ}
    {content received : K → Bytes}
    (meets : Meets os (c_str (c ∷ p)) fd sock client content received)
    (free : Listens os listener) where
  pub handler-transfers :
      (args : Bytes) (s : Machine K)
      → s.server_data.client_sock ≡ client
      → NoNul s.server_data.ip_addr
      → length s.server_data.ip_addr < inet_addrstrlen
      → length args < 200
      → let (q, t) = handler s in
        let (file, v) = locate args (next_line t).1 in
        let (r, u) = handler t in
        Requested (codes "PASV") s
        → Requested (codes "RETR " ++ args) t
        → file.retval ≡ success
        → file.real_path ≡ c ∷ p
        → length (content v.kernel) < 2 ^ 64
        → (q ≡ success)
          × (t.server_data ≡ passive listener s.server_data)
          × (r ≡ success)
          × (received u.kernel ≡ received v.kernel ++ content v.kernel)
          × (a : Answer) × (before : List Event) × (u.log
              ≡ did (Call.write client (codes "226 Transfer Complete." ++ crlf)) a ∷ before)
  unfolding dispatch perform
  handler-transfers args s there no_nul fits short asks_pasv asks_retr found at bound =
      let s1 = (next_line s).1 in
      let t = (handler s).1 in
      let t1 = (next_line t).1 in
      let opened = command_pasv-listens meets.connects free [] s1 there no_nul fits in
      let first =
        handler-succeeds (codes "PASV") s (command_pasv [] s1) asks_pasv (omega arith) (omega arith)
          (commands_parse-runs (entry "PASV" pasv) 0 [] s1 pasv_entry).0 opened.0 in
      let changed : t.server_data ≡ passive listener s.server_data =
        ap (λ (x : ℤ × Machine K). x.1.server_data) first ∙ opened.2 in
      let listens : is_invalid t.server_data.transfer_sock ≡ false =
        ap (λ (d : Server). is_invalid d.transfer_sock) changed ∙ free.created in
      let sent =
        command_retr-delivers c p meets args t1 found at listens
          (ap (λ (d : Server). d.client_sock) changed ∙ there) short bound in
      let second =
        handler-succeeds (codes "RETR " ++ args) t (command_retr args t1) asks_retr (omega arith)
          (omega arith) (commands_parse-runs (entry "RETR" retr) b' ' args t1 retr_entry).1
          sent.0 in
      let ok = ap (λ (x : ℤ × Machine K). x.0) first ∙ opened.0 in
      rw second (ok, changed, sent.0, sent.1, sent.2, sent.3, sent.4)
