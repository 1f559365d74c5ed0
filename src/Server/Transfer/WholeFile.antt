-- ===== src/Server/Transfer/WholeFile.antt =====
-- What `VSFTPServerSendfileTransfer` in src/common/vsftp_server.c sends of a file.
use vs_ftp.Common.{
  ◌<◌, ◌^◌, ◌≡◌, ◌≢◌, refl, ◌∙◌, sym, ap, ℕ, ℤ, is_invalid, success, false, ◌∷◌, ◌++◌, arith,
  length,
}
use vs_ftp.Libc.{Bytes, c_str}
use vs_ftp.Os.{Call, Os}
use vs_ftp.Machine.{Server, Machine, perform}
use vs_ftp.Filesystem.{measure, open_file, close_file}
use vs_ftp.Server.Transfer.{send_loop, send_file_transfer}
use vs_ftp.Server.Transfer.Delivery.{Reliable, Delivered, send_loop-delivers}

-- A call that does not read, neither a file nor a directory, nor write on the socket `sock`.
abbrev pub IsQuiet : ℤ → Call → Type 0
IsQuiet sock (Call.read f n) = ⊥
IsQuiet sock (Call.readdir d) = ⊥
IsQuiet sock (Call.write to b) = to ≢ sock
IsQuiet sock _ = Unit

-- An environment with a file at `path`, which it opens as `fd`, and a peer on the socket `sock`.
-- Only reading changes what is still to be read of the file, and only a write on that socket what
-- the peer has got.
pub record Opens {K : Type 0} (os : Os K) (path : Bytes) (fd sock : ℤ)
    (content received : K → Bytes) : Type 0 where
  pub quiet :
      (c : Call) (k : K)
      → IsQuiet sock c
      → let l = (os.answer c k).1 in (content l ≡ content k) × (received l ≡ received k)
  pub accessible : (k : K) → (os.answer (Call.access path) k).0.ret ≡ success
  pub opens : (k : K) → (os.answer (Call.open_file path) k).0.ret ≡ fd
  pub opened : is_invalid fd ≡ false
  pub measures :
      (k : K)
      → let a = (os.answer (Call.fstat fd) k).0 in (a.ret ≡ success) × (a.size ≡ length (content k))

-- The same, where the file can be read and the peer takes what is written to it.
pub record Offers {K : Type 0} (os : Os K) (path : Bytes) (fd sock : ℤ)
    (content received : K → Bytes) : Type 0 where
  pub reliable : Reliable os fd sock content received
  pub file : Opens os path fd sock content received

-- The views of an environment's state are what they were, and so are the server's data.
abbrev pub Unchanged : {K : Type 0} → (K → Bytes) → (K → Bytes) → Machine K → Machine K → Type 0
Unchanged content received s t =
    (content t.kernel ≡ content s.kernel)
    × (received t.kernel ≡ received s.kernel)
    × (t.server_data ≡ s.server_data)

module _ {K : Type 0} ⦃os : Os K⦄ {path : Bytes} {fd sock : ℤ} {content received : K → Bytes}
    (file : Opens os path fd sock content received) where
  pub perform-Unchanged :
      (call : Call) (s : Machine K)
      → IsQuiet sock call
      → Unchanged content received s (perform call s).1
  unfolding perform
  perform-Unchanged call s q = let w = file.quiet call s.kernel q in (w.0, w.1, refl)

module _ {K : Type 0} ⦃os : Os K⦄ (c : ℕ) (p : Bytes) {fd sock : ℤ} {content received : K → Bytes}
    (file : Opens os (c_str (c ∷ p)) fd sock content received) where
  -- The file is opened, with its length.
  pub open_file-Opens :
      (s : Machine K)
      → let (o, t) = open_file (c ∷ p) s in
        (o ≡ record { retval = success; fd = fd; count = length (content s.kernel) })
        × Unchanged content received s t
  unfolding open_file measure perform
  open_file-Opens s =
      let path = c_str (c ∷ p) in
      let t = (perform (Call.access path) s).1 in
      let u = (perform (Call.open_file path) t).1 in
      let a = perform-Unchanged file (Call.access path) s tt in
      let b = perform-Unchanged file (Call.open_file path) t tt in
      let d = perform-Unchanged file (Call.fstat fd) u tt in
      let m = file.measures u.kernel in
      let ok = file.accessible s.kernel in
      let size = b.0 ∙ a.0 in
      rw ok (
        rw (file.opens t.kernel) (
          rw file.opened (
            rw m.0 (rw m.1 (rw size (refl, (d.0 ∙ b.0 ∙ a.0, d.1 ∙ b.1 ∙ a.1, d.2 ∙ b.2 ∙ a.2)))))))

module _ {K : Type 0} ⦃os : Os K⦄ (c : ℕ) (p : Bytes) {fd sock : ℤ} {content received : K → Bytes}
    (offers : Offers os (c_str (c ∷ p)) fd sock content received) where
  -- The whole function: in an environment with the file, and a peer that takes what is written to it,
  -- `VSFTPServerSendfileTransfer` succeeds, and the peer has got the whole content of the file, in
  -- order, behind what it had. The file has fewer than 2^64 bytes.
  pub send_file_transfer-delivers :
      (s : Machine K)
      → s.server_data.transfer_client_sock ≡ sock
      → length (content s.kernel) < 2 ^ 64
      → Delivered received (content s.kernel) s (send_file_transfer (c ∷ p) s)
  unfolding send_file_transfer close_file
  send_file_transfer-delivers s there bound =
      let n = length (content s.kernel) in
      let t = (open_file (c ∷ p) s).1 in
      let o = open_file-Opens c p offers.file s in
      let loop = send_loop n fd n t in
      let sent =
        send_loop-delivers offers.reliable n n t
          (ap (λ (d : Server). d.transfer_client_sock) o.1.2 ∙ there) (ap length (sym o.1.0))
          (omega arith) bound in
      let closed = perform-Unchanged offers.file (Call.close fd) loop.1 tt in
      rw o.0 (
        sent.0,
        closed.1
            ∙ sent.1
            ∙ ap (λ (b : Bytes). b ++ content t.kernel) o.1.1
            ∙ ap (λ (b : Bytes). received s.kernel ++ b) o.1.0,
      )
