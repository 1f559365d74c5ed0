-- ===== src/Server/Transfer/Delivery.antt =====
-- What the loop of `VSFTPServerSendfileTransfer` in src/common/vsftp_server.c sends of a file.
use vs_ftp.Common.{
  ℕ, zero, suc, ◌+◌, ◌-◌, ◌≤◌, ◌<◌, ◌^◌, ◌%◌, min, ◌==◌, false, ◌≡◌, refl, sym, subst, ap, ◌∙◌, ℤ,
  pos, is_zero, success, arith, [], ◌∷◌, ◌++◌, append_assoc, append-nil, length, length-take,
  length-drop, take, drop,
}
use vs_ftp.Libc.{Bytes}
use vs_ftp.Os.{Call, Os}
use vs_ftp.Machine.{Server, Machine, perform}
use vs_ftp.Server.Transfer.{
  file_read_buf_size, sub_size, Round, stop, continue, send_own_sock, forward, send_round,
  send_loop,
}

-- An environment in which `content` is what `read` has still to give of the file `fd`, in order, and
-- `received` what a peer has got on the socket `sock`, which takes every byte that is written.
pub record Reliable {K : Type 0} (os : Os K) (fd sock : ℤ) (content received : K → Bytes)
    : Type 0 where
  pub reads :
      (n : ℕ) (k : K)
      → let (a, l) = os.answer (Call.read fd n) k in
        (a.ret ≡ pos (length (take n (content k))))
        × (a.bytes ≡ take n (content k))
        × (content l ≡ drop n (content k))
        × (received l ≡ received k)
  pub writes :
      (b : Bytes) (k : K)
      → let (a, l) = os.answer (Call.write sock b) k in
        (a.ret ≡ pos (length b)) × (content l ≡ content k) × (received l ≡ received k ++ b)

take-drop : (n : ℕ) (b : Bytes) → take n b ++ drop n b ≡ b
take-drop zero b = refl
take-drop (suc n) [] = refl
take-drop (suc n) (c ∷ b) = ap (λ r. c ∷ r) (take-drop n b)

no_bytes : (b : Bytes) → 0 ≡ length b → b ≡ []
no_bytes [] h = refl
no_bytes (c ∷ b) h = absurd (omega arith)

-- What a loop has done that went well: it succeeded and the peer has got `b` more.
abbrev pub Delivered : {K : Type 0} → (K → Bytes) → Bytes → Machine K → ℤ × Machine K → Type 0
Delivered received b s r = (r.0 ≡ success) × (received r.1.kernel ≡ received s.kernel ++ b)

module _ {K : Type 0} ⦃os : Os K⦄ {fd sock : ℤ} {content received : K → Bytes}
    (reliable : Reliable os fd sock content received) where
  -- All of what was read is sent, and its length taken off the count.
  forward-sends :
      (count : ℕ) (b : Bytes) (s : Machine K)
      → s.server_data.transfer_client_sock ≡ sock
      → 0 < length b
      → length b ≤ count
      → count < 2 ^ 64
      → let (r, t) = forward count b s in
        (r ≡ continue (count - length b))
        × (content t.kernel ≡ content s.kernel)
        × (received t.kernel ≡ received s.kernel ++ b)
        × (t.server_data ≡ s.server_data)
  unfolding forward send_own_sock perform sub_size
  forward-sends count b s there some_read fits bound =
      let w = reliable.writes b s.kernel in
      let positive : (length b == 0) ≡ false = ground arith in
      let left : (count + 2 ^ 64 - length b) % 2 ^ 64 ≡ count - length b = omega arith in
      rw there (rw w.0 (rw (positive, left) (refl, w.1, w.2, refl)))

  -- A round reads as much as fits, sends it, and takes its length off the count.
  send_round-sends :
      (count : ℕ) (s : Machine K)
      → s.server_data.transfer_client_sock ≡ sock
      → count ≡ length (content s.kernel)
      → 0 < count
      → count < 2 ^ 64
      → let n = min count file_read_buf_size in
        let (r, t) = send_round fd count s in
        (r ≡ continue (count - n))
        × (content t.kernel ≡ drop n (content s.kernel))
        × (received t.kernel ≡ received s.kernel ++ take n (content s.kernel))
        × (t.server_data ≡ s.server_data)
  unfolding send_round perform
  send_round-sends count s there size some_left bound =
      let n = min count file_read_buf_size in
      let a = reliable.reads n s.kernel in
      let t = (perform (Call.read fd n) s).1 in
      let some_read : length (take n (content s.kernel)) ≡ n =
        omega (arith, length-take n (content s.kernel)) in
      let f =
        forward-sends count (take n (content s.kernel)) t there (omega arith) (omega arith) bound in
      let going : is_zero (pos (length (take n (content s.kernel)))) ≡ false = ground arith in
      rw a.0 (
        rw going (
          rw a.1 (
            f.0 ∙ ap (λ (m : ℕ). continue (count - m)) some_read,
            f.1 ∙ a.2,
            f.2 ∙ ap (λ (b : Bytes). b ++ take n (content s.kernel)) a.3,
            refl,
          )))

  done :
      (s : Machine K)
      → 0 ≡ length (content s.kernel)
      → Delivered received (content s.kernel) s (success, s)
  done s size = rw (no_bytes (content s.kernel) size) (refl, sym (append-nil (received s.kernel)))

  -- A round that goes on is followed by the loop over what it left.
  onward :
      (X : ℤ × Machine K → Type 0) (f left : ℕ) (r : Round) (t : Machine K)
      → r ≡ continue left
      → X (send_loop f fd left t)
      → X (elim r [ stop x ↦ (x, t) | continue m ↦ send_loop f fd m t ])
  onward X f left r t e h =
      subst (λ q. X (elim q [ stop x ↦ (x, t) | continue m ↦ send_loop f fd m t ])) (sym e) h

  -- In an environment where reading a file yields its content in order and a peer takes all that is
  -- written to it, the loop succeeds and the peer has got the whole content of the file, in order,
  -- behind what it had. The count is the length of the content, which is below 2^64, and is fuel
  -- enough.
  pub send_loop-delivers :
      (f count : ℕ) (s : Machine K)
      → s.server_data.transfer_client_sock ≡ sock
      → count ≡ length (content s.kernel)
      → count ≤ f
      → count < 2 ^ 64
      → Delivered received (content s.kernel) s (send_loop f fd count s)
  unfolding send_loop
  send_loop-delivers zero zero s there size enough bound = done s size
  send_loop-delivers zero (suc count) s there size enough bound = absurd (omega arith)
  send_loop-delivers (suc f) zero s there size enough bound = done s size
  send_loop-delivers (suc f) (suc count) s there size enough bound =
      let n = min (suc count) file_read_buf_size in
      let r = send_round-sends (suc count) s there size (omega arith) bound in
      let t = (send_round fd (suc count) s).1 in
      let less : suc count - n ≡ length (content t.kernel) =
        omega (arith, ap length r.1, length-drop n (content s.kernel)) in
      let rest =
        send_loop-delivers f (suc count - n) t
          (ap (λ (d : Server). d.transfer_client_sock) r.3 ∙ there) less (omega arith)
          (omega arith) in
      onward (Delivered received (content s.kernel) s) f (suc count - n)
        (send_round fd (suc count) s).0 t r.0
        (
          rest.0,
          rest.1
              ∙ rw (r.1, r.2)
                  (append_assoc (received s.kernel) (take n (content s.kernel)) _
                    ∙ ap (λ (b : Bytes). received s.kernel ++ b) (take-drop n (content s.kernel))),
        )
