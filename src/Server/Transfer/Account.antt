-- ===== src/Server/Transfer/Account.antt =====
-- What the loop of `VSFTPServerSendfileTransfer` in src/common/vsftp_server.c has sent when it ends,
-- whatever the file and the peer do.
use vs_ftp.Common.{
  ℕ, zero, suc, ◌+◌, ◌≤◌, ◌<◌, ◌^◌, min, ◌==◌, if◌then◌else◌, false, Bool-cases, inl, inr, ◌⊎◌,
  success, failure, is_zero, is_zero-success, is_invalid, ◌≡◌, refl, ℤ, pos, negsuc, arith, length,
  to_size, none, some, List, [], ◌∷◌,
}
use vs_ftp.Libc.{Bytes}
use vs_ftp.Os.{Call, Os}
use vs_ftp.Machine.{Machine, Event, did, undefined, perform}
use vs_ftp.Server.Transfer.{
  file_read_buf_size, sub_size, Round, stop, continue, send_own_sock, forward, send_round,
  send_loop,
}
use vs_ftp.Server.Transfer.Rounds.{Honest}

-- The number of bytes that were taken by what was written, as `write` returned it.
unfoldable pub taken : List Event → ℕ
taken [] = 0
taken (did (Call.write sock b) a ∷ l) = to_size a.ret + taken l
taken (did c a ∷ l) = taken l
taken (undefined f ∷ l) = taken l

-- The last that was done was to read no byte: the file has ended.
abbrev pub EndedEarly : List Event → Type 0
EndedEarly (did (Call.read fd n) a ∷ l) = a.ret ≡ success
EndedEarly l = ⊥

-- How a loop over `count` bytes can end.
abbrev pub Accounted : {K : Type 0} → ℕ → Machine K → ℤ × Machine K → Type 0
Accounted count s (r, t) =
    ((r ≡ success) × (taken t.log ≡ taken s.log + count))
    ⊎ ((r ≡ success) × (taken t.log < taken s.log + count) × EndedEarly t.log)
    ⊎ ((r ≡ failure) × (taken t.log < taken s.log + count))

-- How a write of which `n` bytes are taken ends a round.
abbrev Forwarded : ℕ → ℕ → Round → Type 0
Forwarded count n (stop r) = (r ≡ failure) × (n ≡ 0)
Forwarded count n (continue left) = (0 < n) × (n + left ≡ count)

answered-Forwarded :
    (count : ℕ) (r : ℤ)
    → to_size r ≤ count
    → count < 2 ^ 64
    → Forwarded count (to_size r) (elim (if is_invalid r then none else some (to_size r)) [
      | none ↦ stop failure
      | some n ↦ if n == 0 then stop failure else continue (sub_size count n)
    ])
unfolding sub_size
answered-Forwarded count (pos zero) fits bound = (refl, refl)
answered-Forwarded count (pos (suc n)) fits bound =
    let positive : (suc n == 0) ≡ false = ground arith in rw positive (omega arith, omega arith)
answered-Forwarded count (negsuc zero) fits bound = (refl, refl)
answered-Forwarded count (negsuc (suc n)) fits bound = (refl, refl)

-- How a round ends.
abbrev AfterRound : {K : Type 0} → ℕ → Machine K → Round × Machine K → Type 0
AfterRound count s (stop r, t) =
    (taken t.log ≡ taken s.log) × ((r ≡ failure) ⊎ (r ≡ success) × EndedEarly t.log)
AfterRound count s (continue left, t) = (left < count) × (taken t.log + left ≡ taken s.log + count)

round_of :
    {K : Type 0} (count n : ℕ) (o : Round) (s t : Machine K)
    → Forwarded count n o
    → taken t.log ≡ n + taken s.log
    → AfterRound count s (o, t)
round_of count n (stop r) s t h e = (omega (arith, h.1), inl h.0)
round_of count n (continue left) s t h e = (omega (arith, h.0, h.1), omega (arith, h.1))

-- What a loop has done behind a round counts with the round.
joined :
    {K : Type 0} (count left : ℕ) (s t : Machine K) (x : ℤ × Machine K)
    → taken t.log + left ≡ taken s.log + count
    → Accounted left t x
    → Accounted count s x
joined count left s t x e (inl h) = inl (h.0, omega (arith, h.1))
joined count left s t x e (inr (inl h)) = inr (inl (h.0, omega (arith, h.1), h.2))
joined count left s t x e (inr (inr h)) = inr (inr (h.0, omega (arith, h.1)))

module _ {K : Type 0} ⦃os : Os K⦄ (honest : Honest os) where
  forward-Forwarded :
      (count : ℕ) (b : Bytes) (s : Machine K)
      → length b ≤ count
      → count < 2 ^ 64
      → let a = (os.answer (Call.write s.server_data.transfer_client_sock b) s.kernel).0 in
        let (o, t) = forward count b s in
        Forwarded count (to_size a.ret) o × (taken t.log ≡ to_size a.ret + taken s.log)
  unfolding forward send_own_sock perform taken
  forward-Forwarded count b s fits bound =
      let sock = s.server_data.transfer_client_sock in
      let w = honest.writes sock b s.kernel in
      (
        answered-Forwarded count (os.answer (Call.write sock b) s.kernel).0.ret (omega arith) bound,
        refl,
      )

  send_round-AfterRound :
      (fd : ℤ) (count : ℕ) (s : Machine K)
      → count < 2 ^ 64
      → AfterRound count s (send_round fd count s)
  unfolding send_round perform taken
  send_round-AfterRound fd count s bound =
      let size = min count file_read_buf_size in
      let (a, t) = perform (Call.read fd size) s in
      let fits = honest.reads fd size s.kernel in
      let sent = forward-Forwarded count a.bytes t (omega (arith, fits)) bound in
      elim (Bool-cases (is_invalid a.ret)) [
        | inl e ↦ rw e (refl, inl refl)
        | inr e ↦ elim (Bool-cases (is_zero a.ret)) [
          | inl z ↦ rw e (rw z (refl, inr (refl, is_zero-success a.ret z)))
          | inr z ↦ rw e (rw z (round_of count _ (forward count a.bytes t).0 s _ sent.0 sent.1))
        ]
      ]

  after_round :
      (f : ℕ) (fd : ℤ) (count : ℕ) (s : Machine K) (o : Round) (t : Machine K)
      → 0 < count
      → AfterRound count s (o, t)
      → ((left : ℕ) → left < count → Accounted left t (send_loop f fd left t))
      → Accounted count s (elim o [ stop x ↦ (x, t) | continue left ↦ send_loop f fd left t ])
  after_round f fd count s (stop x) t some_left (e, inl h) rest = inr (inr (h, omega (arith, e)))
  after_round f fd count s (stop x) t some_left (e, inr h) rest =
      inr (inl (h.0, omega (arith, e), h.1))
  after_round f fd count s (continue left) t some_left h rest =
      joined count left s t (send_loop f fd left t) h.1 (rest left h.0)

  -- In an environment that keeps the promises of `read` and `write`, the loop over a file of `count`
  -- bytes, fewer than 2^64, ends in one of three ways: it succeeds, and its writes have taken exactly
  -- `count` bytes; it succeeds, fewer have been taken, and the last that it did was to read
  -- no byte; or it fails, and fewer have been taken. The rounds that it gets are at least `count`.
  pub send_loop-Accounted :
      (f : ℕ) (fd : ℤ) (count : ℕ) (s : Machine K)
      → count ≤ f
      → count < 2 ^ 64
      → Accounted count s (send_loop f fd count s)
  unfolding send_loop
  send_loop-Accounted zero fd count s enough bound = inl (refl, omega arith)
  send_loop-Accounted (suc f) fd zero s enough bound = inl (refl, omega arith)
  send_loop-Accounted (suc f) fd (suc count) s enough bound =
      after_round f fd (suc count) s (send_round fd (suc count) s).0 (send_round fd (suc count) s).1
        (omega arith) (send_round-AfterRound fd (suc count) s bound)
        (λ left less. send_loop-Accounted f fd left _ (omega arith) (omega arith))
