-- ===== src/Server/Transfer/Rounds.antt =====
-- How many rounds the loop of `VSFTPServerSendfileTransfer` in src/common/vsftp_server.c makes.
use vs_ftp.Common.{
  ℕ, zero, suc, ◌≤◌, ◌<◌, ◌^◌, min, ◌==◌, if◌then◌else◌, false, failure, ◌≡◌, refl, ℤ, arith,
  length, to_size, Option, none, some,
}
use vs_ftp.Libc.{Bytes}
use vs_ftp.Os.{Call, Os}
use vs_ftp.Machine.{Machine, perform}
use vs_ftp.Server.Transfer.{
  file_read_buf_size, sub_size, Round, stop, continue, send_own_sock, forward, send_round,
  send_loop,
}

-- What `read` and `write` promise: `read` yields at most the bytes asked for, and as many as it
-- returns; `write` does not return more than the bytes it was given.
pub record Honest {K : Type 0} (os : Os K) : Type 0 where
  pub reads : (fd : ℤ) (n : ℕ) (k : K) → length (os.answer (Call.read fd n) k).0.bytes ≤ n
  pub writes :
      (fd : ℤ) (b : Bytes) (k : K) → to_size (os.answer (Call.write fd b) k).0.ret ≤ length b

-- What a round leaves is less than there was.
abbrev Less : ℕ → Round → Type 0
Less count (stop r) = Unit
Less count (continue left) = left < count

sub_size_less : (count n : ℕ) → n ≤ count → 0 < n → count < 2 ^ 64 → sub_size count n < count
unfolding sub_size
sub_size_less count n h p b = omega arith

outcome :
    (count : ℕ) (sent : Option ℕ)
    → ((n : ℕ) → sent ≡ some n → n ≤ count)
    → count < 2 ^ 64
    → Less count (elim sent [
      | none ↦ stop failure
      | some n ↦ if n == 0 then stop failure else continue (sub_size count n)
    ])
outcome count none fits bound = tt
outcome count (some zero) fits bound = tt
outcome count (some (suc n)) fits bound =
    let positive : (suc n == 0) ≡ false = ground arith in
    rw positive (sub_size_less count (suc n) (fits (suc n) refl) (omega arith) bound)

module _ {K : Type 0} ⦃os : Os K⦄ (honest : Honest os) where
  sent_size :
      (sock : ℤ) (b : Bytes) (s : Machine K) (n : ℕ)
      → (send_own_sock sock b s).0 ≡ some n
      → n ≤ length b
  unfolding send_own_sock perform
  sent_size sock b s n h = ground (arith, honest.writes sock b s.kernel, h)

  forward-Less :
      (count : ℕ) (b : Bytes) (s : Machine K)
      → length b ≤ count
      → count < 2 ^ 64
      → Less count (forward count b s).0
  unfolding forward
  forward-Less count b s fits bound =
      let sent = send_own_sock s.server_data.transfer_client_sock b s in
      outcome count sent.0
        (λ n h. omega (arith, sent_size s.server_data.transfer_client_sock b s n h)) bound

  send_round-Less :
      (fd : ℤ) (count : ℕ) (s : Machine K) → count < 2 ^ 64 → Less count (send_round fd count s).0
  unfolding send_round perform
  send_round-Less fd count s bound =
      let size = min count file_read_buf_size in
      let a = perform (Call.read fd size) s in
      let fits = honest.reads fd size s.kernel in
      ground (arith, forward-Less count a.0.bytes a.1 (omega (arith, fits)) bound)

  -- Two loops go on alike after a round that left less, if they do so on all that is less.
  after :
      (f g : ℕ) (fd : ℤ) (count : ℕ) (r : Round) (t : Machine K)
      → Less count r
      → ((left : ℕ) → left < count → send_loop f fd left t ≡ send_loop g fd left t)
      → ◌≡◌ {A = ℤ × Machine K}
          (elim r [ stop x ↦ (x, t) | continue left ↦ send_loop f fd left t ])
          (elim r [ stop x ↦ (x, t) | continue left ↦ send_loop g fd left t ])
  after f g fd count (stop x) t less same = refl
  after f g fd count (continue left) t less same = same left less

  loop-same :
      (f g : ℕ) (fd : ℤ) (count : ℕ) (s : Machine K)
      → count ≤ f
      → count ≤ g
      → count < 2 ^ 64
      → send_loop f fd count s ≡ send_loop g fd count s
  unfolding send_loop
  loop-same zero zero fd count s hf hg bound = refl
  loop-same zero (suc g) fd zero s hf hg bound = refl
  loop-same zero (suc g) fd (suc count) s hf hg bound = absurd (omega arith)
  loop-same (suc f) zero fd zero s hf hg bound = refl
  loop-same (suc f) zero fd (suc count) s hf hg bound = absurd (omega arith)
  loop-same (suc f) (suc g) fd zero s hf hg bound = refl
  loop-same (suc f) (suc g) fd (suc count) s hf hg bound =
      after f g fd (suc count) (send_round fd (suc count) s).0 (send_round fd (suc count) s).1
        (send_round-Less fd (suc count) s bound)
        (λ left less. loop-same f g fd left _ (omega arith) (omega arith) (omega arith))

  -- In an environment that keeps the promises of `read` and `write`, the loop over a file of
  -- `count` bytes, fewer than 2^64, ends within `count` rounds: any fuel from `count` on gives the
  -- same result.
  pub send_loop-enough :
      (f : ℕ) (fd : ℤ) (count : ℕ) (s : Machine K)
      → count ≤ f
      → count < 2 ^ 64
      → send_loop f fd count s ≡ send_loop count fd count s
  send_loop-enough f fd count s enough bound =
      loop-same f count fd count s enough (omega arith) bound
