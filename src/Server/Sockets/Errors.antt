-- ===== src/Server/Sockets/Errors.antt =====
-- How `CreatePassiveSocket` in src/common/vsftp_server.c ends.
use vs_ftp.Common.{
  ◌≡◌, refl, ℤ, is_zero, is_invalid, Bool, Bool-cases, inl, inr, true, false, List, ◌∷◌,
  if◌then◌else◌,
}
use vs_ftp.Os.{Call, Answer, Os}
use vs_ftp.Machine.{SockAddr, Event, did, Machine, M, pure, ◌>>◌, ◌⨾◌, perform, invoke}
use vs_ftp.Machine.Keeps.{⨾-cases}
use vs_ftp.Server.Sockets.{Created, prepare_socket, create_passive_socket}

-- The last call was a `listen` on the socket that succeeded.
abbrev pub Listens : ℤ → List Event → Type 0
Listens sock log =
    (a : Answer) × (l : List Event) × (log ≡ did (Call.listen sock) a ∷ l) × (is_zero a.ret ≡ true)

-- The last two calls shut the socket down and closed it.
abbrev pub GivenUp : ℤ → List Event → Type 0
GivenUp sock log =
    (a : Answer) × (b : Answer) × (l : List Event) × (log
      ≡ did (Call.close sock) a ∷ did (Call.shutdown sock) b ∷ l)

abbrev pub Outcome : Bool → ℤ → List Event → Type 0
Outcome true = Listens
Outcome false = GivenUp

module _ {K : Type 0} ⦃os : Os K⦄ where
  -- A result that says success comes from a `listen`.
  abbrev ListensIfZero : ℤ → ℤ × Machine K → Type 0
  ListensIfZero sock (r, t) = is_zero r ≡ true → Listens sock t.log

  failed-ListensIfZero : (sock : ℤ) (x : ℤ × Machine K) → is_zero x.0 ≡ false → ListensIfZero sock x
  failed-ListensIfZero sock x e f = absurd (both e f)
    where
      both : {b : Bool} → b ≡ false → b ≡ true → ⊥
      both p q = cc

  -- Only the last of the calls has to be looked at.
  rest-ListensIfZero :
      (sock : ℤ) (m k : M K ℤ) (s : Machine K)
      → ListensIfZero sock (k (m s).1)
      → ListensIfZero sock ((m ⨾ k) s)
  rest-ListensIfZero sock m k s h =
      ⨾-cases (ListensIfZero sock) m k s (failed-ListensIfZero sock (m s)) h

  prepare_socket-Listens :
      (sock : ℤ) (addr : SockAddr) (s : Machine K) → ListensIfZero sock (prepare_socket sock addr s)
  unfolding prepare_socket perform
  prepare_socket-Listens sock addr s =
      let flags : M K ℤ = invoke (Call.fcntl_getfl sock) >> invoke (Call.fcntl_setfl sock) in
      let reuse : M K ℤ = invoke (Call.set_reuse_port sock) in
      let bound : M K ℤ = invoke (Call.bind sock addr.sin_port) in
      let listens : M K ℤ = invoke (Call.listen sock) in
      let t = (flags s).1 in
      let u = (reuse t).1 in
      let v = (bound u).1 in
      let b =
        rest-ListensIfZero sock bound listens u
          (λ f. ((perform (Call.listen sock) v).0, v.log, refl, f)) in
      let r = rest-ListensIfZero sock reuse (bound ⨾ listens) t b in
      let all = rest-ListensIfZero sock flags (reuse ⨾ bound ⨾ listens) s r in
      elim (Bool-cases (is_invalid sock)) [ inl e ↦ rw e (λ f. cc) | inr e ↦ rw e all ]

  ended :
      (sock r : ℤ) (t : Machine K)
      → ListensIfZero sock (r, t)
      → GivenUp sock (invoke (Call.close sock) (invoke (Call.shutdown sock) t).1).1.log
      → let created : Created = record { retval = r; sock = sock } in
        let (c, u) =
          (if is_zero r
              then pure created
              else invoke (Call.shutdown sock) >> invoke (Call.close sock) >> pure created)
            t in
        Outcome (is_zero c.retval) c.sock u.log
  ended sock r t listens given_up = elim (Bool-cases (is_zero r)) [
    | inl e ↦ rw e (rw e (listens e))
    | inr e ↦ rw e (rw e given_up)
  ]

  -- However its system calls answer, `CreatePassiveSocket` returns 0 only right after a `listen` on
  -- the new socket that succeeded, and after any failure it has shut the socket down and closed it.
  pub create_passive_socket-Outcome :
      (addr : SockAddr) (s : Machine K)
      → let (c, t) = create_passive_socket addr s in Outcome (is_zero c.retval) c.sock t.log
  unfolding create_passive_socket perform
  create_passive_socket-Outcome addr s =
      let a = invoke Call.socket s in
      let p = prepare_socket a.0 addr a.1 in
      let given_up : GivenUp a.0
          (invoke (Call.close a.0) (invoke (Call.shutdown a.0) p.1).1).1.log =
        (_, _, p.1.log, refl) in
      ended a.0 p.0 p.1 (prepare_socket-Listens a.0 addr a.1) given_up
