-- ===== src/Main/Exit.antt =====
-- How the loop of `main` in src/linux/main.c ends.
use vs_ftp.Common.{
  not_zero, ℕ, zero, suc, ◌≢◌, get_or, drop, is_zero-success, ◌≡◌, refl, subst, ℤ, is_zero, success,
  failure, Bool, inl, inr, true, false, Option, none, some, List, [], ◌∷◌, if◌then◌else◌, ◌⊎◌,
}
use vs_ftp.Os.{Os}
use vs_ftp.Machine.{Server, Machine}
use vs_ftp.Server.Sockets.{stop}
use vs_ftp.Server.Sockets.Closing.{stop-data}
use vs_ftp.Loop.{handler}
use vs_ftp.Loop.Phases.{phase, down}
use vs_ftp.Main.{serve, stop_server, handler_failed}

-- No socket is left, and nobody is connected.
abbrev pub IsClosed : Server → Type 0
IsClosed d =
    (phase d ≡ down)
    × (d.server_sock ≡ failure)
    × (d.client_sock ≡ failure)
    × (d.transfer_sock ≡ failure)
    × (d.transfer_client_sock ≡ failure)

module _ {K : Type 0} ⦃os : Os K⦄ where
  stop-IsClosed : (s : Machine K) → IsClosed (stop s).1.server_data
  stop-IsClosed s = rw ((stop-data s).1) (refl, refl, refl, refl, refl)

  -- The machine before round `n` of the loop.
  abbrev pub round : ℕ → Machine K → Machine K
  round zero s = s
  round (suc n) s = round n (handler s).1

  -- The loop has come to round `n`: the handler succeeded in all the rounds before it, and `quit` was
  -- not set after any of them.
  abbrev pub Reaches : ℕ → List Bool → Machine K → Type 0
  Reaches zero quits s = Unit
  Reaches (suc n) quits s =
      ((handler s).0 ≡ success)
      × (get_or quits 0 true ≡ false)
      × Reaches n (drop 1 quits) (handler s).1

  -- What is said of the loop below, for any result with the machine after it.
  abbrev Ends : List Bool → Machine K → Option ℤ × Machine K → Type 0
  Ends quits s (none, t) = Unit
  Ends quits s (some r, t) =
      IsClosed t.server_data
      × ((n : ℕ) × Reaches n quits s
          × ((handler (round n s)).0 ≡ r)
          × ((r ≢ success) ⊎ (get_or (drop n quits) 0 false ≡ true)))

  stop_server-Ends :
      (later : List Bool) (s : Machine K)
      → (handler s).0 ≡ success
      → Ends (true ∷ later) s (stop_server (handler s).1)
  unfolding stop_server
  stop_server-Ends later s e =
      let t = (handler s).1 in
      let closed = stop-IsClosed t in rw ((stop-data t).0) (closed, (zero, tt, e, inr refl))

  handler_failed-Ends :
      (quits : List Bool) (s : Machine K)
      → is_zero (handler s).0 ≡ false
      → Ends quits s (handler_failed (handler s).0 (handler s).1)
  unfolding handler_failed
  handler_failed-Ends quits s e =
      (stop-IsClosed _, (zero, tt, refl, inl (not_zero (handler s).0 e)))

  -- A round that succeeds is passed over.
  later-Ends :
      (later : List Bool) (s : Machine K) (x : Option ℤ × Machine K)
      → (handler s).0 ≡ success
      → Ends later (handler s).1 x
      → Ends (false ∷ later) s x
  later-Ends later s (none, t) ok h = tt
  later-Ends later s (some r, t) ok h = (h.0, (suc h.1.0, (ok, refl, h.1.1), h.1.2, h.1.3))

  round-Ends :
      (s : Machine K) (b quit : Bool) (later : List Bool) (more : Option ℤ × Machine K)
      → is_zero (handler s).0 ≡ b
      → Ends later (handler s).1 more
      → let (r, t) = handler s in
        Ends
          (quit ∷ later)
          s
          (if b then if quit then stop_server t else more else handler_failed r t)
  round-Ends s true true later more e h = stop_server-Ends later s (is_zero-success _ e)
  round-Ends s true false later more e h = later-Ends later s more (is_zero-success _ e) h
  round-Ends s false quit later more e h = handler_failed-Ends (quit ∷ later) s e

  serve-Ends : (quits : List Bool) (s : Machine K) → Ends quits s (serve quits s)
  unfolding serve
  serve-Ends [] s = tt
  serve-Ends (quit ∷ later) s =
      round-Ends s _ quit later (serve later (handler s).1) refl (serve-Ends later (handler s).1)

  -- If the loop ends, with any result, the server's data say that every socket is closed, and the
  -- result is what the handler returned in the last round of this run: in all the rounds before it
  -- the handler succeeded and `quit` was not set, and in that round it failed or `quit` was set.
  pub serve-IsClosed :
      (quits : List Bool) (s : Machine K) (r : ℤ)
      → (serve quits s).0 ≡ some r
      → IsClosed (serve quits s).1.server_data
        × ((n : ℕ) × Reaches n quits s
            × ((handler (round n s)).0 ≡ r)
            × ((r ≢ success) ⊎ (get_or (drop n quits) 0 false ≡ true)))
  serve-IsClosed quits s r e =
      subst (λ o. Ends quits s (o, (serve quits s).1)) e (serve-Ends quits s)
