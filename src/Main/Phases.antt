-- ===== src/Main/Phases.antt =====
-- The loop of `main` in src/linux/main.c as a run of the state machine of the handler.
use vs_ftp.Common.{
  is_zero-success, ◌≡◌, refl, subst, ℤ, is_zero, success, Bool, true, false, Option, none, some,
  List, [], ◌∷◌, if◌then◌else◌,
}
use vs_ftp.Os.{Os}
use vs_ftp.Machine.{Machine}
use vs_ftp.Server.Sockets.Closing.{stop-data}
use vs_ftp.Server.Invariant.{WellFormed}
use vs_ftp.Loop.{handler}
use vs_ftp.Loop.Invariant.{handler-WellFormed}
use vs_ftp.Loop.Phases.{Phase, down, phase, Step, handler-Step}
use vs_ftp.Main.{serve, stop_server, handler_failed}

-- A run over the values that the test of `quit` sees, from one phase to another, with the result of
-- `main`, which is `none` as long as the loop goes on.
pub data Run : List Bool → Phase → Option ℤ → Phase → Type 0 where
  -- no further iteration is looked at
  paused : (p : Phase) → Run [] p none p
  -- an iteration went well, and the loop goes on
  further :
      (later : List Bool) (p q t : Phase) (o : Option ℤ)
      → Step p success q
      → Run later q o t
      → Run (false ∷ later) p o t
  -- an iteration went well, but `quit` is set: the server is stopped
  ended :
      (later : List Bool) (p q : Phase)
      → Step p success q
      → Run (true ∷ later) p (some success) down
  -- an iteration failed: the server is stopped
  failed :
      (quit : Bool) (later : List Bool) (p q : Phase) (r : ℤ)
      → is_zero r ≡ false
      → Step p r q
      → Run (quit ∷ later) p (some r) down

module _ {K : Type 0} ⦃os : Os K⦄ where
  abbrev RunsFrom : List Bool → Phase → Option ℤ × Machine K → Type 0
  RunsFrom quits p (o, t) = Run quits p o (phase t.server_data)

  stop_server-RunsFrom :
      (later : List Bool) (p q : Phase) (s : Machine K)
      → Step p success q
      → RunsFrom (true ∷ later) p (stop_server s)
  unfolding stop_server
  stop_server-RunsFrom later p q s h =
      let stops = stop-data s in rw stops.0 (rw stops.1 (ended later p q h))

  handler_failed-RunsFrom :
      (quit : Bool) (later : List Bool) (p q : Phase) (r : ℤ) (s : Machine K)
      → is_zero r ≡ false
      → Step p r q
      → RunsFrom (quit ∷ later) p (handler_failed r s)
  unfolding handler_failed
  handler_failed-RunsFrom quit later p q r s e h =
      rw ((stop-data _).1) (failed quit later p q r e h)

  round-RunsFrom :
      (quit : Bool) (later : List Bool) (p q : Phase) (r : ℤ) (t : Machine K) (b : Bool)
      (more : Option ℤ × Machine K)
      → is_zero r ≡ b
      → Step p r q
      → RunsFrom later q more
      → RunsFrom
          (quit ∷ later)
          p
          (if b then if quit then stop_server t else more else handler_failed r t)
  round-RunsFrom true later p q r t true more e h k =
      stop_server-RunsFrom later p q t (subst (λ x. Step p x q) (is_zero-success r e) h)
  round-RunsFrom false later p q r t true more e h k =
      further later p q _ _ (subst (λ x. Step p x q) (is_zero-success r e) h) k
  round-RunsFrom quit later p q r t false more e h k =
      handler_failed-RunsFrom quit later p q r t e h

  -- The loop of `main` implements the state machine: from well-formed data, for every sequence of
  -- values of `quit` and whatever the system calls answer, it is a run of the machine, with the
  -- result that it gives, from the phase at its start to the one at its end.
  pub serve-Run :
      (quits : List Bool) (s : Machine K)
      → WellFormed s.server_data
      → let (o, t) = serve quits s in Run quits (phase s.server_data) o (phase t.server_data)
  unfolding serve
  serve-Run [] s w = paused _
  serve-Run (quit ∷ later) s w =
      let (r, t) = handler s in
      round-RunsFrom quit later _ _ r t _ _ refl (handler-Step s w)
        (serve-Run later t (handler-WellFormed s w))
