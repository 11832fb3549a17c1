-- ===== src/Server/Listener/Ends.antt =====
-- When a server ends (src/server.rs, src/health/checker.rs).
use upstreamer.Common.{
  ◌≡◌, ◌⊎◌, ◌↔◌, refl, ap, Bool, true, false, none, some, List, [], ◌∷◌, ◌++◌, inl, inr,
}
use upstreamer.Server.Listener.{
  Accept, accept_failed, accepted, ServerError, bind_error, accept_error, nodelay_error, Served,
  spawn, accept_loop, run_proxy, health_loop, run_health_server,
}

module _ {C : Type 0} where
  -- Connections that are accepted without an error.
  abbrev pub all_accepted : List C → List (Accept C)
  all_accepted [] = []
  all_accepted (c ∷ cs) = accepted c true ∷ all_accepted cs

  -- The errors that the loop of the proxy meets.
  pub data Fails : Accept C → ServerError → Type 0 where
    at_accept : Fails accept_failed accept_error
    at_nodelay : (c : C) → Fails (accepted c false) nodelay_error

  -- What the loop has done with what `accept` brought: it has taken all of it, or it has ended at
  -- the first failure.
  pub data Loop (accepts : List (Accept C)) : Served C → Type 0 where
    goes_on : (cs : List C) → accepts ≡ all_accepted cs → Loop accepts (cs, none)
    ends :
        (cs : List C) (a : Accept C) (later : List (Accept C)) (e : ServerError)
        → accepts ≡ all_accepted cs ++ a ∷ later
        → Fails a e
        → Loop accepts (cs, some e)

  Loop-spawn :
      (c : C) (accepts : List (Accept C)) (served : Served C)
      → Loop accepts served
      → Loop (accepted c true ∷ accepts) (spawn c served)
  Loop-spawn c accepts _ (goes_on cs e) = goes_on (c ∷ cs) (ap (λ l. accepted c true ∷ l) e)
  Loop-spawn c accepts _ (ends cs a later err e h) =
      ends (c ∷ cs) a later err (ap (λ l. accepted c true ∷ l) e) h

  accept_loop-Loop : (accepts : List (Accept C)) → Loop accepts (accept_loop accepts)
  unfolding accept_loop
  accept_loop-Loop [] = goes_on [] refl
  accept_loop-Loop (accept_failed ∷ later) = ends [] accept_failed later accept_error refl at_accept
  accept_loop-Loop (accepted c true ∷ later) =
      Loop-spawn c later (accept_loop later) (accept_loop-Loop later)
  accept_loop-Loop (accepted c false ∷ later) =
      ends [] (accepted c false) later nodelay_error refl (at_nodelay c)

  -- Every connection is accepted, and its option set.
  abbrev pub NoneFails : List (Accept C) → Type 0
  NoneFails [] = Unit
  NoneFails (accept_failed ∷ later) = ⊥
  NoneFails (accepted c true ∷ later) = NoneFails later
  NoneFails (accepted c false ∷ later) = ⊥

  accept_loop_iff :
      (accepts : List (Accept C)) → ((accept_loop accepts).1 ≡ none) ↔ NoneFails accepts
  unfolding accept_loop
  accept_loop_iff [] = (λ _. tt, λ _. refl)
  accept_loop_iff (accept_failed ∷ later) = (λ e. cc, λ h. absurd h)
  accept_loop_iff (accepted c true ∷ later) = accept_loop_iff later
  accept_loop_iff (accepted c false ∷ later) = (λ e. cc, λ h. absurd h)

  -- The proxy serves every connection that it accepts before the first failure, in order, each in a
  -- task of its own; it ends at that failure, of `bind`, of `accept` or of `set_nodelay`, whatever
  -- connections would have come later; and it ends on no other ground.
  pub run_proxy_lem :
      (bound : Bool) (accepts : List (Accept C))
      → ((bound ≡ true) × Loop accepts (run_proxy bound accepts))
        ⊎ ((bound ≡ false) × (run_proxy bound accepts ≡ ([], some bind_error)))
  unfolding run_proxy
  run_proxy_lem true accepts = inl (refl, accept_loop-Loop accepts)
  run_proxy_lem false accepts = inr (refl, refl)

  pub run_proxy_iff :
      (bound : Bool) (accepts : List (Accept C))
      → ((run_proxy bound accepts).1 ≡ none) ↔ ((bound ≡ true) × NoneFails accepts)
  unfolding run_proxy
  run_proxy_iff true accepts =
      let h = accept_loop_iff accepts in (λ e. (refl, h.0 e), λ (_, all). h.1 all)
  run_proxy_iff false accepts = (λ e. cc, λ h. cc)

  -- No connection of the list failed to be accepted.
  abbrev pub NoFailure : List (Accept C) → Type 0
  NoFailure [] = Unit
  NoFailure (accept_failed ∷ later) = ⊥
  NoFailure (accepted c nodelay ∷ later) = NoFailure later

  health_loop_iff :
      (accepts : List (Accept C)) → ((health_loop accepts).1 ≡ none) ↔ NoFailure accepts
  unfolding health_loop
  health_loop_iff [] = (λ _. tt, λ _. refl)
  health_loop_iff (accept_failed ∷ later) = (λ e. cc, λ h. absurd h)
  health_loop_iff (accepted c nodelay ∷ later) = health_loop_iff later

  pub run_health_server_iff :
      (bound : Bool) (accepts : List (Accept C))
      → ((run_health_server bound accepts).1 ≡ none) ↔ ((bound ≡ true) × NoFailure accepts)
  unfolding run_health_server
  run_health_server_iff true accepts =
      let h = health_loop_iff accepts in (λ e. (refl, h.0 e), λ (_, all). h.1 all)
  run_health_server_iff false accepts = (λ e. cc, λ h. cc)
