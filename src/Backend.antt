-- ===== src/Backend.antt =====
-- The backend that the benchmarks put behind the proxy (src/examples/bench-backend.rs). What the
-- sockets do is an argument.
use upstreamer.Common.{
  ℕ, ◌+◌, ◌%◌, ◌^◌, ◌≡◌, ◌↔◌, refl, Bool, true, false, Option, some, List, [], ◌∷◌, length,
  if◌then◌else◌, string_eq,
}
use upstreamer.Common.Table.{get}
use upstreamer.Common.Decimal.{decimal, decimal_from, digit}
use upstreamer.Errors.{Response, ascii}
use upstreamer.Server.Listener.{Read, Accept, accept_failed, accepted, Http1}
use upstreamer.Server.Listener.Ends.{NoFailure}

abbrev pub ok_response : Response
ok_response = record {
  status = 200;
  headers = ("Content-Type", "text/plain") ∷ ("Content-Length", "2") ∷ [];
  body = ascii "ok";
}

-- How the backend stands: an `unwrap` has panicked, or it goes on.
pub data BackendEnd : Type 0 where
  panicked listening : BackendEnd

module _ {Req : Type 0} where
  -- `handle`, with the counter `SERVED`, a `u64`; its error is `Infallible`.
  unfoldable handle : ℕ → Req → ℕ × Option Response
  handle served req = ((served + 1) % 2 ^ 64, some ok_response)

  -- The requests of one connection.
  serve_backend : Http1 ℕ Req Response → ℕ → List (Read Req) → ℕ × List Response × Bool
  unfolding handle
  serve_backend http served reads = http.serve_connection handle served reads

-- The backend's response says the number of its bytes.
ok_response-length :
    get ok_response.headers "Content-Length" ≡ some (decimal (length ok_response.body))
unfolding get decimal decimal_from digit
ok_response-length = refl

module _ {C : Type 0} where
  -- The loop of `main`.
  unfoldable backend_loop : List (Accept C) → List C × BackendEnd
  backend_loop [] = ([], listening)
  backend_loop (accept_failed ∷ later) = ([], panicked)
  backend_loop (accepted c nodelay ∷ later) =
      let (spawned, end) = backend_loop later in (c ∷ spawned, end)

  unfoldable run_backend : Bool → List (Accept C) → List C × BackendEnd
  unfolding backend_loop
  run_backend bound accepts = if bound then backend_loop accepts else ([], panicked)

  backend_loop_iff :
      (accepts : List (Accept C)) → ((backend_loop accepts).1 ≡ listening) ↔ NoFailure accepts
  unfolding backend_loop
  backend_loop_iff [] = (λ _. tt, λ _. refl)
  backend_loop_iff (accept_failed ∷ later) = (λ e. cc, λ h. absurd h)
  backend_loop_iff (accepted c nodelay ∷ later) = backend_loop_iff later

  -- The backend goes on exactly if it could bind and no call of `accept` has failed.
  run_backend_iff :
      (bound : Bool) (accepts : List (Accept C))
      → ((run_backend bound accepts).1 ≡ listening) ↔ ((bound ≡ true) × NoFailure accepts)
  unfolding run_backend
  run_backend_iff true accepts =
      let h = backend_loop_iff accepts in (λ e. (refl, h.0 e), λ (_, all). h.1 all)
  run_backend_iff false accepts = (λ e. cc, λ h. cc)
