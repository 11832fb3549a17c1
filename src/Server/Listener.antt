-- ===== src/Server/Listener.antt =====
-- The loops that accept connections: `run_proxy` and `handle_connection` of src/server.rs, and
-- `run_health_server` of src/health/checker.rs. What the sockets do is an argument.
pub mod Ends
pub mod Connection
use upstreamer.Common.{◌≡◌, Bool, true, false, Option, none, some, List, [], ◌∷◌, if◌then◌else◌}
use upstreamer.External.{UrlOps, F64Ops, IpAddr}
use upstreamer.Config.{Duration}
use upstreamer.Balance.{OriginEndpoint}
use upstreamer.Balance.Weighted.{Draw}
use upstreamer.RateLimit.{Instant}
use upstreamer.Errors.{Response}
use upstreamer.State.{AppState}
use upstreamer.Server.{Incoming, Answer, answered, failed, handle_request}

-- What one call of `accept` brings: an error, or a connection and whether `set_nodelay` succeeds
-- on it.
pub data Accept (C : Type 0) : Type 0 where
  accept_failed : Accept C
  accepted : C → Bool → Accept C

-- How a server ends.
pub data ServerError : Type 0 where
  bind_error accept_error nodelay_error : ServerError

-- The connections that a server has handed to tasks of their own, and its error once it has ended.
abbrev pub Served : Type 0 → Type 0
Served C = List C × Option ServerError

module _ {C : Type 0} where
  abbrev pub spawn : C → Served C → Served C
  spawn c (spawned, ended) = (c ∷ spawned, ended)

  -- The loop of `run_proxy`.
  unfoldable pub accept_loop : List (Accept C) → Served C
  accept_loop [] = ([], none)
  accept_loop (accept_failed ∷ later) = ([], some accept_error)
  accept_loop (accepted c true ∷ later) = spawn c (accept_loop later)
  accept_loop (accepted c false ∷ later) = ([], some nodelay_error)

  unfoldable pub run_proxy : Bool → List (Accept C) → Served C
  unfolding accept_loop
  run_proxy bound accepts = if bound then accept_loop accepts else ([], some bind_error)

  -- The loop of `run_health_server`, which sets no option on the stream.
  unfoldable pub health_loop : List (Accept C) → Served C
  health_loop [] = ([], none)
  health_loop (accept_failed ∷ later) = ([], some accept_error)
  health_loop (accepted c nodelay ∷ later) = spawn c (health_loop later)

  unfoldable pub run_health_server : Bool → List (Accept C) → Served C
  unfolding health_loop
  run_health_server bound accepts = if bound then health_loop accepts else ([], some bind_error)

-- What becomes of a response once its head is sent: it is sent whole and the connection is kept
-- open; it is sent whole and the connection closes, as one of the sides has asked; or it is cut off,
-- since its body, which streams from the origin, or the socket fails.
pub data Sending : Type 0 where
  kept_open closes cut : Sending

-- What hyper meets where it reads a request: one, with what becomes of the response to it; or
-- bytes that are no request, or an error of the socket. Where a list of these ends, the client has
-- closed the connection.
pub data Read (Req : Type 0) : Type 0 where
  request : Req → Sending → Read Req
  unreadable : Read Req

-- `serve_connection` of hyper's HTTP/1 server, over a service that passes a state on: what the code
-- rests on. A service answers with a response or with an error; the result is the state, the
-- responses of the service whose heads are sent, and whether `serve_connection` returns `Ok`.
pub record Http1 (S Req Resp : Type 0) : Type 0 where
  pub serve_connection : (S → Req → S × Option Resp) → S → List (Read Req) → S × List Resp × Bool

-- A request is handed to the service, and its response begun, before the next is read. Nothing is
-- read after a response with which the connection closes, nor after an error of the service, which
-- no response follows, of the reading or of the sending; the errors are returned.
pub record Http1Laws (S Req Resp : Type 0) (http : Http1 S Req Resp) : Type 0 where
  pub serve_none :
      (service : S → Req → S × Option Resp) (s : S)
      → http.serve_connection service s [] ≡ (s, [], true)
  pub serve-unreadable :
      (service : S → Req → S × Option Resp) (s : S) (later : List (Read Req))
      → http.serve_connection service s (unreadable ∷ later) ≡ (s, [], false)
  pub serve-kept_open :
      (service : S → Req → S × Option Resp) (s t : S) (req : Req) (resp : Resp)
      (later : List (Read Req))
      → service s req ≡ (t, some resp)
      → http.serve_connection service s (request req kept_open ∷ later) ≡ (
        (http.serve_connection service t later).0,
        resp ∷ (http.serve_connection service t later).1,
        (http.serve_connection service t later).2,
      )
  pub serve-closes :
      (service : S → Req → S × Option Resp) (s t : S) (req : Req) (resp : Resp)
      (later : List (Read Req))
      → service s req ≡ (t, some resp)
      → http.serve_connection service s (request req closes ∷ later) ≡ (t, resp ∷ [], true)
  pub serve-cut :
      (service : S → Req → S × Option Resp) (s t : S) (req : Req) (resp : Resp)
      (later : List (Read Req))
      → service s req ≡ (t, some resp)
      → http.serve_connection service s (request req cut ∷ later) ≡ (t, resp ∷ [], false)
  pub serve-error :
      (service : S → Req → S × Option Resp) (s t : S) (req : Req) (sending : Sending)
      (later : List (Read Req))
      → service s req ≡ (t, none)
      → http.serve_connection service s (request req sending ∷ later) ≡ (t, [], false)

abbrev pub response_of : Answer → Option Response
response_of (answered resp) = some resp
response_of failed = none

-- A request with what the world brings to it: when it comes, what `rand` draws, and what the
-- origins answer.
pub record Arrival (Url F : Type 0) : Type 0 where
  pub incoming : Incoming
  pub now : Instant
  pub draw : Draw F
  pub origins : OriginEndpoint Url → Duration × Answer

module _ {Url F : Type 0} ⦃u : UrlOps Url⦄ ⦃f : F64Ops F⦄ where
  -- The service of one connection, of an address.
  unfoldable pub service :
      IpAddr → AppState Url F → Arrival Url F → AppState Url F × Option Response
  unfolding handle_request
  service ip state a =
      let (after, answer) = handle_request a.origins state a.incoming ip a.now a.draw in
      (after, response_of answer)

  unfoldable pub handle_connection :
      Http1 (AppState Url F) (Arrival Url F) Response
      → IpAddr
      → AppState Url F
      → List (Read (Arrival Url F))
      → AppState Url F × List Response × Bool
  unfolding service
  handle_connection http ip state reads = http.serve_connection (service ip) state reads
