-- ===== src/Tests/OfServer.antt =====
-- Examples of requests, and of the tasks together.
use upstreamer.Common.{ℕ, ◌≡◌, refl, Bool, true, Option, none, some, [], ◌∷◌, String, string_eq}
use upstreamer.Common.Table.{get}
use upstreamer.External.Fixed.{fixed, Fixed-WeightLaws}
use upstreamer.Config.{Duration}
use upstreamer.Balance.{OriginEndpoint, OriginState, new}
use upstreamer.Text.{contains, split, starts_with, ends_with}
use upstreamer.RateLimit.{check, new_limiter}
use upstreamer.Balance.RoundRobin.{select_round_robin, is_up}
use upstreamer.Route.{from_config, match_route, select_origin}
use upstreamer.Route.Selection.{IsKeyedRouter, from_config-IsKeyedRouter}
use upstreamer.Errors.{ascii, Response}
use upstreamer.State.{AppState, new_state}
use upstreamer.Server.{
  Incoming, forward, Answer, failed, begin_request, finish_request, handle_request,
}
use upstreamer.Server.Branches.{Course, begin_request-Course}
use upstreamer.Server.Unhealthy.{handle_request_unhealthy}
use upstreamer.Server.Proxy.{Request, Outgoing, chunk, trailers, proxy_request}
use upstreamer.Server.Proxy.Exchange.{Exchange, proxy_request-Exchange}
use upstreamer.System.{System, Reachable, starts, steps, begins, finishes}
use upstreamer.System.Sound.{IsSound}
use upstreamer.System.Interleaving.{Reachable-IsSound}
use upstreamer.Tests.{text_url, config, read_page, a_down, down, here, half, a_end, b_end}

abbrev started : AppState String ℕ
started = new_state read_page config

-- The first origin is down.
abbrev state : AppState String ℕ
state = record started { origin_states = a_down }

abbrev incoming : Incoming
incoming = record { host = some "www.example.org"; path = "/" }

begin_request-Course_example :
    Course state incoming here 100 half (begin_request state incoming here 100 half)
begin_request-Course_example = begin_request-Course state incoming here 100 half

keyed : IsKeyedRouter state.router
unfolding new_state
keyed = from_config-IsKeyedRouter config

goes_to_b : (begin_request state incoming here 100 half).1 ≡ forward b_end
unfolding begin_request new_state match_route from_config contains split starts_with ends_with get
    check new_limiter select_origin select_round_robin is_up
goes_to_b = refl

abbrev b_state : OriginState
b_state = new

b_there : get state.origin_states "http://b/up" ≡ some b_state
unfolding get
b_there = refl

abbrev origin_answer : OriginEndpoint String → Duration × Answer
origin_answer o = (7_000, failed)

a_there : get state.origin_states "http://a/" ≡ some down
unfolding get
a_there = refl

handle_request_unhealthy_example :
    get (handle_request origin_answer state incoming here 100 half).0.origin_states "http://a/"
    ≡ some down
handle_request_unhealthy_example =
    handle_request_unhealthy Fixed-WeightLaws origin_answer state incoming here 100 half "http://a/"
      down keyed a_there refl

abbrev posted : Request
posted = record {
  method = "POST";
  path_and_query = some "/x?y=1";
  headers = ("host", ascii "www.example.org") ∷ ("accept", ascii "*/*") ∷ [];
  frames = chunk (1 ∷ 2 ∷ []) ∷ chunk (3 ∷ []) ∷ trailers ∷ [];
}

-- A DELETE with a body, of which its headers give the length.
abbrev deleted : Request
deleted = record posted {
  method = "DELETE";
  headers = ("content-length", ascii "3") ∷ ("host", ascii "www.example.org") ∷ [];
}

abbrev builds : Outgoing → Bool
builds out = true

abbrev no_answer : Outgoing → Option Response
no_answer out = none

proxy_request-Exchange_example :
    Exchange a_end deleted builds no_answer (proxy_request builds no_answer a_end deleted)
proxy_request-Exchange_example = proxy_request-Exchange a_end deleted builds no_answer

-- A request is begun and finished.
abbrev halfway : System String ℕ
halfway = ((begin_request started incoming here 100 half).0, [])

abbrev finished : System String ℕ
finished = (finish_request halfway.0 a_end 7_000 failed, [])

finished-Reachable : Reachable finished
finished-Reachable =
    steps halfway finished
      (steps (started, []) halfway (starts read_page config)
        (begins started [] incoming here 100 half))
      (finishes halfway.0 [] a_end 7_000 failed)

Reachable-IsSound_example : IsSound finished
Reachable-IsSound_example = Reachable-IsSound finished finished-Reachable
