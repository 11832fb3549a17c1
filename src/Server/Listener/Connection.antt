-- ===== src/Server/Listener/Connection.antt =====
-- The requests of one connection (src/server.rs, `handle_connection`).
use upstreamer.Common.{◌≡◌, refl, sym, subst, Bool, true, false, none, some, List, [], ◌∷◌}
use upstreamer.External.{UrlOps, F64Ops, IpAddr}
use upstreamer.Config.{Duration}
use upstreamer.Balance.{OriginEndpoint}
use upstreamer.Errors.{Response}
use upstreamer.State.{AppState}
use upstreamer.Server.{
  Begun, respond, forward, Answer, answered, failed, begin_request, finish_request, handle_request,
}
use upstreamer.Server.Listener.{
  Sending, kept_open, closes, cut, Read, request, unreadable, Http1, Http1Laws, Arrival, service,
  handle_connection,
}

module _ {Url F : Type 0} ⦃u : UrlOps Url⦄ ⦃f : F64Ops F⦄ (ip : IpAddr) where
  -- The response to a request, and the state after it: the proxy's own response, with no origin
  -- asked; or the response of the origin that the request is forwarded to, as it is.
  pub data Answers (state : AppState Url F) (a : Arrival Url F) (after : AppState Url F)
      (resp : Response) : Type 0 where
    responds :
        begin_request state a.incoming ip a.now a.draw ≡ (after, respond resp)
        → Answers state a after resp
    passes_on :
        (mid : AppState Url F) (o : OriginEndpoint Url) (latency : Duration)
        → begin_request state a.incoming ip a.now a.draw ≡ (mid, forward o)
        → a.origins o ≡ (latency, answered resp)
        → finish_request mid o latency (answered resp) ≡ after
        → Answers state a after resp

  -- The exchange with the origin that the request is forwarded to fails.
  pub data Loses (state : AppState Url F) (a : Arrival Url F) (after : AppState Url F)
      : Type 0 where
    loses :
        (mid : AppState Url F) (o : OriginEndpoint Url) (latency : Duration)
        → begin_request state a.incoming ip a.now a.draw ≡ (mid, forward o)
        → a.origins o ≡ (latency, failed)
        → finish_request mid o latency failed ≡ after
        → Loses state a after

  -- How a connection goes: the responses that are begun, one for each request, in order; and
  -- whether it ends without an error.
  pub data Serves
      : AppState Url F
        → List (Read (Arrival Url F))
        → AppState Url F × List Response × Bool
        → Type 0 where
    finds_end : (state : AppState Url F) → Serves state [] (state, [], true)
    finds_error :
        (state : AppState Url F) (later : List (Read (Arrival Url F)))
        → Serves state (unreadable ∷ later) (state, [], false)
    goes_on :
        (state after : AppState Url F) (a : Arrival Url F) (resp : Response)
        (later : List (Read (Arrival Url F))) (result : AppState Url F × List Response × Bool)
        → Answers state a after resp
        → Serves after later result
        → Serves state (request a kept_open ∷ later) (result.0, resp ∷ result.1, result.2)
    ends :
        (state after : AppState Url F) (a : Arrival Url F) (resp : Response)
        (later : List (Read (Arrival Url F)))
        → Answers state a after resp
        → Serves state (request a closes ∷ later) (after, resp ∷ [], true)
    breaks :
        (state after : AppState Url F) (a : Arrival Url F) (resp : Response)
        (later : List (Read (Arrival Url F)))
        → Answers state a after resp
        → Serves state (request a cut ∷ later) (after, resp ∷ [], false)
    gives_up :
        (state after : AppState Url F) (a : Arrival Url F) (sending : Sending)
        (later : List (Read (Arrival Url F)))
        → Loses state a after
        → Serves state (request a sending ∷ later) (after, [], false)

  -- What the service answers.
  pub data Handled (state : AppState Url F) (a : Arrival Url F) : Type 0 where
    with_response :
        (after : AppState Url F) (resp : Response)
        → service ip state a ≡ (after, some resp)
        → Answers state a after resp
        → Handled state a
    with_error :
        (after : AppState Url F)
        → service ip state a ≡ (after, none)
        → Loses state a after
        → Handled state a

  by_answer :
      (state mid : AppState Url F) (a : Arrival Url F) (o : OriginEndpoint Url)
      (reply : Duration × Answer)
      → begin_request state a.incoming ip a.now a.draw ≡ (mid, forward o)
      → a.origins o ≡ reply
      → Handled state a
  unfolding service handle_request
  by_answer state mid a o (latency, answered resp) e back =
      with_response (finish_request mid o latency (answered resp)) resp (rw (e, back) refl)
        (passes_on mid o latency e back refl)
  by_answer state mid a o (latency, failed) e back =
      with_error (finish_request mid o latency failed) (rw (e, back) refl)
        (loses mid o latency e back refl)

  by_begun :
      (state : AppState Url F) (a : Arrival Url F) (begun : AppState Url F × Begun Url)
      → begin_request state a.incoming ip a.now a.draw ≡ begun
      → Handled state a
  unfolding service handle_request
  by_begun state a (mid, respond resp) e = with_response mid resp (rw e refl) (responds e)
  by_begun state a (mid, forward o) e = by_answer state mid a o (a.origins o) e refl

  module _ (http : Http1 (AppState Url F) (Arrival Url F) Response)
      (laws : Http1Laws (AppState Url F) (Arrival Url F) Response http) where
    serves :
        (state : AppState Url F) (a : Arrival Url F) (sending : Sending)
        (later : List (Read (Arrival Url F)))
        → Handled state a
        → ((after : AppState Url F) → Serves after later (handle_connection http ip after later))
        → Serves state
            (request a sending ∷ later)
            (handle_connection http ip state (request a sending ∷ later))
    unfolding handle_connection
    serves state a kept_open later (with_response after resp e h) rest =
        subst (Serves state (request a kept_open ∷ later))
          (sym (laws.serve-kept_open (service ip) state after a resp later e))
          (goes_on state after a resp later (handle_connection http ip after later) h (rest after))
    serves state a closes later (with_response after resp e h) rest =
        subst (Serves state (request a closes ∷ later))
          (sym (laws.serve-closes (service ip) state after a resp later e))
          (ends state after a resp later h)
    serves state a cut later (with_response after resp e h) rest =
        subst (Serves state (request a cut ∷ later))
          (sym (laws.serve-cut (service ip) state after a resp later e))
          (breaks state after a resp later h)
    serves state a sending later (with_error after e h) rest =
        subst (Serves state (request a sending ∷ later))
          (sym (laws.serve-error (service ip) state after a sending later e))
          (gives_up state after a sending later h)

    -- Under the laws of hyper's server: of the requests that are read from a connection, each gets,
    -- in order, the proxy's own response if it is not forwarded, and else the response of the origin
    -- that it is forwarded to. If the exchange with that origin fails, the request gets no response,
    -- not even one of the proxy's own, and the connection ends there with an error; it also ends
    -- where nothing more can be read, where one of the sides closes it, and where a response is cut off.
    pub handle_connection-Serves :
        (reads : List (Read (Arrival Url F))) (state : AppState Url F)
        → Serves state reads (handle_connection http ip state reads)
    unfolding handle_connection
    handle_connection-Serves [] state =
        subst (Serves state []) (sym (laws.serve_none (service ip) state)) (finds_end state)
    handle_connection-Serves (unreadable ∷ later) state =
        subst (Serves state (unreadable ∷ later))
          (sym (laws.serve-unreadable (service ip) state later)) (finds_error state later)
    handle_connection-Serves (request a sending ∷ later) state =
        serves state a sending later
          (by_begun state a (begin_request state a.incoming ip a.now a.draw) refl)
          (λ after. handle_connection-Serves later after)
