-- ===== src/Tests/OfConnections.antt =====
-- Examples of connections, of the servers and of the end of the program.
use upstreamer.Common.{
  ℕ, refl, Bool, true, false, Option, none, some, List, [], ◌∷◌, String, string_eq,
}
use upstreamer.External.Fixed.{fixed}
use upstreamer.State.{AppState, new_state}
use upstreamer.Server.{failed}
use upstreamer.Server.Listener.{
  Sending, kept_open, closes, cut, Read, request, unreadable, Http1, Http1Laws, Arrival,
  handle_connection,
}
use upstreamer.Server.Listener.Connection.{Serves, handle_connection-Serves}
use upstreamer.Tests.{text_url, config, read_page, here, half}

-- A server by the book: what follows a response depends on what becomes of it.
module _ {S Resp : Type 0} where
  abbrev reply : S × Option Resp → Sending → (S → S × List Resp × Bool) → S × List Resp × Bool
  reply (t, none) sending rest = (t, [], false)
  reply (t, some resp) kept_open rest = ((rest t).0, resp ∷ (rest t).1, (rest t).2)
  reply (t, some resp) closes rest = (t, resp ∷ [], true)
  reply (t, some resp) cut rest = (t, resp ∷ [], false)

module _ {S Req Resp : Type 0} where
  abbrev in_turn : (S → Req → S × Option Resp) → S → List (Read Req) → S × List Resp × Bool
  in_turn service s [] = (s, [], true)
  in_turn service s (unreadable ∷ later) = (s, [], false)
  in_turn service s (request req sending ∷ later) =
      reply (service s req) sending (λ t. in_turn service t later)

abbrev server : {S Req Resp : Type 0} → Http1 S Req Resp
server = record { serve_connection = in_turn }

server-Http1Laws : {S Req Resp : Type 0} → Http1Laws S Req Resp server
server-Http1Laws = record {
  serve_none = λ service s. refl;
  serve-unreadable = λ service s later. refl;
  serve-kept_open = λ service s t req resp later e. rw e refl;
  serve-closes = λ service s t req resp later e. rw e refl;
  serve-cut = λ service s t req resp later e. rw e refl;
  serve-error = λ service s t req sending later e. rw e refl;
}

abbrev started : AppState String ℕ
started = new_state read_page config

abbrev arrival : String → Arrival String ℕ
arrival path = record {
  incoming = record { host = some "www.example.org"; path = path };
  now = 100;
  draw = half;
  origins = λ o. (7_000, failed);
}

-- A request that no route fits, and one whose exchange with its origin fails.
abbrev reads : List (Read (Arrival String ℕ))
reads =
    request (record (arrival "/") { incoming = record { host = none; path = "/" } }) kept_open
    ∷ request (arrival "/") kept_open
    ∷ request (arrival "/later") closes
    ∷ []

handle_connection-Serves_example :
    Serves here started reads (handle_connection server here started reads)
handle_connection-Serves_example =
    handle_connection-Serves here server server-Http1Laws reads started
