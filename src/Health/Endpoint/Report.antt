-- ===== src/Health/Endpoint/Report.antt =====
-- What the health server reports of the origins (src/health/checker.rs).
use upstreamer.Common.{
  ◌≡◌, refl, sym, ap, ◌∙◌, arith, Option, none, some, [], ◌∷◌, String, ◌==◌, string_eq,
  if◌then◌else◌, inl, inr, Bool-cases,
}
use upstreamer.Common.Table.{get, IsTable}
use upstreamer.Balance.{OriginState}
use upstreamer.Balance.RoundRobin.{OriginStates}
use upstreamer.Health.Endpoint.{
  Json, boolean, number, object, Members, no_members, member, insert_member, origin_object,
  insert_origins,
}

-- The value of a key.
unfoldable pub find : Members → String → Option Json
find no_members key = none
find (member k v rest) key = if k == key then some v else find rest key

find-insert_member :
    (m : Members) (key k : String) (v : Json)
    → find (insert_member m key v) k ≡ (if key == k then some v else find m k)
unfolding find insert_member
find-insert_member no_members key k v = refl
find-insert_member (member j w rest) key k v = ground (
  arith,
  string_eq.same_iff key k,
  string_eq.same_iff j key,
  string_eq.same_iff j k,
  find-insert_member rest key k v,
)

-- The members of an object are the fields of a state.
pub record Reports (obj : Members) (s : OriginState) : Type 0 where
  pub healthy : find obj "healthy" ≡ some (boolean s.healthy)
  pub successes : find obj "consecutive_successes" ≡ some (number s.consecutive_successes)
  pub failures : find obj "consecutive_failures" ≡ some (number s.consecutive_failures)
  pub requests : find obj "total_requests" ≡ some (number s.total_requests)
  pub all_failures : find obj "total_failures" ≡ some (number s.total_failures)
  pub latency : find obj "ewma_latency_ns" ≡ some (number s.ewma_latency_ns)

origin_object-Reports : (s : OriginState) → Reports (origin_object s) s
unfolding origin_object find insert_member
origin_object-Reports s = record {
  healthy = refl;
  successes = refl;
  failures = refl;
  requests = refl;
  all_failures = refl;
  latency = refl;
}

-- What the members report of a key: its state, or nothing.
abbrev pub ReportsKey : Members → String → Option OriginState → Type 0
ReportsKey origins key none = find origins key ≡ none
ReportsKey origins key (some s) =
    (obj : Members) × (find origins key ≡ some (object obj)) × Reports obj s

abbrev shown : OriginState → Json
shown s = object (origin_object s)

abbrev shown_or : Option Json → Option OriginState → Option Json
shown_or before none = before
shown_or before (some s) = some (shown s)

shown_first :
    (states : OriginStates) (before : Option Json) (j key : String) (s : OriginState)
    → get states j ≡ none
    → shown_or (if j == key then some (shown s) else before) (get states key)
      ≡ shown_or before (if j == key then some s else get states key)
shown_first states before j key s new = elim (Bool-cases (j == key)) [
  | inl same ↦
      let missing = ap (get states) (sym ((string_eq.same_iff j key).0 same)) ∙ new in
      rw (same, missing) refl
  | inr apart ↦ rw apart refl
]

find-insert_origins :
    (origins : Members) (states : OriginStates) (key : String)
    → IsTable states
    → find (insert_origins origins states) key ≡ shown_or (find origins key) (get states key)
unfolding insert_origins get
find-insert_origins origins [] key h = refl
find-insert_origins origins ((j, s) ∷ states) key (new, h) =
    find-insert_origins (insert_member origins j (shown s)) states key h
    ∙ ap (λ o. shown_or o (get states key)) (find-insert_member origins j key (shown s))
    ∙ shown_first states (find origins key) j key s new

ReportsKey-shown :
    (origins : Members) (key : String) (o : Option OriginState)
    → find origins key ≡ shown_or none o
    → ReportsKey origins key o
ReportsKey-shown origins key none e = e
ReportsKey-shown origins key (some s) e = (origin_object s, e, origin_object-Reports s)

pub insert_origins-ReportsKey :
    (states : OriginStates) (key : String)
    → IsTable states
    → ReportsKey (insert_origins no_members states) key (get states key)
unfolding find
insert_origins-ReportsKey states key h =
    ReportsKey-shown (insert_origins no_members states) key (get states key)
      (find-insert_origins no_members states key h)
