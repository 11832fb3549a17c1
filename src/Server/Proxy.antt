-- ===== src/Server/Proxy.antt =====
-- The request that goes to the origin (src/server.rs, `proxy_request` and `collect_body`).
pub mod Exchange
use Prim.Native.String
use upstreamer.Common.{
  ◌≡◌, ◌≢◌, ◌↔◌, ◌⊎◌, refl, ap, sym, ◌∙◌, Bool, ◌||◌, Option, none, some, List, [], ◌∷◌, ◌++◌,
  String, string_eq, ◌==◌, inl, inr, Bool-cases, In, if◌then◌else◌,
}
use mathlib.Core.List.{append-nil, append_assoc}
use upstreamer.External.{UrlOps, authority}
use upstreamer.Balance.{OriginEndpoint}
use upstreamer.Errors.{Bytes, Response, ascii}
use upstreamer.Server.{Answer, answered, failed}

-- What comes of `frame()`, one after the other: data, trailers, or an error.
pub data Frame : Type 0 where
  chunk : Bytes → Frame
  trailers : Frame
  frame_error : Frame

-- The names of headers are in lower case, as `HeaderName` keeps them; methods are compared as texts.
abbrev pub Header : Type 0
Header = String × Bytes

pub record Request : Type 0 where
  pub method : String
  pub path_and_query : Option String
  pub headers : List Header
  pub frames : List Frame

pub record Outgoing : Type 0 where
  pub method : String
  pub uri : String
  pub headers : List Header
  pub body : Bytes

-- The loop of `collect_body`, with the buffer.
unfoldable pub collect_into : Bytes → List Frame → Option Bytes
collect_into buf [] = some buf
collect_into buf (chunk bytes ∷ frames) = collect_into (buf ++ bytes) frames
collect_into buf (trailers ∷ frames) = collect_into buf frames
collect_into buf (frame_error ∷ frames) = none

unfoldable pub collect_body : Request → Option Bytes
unfolding collect_into
collect_body req = collect_into [] req.frames

unfoldable pub copy_headers : List Header → List Header
copy_headers [] = []
copy_headers ((name, value) ∷ headers) =
    let rest = copy_headers headers in if name == "host" then rest else (name, value) ∷ rest

-- `matches!(req.method(), &Method::GET | &Method::HEAD | &Method::DELETE)`
unfoldable pub has_no_body : String → Bool
has_no_body method = method == "GET" || (method == "HEAD" || method == "DELETE")

abbrev pub text_of : Option String → String
text_of none = ""
text_of (some s) = s

module _ {Url : Type 0} ⦃u : UrlOps Url⦄ where
  unfoldable pub outgoing : OriginEndpoint Url → Request → Bytes → Outgoing
  unfolding copy_headers
  outgoing origin req body = record {
    method = req.method;
    uri = String.◌++◌ origin.url_base (text_of req.path_and_query);
    headers = copy_headers req.headers ++ ("host", ascii (authority origin.url)) ∷ [];
    body = body;
  }

  -- `none` is the error of `collect_body`.
  unfoldable pub prepare : OriginEndpoint Url → Request → Option Outgoing
  unfolding collect_body outgoing has_no_body
  prepare origin req =
      if has_no_body req.method
      then some (outgoing origin req [])
      else elim (collect_body req) [ none ↦ none | some bytes ↦ some (outgoing origin req bytes) ]

-- `builds` is whether the `http` crate accepts the request, and `client` what the client brings
-- back; the status, the headers and the body of a response are passed on as they are. The body is
-- here what the stream of the origin brings in all; whether it then fails is in `Server.Listener`.
module _ (builds : Outgoing → Bool) (client : Outgoing → Option Response) where
  abbrev pub send : Outgoing → Answer
  send out =
      if builds out
      then (elim (client out) [ none ↦ failed | some resp ↦ answered resp ])
      else failed

  unfoldable pub proxy_request :
      {Url : Type 0} ⦃u : UrlOps Url⦄ → OriginEndpoint Url → Request → Answer
  unfolding prepare
  proxy_request origin req = elim (prepare origin req) [ none ↦ failed | some out ↦ send out ]

-- An independent account of a body: what its chunks hold, unless one of its frames is an error.
abbrev pub bytes_of : List Frame → Bytes
bytes_of [] = []
bytes_of (chunk bytes ∷ frames) = bytes ++ bytes_of frames
bytes_of (trailers ∷ frames) = bytes_of frames
bytes_of (frame_error ∷ frames) = bytes_of frames

abbrev pub HasError : List Frame → Type 0
HasError frames = In frame_error frames

module _ where
  collect_into_sound :
      (buf : Bytes) (frames : List Frame)
      → ¬ HasError frames
      → collect_into buf frames ≡ some (buf ++ bytes_of frames)
  unfolding collect_into
  collect_into_sound buf [] h = ap some (sym (append-nil buf))
  collect_into_sound buf (chunk bytes ∷ frames) h =
      collect_into_sound (buf ++ bytes) frames (λ at. h (inr at))
      ∙ ap some (append_assoc buf bytes (bytes_of frames))
  collect_into_sound buf (trailers ∷ frames) h = collect_into_sound buf frames (λ at. h (inr at))
  collect_into_sound buf (frame_error ∷ frames) h = absurd (h (inl refl))

  collect_into_error :
      (buf : Bytes) (frames : List Frame) → HasError frames → collect_into buf frames ≡ none
  unfolding collect_into
  collect_into_error buf [] h = absurd h
  collect_into_error buf (chunk bytes ∷ frames) (inl e) = cc
  collect_into_error buf (chunk bytes ∷ frames) (inr h) = collect_into_error (buf ++ bytes) frames h
  collect_into_error buf (trailers ∷ frames) (inl e) = cc
  collect_into_error buf (trailers ∷ frames) (inr h) = collect_into_error buf frames h
  collect_into_error buf (frame_error ∷ frames) h = refl

-- Where no frame is an error, the body that is read is the concatenation of the data frames,
-- whatever trailers stand between them; where one is, the reading fails.
pub collect_body_lem :
    (req : Request)
    → (¬ HasError req.frames → collect_body req ≡ some (bytes_of req.frames))
      × (HasError req.frames → collect_body req ≡ none)
unfolding collect_body
collect_body_lem req = (collect_into_sound [] req.frames, collect_into_error [] req.frames)

In-copy_headers :
    (headers : List Header) (name : String) (value : Bytes)
    → In (name, value) (copy_headers headers) ↔ ((name ≢ "host") × In (name, value) headers)
unfolding copy_headers
In-copy_headers [] name value = (λ h. absurd h, λ (_, h). absurd h)
In-copy_headers ((n, v) ∷ headers) name value = elim (Bool-cases (n == "host")) [
  | inl host ↦
      let is_host : n ≡ "host" = (string_eq.same_iff n "host").0 host in
      rw (host, copy_headers)
        (
          (λ h. let (other, at) = (In-copy_headers headers name value).0 h in (other, inr at)),
          (λ (other, h). elim h [
            | inl same ↦ absurd (other (sym (ap (λ p. p.0) same) ∙ is_host))
            | inr later ↦ (In-copy_headers headers name value).1 (other, later)
          ]),
        )
  | inr kept ↦
      rw (kept, copy_headers)
        (
          (λ h. elim h [
            | inl same ↦ (
              (λ e. cc ((string_eq.same_iff n "host").1 (ap (λ p. p.0) same ∙ e), kept)),
              inl same,
            )
            | inr later ↦
                let (other, at) = (In-copy_headers headers name value).0 later in (other, inr at)
          ]),
          (λ (other, h). elim h [
            | inl same ↦ inl same
            | inr later ↦ inr ((In-copy_headers headers name value).1 (other, later))
          ]),
        )
]

In-snoc : {A : Type 0} (a y : A) (xs : List A) → In a (xs ++ y ∷ []) ↔ (In a xs ⊎ (y ≡ a))
In-snoc a y [] = (
  (λ h. elim h [ inl e ↦ inr e | inr none_left ↦ absurd none_left ]),
  (λ h. elim h [ inl none_left ↦ absurd none_left | inr e ↦ inl e ]),
)
In-snoc a y (x ∷ xs) = (
  (λ h. elim h [
    | inl e ↦ inl (inl e)
    | inr later ↦ elim ((In-snoc a y xs).0 later) [ inl at ↦ inl (inr at) | inr e ↦ inr e ]
  ]),
  (λ h. elim h [
    | inr e ↦ inr ((In-snoc a y xs).1 (inr e))
    | inl at ↦ elim at [ inl e ↦ inl e | inr later ↦ inr ((In-snoc a y xs).1 (inl later)) ]
  ]),
)

module _ {Url : Type 0} ⦃u : UrlOps Url⦄ where
  -- A header stands in the request to the origin exactly if it stands in the client's request and
  -- is not `host`, or if it is the `host` that names the origin.
  pub outgoing-headers :
      (origin : OriginEndpoint Url) (req : Request) (body : Bytes) (name : String) (value : Bytes)
      → In (name, value) (outgoing origin req body).headers ↔ (
          ((name ≢ "host") × In (name, value) req.headers)
          ⊎ (("host" ≡ name) × (ascii (authority origin.url) ≡ value)))
  unfolding outgoing
  outgoing-headers origin req body name value =
      let header : Header = ("host", ascii (authority origin.url)) in
      let split = In-snoc (name, value) header (copy_headers req.headers) in
      let copied = In-copy_headers req.headers name value in
      (
        (λ h. elim (split.0 h) [
          | inl at ↦ inl (copied.0 at)
          | inr e ↦ inr (ap (λ p. p.0) e, ap (λ p. p.1) e)
        ]),
        (λ h. elim h [
          | inl at ↦ split.1 (inl (copied.1 at))
          | inr (n, v) ↦ split.1 (inr (λ i. (n i, v i)))
        ]),
      )
