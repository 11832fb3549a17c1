-- ===== src/Server/Proxy/Exchange.antt =====
-- The exchange with an origin (src/server.rs, `proxy_request`): what is sent, and how it comes out.
use Prim.Native.String
use upstreamer.Common.{
  ◌≡◌, ◌≢◌, ◌↔◌, ◌⊎◌, refl, arith, Bool, true, false, Option, none, some, List, [], ◌∷◌, String,
  string_eq, inl, inr, Bool-cases, Option-cases, In,
}
use upstreamer.External.{UrlOps, authority}
use upstreamer.Balance.{OriginEndpoint}
use upstreamer.Errors.{Bytes, Response, ascii}
use upstreamer.Server.{Answer, answered, failed}
use upstreamer.Server.Proxy.{
  Frame, chunk, trailers, frame_error, Request, Outgoing, has_no_body, text_of, outgoing, prepare,
  send, proxy_request, bytes_of, HasError, collect_body_lem, outgoing-headers,
}

-- A method whose body is not read.
abbrev pub IsBodiless : String → Type 0
IsBodiless method = (method ≡ "GET") ⊎ ((method ≡ "HEAD") ⊎ (method ≡ "DELETE"))

has_no_body_iff : (method : String) → (has_no_body method ≡ true) ↔ IsBodiless method
unfolding has_no_body
has_no_body_iff method = grind (
  arith,
  string_eq.same_iff method "GET",
  string_eq.same_iff method "HEAD",
  string_eq.same_iff method "DELETE",
)

HasError-cases : (frames : List Frame) → HasError frames ⊎ (¬ HasError frames)
HasError-cases [] = inr (λ h. h)
HasError-cases (frame_error ∷ frames) = inl (inl refl)
HasError-cases (chunk bytes ∷ frames) = elim (HasError-cases frames) [
  | inl h ↦ inl (inr h)
  | inr h ↦ inr (λ at. elim at [ inl e ↦ cc | inr later ↦ h later ])
]
HasError-cases (trailers ∷ frames) = elim (HasError-cases frames) [
  | inl h ↦ inl (inr h)
  | inr h ↦ inr (λ at. elim at [ inl e ↦ cc | inr later ↦ h later ])
]

module _ {Url : Type 0} ⦃u : UrlOps Url⦄ (origin : OriginEndpoint Url) (req : Request) where
  -- What a request to the origin keeps of the client's: all but its body and its `host`.
  pub record Carries (out : Outgoing) : Type 0 where
    pub method : out.method ≡ req.method
    pub uri : out.uri ≡ String.◌++◌ origin.url_base (text_of req.path_and_query)
    pub headers :
        (name : String) (value : Bytes)
        → In (name, value) out.headers ↔ (
            ((name ≢ "host") × In (name, value) req.headers)
            ⊎ (("host" ≡ name) × (ascii (authority origin.url) ≡ value)))

  -- What is sent, if anything is.
  pub data Prepared : Option Outgoing → Type 0 where
    bodiless :
        (out : Outgoing) → IsBodiless req.method → Carries out → out.body ≡ [] → Prepared (some out)
    whole :
        (out : Outgoing)
        → ¬ IsBodiless req.method
        → ¬ HasError req.frames
        → Carries out
        → out.body ≡ bytes_of req.frames
        → Prepared (some out)
    broken : ¬ IsBodiless req.method → HasError req.frames → Prepared none

  outgoing-Carries : (body : Bytes) → Carries (outgoing origin req body)
  unfolding outgoing
  outgoing-Carries body = record {
    method = refl;
    uri = refl;
    headers = outgoing-headers origin req body;
  }

  prepare-Prepared : Prepared (prepare origin req)
  unfolding prepare
  prepare-Prepared = elim (Bool-cases (has_no_body req.method)) [
    | inl none_read ↦
        rw (none_read, prepare)
          (bodiless (outgoing origin req []) ((has_no_body_iff req.method).0 none_read)
            (outgoing-Carries []) refl)
    | inr read ↦
        let not_bodiless : ¬ IsBodiless req.method =
          λ h. cc ((has_no_body_iff req.method).1 h, read) in
        elim (HasError-cases req.frames) [
          | inl bad ↦ rw (read, (collect_body_lem req).1 bad, prepare) (broken not_bodiless bad)
          | inr good ↦
              rw (read, (collect_body_lem req).0 good, prepare)
                (whole (outgoing origin req (bytes_of req.frames)) not_bodiless good
                  (outgoing-Carries (bytes_of req.frames)) refl)
        ]
  ]

  module _ (builds : Outgoing → Bool) (client : Outgoing → Option Response) where
    -- How the exchange comes out.
    pub data Exchange : Answer → Type 0 where
      nothing_sent : Prepared none → Exchange failed
      not_built : (out : Outgoing) → Prepared (some out) → builds out ≡ false → Exchange failed
      lost :
          (out : Outgoing)
          → Prepared (some out)
          → builds out ≡ true
          → client out ≡ none
          → Exchange failed
      passed_on :
          (out : Outgoing) (resp : Response)
          → Prepared (some out)
          → builds out ≡ true
          → client out ≡ some resp
          → Exchange (answered resp)

    send-Exchange : (out : Outgoing) → Prepared (some out) → Exchange (send builds client out)
    send-Exchange out p = elim (Bool-cases (builds out)) [
      | inr refused ↦ rw refused (not_built out p refused)
      | inl built ↦ elim (Option-cases (client out)) [
        | inl gone ↦ rw (built, gone) (lost out p built gone)
        | inr (resp, back) ↦ rw (built, back) (passed_on out resp p built back)
      ]
    ]

    -- The client's request goes to the origin with its method, its path and query behind the
    -- origin's base, and its headers, the `host` naming the origin. For GET, HEAD and DELETE no body is sent,
    -- whatever the client's is and whatever its headers say of it; for other methods the whole body
    -- is, trailers aside. The exchange fails if that body cannot be read, the request cannot be
    -- built or the client brings nothing back; otherwise the origin's response is passed on.
    pub proxy_request-Exchange : Exchange (proxy_request builds client origin req)
    unfolding proxy_request
    proxy_request-Exchange = by_prepared (prepare origin req) prepare-Prepared
      where
        by_prepared :
            (o : Option Outgoing)
            → Prepared o
            → Exchange (elim o [ none ↦ failed | some out ↦ send builds client out ])
        by_prepared none p = nothing_sent p
        by_prepared (some out) p = send-Exchange out p
