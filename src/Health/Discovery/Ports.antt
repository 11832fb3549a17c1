-- ===== src/Health/Discovery/Ports.antt =====
-- The port of a service, printed and read again (src/health/discovery.rs).
use Prim.Native.String
use text.Mathlib.TextLemmas.{cons-append}
use upstreamer.Common.{
  ◌^◌, ℕ, suc, ◌≡◌, refl, Option, none, some, List, ◌∷◌, String, ltb, if◌then◌else◌,
}
use upstreamer.Common.Decimal.{decimal}
use upstreamer.Text.Numbers.RoundTrip.{parse_uint-decimal, parse_uint-minus}
use upstreamer.External.{UrlOps}
use upstreamer.Config.Validate.{unwrap_or}
use upstreamer.Health.Discovery.{
  ℤ, pos, negsuc, to_string, ServiceSpec, Service, pool_annotation, port_annotation, and_then,
  annotation, parse_u16, port_text, service_to_origin,
}

-- The ports that fit.
abbrev pub u16_of : ℤ → Option ℕ
u16_of (pos n) = if ltb n (2 ^ 16) then some n else none
u16_of (negsuc n) = none

parse_u16-to_string : (p : ℤ) → parse_u16 (to_string p) ≡ u16_of p
unfolding parse_u16
parse_u16-to_string (pos n) = parse_uint-decimal (2 ^ 16) n
parse_u16-to_string (negsuc n) =
    rw (cons-append) (parse_uint-minus (2 ^ 16) (String.◌++◌ "" (decimal (suc n))))

-- `Url::parse(&format!("http://{}:{}", cluster_ip, port))`
module _ {Url : Type 0} ⦃u : UrlOps Url⦄ where
  abbrev pub url_of : String → ℕ → Option Url
  url_of cluster_ip port =
      u.parse (String.◌++◌ "http://" (String.◌++◌ cluster_ip (String.◌++◌ ":" (decimal port))))

  -- A service without an annotated port is reached at its first port, which is printed and read
  -- back as it is; a port that is negative or above 65535 gives no origin.
  pub service_to_origin_port :
      (svc : Service) (spec : ServiceSpec) (name cluster_ip : String) (p : ℤ) (ps : List ℤ)
      → svc.name ≡ some name
      → svc.spec ≡ some spec
      → spec.cluster_ip ≡ some cluster_ip
      → spec.ports ≡ some (p ∷ ps)
      → annotation svc port_annotation ≡ none
      → service_to_origin svc
        ≡ and_then (u16_of p) (λ port.
          and_then
            (url_of cluster_ip port)
            (λ url. some (unwrap_or (annotation svc pool_annotation) name, url)))
  unfolding service_to_origin port_text
  service_to_origin_port svc spec name cluster_ip p ps n s c l a =
      rw (n, s, c, a, l, parse_u16-to_string p) refl
