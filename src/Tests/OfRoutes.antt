-- ===== src/Tests/OfRoutes.antt =====
-- Examples of matching, and of the table of routes.
use upstreamer.Common.{◌≡◌, ◌↔◌, refl, arith, true, false, none, [], ◌∷◌, String, All}
use upstreamer.Common.Table.{get}
use upstreamer.Text.{contains}
use upstreamer.Balance.{OriginEndpoint}
use upstreamer.Route.{K8sOrigins, match_glob}
use upstreamer.Route.Glob.{with_star, Completes, match_glob_literal_iff, match_glob-Completes_iff}
use upstreamer.Route.Build.{IsUndiscovered}
use upstreamer.Tests.{text_url, config}

no_star_api : contains "api." "*" ≡ false
unfolding contains
no_star_api = refl

no_star_org : contains ".org" "*" ≡ false
unfolding contains
no_star_org = refl

abbrev api : String
api = "api."

match_glob_literal_iff_example : (match_glob api api ≡ true) ↔ (api ≡ api)
match_glob_literal_iff_example = match_glob_literal_iff api api no_star_api

match_glob-Completes_iff_example :
    (match_glob "api.x.org" (with_star "api." ".org") ≡ true) ↔ Completes "api." ".org" "api.x.org"
match_glob-Completes_iff_example =
    match_glob-Completes_iff "api.x.org" "api." ".org" no_star_api no_star_org (omega arith)

abbrev elsewhere : K8sOrigins String
elsewhere = ("other", "http://c/" ∷ []) ∷ []

undiscovered : All (λ r. All (IsUndiscovered elsewhere) r.pools) config.routes
unfolding get
undiscovered = ((refl, tt), tt)

abbrev in_web : K8sOrigins String
in_web = ("web", "http://c/" ∷ []) ∷ []

abbrev c_end : OriginEndpoint String
c_end = record {
  url = "http://c/";
  url_key = "http://c/";
  url_base = "http://c";
  weight = none;
  health_check_path = none;
}
