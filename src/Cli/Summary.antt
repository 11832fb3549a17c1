-- ===== src/Cli/Summary.antt =====
-- What the summary of a configuration shows (src/bin/upstreamer/cli.rs).
use text.Mathlib.TextLemmas.{nil-append, cons-append, append-nil}
use upstreamer.Common.{
  ℕ, suc, ◌+◌, ◌-◌, ◌≤◌, ◌≡◌, ap, ◌∙◌, arith, List, [], ◌∷◌, String, In, In-append_left,
  In-append_right, inl, inr,
}
use upstreamer.Text.Laws.{chars, ◌+++◌}
use upstreamer.External.{UrlOps, SocketAddr}
use upstreamer.Config.{OriginConfig, PoolRef, RouteConfig, ProxyConfig, Duration}
use upstreamer.Cli.{
  dim, pad, spaces, origin_line, origin_lines, pool_lines, route_lines, routes_lines, header_lines,
  print_config_summary,
}

chars-append : (s t : String) → chars (s +++ t) ≡ chars s + chars t
chars-append String.[] t = rw nil-append (omega arith)
chars-append (String.◌∷◌ c s) t = rw cons-append (omega (arith, chars-append s t))

-- A dimmed label of at least two characters is not padded: the characters of the escape sequences
-- count, and there are eight of them.
pub pad-dim : (s : String) → 2 ≤ chars s → pad (dim s) ≡ dim s
unfolding pad dim
pad-dim s long =
    let none_left : 10 - chars (dim s) ≡ 0 =
      omega (arith, chars-append "\u{1b}[2m" (s +++ "\u{1b}[0m"), chars-append s "\u{1b}[0m") in
    ap (λ n. dim s +++ spaces n) none_left ∙ append-nil (dim s)

module _ {Url : Type 0} ⦃u : UrlOps Url⦄ where
  origin_lines-In :
      (o : OriginConfig Url) (os : List (OriginConfig Url))
      → In o os
      → In (origin_line o) (origin_lines os)
  unfolding origin_lines
  origin_lines-In o [] at = absurd at
  origin_lines-In o (q ∷ os) (inl e) = inl (ap origin_line e)
  origin_lines-In o (q ∷ os) (inr later) = inr (origin_lines-In o os later)

  pool_lines-In :
      (o : OriginConfig Url) (p : PoolRef Url) (ps : List (PoolRef Url))
      → In p ps
      → In o p.origins
      → In (origin_line o) (pool_lines ps)
  unfolding pool_lines
  pool_lines-In o p [] at inside = absurd at
  pool_lines-In o p (q ∷ ps) (inl e) inside = inr (
      In-append_left (origin_line o) (origin_lines q.origins) _
        (origin_lines-In o q.origins (rw e inside)))
  pool_lines-In o p (q ∷ ps) (inr later) inside = inr (
      In-append_right (origin_line o) (origin_lines q.origins) _
        (pool_lines-In o p ps later inside))

  route_lines-In :
      (i : ℕ) (o : OriginConfig Url) (p : PoolRef Url) (r : RouteConfig Url)
      → In p r.pools
      → In o p.origins
      → In (origin_line o) (route_lines i r)
  unfolding route_lines
  route_lines-In i o p r at inside = inr (
      inr (
        inr (
          inr (
            In-append_left (origin_line o) (pool_lines r.pools) _
              (pool_lines-In o p r.pools at inside)))))

  routes_lines-In :
      (i : ℕ) (line : String) (r : RouteConfig Url) (rs : List (RouteConfig Url))
      → In r rs
      → ((j : ℕ) → In line (route_lines j r))
      → In line (routes_lines i rs)
  unfolding routes_lines
  routes_lines-In i line r [] at h = absurd at
  routes_lines-In i line r (q ∷ rs) (inl e) h = In-append_left line (route_lines i q) _ (rw e (h i))
  routes_lines-In i line r (q ∷ rs) (inr later) h =
      In-append_right line (route_lines i q) _ (routes_lines-In (suc i) line r rs later h)

  module _ (version : String) (show_addr : SocketAddr → String)
      (show_duration : Duration → String) where
    -- The summary has a line for every origin of every pool of every route.
    pub print_config_summary-origin :
        (c : ProxyConfig Url) (r : RouteConfig Url) (p : PoolRef Url) (o : OriginConfig Url)
        → In r c.routes
        → In p r.pools
        → In o p.origins
        → In (origin_line o) (print_config_summary version show_addr show_duration c)
    unfolding print_config_summary
    print_config_summary-origin c r p o route pool origin =
        In-append_right (origin_line o) (header_lines version show_addr show_duration c) _ (
          In-append_left (origin_line o) (routes_lines 0 c.routes) _ (
            routes_lines-In 0 (origin_line o) r c.routes route
              (λ j. route_lines-In j o p r pool origin)))
