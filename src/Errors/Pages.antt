-- ===== src/Errors/Pages.antt =====
-- Which page answers a status (src/middleware/errors.rs).
use upstreamer.Common.{
  ℕ, ◌≡◌, refl, arith, Option, none, some, List, [], ◌∷◌, String, ◌==◌, nat_eq, if◌then◌else◌, inl,
  inr, Option-cases, ap, ◌∙◌,
}
use upstreamer.Common.Table.{get, insert, get-insert}
use upstreamer.Config.{PathBuf, ErrorPage, ErrorPagesConfig}
use upstreamer.Config.Validate.{first_some}
use upstreamer.Errors.{
  Bytes, Response, join, load_page, load_pages, from_config, page_for, get_error_response, ascii,
}

last_first : (o : Option Bytes) → first_some o none ≡ o
last_first none = refl
last_first (some b) = refl

-- The page as HTML, or the text.
abbrev pub page_response : ℕ → String → Option Bytes → Response
page_response status text o = elim o [
  | some body ↦ record {
    status = status;
    headers = ("Content-Type", "text/html") ∷ [];
    body = body;
  }
  | none ↦ record { status = status; headers = []; body = ascii text }
]

module _ (read : PathBuf → Option Bytes) where
  -- The content of the last page for the status whose file can be read.
  abbrev pub last_readable : PathBuf → List ErrorPage → ℕ → Option Bytes
  last_readable directory [] status = none
  last_readable directory (p ∷ ps) status =
      first_some (last_readable directory ps status)
        (if p.code == status then read (join directory p.file) else none)

  get-load_pages :
      (directory : PathBuf) (loaded : List (ℕ × Bytes)) (ps : List ErrorPage) (status : ℕ)
      → get (load_pages read directory loaded ps) status
        ≡ first_some (last_readable directory ps status) (get loaded status)
  unfolding load_pages
  get-load_pages directory loaded [] status = refl
  get-load_pages directory loaded (p ∷ ps) status =
      elim (Option-cases (read (join directory p.file))) [
        | inl missing ↦
            unfold load_page in ground (arith, get-load_pages directory loaded ps status, missing)
        | inr (content, there) ↦
            unfold load_page in
            ground (
              arith,
              get-load_pages directory (insert loaded p.code content) ps status,
              get-insert loaded p.code status content,
              there,
            )
      ]

  page_for-from_config :
      (c : ErrorPagesConfig) (status : ℕ)
      → page_for (some (from_config read c)) status ≡ last_readable c.directory c.pages status
  unfolding page_for from_config get
  page_for-from_config c status =
      get-load_pages c.directory [] c.pages status
      ∙ last_first (last_readable c.directory c.pages status)

  -- A status is answered by the last page configured for it whose file could be read, as HTML;
  -- and by the given text if there is none. The status itself is always the one asked for.
  pub get_error_response-from_config :
      (c : ErrorPagesConfig) (status : ℕ) (text : String)
      → get_error_response (some (from_config read c)) status text
        ≡ page_response status text (last_readable c.directory c.pages status)
  unfolding get_error_response
  get_error_response-from_config c status text =
      ap (page_response status text) (page_for-from_config c status)
