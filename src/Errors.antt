-- ===== src/Errors.antt =====
-- Error pages and error responses (src/middleware/errors.rs).
pub mod Pages
use Prim.Native.String
use upstreamer.Common.{
  ℕ, Bool, true, false, ◌||◌, Option, none, some, List, [], ◌∷◌, String, code, nat_eq,
  if◌then◌else◌,
}
use upstreamer.Common.Table.{get, insert}
use upstreamer.Text.{starts_with, ends_with, is_nil}
use upstreamer.Config.{PathBuf, ErrorPage, ErrorPagesConfig}

-- `Bytes`; a text literal of the code is ASCII, and its bytes are its characters' codes.
abbrev pub Bytes : Type 0
Bytes = List ℕ

abbrev pub ascii : String → Bytes
ascii String.[] = []
ascii (String.◌∷◌ c s) = code c ∷ ascii s

pub record Response : Type 0 where
  pub status : ℕ
  pub headers : List (String × String)
  pub body : Bytes

pub record ErrorPageStore : Type 0 where
  pub pages : List (ℕ × Bytes)

-- `PathBuf::join`: an absolute path replaces the directory.
unfoldable pub join : PathBuf → PathBuf → PathBuf
join directory file =
    if starts_with file "/"
    then file
    else (if is_nil directory || ends_with directory "/"
        then String.◌++◌ directory file
        else String.◌++◌ directory (String.◌++◌ "/" file))

-- `read` is `std::fs::read`; `none` stands for its error.
module _ (read : PathBuf → Option Bytes) where
  -- One round of the loop over the configured pages.
  unfoldable pub load_page : PathBuf → List (ℕ × Bytes) → ErrorPage → List (ℕ × Bytes)
  unfolding join
  load_page directory pages page = elim (read (join directory page.file)) [
    | some content ↦ insert pages page.code content
    | none ↦ pages
  ]

  unfoldable pub load_pages : PathBuf → List (ℕ × Bytes) → List ErrorPage → List (ℕ × Bytes)
  unfolding load_page
  load_pages directory loaded [] = loaded
  load_pages directory loaded (page ∷ pages) =
      load_pages directory (load_page directory loaded page) pages

  -- `ErrorPageStore::from_config`
  unfoldable pub from_config : ErrorPagesConfig → ErrorPageStore
  unfolding load_pages
  from_config c = record { pages = load_pages c.directory [] c.pages }

unfoldable pub page_for : Option ErrorPageStore → ℕ → Option Bytes
page_for none status = none
page_for (some store) status = get store.pages status

unfoldable pub get_error_response : Option ErrorPageStore → ℕ → String → Response
unfolding page_for
get_error_response store status default_body = elim (page_for store status) [
  | some body ↦ record {
    status = status;
    headers = ("Content-Type", "text/html") ∷ [];
    body = body;
  }
  | none ↦ record { status = status; headers = []; body = ascii default_body }
]
