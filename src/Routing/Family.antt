-- ===== src/Routing/Family.antt =====
-- Model families, quota pools and the pool of candidates (routing.py and config.py).
use skodun.Prelude.{Bool, ◌&&◌, Option, none, some, List, [], ◌∷◌, is_empty, if◌then◌else◌, keep}
use skodun.Prelude.Text.{Text, codes, text_eq, contains, starts_with}
use skodun.Json.{Json, str}
use skodun.Textnorm.{Python, strip}
use skodun.Triage.Result.{Result, ok, err, value_error}

-- `Reviewer`, as far as the router reads it.
pub record Reviewer : Type 0 where
  pub name : Text
  pub provider : Text
  pub model : Text
  pub role : Text
  pub enabled : Bool
  pub quota_pool : Option Text

-- `_PROVIDER_FAMILIES.get(pid, pid)`; only one entry of the table is not its own family.
abbrev family_of : Text → Text
family_of pid = if text_eq pid (codes "openai-api") then codes "openai" else pid

unfoldable pub provider_family : Text → Text
unfolding strip text_eq
provider_family provider_id = family_of (strip provider_id)

module _ (py : Python) where
  abbrev unless_empty : Text → Option Text
  unless_empty s = if is_empty s then none else some s

  unfoldable pub normalize_family : Json → Option Text
  unfolding strip
  normalize_family (str value) = unless_empty (py.lower (strip value))
  normalize_family _ = none

  abbrev first_family : List (Text × Text) → Text → Option Text
  first_family [] lowered = none
  first_family ((needle, family) ∷ rest) lowered =
      let later = first_family rest lowered in
      if contains needle lowered then some family else later

  abbrev client_name_families : List (Text × Text)
  client_name_families =
      (codes "grok", codes "xai")
      ∷ (codes "codex", codes "openai")
      ∷ (codes "openai", codes "openai")
      ∷ (codes "gemini", codes "google")
      ∷ (codes "junie", codes "junie")
      ∷ (codes "jetbrains", codes "junie")
      ∷ []

  unfoldable pub family_for_client_name : Json → Option Text
  unfolding strip contains
  family_for_client_name (str name) =
      if is_empty (py.lower (strip name))
      then none
      else first_family client_name_families (py.lower (strip name))
  family_for_client_name _ = none

  abbrev or_else : Option Text → Option Text → Option Text
  or_else none other = other
  or_else (some family) other = some family

  abbrev as_hint : Option Text → Option Text
  as_hint none = none
  as_hint (some family) = normalize_family (str family)

  -- The explicit value, else the variable, else the client's name.
  unfoldable pub resolve_client_family : Json → Json → Json → Option Text
  unfolding normalize_family family_for_client_name
  resolve_client_family explicit variable client_name =
      or_else (normalize_family explicit)
        (or_else (normalize_family variable) (as_hint (family_for_client_name client_name)))

  abbrev declared_pool : Text → Result Text
  declared_pool pool = if is_empty (strip pool) then err value_error else ok (strip pool)

  abbrev google_pool : Text → Text
  google_pool model =
      if starts_with (codes "gemini") (py.lower (strip model))
      then codes "google:gemini"
      else codes "google:claude-gpt"

  -- `quota_pool_for` of config.py.
  unfoldable pub quota_pool_for : Reviewer → Result Text
  unfolding strip text_eq starts_with
  quota_pool_for r = elim r.quota_pool [
    | some pool ↦ declared_pool pool
    | none ↦ ok (
        if text_eq (strip r.provider) (codes "google")
        then google_pool r.model
        else strip r.provider)
  ]

-- The last entry of a name, as `{r.name: r for r in reviewers}` keeps it.
unfoldable pub by_name : Text → List Reviewer → Option Reviewer
unfolding text_eq
by_name name [] = none
by_name name (r ∷ rs) =
    let later = by_name name rs in
    elim later [ some found ↦ some found | none ↦ if text_eq r.name name then some r else none ]

abbrev if_enabled : Option Reviewer → List Reviewer → List Reviewer
if_enabled none rest = rest
if_enabled (some r) rest = if r.enabled then r ∷ rest else rest

unfoldable pub listed_pool : List Reviewer → List Text → List Reviewer
unfolding by_name
listed_pool reviewers [] = []
listed_pool reviewers (name ∷ names) =
    let rest = listed_pool reviewers names in if_enabled (by_name name reviewers) rest

abbrev is_finder : Reviewer → Bool
is_finder r = r.enabled && text_eq r.role (codes "finder")

unfoldable pub resolve_pool : List Reviewer → List Text → List Reviewer
unfolding listed_pool keep text_eq
resolve_pool reviewers pool =
    if is_empty pool then keep is_finder reviewers else listed_pool reviewers pool
