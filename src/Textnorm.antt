-- ===== src/Textnorm.antt =====
-- textnorm.py: the content keys of the triage ledger.
pub mod Collapse
pub mod Keys
use skodun.Prelude.{
  ℕ, Bool, true, false, ◌&&◌, ◌||◌, not, List, [], ◌∷◌, ◌++◌, ltb, leb, ◌==◌, if◌then◌else◌,
}
use mathlib.Core.List.{reverse}
use skodun.Prelude.Text.{Text}
use skodun.Json.{Json, str, truthy}

-- What the code uses of Python: `str.lower`, `str()` of a value that is no text, `str.isalnum` of a
-- character, the first 16 digits of the SHA-256 of a text's UTF-8 form, and whether `time.strptime`
-- reads a text as a UTC time of seconds.
pub record Python : Type 0 where
  pub lower : Text → Text
  pub to_str : Json → Text
  pub is_alnum : ℕ → Bool
  pub sha256_16 : Text → Text
  pub is_time : Text → Bool

-- `str.isspace` of one character, which is also what `\s` matches and `strip` removes.
unfoldable pub is_space : ℕ → Bool
is_space c =
    (leb 9 c && leb c 13)
    || (leb 28 c && leb c 32)
    || c == 133
    || c == 160
    || c == 5760
    || (leb 8192 c && leb c 8202)
    || c == 8232
    || c == 8233
    || c == 8239
    || c == 8287
    || c == 12288

-- `re.sub(r"\s+", " ", s)`; the flag says that the run of white space has its blank already.
unfoldable pub squeeze : Bool → Text → Text
squeeze run [] = []
squeeze run (c ∷ s) =
    let rest = squeeze (is_space c) s in
    if is_space c then if run then rest else 32 ∷ rest else c ∷ rest

unfoldable pub lstrip : Text → Text
lstrip [] = []
lstrip (c ∷ s) = if is_space c then lstrip s else c ∷ s

unfoldable pub rstrip : Text → Text
rstrip [] = []
rstrip (c ∷ s) =
    let rest = rstrip s in elim rest [ [] ↦ if is_space c then [] else c ∷ [] | d ∷ t ↦ c ∷ d ∷ t ]

-- `s.strip()`
unfoldable pub strip : Text → Text
unfolding lstrip rstrip
strip s = rstrip (lstrip s)

-- `collapse_ws` of a text.
unfoldable pub collapse_text : Text → Text
unfolding squeeze strip is_space
collapse_text s = strip (squeeze false s)

module _ (py : Python) where
  abbrev text_of : Json → Text
  text_of (str s) = s
  text_of v = py.to_str v

  -- `str(s or "")`
  unfoldable pub or_empty : Json → Text
  or_empty v = if truthy v then text_of v else []

  unfoldable pub collapse_ws : Json → Text
  unfolding collapse_text or_empty
  collapse_ws v = collapse_text (or_empty v)

  unfoldable pub norm : Json → Text
  unfolding collapse_ws
  norm v = py.lower (collapse_ws v)

  unfoldable pub finding_key : Json → Json → Text
  unfolding norm
  finding_key file title = py.sha256_16 (norm file ++ 0 ∷ norm title)

  unfoldable pub ledger_key : Text → Text → Text → Text
  unfolding norm
  ledger_key branch base_sha fkey = norm (str branch) ++ 0 ∷ (norm (str base_sha) ++ 0 ∷ fkey)
