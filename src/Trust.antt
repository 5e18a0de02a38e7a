-- ===== src/Trust.antt =====
-- trust.py: the trust invariant, and the rules by which a persisted field is rendered.
pub mod Rendering
use skodun.Prelude.{
  ℕ, zero, suc, Bool, true, false, ◌&&◌, ◌||◌, not, Option, none, some, List, [], ◌∷◌, ◌++◌, map,
  leb, ◌==◌, if◌then◌else◌, take, concat,
}
use skodun.Prelude.Text.{Text, codes}
use skodun.Prelude.Int.{ℤ, pos, negsuc}
use skodun.Json.{Json, null, bool, int, float, str, arr, obj, Fields, get_or_null, truthy}
use skodun.Textnorm.{Python}

-- The three axes of a review, as values of any type: plain truthiness.
unfoldable pub is_trustworthy : Json → Json → Json → Bool
is_trustworthy parse_ok degraded diff_truncated =
    truthy parse_ok && not (truthy degraded) && not (truthy diff_truncated)

abbrev pub lower_bool : Json → Text
lower_bool v = if truthy v then codes "true" else codes "false"

unfoldable pub coerce_count : Json → ℤ
coerce_count (int n) = n
coerce_count null = pos 0
coerce_count (bool b) = pos 0
coerce_count (float z r) = pos 0
coerce_count (str s) = pos 0
coerce_count (arr vs) = pos 0
coerce_count (obj fs) = pos 0

-- `replace("\r", " ").replace("\n", " ")`
unfoldable pub flatten_char : ℕ → ℕ
flatten_char c = if c == 13 || c == 10 then 32 else c

unfoldable pub flatten_text : Text → Text
unfolding flatten_char
flatten_text s = map flatten_char s

-- The line boundaries of `str.splitlines`.
unfoldable pub is_line_break : ℕ → Bool
is_line_break c =
    (leb 10 c && leb c 13) || (leb 28 c && leb c 30) || c == 133 || c == 8232 || c == 8233

-- `message.splitlines()`: `cr` says that the line before ended in a `\r` that a `\n` still belongs to.
unfoldable pub split_lines : Text → Bool → Text → List Text
split_lines cur cr [] = elim cur [ [] ↦ [] | c ∷ s ↦ (c ∷ s) ∷ [] ]
split_lines cur cr (c ∷ s) =
    let same = split_lines [] false s in
    let ended = cur ∷ split_lines [] (c == 13) s in
    let grown = split_lines (cur ++ c ∷ []) false s in
    if cr && c == 10 then same else if is_line_break c then ended else grown

unfoldable pub join : Text → List Text → Text
join sep [] = []
join sep (s ∷ []) = s
join sep (s ∷ t ∷ ts) = s ++ sep ++ join sep (t ∷ ts)

unfoldable pub flatten_lines : Text → Text
unfolding split_lines join
flatten_lines message = join (codes " | ") (split_lines [] false message)

module _ (py : Python) where
  -- `"" if value is None else str(value)`
  unfoldable pub shown : Json → Text
  shown null = []
  shown (str s) = s
  shown (bool b) = py.to_str (bool b)
  shown (int n) = py.to_str (int n)
  shown (float z r) = py.to_str (float z r)
  shown (arr vs) = py.to_str (arr vs)
  shown (obj fs) = py.to_str (obj fs)

  unfoldable pub one_line : Json → Text
  unfolding shown flatten_text
  one_line v = flatten_text (shown v)

  -- `f"{coerce_count(v)}"`
  unfoldable pub count_text : Json → Text
  unfolding coerce_count
  count_text v = py.to_str (int (coerce_count v))

  abbrev pub severity_of : Json → Fields
  severity_of (obj fs) = fs
  severity_of _ = Fields.end

  -- The pieces of the f-string, in order.
  abbrev pub banner_pieces : Fields → Fields → List Text
  banner_pieces review sev =
      codes "SKODUN VERDICT: trustworthy="
      ∷ lower_bool (get_or_null (codes "trustworthy") review)
      ∷ codes " findings="
      ∷ count_text (get_or_null (codes "findings_total") review)
      ∷ codes " degraded="
      ∷ lower_bool (get_or_null (codes "degraded") review)
      ∷ codes " stop_reason="
      ∷ one_line (get_or_null (codes "stop_reason") review)
      ∷ codes " head="
      ∷ take 9 (one_line (get_or_null (codes "head") review))
      ∷ codes " id="
      ∷ one_line (get_or_null (codes "id") review)
      ∷ codes " severity="
      ∷ count_text (get_or_null (codes "high") sev)
      ∷ codes "/"
      ∷ count_text (get_or_null (codes "medium") sev)
      ∷ codes "/"
      ∷ count_text (get_or_null (codes "low") sev)
      ∷ []

  unfoldable pub banner : Fields → Text
  unfolding one_line count_text concat
  banner review =
      concat (banner_pieces review (severity_of (get_or_null (codes "severity") review)))

  unfoldable pub banner_failure : Json → Text
  unfolding one_line
  banner_failure reason = codes "SKODUN VERDICT: trustworthy=false reason=" ++ one_line reason
