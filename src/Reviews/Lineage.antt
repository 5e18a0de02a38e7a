-- ===== src/Reviews/Lineage.antt =====
-- `_write_lineage` of store.py: the rows of `finding_lineage` that a finished record leaves.
use skodun.Prelude.{
  ℕ, suc, Bool, false, not, ◌&&◌, Option, none, some, List, [], ◌∷◌, ◌++◌, is_empty, all, leb,
  length, take, ◌==◌, if◌then◌else◌, keep,
}
use skodun.Prelude.Text.{Text, codes, text_eq, is_in}
use skodun.Prelude.Int.{pos}
use skodun.Json.{Json, null, int, str, arr, obj, Items, nil, cons, Fields, get_or_null, truthy}
use skodun.Gate.Decide.{is_text}
use skodun.Reviews.Record.{is_over}
use skodun.Reviews.Policy.{is_digest}

pub record LineageRow : Type 0 where
  pub review_id : Json
  pub finding_index : ℕ
  pub repository_id : Text
  pub fingerprint_version : Text
  pub fingerprint : Text
  pub scope : Option Text
  pub scope_reason : Option Text
  pub predecessor_review_id : Option Text
  pub predecessor_finding_index : Option ℕ
  pub match_reason : Text
  pub created_at : Json

abbrev fingerprint_v2 : Text
fingerprint_v2 = codes "finding_fingerprint_v2"

abbrev match_reasons : List Text
match_reasons =
    codes "new" ∷ codes "repeated" ∷ codes "moved" ∷ codes "scope_changed" ∷ codes "ambiguous" ∷ []

-- What follows a prefix.
unfoldable pub after : Text → Text → Option Text
after [] s = some s
after (p ∷ ps) [] = none
after (p ∷ ps) (c ∷ s) = let rest = after ps s in if p == c then rest else none

abbrev is_sum : Option Text → Bool
is_sum none = false
is_sum (some s) = is_digest (str s)

-- `re.fullmatch(r"sha256:[0-9a-f]{64}", digest)`
unfoldable pub is_fingerprint : Text → Bool
unfolding after all
is_fingerprint s = is_sum (after (codes "sha256:") s)

-- A value that may be missing; `none` is one that makes the finding be skipped.
abbrev optional_index : Json → Option (Option ℕ)
optional_index null = some none
optional_index (int (pos n)) = some (some n)
optional_index _ = none

abbrev optional_id : Json → Option (Option Text)
optional_id null = some none
optional_id (str s) = if not (is_empty s) && leb (length s) 256 then some (some s) else none
optional_id _ = none

abbrev key_of : Text → Json → Json
key_of key (obj fs) = get_or_null key fs
key_of key _ = null

-- `value[:256]` of a text, and nothing of another value.
abbrev clipped : Json → Option Text
clipped (str s) = some (take 256 s)
clipped _ = none

abbrev repository_of : Json → Text
repository_of (str s) = if is_empty s then codes "unknown" else s
repository_of _ = codes "unknown"

abbrev created_at : Text → Json → Json
created_at now v = if truthy v then v else str now

module _ (now : Text) (rec : Fields) where
  abbrev row_from : ℕ → Text → Text → Json → Option ℕ → Option Text → LineageRow
  row_from index digest reason scope predecessor_index predecessor_id = record {
    review_id = get_or_null (codes "id") rec;
    finding_index = index;
    repository_id = repository_of (get_or_null (codes "lineage_repository_id") rec);
    fingerprint_version = fingerprint_v2;
    fingerprint = digest;
    scope = clipped (key_of (codes "scope") scope);
    scope_reason = clipped (key_of (codes "reason_code") scope);
    predecessor_review_id = predecessor_id;
    predecessor_finding_index = predecessor_index;
    match_reason = reason;
    created_at = created_at now (get_or_null (codes "reviewed_at") rec);
  }

  abbrev linked : ℕ → Text → Text → Fields → Json → List LineageRow
  linked index digest reason lineage scope =
      elim (optional_index (get_or_null (codes "predecessor_index") lineage)) [
        | none ↦ []
        | some i ↦ elim (optional_id (get_or_null (codes "predecessor_review_id") lineage)) [
          | none ↦ []
          | some p ↦ row_from index digest reason scope i p ∷ []
        ]
      ]

  abbrev matched : ℕ → Text → Fields → Json → Json → List LineageRow
  matched index digest lineage (str reason) scope =
      if is_fingerprint digest
        && is_text (get_or_null (codes "version") lineage) fingerprint_v2
        && is_in reason match_reasons
      then linked index digest reason lineage scope
      else []
  matched index digest lineage _ scope = []

  abbrev described : ℕ → Json → Json → Json → List LineageRow
  described index (str digest) (obj lineage) scope =
      matched index digest lineage (get_or_null (codes "match_reason") lineage) scope
  described index _ _ scope = []

  abbrev finding_row : ℕ → Json → List LineageRow
  finding_row index (obj f) =
      described index (get_or_null (codes "finding_fingerprint_v2") f)
        (get_or_null (codes "finding_lineage_v2") f) (get_or_null (codes "scope_attribution") f)
  finding_row index _ = []

  -- The loop over `enumerate(findings)`.
  unfoldable pub lineage_rows : ℕ → Items → List LineageRow
  unfolding is_fingerprint get_or_null text_eq is_in
  lineage_rows index nil = []
  lineage_rows index (cons v vs) = finding_row index v ++ lineage_rows (suc index) vs

  abbrev rewritten : Json → List LineageRow → List LineageRow
  rewritten (arr findings) rows =
      keep (λ r. not (of_review r.review_id (get_or_null (codes "id") rec))) rows
      ++ lineage_rows 0 findings
    where
      -- `WHERE review_id=?`
      of_review : Json → Json → Bool
      of_review stored (str id) = is_text stored id
      of_review stored _ = false
  rewritten _ rows = rows

  -- `_write_lineage`
  unfoldable pub write_lineage : List LineageRow → List LineageRow
  unfolding lineage_rows keep get_or_null text_eq
  write_lineage rows =
      if is_over rec then rewritten (get_or_null (codes "findings") rec) rows else rows
