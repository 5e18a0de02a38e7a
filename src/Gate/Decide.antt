-- ===== src/Gate/Decide.antt =====
-- `_gate` of gate.py, with `latest_trustworthy_for` of store.py and `diff_identity` of gitio.py.
use skodun.Prelude.{
  ℕ, Bool, true, false, not, ◌&&◌, ◌||◌, Option, none, some, List, [], ◌∷◌, ◌++◌, if◌then◌else◌,
  ◌==◌, is_empty, length, take,
}
use skodun.Prelude.Text.{Text, codes, text_eq, text_lt}
use skodun.Prelude.Int.{pos}
use skodun.Json.{Json, null, bool, int, str, obj, Fields, get_or_null, is_bool}
use skodun.Textnorm.{Python}
use skodun.Trust.{is_trustworthy}
use skodun.Ledger.{Event, triage_for}
use skodun.Triage.Result.{Result, ok, err, Error, ArtifactProblem, unexpected, ◌>>=◌}
use skodun.Triage.Artifact.{Artifact, load_valid_artifact}
use skodun.Triage.Verbs.{open_findings}

pub record GateResult : Type 0 where
  pub code : ℕ
  pub message : Text
  pub diff_hash : Option Text

pub record Base : Type 0 where
  pub sha : Text
  pub warning : Option Text

pub record Diff : Type 0 where
  pub bytes : List ℕ
  pub truncated_untracked : Bool

-- One row of `reviews`, as far as the gate reads it. A stored text that is no JSON is `none`.
pub record IndexRow : Type 0 where
  pub diff_hash : Text
  pub trustworthy : Bool
  pub reviewed_at : Option Text
  pub artifact : Option Json

-- What the gate is given from outside: what git answers, the SHA-1 of bytes, and how exceptions print.
pub record Outside : Type 0 where
  pub resolve_base : Result Base
  pub capture_diff : Text → Result Diff
  pub blob_sha1 : List ℕ → Text
  pub current_branch : Result Text
  pub untracked_max : ℕ
  pub str_problem : ArtifactProblem → Text
  pub repr : Error → Text
  pub skip_variable : Option Text
  pub repo : Text
  pub now : Text

-- `ORDER BY reviewed_at DESC`: a row without the time is last, and of equal rows the first stays.
abbrev pub newer : Option Text → Option Text → Bool
newer none b = false
newer (some a) none = true
newer (some a) (some b) = text_lt b a

abbrev pub later : IndexRow → Option IndexRow → IndexRow
later row none = row
later row (some best) = if newer best.reviewed_at row.reviewed_at then best else row

unfoldable pub newest : Text → List IndexRow → Option IndexRow
unfolding text_eq text_lt
newest diff_hash [] = none
newest diff_hash (row ∷ rows) =
    let rest = newest diff_hash rows in
    if text_eq row.diff_hash diff_hash && row.trustworthy then some (later row rest) else rest

-- `json.loads` of the row's text, or `None` without a row.
abbrev loaded : Option IndexRow → Result Json
loaded none = ok null
loaded (some row) = elim row.artifact [
  | none ↦ err (unexpected (codes "JSONDecodeError"))
  | some v ↦ ok v
]

unfoldable pub latest_trustworthy_for : Text → List IndexRow → Result Json
unfolding newest
latest_trustworthy_for diff_hash rows = loaded (newest diff_hash rows)

-- `data.rstrip(b"\n")`
unfoldable pub rstrip_newlines : List ℕ → List ℕ
rstrip_newlines [] = []
rstrip_newlines (c ∷ s) =
    let rest = rstrip_newlines s in
    elim rest [ [] ↦ if c == 10 then [] else c ∷ [] | d ∷ t ↦ c ∷ d ∷ t ]

-- `value is flag`, for a value known to be a Boolean.
abbrev pub is_flag : Json → Bool → Bool
is_flag (bool true) flag = flag
is_flag (bool false) flag = not flag
is_flag _ flag = false

-- `value == text`
abbrev pub is_text : Json → Text → Bool
is_text (str s) t = text_eq s t
is_text _ t = false

abbrev note_line : Text → Text
note_line note = codes "SKODUN GATE: " ++ note ++ codes "\n"

abbrev warning_note : Option Text → Text
warning_note none = []
warning_note (some w) = note_line (codes "identity note: " ++ w)

abbrev pub axes_are_bool : Fields → Bool
axes_are_bool rec =
    is_bool (get_or_null (codes "parse_ok") rec)
    && is_bool (get_or_null (codes "degraded") rec)
    && is_bool (get_or_null (codes "diff_truncated") rec)
    && is_bool (get_or_null (codes "trustworthy") rec)

abbrev pub recomputed : Fields → Bool
recomputed rec =
    is_trustworthy (get_or_null (codes "parse_ok") rec) (get_or_null (codes "degraded") rec)
      (get_or_null (codes "diff_truncated") rec)

module _ (py : Python) (out : Outside) where
  unfoldable pub diff_identity : List ℕ → Text
  unfolding rstrip_newlines
  diff_identity bytes = out.blob_sha1 (rstrip_newlines bytes)

  abbrev number : ℕ → Text
  number n = py.to_str (int (pos n))

  abbrev pub prefix_of : Base → Diff → Text
  prefix_of base diff =
      warning_note base.warning
      ++ (if diff.truncated_untracked
          then note_line
              (codes "identity note: untracked scan capped at " ++ number out.untracked_max)
          else [])

  abbrev pub verdict : ℕ → Text → Text → Text → GateResult
  verdict code prefix message dh = record {
    code = code;
    message = prefix ++ message;
    diff_hash = some dh;
  }

  -- The last step: what is still open decides between 0 and 1.
  unfoldable pub conclude : Text → Text → Artifact → List Fields → GateResult
  conclude dh prefix review (f ∷ fs) =
      verdict 1 prefix
        (codes "SKODUN GATE: FAIL(1) "
          ++ number (length (f ∷ fs))
          ++ codes " finding(s) open on review "
          ++ review.id)
        dh
  conclude dh prefix review [] =
      verdict 0 prefix
        (codes "SKODUN GATE: PASS "
          ++ (if is_empty review.findings
              then codes "0 findings"
              else number (length review.findings) ++ codes " finding(s), all triaged")
          ++ codes " on review "
          ++ review.id
          ++ codes " for diff_hash="
          ++ take 12 dh)
        dh

  -- From the artifact on: each record is checked against the other, and the review against the base.
  unfoldable pub certify : Text → Base → Text → List Event → Artifact → Result GateResult
  unfolding is_trustworthy get_or_null conclude open_findings triage_for text_eq
  certify dh base prefix events review =
      if not (axes_are_bool review.rec)
      then ok (
          verdict 2 prefix
            (codes "SKODUN GATE: FAIL(2) artifact trust fields are not booleans on review "
              ++ review.id)
            dh)
      else if not (recomputed review.rec)
          || not (is_flag (get_or_null (codes "trustworthy") review.rec) (recomputed review.rec))
      then ok (
          verdict 2 prefix
            (codes "SKODUN GATE: FAIL(2) index and artifact disagree on trust for review "
              ++ review.id
              ++ codes " -- the archive is inconsistent; re-run the review")
            dh)
      else if not (is_text (get_or_null (codes "diff_hash") review.rec) dh)
      then ok (
          verdict 2 prefix
            (codes "SKODUN GATE: FAIL(2) index and artifact disagree on diff_hash for review "
              ++ review.id
              ++ codes " -- the archive is inconsistent; re-run the review")
            dh)
      else if not (text_eq review.base_sha base.sha)
      then ok (
          verdict 2 prefix
            (codes "SKODUN GATE: FAIL(2) base_sha mismatch on review "
              ++ review.id
              ++ codes ": taken against "
              ++ take 12 review.base_sha
              ++ codes ", current base is "
              ++ take 12 base.sha
              ++ codes " (rebase detected) -- re-review required")
            dh)
      else do
        remaining ←
            open_findings py (obj review.rec) (triage_for review.branch review.base_sha events)
        ok (conclude dh prefix review remaining)

  abbrev no_review : Text → Text → GateResult
  no_review dh prefix =
      verdict 2 prefix
        (codes "SKODUN GATE: FAIL(2) no trustworthy review covers diff_hash="
          ++ take 12 dh
          ++ codes " -- run a review before pushing")
        dh

  unfoldable pub judge : Text → Base → Text → List Event → Json → Result GateResult
  unfolding load_valid_artifact certify
  judge dh base prefix events null = ok (no_review dh prefix)
  judge dh base prefix events value = load_valid_artifact value >>= certify dh base prefix events

  abbrev pub nothing_to_review : Text → GateResult
  nothing_to_review prefix = record {
    code = 0;
    message = prefix ++ codes "SKODUN GATE: PASS no outgoing change vs base -- nothing to review";
    diff_hash = some [];
  }

  unfoldable pub judge_diff : List IndexRow → List Event → Base → Diff → Result GateResult
  unfolding rstrip_newlines diff_identity latest_trustworthy_for judge
  judge_diff rows events base diff =
      if is_empty (rstrip_newlines diff.bytes)
      then ok (nothing_to_review (prefix_of base diff))
      else latest_trustworthy_for (diff_identity diff.bytes) rows
        >>= judge (diff_identity diff.bytes) base (prefix_of base diff) events

  unfoldable pub gate : List IndexRow → List Event → Result GateResult
  unfolding judge_diff
  gate rows events = do
    base ← out.resolve_base
    diff ← out.capture_diff base.sha
    judge_diff rows events base diff
