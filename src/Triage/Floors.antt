-- ===== src/Triage/Floors.antt =====
-- The audit floors of triage.py: what a reason and a tracking reference have to be.
use skodun.Prelude.{
  Bool, false, ◌||◌, not, List, [], ◌∷◌, ℕ, length, leb, ltb, if◌then◌else◌, any, is_empty,
}
use skodun.Prelude.Text.{Text, codes, is_in}
use skodun.Json.{Json, str}
use skodun.Textnorm.{Python, strip, is_space, collapse_ws, norm}
use skodun.Triage.Result.{
  Result, ok, err, triage_error, ◌>>◌, require, empty_reason, placeholder, short_reason,
  ref_not_text, empty_ref, long_ref, prose_ref, nameless_ref,
}

-- `PLACEHOLDER_REASONS`
abbrev pub placeholder_reasons : List Text
placeholder_reasons =
    codes "false positive"
    ∷ codes "fp"
    ∷ codes "not a bug"
    ∷ codes "wontfix"
    ∷ codes "won't fix"
    ∷ codes "no"
    ∷ codes "nope"
    ∷ codes "n/a"
    ∷ codes "na"
    ∷ codes "none"
    ∷ codes "ignore"
    ∷ codes "ignored"
    ∷ codes "skip"
    ∷ codes "skipped"
    ∷ codes "ok"
    ∷ codes "fine"
    ∷ codes "invalid"
    ∷ codes "wrong"
    ∷ codes "incorrect"
    ∷ codes "disagree"
    ∷ codes "not an issue"
    ∷ codes "no issue"
    ∷ codes "already fixed"
    ∷ codes "by design"
    ∷ codes "intentional"
    ∷ codes "known"
    ∷ codes "irrelevant"
    ∷ []

unfoldable pub is_placeholder : Text → Bool
unfolding is_in
is_placeholder s = is_in s placeholder_reasons

abbrev pub min_reason_chars : ℕ
min_reason_chars = 20

abbrev pub max_tracking_ref_chars : ℕ
max_tracking_ref_chars = 200

-- `_CONTROL_CHARS`
unfoldable pub is_control : ℕ → Bool
is_control c = leb c 31 || (if leb 127 c then leb c 159 else false)

module _ (py : Python) where
  unfoldable pub validate_reason : Text → Result (Unit {0})
  unfolding is_placeholder
  validate_reason reason =
      let cleaned = collapse_ws py (str reason) in
      do
        require (not (is_empty cleaned)) (triage_error empty_reason)
        require (not (is_placeholder (norm py (str cleaned)))) (triage_error placeholder)
        require (not (ltb (length cleaned) min_reason_chars)) (triage_error short_reason)
        ok tt

  unfoldable pub check_ref : Text → Result Text
  unfolding is_space is_control any
  check_ref cleaned = do
    require (not (is_empty cleaned)) (triage_error empty_ref)
    require (leb (length cleaned) max_tracking_ref_chars) (triage_error long_ref)
    require (not (any is_space cleaned || any is_control cleaned)) (triage_error prose_ref)
    require (any (py.is_alnum) cleaned) (triage_error nameless_ref)
    ok cleaned

  unfoldable pub validate_tracking_ref : Json → Result Text
  unfolding check_ref strip
  validate_tracking_ref (str ref) = check_ref (strip ref)
  validate_tracking_ref _ = err (triage_error ref_not_text)
