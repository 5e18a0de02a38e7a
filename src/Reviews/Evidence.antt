-- ===== src/Reviews/Evidence.antt =====
-- dispatch.py: when the evidence about a pushed commit permits to skip its review.
use skodun.Prelude.{
  Bool, true, false, not, ◌&&◌, Option, none, some, is_empty, is_none, if◌then◌else◌,
}
use skodun.Prelude.Text.{Text, codes, text_eq}
use skodun.Json.{Json, null, str, obj, Fields, get, get_or_null, is_true}
use skodun.Textnorm.{strip}
use skodun.Triage.Result.{Result, ok, ◌>>=◌}
use skodun.Reviews.Policy.{Values, mismatch}

-- The three states of an artifact's `context_hash`, the hash with the middle one.
pub data Context : Type 0 where
  legacy : Context
  hashed : Text → Context
  ambiguous : Context

-- `_classify`, from the value of the key on.
abbrev classify_value : Option Json → Context
classify_value none = legacy
classify_value (some null) = legacy
classify_value (some (str s)) = if is_empty (strip s) then ambiguous else hashed s
classify_value (some _) = ambiguous

-- `_classify` of a loaded artifact; `artifact_context_state` is its constructor.
unfoldable pub classify : Json → Context
unfolding get strip text_eq
classify (obj fs) = classify_value (get (codes "context_hash") fs)
classify _ = ambiguous

-- `DedupEvidence`; `enabled` and `valid` are tested with `is True`, so they are values of any type.
pub record DedupEvidence : Type 0 where
  pub enabled : Json
  pub valid : Json
  pub candidate_context_hash : Option Text
  pub planning_policy : Option Fields

abbrev hash_permits : Text → Option Text → Bool
hash_permits recorded none = false
hash_permits recorded (some candidate) =
    not (is_empty (strip candidate)) && text_eq recorded candidate

abbrev state_permits : Context → Option Text → Bool
state_permits legacy candidate = true
state_permits (hashed recorded) candidate = hash_permits recorded candidate
state_permits ambiguous candidate = false

unfoldable pub context_permits_suppression : Json → Option Text → Bool
unfolding classify strip text_eq
context_permits_suppression artifact candidate = state_permits (classify artifact) candidate

module _ (values : Values) where
  -- No policy in the evidence, or the artifact's policy does not differ from it.
  unfoldable pub policy_permits : Json → Option Fields → Result Bool
  unfolding mismatch get_or_null
  policy_permits artifact none = ok true
  policy_permits (obj fs) (some expected) = do
    difference ← mismatch values (get_or_null (codes "planning_policy") fs) expected
    ok (is_none difference)
  policy_permits _ (some expected) = ok false

  unfoldable pub evidence_permits_suppression : Json → DedupEvidence → Result Bool
  unfolding policy_permits context_permits_suppression
  evidence_permits_suppression artifact evidence =
      if not (is_true evidence.enabled && is_true evidence.valid) then ok false else do
        permitted ← policy_permits artifact evidence.planning_policy
        ok (permitted && context_permits_suppression artifact evidence.candidate_context_hash)
