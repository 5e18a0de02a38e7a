-- ===== src/Reviews/Policy.antt =====
-- planning_policy.py: when a stored planning identity is valid, and how it differs from the expected one.
use skodun.Prelude.{
  ℕ, Bool, true, false, not, ◌&&◌, ◌||◌, Option, none, some, List, [], ◌∷◌, is_empty, all, leb,
  length, ◌==◌, if◌then◌else◌,
}
use skodun.Prelude.Text.{Text, codes, text_eq, is_in}
use skodun.Prelude.Int.{pos}
use skodun.Json.{
  Json, null, int, str, obj, Fields, end, field, get, get_or_null, get_default, is_bool,
}
use skodun.Triage.Result.{Result, ok, err, unexpected, ◌>>=◌}
use skodun.Gate.Decide.{is_text}

abbrev pub version : Text
version = codes "review-planning/v1"

-- What the code uses of Python's values: the SHA-256 of a dictionary's sorted JSON form, and `==`.
pub record Values : Type 0 where
  pub digest : Fields → Text
  pub equal : Json → Json → Bool

unfoldable pub key_names : Fields → List Text
key_names end = []
key_names (field k v fs) = k ∷ key_names fs

unfoldable pub without : Text → Fields → Fields
unfolding text_eq
without key end = end
without key (field k v fs) =
    let rest = without key fs in if text_eq k key then rest else field k v rest

abbrev has_key : Fields → Text → Bool
has_key fs key = is_in key (key_names fs)

-- `set(value) == keys`
unfoldable pub same_keys : List Text → Fields → Bool
unfolding all is_in key_names
same_keys keys fs = all (has_key fs) keys && all (λ k. is_in k keys) (key_names fs)

abbrev pub policy_keys : List Text
policy_keys =
    codes "version"
    ∷ codes "target_bytes"
    ∷ codes "effective_diff_budget"
    ∷ codes "prompt_envelope"
    ∷ codes "context_pack"
    ∷ codes "capability"
    ∷ codes "execution_policy"
    ∷ codes "digest"
    ∷ []

abbrev execution_keys : List Text
execution_keys = codes "max_turns" ∷ codes "deny_tools_hash" ∷ []

abbrev capability_keys : List Text
capability_keys = codes "provider" ∷ codes "version" ∷ codes "transport" ∷ codes "limit_bytes" ∷ []

-- `type(value) is int and value >= minimum`
abbrev at_least : ℕ → Json → Bool
at_least minimum (int (pos n)) = leb minimum n
at_least minimum _ = false

abbrev is_hex : ℕ → Bool
is_hex c = (leb 48 c && leb c 57) || (leb 97 c && leb c 102)

abbrev pub is_digest : Json → Bool
is_digest (str s) = length s == 64 && all is_hex s
is_digest _ = false

abbrev is_named : Json → Bool
is_named (str s) = not (is_empty s)
is_named _ = false

abbrev or_none : (Json → Bool) → Json → Bool
or_none p null = true
or_none p v = p v

-- `validate_concurrency`
abbrev pub is_concurrency : Json → Bool
is_concurrency (int (pos n)) = n == 1 || n == 2
is_concurrency _ = false

abbrev pub concurrency_of : Fields → Json
concurrency_of execution = get_default (codes "batch_concurrency") (int (pos 1)) execution

abbrev is_execution : Json → Bool
is_execution (obj fs) =
    (same_keys execution_keys fs || same_keys (codes "batch_concurrency" ∷ execution_keys) fs)
    && at_least 1 (get_or_null (codes "max_turns") fs)
    && is_digest (get_or_null (codes "deny_tools_hash") fs)
    && is_concurrency (concurrency_of fs)
is_execution _ = false

abbrev is_capability : Json → Bool
is_capability null = true
is_capability (obj fs) =
    same_keys capability_keys fs
    && is_named (get_or_null (codes "provider") fs)
    && or_none is_named (get_or_null (codes "version") fs)
    && or_none is_named (get_or_null (codes "transport") fs)
    && or_none (at_least 1) (get_or_null (codes "limit_bytes") fs)
is_capability _ = false

pub data Mismatch : Type 0 where
  planning_identity_missing batch_concurrency_changed : Mismatch
  operational_target_changed planning_policy_changed : Mismatch

-- `expected[key]`
abbrev item : Text → Fields → Result Json
item key fs = elim (get key fs) [ none ↦ err (unexpected (codes "KeyError")) | some v ↦ ok v ]

-- `.get` of a value that has to be a dictionary.
abbrev as_dict : Json → Result Fields
as_dict (obj fs) = ok fs
as_dict _ = err (unexpected (codes "AttributeError"))

module _ (values : Values) where
  abbrev pub is_policy : Fields → Bool
  is_policy fs =
      same_keys policy_keys fs
      && is_text (get_or_null (codes "version") fs) version
      && at_least 0 (get_or_null (codes "target_bytes") fs)
      && at_least 1 (get_or_null (codes "effective_diff_budget") fs)
      && at_least 1 (get_or_null (codes "prompt_envelope") fs)
      && is_bool (get_or_null (codes "context_pack") fs)
      && is_execution (get_or_null (codes "execution_policy") fs)
      && is_capability (get_or_null (codes "capability") fs)
      && is_text (get_or_null (codes "digest") fs) (values.digest (without (codes "digest") fs))

  -- `validate`: whether it raises no `ValueError`.
  unfoldable pub is_valid : Json → Bool
  unfolding same_keys without get get_or_null get_default text_eq all
  is_valid null = true
  is_valid (obj fs) = is_policy fs
  is_valid _ = false

  -- The comparison of two policies once the stored one is known to be a valid dictionary.
  abbrev compared : Fields → Fields → Result (Option Mismatch)
  compared stored expected = do
    stored_execution ← item (codes "execution_policy") stored >>= as_dict
    expected_execution ← item (codes "execution_policy") expected >>= as_dict
    target ← item (codes "target_bytes") expected
    ok (
        if not (values.equal (concurrency_of stored_execution) (concurrency_of expected_execution))
        then some batch_concurrency_changed
        else if not (values.equal (get_or_null (codes "target_bytes") stored) target)
        then some operational_target_changed
        else if values.equal (obj stored) (obj expected)
        then none
        else some planning_policy_changed)

  unfoldable pub mismatch : Json → Fields → Result (Option Mismatch)
  unfolding is_valid get get_or_null get_default
  mismatch (obj fs) expected =
      if is_valid (obj fs) then compared fs expected else ok (some planning_identity_missing)
  mismatch _ expected = ok (some planning_identity_missing)
