-- ===== src/Triage/Artifact.antt =====
-- `load_valid_artifact` of triage.py.
use skodun.Prelude.{◌≡◌, Option, none, some, List, [], ◌∷◌, arith, length}
use skodun.Prelude.Text.{Text, codes}
use skodun.Prelude.Int.{ℤ, pos, eq_ℤ}
use skodun.Json.{Json, int, str, arr, obj, Items, nil, cons, Fields, get}
use skodun.Triage.Result.{
  Result, ok, err, artifact_error, ArtifactProblem, not_object, missing, not_string, not_a_list,
  non_object_entry, not_an_integer, total_differs, ◌>>=◌, ◌>>◌, require, >>=-eq-ok,
}

-- What a checked artifact is known to have, beside the dictionary itself.
pub record Artifact : Type 0 where
  pub rec : Fields
  pub id : Text
  pub branch : Text
  pub base_sha : Text
  pub findings : List Fields

abbrev problem {ℓ} : {A : Type ℓ} → ArtifactProblem → Result A
problem p = err (artifact_error p)

abbrev pub as_text : Text → Option Json → Result Text
as_text name none = problem (missing name)
as_text name (some (str s)) = ok s
as_text name (some _) = problem (not_string name)

-- `any(not isinstance(f, dict) for f in findings)`
unfoldable pub as_objects : Items → Result (List Fields)
as_objects nil = ok []
as_objects (cons (obj fs) vs) = do rest ← as_objects vs; ok (fs ∷ rest)
as_objects (cons _ vs) = problem non_object_entry

unfoldable pub as_findings : Option Json → Result (List Fields)
unfolding as_objects
as_findings none = problem (missing (codes "findings"))
as_findings (some (arr vs)) = as_objects vs
as_findings (some _) = problem not_a_list

abbrev pub as_total : Option Json → Result ℤ
as_total none = problem (missing (codes "findings_total"))
as_total (some (int n)) = ok n
as_total (some _) = problem not_an_integer

unfoldable pub check_fields : Fields → Result Artifact
unfolding as_findings get
check_fields rec = do
  id ← as_text (codes "id") (get (codes "id") rec)
  branch ← as_text (codes "branch") (get (codes "branch") rec)
  base_sha ← as_text (codes "base_sha") (get (codes "base_sha") rec)
  findings ← as_findings (get (codes "findings") rec)
  total ← as_total (get (codes "findings_total") rec)
  require (eq_ℤ total (pos (length findings))) (artifact_error total_differs)
  ok (record { rec = rec; id = id; branch = branch; base_sha = base_sha; findings = findings })

unfoldable pub load_valid_artifact : Json → Result Artifact
unfolding check_fields
load_valid_artifact (obj rec) = check_fields rec
load_valid_artifact _ = problem not_object

-- The findings as they stand in the artifact.
unfoldable pub to_items : List Fields → Items
to_items [] = nil
to_items (fs ∷ rest) = cons (obj fs) (to_items rest)

pub as_objects-to_items : (vs : Items) (fs : List Fields) → as_objects vs ≡ ok fs → vs ≡ to_items fs
unfolding as_objects to_items
as_objects-to_items nil fs h = ground arith
as_objects-to_items (cons (obj f) vs) fs h =
    let r = >>=-eq-ok (as_objects vs) (λ rest. ok (f ∷ rest)) h in
    ground (arith, as_objects-to_items vs r.0 r.1, r.2)
as_objects-to_items (cons _ vs) fs h = ground arith
