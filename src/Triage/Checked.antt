-- ===== src/Triage/Checked.antt =====
-- What `load_valid_artifact` of triage.py establishes.
use skodun.Prelude.{◌≡◌, refl, ap, ◌∙◌, ◌↔◌, true, Option, none, some, List, [], ◌∷◌, arith, length}
use mathlib.Core.Path.{subst}
use skodun.Prelude.Text.{Text, codes}
use skodun.Prelude.Int.{ℤ, pos, eq_ℤ, eq_ℤ_iff}
use skodun.Json.{Json, int, str, arr, obj, Fields, get}
use skodun.Triage.Result.{ok, >>=-eq-ok, require-ok, ok-injective, artifact_error, total_differs}
use skodun.Triage.Artifact.{
  Artifact, as_text, as_objects, as_findings, as_total, check_fields, load_valid_artifact, to_items,
  as_objects-to_items,
}

-- The value is an object that carries the artifact's fields, each of its kind, and its total counts its findings.
pub record IsChecked (v : Json) (a : Artifact) : Type 0 where
  pub is_obj : v ≡ obj a.rec
  pub has_id : get (codes "id") a.rec ≡ some (str a.id)
  pub has_branch : get (codes "branch") a.rec ≡ some (str a.branch)
  pub has_base_sha : get (codes "base_sha") a.rec ≡ some (str a.base_sha)
  pub has_findings : get (codes "findings") a.rec ≡ some (arr (to_items a.findings))
  pub has_total : get (codes "findings_total") a.rec ≡ some (int (pos (length a.findings)))

as_text-ok : (name : Text) (o : Option Json) (s : Text) → as_text name o ≡ ok s → o ≡ some (str s)
as_text-ok name none s h = ground arith
as_text-ok name (some (str t)) s h = ground arith
as_text-ok name (some _) s h = ground arith

as_findings-ok :
    (o : Option Json) (fs : List Fields) → as_findings o ≡ ok fs → o ≡ some (arr (to_items fs))
unfolding as_findings
as_findings-ok none fs h = ground arith
as_findings-ok (some (arr vs)) fs h = ap (λ i. some (arr i)) (as_objects-to_items vs fs h)
as_findings-ok (some _) fs h = ground arith

as_total-ok : (o : Option Json) (n : ℤ) → as_total o ≡ ok n → o ≡ some (int n)
as_total-ok none n h = ground arith
as_total-ok (some (int m)) n h = ground arith
as_total-ok (some _) n h = ground arith

to_items-as_objects : (fs : List Fields) → as_objects (to_items fs) ≡ ok fs
unfolding as_objects to_items
to_items-as_objects [] = refl
to_items-as_objects (f ∷ fs) = rw (to_items-as_objects fs) refl

check_fields-IsChecked :
    (rec : Fields) (a : Artifact) → check_fields rec ≡ ok a → IsChecked (obj rec) a
unfolding check_fields
check_fields-IsChecked rec a h =
    let r1 = >>=-eq-ok (as_text (codes "id") (get (codes "id") rec)) _ h in
    let r2 = >>=-eq-ok (as_text (codes "branch") (get (codes "branch") rec)) _ r1.2 in
    let r3 = >>=-eq-ok (as_text (codes "base_sha") (get (codes "base_sha") rec)) _ r2.2 in
    let r4 = >>=-eq-ok (as_findings (get (codes "findings") rec)) _ r3.2 in
    let r5 = >>=-eq-ok (as_total (get (codes "findings_total") rec)) _ r4.2 in
    let r6 = require-ok (eq_ℤ r5.0 (pos (length r4.0))) (artifact_error total_differs) _ r5.2 in
    subst (IsChecked (obj rec)) (ok-injective r6.1) record {
      is_obj = refl;
      has_id = as_text-ok (codes "id") (get (codes "id") rec) r1.0 r1.1;
      has_branch = as_text-ok (codes "branch") (get (codes "branch") rec) r2.0 r2.1;
      has_base_sha = as_text-ok (codes "base_sha") (get (codes "base_sha") rec) r3.0 r3.1;
      has_findings = as_findings-ok (get (codes "findings") rec) r4.0 r4.1;
      has_total =
          as_total-ok (get (codes "findings_total") rec) r5.0 r5.1
          ∙ ap (λ n. some (int n)) ((eq_ℤ_iff r5.0 (pos (length r4.0))).0 r6.0);
    }

eq_ℤ-length : (n : ℤ) → eq_ℤ n n ≡ true
eq_ℤ-length n = (eq_ℤ_iff n n).1 refl

IsChecked-check_fields : (v : Json) (a : Artifact) → IsChecked v a → check_fields a.rec ≡ ok a
unfolding check_fields as_findings
IsChecked-check_fields v a c =
    rw
      (
        c.has_id,
        c.has_branch,
        c.has_base_sha,
        c.has_findings,
        c.has_total,
        to_items-as_objects a.findings,
        eq_ℤ-length (pos (length a.findings)),
      )
      refl

load_valid_artifact-IsChecked :
    (v : Json) (a : Artifact) → load_valid_artifact v ≡ ok a → IsChecked v a
unfolding load_valid_artifact
load_valid_artifact-IsChecked (obj rec) a h = check_fields-IsChecked rec a h
load_valid_artifact-IsChecked _ a h = ground arith

-- `load_valid_artifact` returns an artifact exactly if the value is an object whose `id`, `branch` and
-- `base_sha` are texts, whose `findings` is a list of objects only, and whose `findings_total` is the
-- integer (no Boolean, no float) that counts them; what it returns is that object.
pub load_valid_artifact_iff :
    (v : Json) (a : Artifact) → (load_valid_artifact v ≡ ok a) ↔ IsChecked v a
load_valid_artifact_iff v a = (
  load_valid_artifact-IsChecked v a,
  λ c. rw c.is_obj (unfold load_valid_artifact in IsChecked-check_fields v a c),
)
