-- ===== src/Reviews/Normal.antt =====
-- What `_normalize_record` of store.py establishes.
use skodun.Prelude.{
  ◌≡◌, refl, ap, ◌∙◌, sym, Bool, true, false, not, ◌&&◌, Option, none, some, List, [], ◌∷◌, arith,
  all,
}
use mathlib.Core.Path.{subst}
use skodun.Prelude.Text.{Text, codes, text_eq}
use skodun.Json.{Json, bool, Fields, get, get_default}
use skodun.Textnorm.{Python}
use skodun.Trust.{is_trustworthy}
use skodun.Triage.Result.{ok, value_error, >>=-eq-ok, require-ok, ok-injective, ◌>>=◌}
use skodun.Reviews.Record.{
  set, as_bool, requires_usable_output, normalize_axes, check_usable_output, normalize_text,
  default_repo_id, check_ordinal, normalize_ending, normalize_times, normalize_record, usable_or,
}
use skodun.Reviews.Keys.{get-set, get-set_other, get_or_null-get}
use skodun.Reviews.Untouched.{
  is_other_than, is_left, Keeps, set-Keeps, normalize_text-Keeps, default_repo_id-Keeps,
  check_ordinal-same, normalize_ending-Keeps, normalize_times-Keeps,
}

abbrev pub trust_keys : List Text
trust_keys = codes "parse_ok" ∷ codes "degraded" ∷ codes "diff_truncated" ∷ codes "trustworthy" ∷ []

-- The key is none of the four.
abbrev pub is_no_axis : Text → Bool
is_no_axis k = all (is_other_than k) trust_keys

-- The axes that a record gives, `False` where it gives none.
pub record Axes (rec : Fields) : Type 0 where
  pub parse_ok : Bool
  pub degraded : Bool
  pub diff_truncated : Bool
  pub gives_parse_ok : get_default (codes "parse_ok") (bool false) rec ≡ bool parse_ok
  pub gives_degraded : get_default (codes "degraded") (bool false) rec ≡ bool degraded
  pub gives_truncated : get_default (codes "diff_truncated") (bool false) rec ≡ bool diff_truncated

abbrev pub verdict_of : {rec : Fields} → Axes rec → Bool
verdict_of a = a.parse_ok && not a.degraded && not a.diff_truncated

-- The stored form: exact axes, the verdict that they imply, and every key that is not written kept.
pub record IsNormalOf (rec stored : Fields) : Type 0 where
  pub axes : Axes rec
  pub parse_ok : get (codes "parse_ok") stored ≡ some (bool axes.parse_ok)
  pub degraded : get (codes "degraded") stored ≡ some (bool axes.degraded)
  pub diff_truncated : get (codes "diff_truncated") stored ≡ some (bool axes.diff_truncated)
  pub trustworthy : get (codes "trustworthy") stored ≡ some (bool (verdict_of axes))
  pub usable :
      requires_usable_output rec ≡ true
      → (b : Bool) × (get (codes "usable_output") stored ≡ some (bool b))
  pub kept : (k : Text) → is_left k ≡ true → is_no_axis k ≡ true → get k stored ≡ get k rec

as_bool-ok : (v : Json) (b : Bool) → as_bool v ≡ ok b → v ≡ bool b
as_bool-ok (bool c) b h = ground arith
as_bool-ok _ b h = ground arith

-- The first step: the axes and the verdict.
record IsJudged (rec stored : Fields) : Type 0 where
  axes : Axes rec
  parse_ok : get (codes "parse_ok") stored ≡ some (bool axes.parse_ok)
  degraded : get (codes "degraded") stored ≡ some (bool axes.degraded)
  diff_truncated : get (codes "diff_truncated") stored ≡ some (bool axes.diff_truncated)
  trustworthy : get (codes "trustworthy") stored ≡ some (bool (verdict_of axes))
  kept : (k : Text) → is_no_axis k ≡ true → get k stored ≡ get k rec

stored_axes : (rec : Fields) → Axes rec → Fields
stored_axes rec a = set (codes "trustworthy") (bool (verdict_of a)) (
    set (codes "diff_truncated") (bool a.diff_truncated)
      (set (codes "degraded") (bool a.degraded) (set (codes "parse_ok") (bool a.parse_ok) rec)))

stored_axes-IsJudged : (rec : Fields) (a : Axes rec) → IsJudged rec (stored_axes rec a)
unfolding stored_axes all
stored_axes-IsJudged rec a = record {
  axes = a;
  parse_ok =
      get-set_other (codes "trustworthy") (codes "parse_ok") v _ (unfold text_eq in refl)
      ∙ get-set_other (codes "diff_truncated") (codes "parse_ok") t _ (unfold text_eq in refl)
      ∙ get-set_other (codes "degraded") (codes "parse_ok") d _ (unfold text_eq in refl)
      ∙ get-set (codes "parse_ok") p rec;
  degraded =
      get-set_other (codes "trustworthy") (codes "degraded") v _ (unfold text_eq in refl)
      ∙ get-set_other (codes "diff_truncated") (codes "degraded") t _ (unfold text_eq in refl)
      ∙ get-set (codes "degraded") d _;
  diff_truncated =
      get-set_other (codes "trustworthy") (codes "diff_truncated") v _ (unfold text_eq in refl)
      ∙ get-set (codes "diff_truncated") t _;
  trustworthy = get-set (codes "trustworthy") v _;
  kept = λ k other.
      set-Keeps (codes "trustworthy") k v _ (ground arith)
      ∙ set-Keeps (codes "diff_truncated") k t _ (ground arith)
      ∙ set-Keeps (codes "degraded") k d _ (ground arith)
      ∙ set-Keeps (codes "parse_ok") k p rec (ground arith);
}
  where
    p : Json
    p = bool a.parse_ok

    d : Json
    d = bool a.degraded

    t : Json
    t = bool a.diff_truncated

    v : Json
    v = bool (verdict_of a)

normalize_axes-IsJudged :
    (rec stored : Fields) → normalize_axes rec ≡ ok stored → IsJudged rec stored
unfolding normalize_axes is_trustworthy stored_axes
normalize_axes-IsJudged rec stored h =
    let r1 = >>=-eq-ok (as_bool (get_default (codes "parse_ok") (bool false) rec)) _ h in
    let r2 = >>=-eq-ok (as_bool (get_default (codes "degraded") (bool false) rec)) _ r1.2 in
    let r3 = >>=-eq-ok (as_bool (get_default (codes "diff_truncated") (bool false) rec)) _ r2.2 in
    let a : Axes rec = record {
      parse_ok = r1.0;
      degraded = r2.0;
      diff_truncated = r3.0;
      gives_parse_ok = as_bool-ok _ r1.0 r1.1;
      gives_degraded = as_bool-ok _ r2.0 r2.1;
      gives_truncated = as_bool-ok _ r3.0 r3.1;
    } in
    subst (IsJudged rec) (ok-injective r3.2) (stored_axes-IsJudged rec a)

check_usable_output-same : (fs gs : Fields) → check_usable_output fs ≡ ok gs → fs ≡ gs
unfolding check_usable_output
check_usable_output-same fs gs h = ok-injective (require-ok _ value_error (ok fs) h).1

usable_or-some : (o : Option Json) → usable_or true o ≡ true → (b : Bool) × (o ≡ some (bool b))
usable_or-some none h = ground arith
usable_or-some (some (bool b)) h = (b, refl)
usable_or-some (some _) h = ground arith

requires-get :
    (fs gs : Fields)
    → get (codes "source") gs ≡ get (codes "source") fs
    → get (codes "mode") gs ≡ get (codes "mode") fs
    → requires_usable_output gs ≡ requires_usable_output fs
requires-get fs gs s m =
    rw (get_or_null-get (codes "source") gs fs s, get_or_null-get (codes "mode") gs fs m) refl

judged_usable :
    (rec judged : Fields)
    → IsJudged rec judged
    → requires_usable_output rec ≡ true
    → {checked : Fields} → check_usable_output judged ≡ ok checked
    → (b : Bool) × (get (codes "usable_output") judged ≡ some (bool b))
unfolding check_usable_output
judged_usable rec judged j need passed = usable_or-some (get (codes "usable_output") judged) (
    ap (λ b. usable_or b (get (codes "usable_output") judged))
      (sym (
        requires-get rec judged (j.kept (codes "source") (unfold all text_eq in refl))
          (j.kept (codes "mode") (unfold all text_eq in refl))
        ∙ need))
    ∙ (require-ok _ value_error (ok judged) passed).0)

-- The keys that the proofs below read are not among the written ones.
parse_ok_left : is_left (codes "parse_ok") ≡ true
unfolding all text_eq
parse_ok_left = refl

usable_left : is_left (codes "usable_output") ≡ true
unfolding all text_eq
usable_left = refl

degraded_left : is_left (codes "degraded") ≡ true
unfolding all text_eq
degraded_left = refl

truncated_left : is_left (codes "diff_truncated") ≡ true
unfolding all text_eq
truncated_left = refl

trustworthy_left : is_left (codes "trustworthy") ≡ true
unfolding all text_eq
trustworthy_left = refl

module _ (py : Python) where
  -- From the judged record on, nothing but the written keys changes.
  tail-Keeps :
      (now k : Text) (judged stored : Fields)
      → is_left k ≡ true
      → (do
        checked ← check_usable_output judged
        dated ← normalize_times py now checked
        repo_id ← normalize_text (codes "repo_id") (default_repo_id dated)
        worktree ← normalize_text (codes "worktree_root") repo_id
        orchestration ← normalize_text (codes "orchestration_id") worktree
        ordered ← check_ordinal orchestration
        normalize_ending ordered)
        ≡ ok stored
      → Keeps k judged stored
  unfolding all
  tail-Keeps now k judged stored left h =
      let r1 = >>=-eq-ok (check_usable_output judged) _ h in
      let r2 = >>=-eq-ok (normalize_times py now r1.0) _ r1.2 in
      let r3 = >>=-eq-ok (normalize_text (codes "repo_id") (default_repo_id r2.0)) _ r2.2 in
      let r4 = >>=-eq-ok (normalize_text (codes "worktree_root") r3.0) _ r3.2 in
      let r5 = >>=-eq-ok (normalize_text (codes "orchestration_id") r4.0) _ r4.2 in
      let r6 = >>=-eq-ok (check_ordinal r5.0) _ r5.2 in
      normalize_ending-Keeps k r6.0 stored (ground arith) (ground arith) r6.2
      ∙ ap (get k) (sym (check_ordinal-same r5.0 r6.0 r6.1))
      ∙ normalize_text-Keeps (codes "orchestration_id") k r4.0 r5.0 (ground arith) r5.1
      ∙ normalize_text-Keeps (codes "worktree_root") k r3.0 r4.0 (ground arith) r4.1
      ∙ normalize_text-Keeps (codes "repo_id") k (default_repo_id r2.0) r3.0 (ground arith) r3.1
      ∙ default_repo_id-Keeps k r2.0 (ground arith)
      ∙ normalize_times-Keeps py now k r1.0 r2.0 (ground arith) (ground arith) r2.1
      ∙ ap (get k) (sym (check_usable_output-same judged r1.0 r1.1))

  -- A record that `_normalize_record` returns has its three axes as exact Booleans, `False` where the
  -- given record had none, and the verdict that they imply, whatever the given record claimed; one of
  -- this program's pre-push reviews carries a Boolean `usable_output`; and every key that the function
  -- does not own reads as it was given.
  pub normalize_record-IsNormalOf :
      (now : Text) (rec stored : Fields)
      → normalize_record py now rec ≡ ok stored
      → IsNormalOf rec stored
  unfolding normalize_record
  normalize_record-IsNormalOf now rec stored h =
      let r = >>=-eq-ok (normalize_axes rec) _ h in
      let j = normalize_axes-IsJudged rec r.0 r.1 in
      let keeps : (k : Text) → is_left k ≡ true → get k stored ≡ get k r.0 =
        λ k left. tail-Keeps now k r.0 stored left r.2 in
      record {
        axes = j.axes;
        parse_ok = keeps (codes "parse_ok") parse_ok_left ∙ j.parse_ok;
        degraded = keeps (codes "degraded") degraded_left ∙ j.degraded;
        diff_truncated = keeps (codes "diff_truncated") truncated_left ∙ j.diff_truncated;
        trustworthy = keeps (codes "trustworthy") trustworthy_left ∙ j.trustworthy;
        usable = λ need.
            let u = judged_usable rec r.0 j need (>>=-eq-ok (check_usable_output r.0) _ r.2).1 in
            (u.0, keeps (codes "usable_output") usable_left ∙ u.1);
        kept = λ k left other. keeps k left ∙ j.kept k other;
      }
