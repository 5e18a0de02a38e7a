-- ===== src/Reviews/Final.antt =====
-- The record that `finalize_review` of store.py publishes, against the worker's record and the row.
use skodun.Prelude.{◌≡◌, refl, ap, ◌∙◌, sym, true, none, some, List, [], ◌∷◌, if◌then◌else◌, all}
use mathlib.Core.Path.{subst}
use skodun.Prelude.Text.{Text, codes, text_eq, is_in}
use skodun.Json.{Fields, get, get_or_null}
use skodun.Textnorm.{Python}
use skodun.Triage.Result.{ok, value_error, >>=-eq-ok, require-ok, ok-injective}
use skodun.Reviews.Record.{normalize_record}
use skodun.Reviews.Table.{Row}
use skodun.Reviews.Finalize.{
  Tables, Batch, no_batch, unfinished_batch, whole_batch, merge_owned, apply_batch,
  consume_orchestration,
}
use skodun.Reviews.Publish.{Store, Annotator, annotated}
use skodun.Reviews.Keys.{get_or_null-get, get_or_null-set_if, get-set_if}
use skodun.Reviews.Untouched.{is_left}
use skodun.Reviews.Normal.{IsNormalOf, normalize_record-IsNormalOf, is_no_axis}
use skodun.Reviews.Agreement.{HasVerdict}
use skodun.Reviews.Fresh.{IsNormalOf-HasVerdict}

abbrev pub review_keys : List Text
review_keys = codes "id" ∷ codes "status" ∷ codes "pid" ∷ codes "superseded_by" ∷ []

-- The callback leaves the keys that say which review this is, and how it ended.
abbrev pub IsConservative : Annotator → Type 0
IsConservative none = Unit
IsConservative (some annotate) =
    (store : Store) (f g : Fields)
    → annotate store f ≡ ok g
    → (k : Text) → is_in k review_keys ≡ true
    → get k g ≡ get k f

module _ (py : Python) (now : Text) where
  pub annotated-HasVerdict :
      (annotate : Annotator) (store : Store) (merged final : Fields)
      → HasVerdict merged
      → annotated py annotate now store merged ≡ ok final
      → HasVerdict final
  annotated-HasVerdict none store merged final v h = subst HasVerdict (ok-injective h) v
  annotated-HasVerdict (some annotate) store merged final v h =
      let r = >>=-eq-ok (annotate store merged) (normalize_record py now) h in
      IsNormalOf-HasVerdict r.0 final (normalize_record-IsNormalOf py now r.0 final r.2)

  pub annotated-get :
      (annotate : Annotator) (store : Store) (merged final : Fields) (k : Text)
      → IsConservative annotate
      → is_in k review_keys ≡ true
      → is_left k ≡ true
      → is_no_axis k ≡ true
      → annotated py annotate now store merged ≡ ok final
      → get k final ≡ get k merged
  annotated-get none store merged final k c key left other h = ap (get k) (sym (ok-injective h))
  annotated-get (some annotate) store merged final k c key left other h =
      let r = >>=-eq-ok (annotate store merged) (normalize_record py now) h in
      (normalize_record-IsNormalOf py now r.0 final r.2).kept k left other
      ∙ c store merged r.0 r.1 k key

-- The worker's record, with the process and the successor that the store has on the row.
abbrev pub IsOwned : Fields → Row → Fields → Type 0
IsOwned rec row owned =
    (k : Text)
    → get k owned ≡ (
        if text_eq (codes "superseded_by") k
        then some row.superseded_by
        else if text_eq (codes "pid") k
        then some row.pid
        else get k rec)

-- What the callback completes is normalised again; without one, nothing more is written.
abbrev pub IsAnnotated : Annotator → Store → Fields → Fields → Type 0
IsAnnotated none store merged final = final ≡ merged
IsAnnotated (some annotate) store merged final =
    (completed : Fields) × (annotate store merged ≡ ok completed) × IsNormalOf completed final

-- The record that is published for the row: the worker's, with the store's process and successor,
-- normalised, and completed by the callback.
pub record IsFinal (annotate : Annotator) (store : Store) (rec : Fields) (row : Row)
    (final : Fields) : Type 0 where
  pub owned : Fields
  pub merged : Fields
  pub is_owned : IsOwned rec row owned
  pub is_normal : IsNormalOf owned merged
  pub is_annotated : IsAnnotated annotate store merged final
  pub judged : HasVerdict final
  pub id : get_or_null (codes "id") final ≡ get_or_null (codes "id") rec
  pub status : get_or_null (codes "status") final ≡ get_or_null (codes "status") rec
  pub pid : get_or_null (codes "pid") final ≡ row.pid
  pub superseded_by : get_or_null (codes "superseded_by") final ≡ row.superseded_by

merge_owned-IsOwned : (rec : Fields) (row : Row) → IsOwned rec row (merge_owned row rec)
unfolding merge_owned
merge_owned-IsOwned rec row k =
    rw
      (
        get-set_if (codes "superseded_by") k row.superseded_by _,
        get-set_if (codes "pid") k row.pid rec,
      )
      refl

annotated-IsAnnotated :
    (py : Python) (now : Text) (annotate : Annotator) (store : Store) (merged final : Fields)
    → annotated py annotate now store merged ≡ ok final
    → IsAnnotated annotate store merged final
annotated-IsAnnotated py now none store merged final h = sym (ok-injective h)
annotated-IsAnnotated py now (some annotate) store merged final h =
    let r = >>=-eq-ok (annotate store merged) (normalize_record py now) h in
    (r.0, r.1, normalize_record-IsNormalOf py now r.0 final r.2)

merged_value :
    (k : Text) (row : Row) (rec : Fields)
    → get_or_null k (merge_owned row rec) ≡ (
        if text_eq (codes "superseded_by") k
        then row.superseded_by
        else if text_eq (codes "pid") k
        then row.pid
        else get_or_null k rec)
unfolding merge_owned
merged_value k row rec =
    rw
      (
        get_or_null-set_if (codes "superseded_by") k row.superseded_by _,
        get_or_null-set_if (codes "pid") k row.pid rec,
      )
      refl

module _ (py : Python) (now : Text) where
  pub annotated-IsFinal :
      (annotate : Annotator) (store : Store) (rec : Fields) (row : Row) (merged final : Fields)
      → IsConservative annotate
      → normalize_record py now (merge_owned row rec) ≡ ok merged
      → annotated py annotate now store merged ≡ ok final
      → IsFinal annotate store rec row final
  unfolding text_eq is_in all
  annotated-IsFinal annotate store rec row merged final c m a =
      let n = normalize_record-IsNormalOf py now (merge_owned row rec) merged m in
      let key : (k : Text)
          → is_in k review_keys ≡ true
          → is_left k ≡ true
          → is_no_axis k ≡ true
          → get_or_null k final ≡ get_or_null k (merge_owned row rec) =
        λ k i l o.
          get_or_null-get k final (merge_owned row rec)
            (annotated-get py now annotate store merged final k c i l o a ∙ n.kept k l o) in
      record {
        owned = merge_owned row rec;
        merged = merged;
        is_owned = merge_owned-IsOwned rec row;
        is_normal = n;
        is_annotated = annotated-IsAnnotated py now annotate store merged final a;
        judged =
            annotated-HasVerdict py now annotate store merged final
              (IsNormalOf-HasVerdict _ merged n) a;
        id = key (codes "id") refl refl refl ∙ merged_value (codes "id") row rec;
        status = key (codes "status") refl refl refl ∙ merged_value (codes "status") row rec;
        pid = key (codes "pid") refl refl refl ∙ merged_value (codes "pid") row rec;
        superseded_by =
            key (codes "superseded_by") refl refl refl
            ∙ merged_value (codes "superseded_by") row rec;
      }

pub apply_batch-reviews :
    (record_id now : Text) (b : Batch) (tables tables' : Tables)
    → apply_batch record_id now b tables ≡ ok tables'
    → tables'.reviews ≡ tables.reviews
unfolding consume_orchestration
apply_batch-reviews record_id now no_batch tables tables' h =
    ap (λ t. t.reviews) (sym (ok-injective h))
apply_batch-reviews record_id now unfinished_batch tables tables' h =
    ap (λ t. t.reviews) (sym (ok-injective h))
apply_batch-reviews record_id now (whole_batch id) tables tables' h =
    ap (λ t. t.reviews) (sym (ok-injective (require-ok _ value_error _ h).1))
