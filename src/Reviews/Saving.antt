-- ===== src/Reviews/Saving.antt =====
-- What `save_review` of store.py does to the table `reviews`.
use skodun.Prelude.{
  ℕ, ◌≡◌, refl, ap, ◌∙◌, sym, inl, inr, true, false, not, Option, none, some, List, arith,
  Bool-cases, if◌then◌else◌, all, then_branch, else_branch, not_both,
}
use mathlib.Core.Path.{subst}
use skodun.Prelude.Text.{Text, codes, text_eq, is_in}
use skodun.Json.{Json, bool, str, Fields, get, get_or_null, or_null}
use skodun.Textnorm.{Python}
use skodun.Triage.Result.{ok, >>=-eq-ok, ok-injective}
use skodun.Gate.Decide.{is_text}
use skodun.Reviews.Record.{normalize_record, set, is_over, prepush_mode, running}
use skodun.Reviews.Table.{Row, review_values, upsert, is_running, is_leased}
use skodun.Reviews.Finalize.{Tables}
use skodun.Reviews.Publish.{
  Store, Annotator, Request, Link, annotated, bind_review, with_sequence, bound_by, link_if, id_of,
  write_review, save_review, closed_if_over,
}
use skodun.Reviews.Keys.{get_or_null-get, get_or_null-set_other}
use skodun.Reviews.Normal.{IsNormalOf, normalize_record-IsNormalOf}
use skodun.Reviews.Agreement.{HasVerdict, review_values-IsConsistent}
use skodun.Reviews.Fresh.{IsNormalOf-HasVerdict, bind_prepush-get_or_null}
use skodun.Reviews.Final.{IsConservative, annotated-HasVerdict, annotated-get}
use skodun.Reviews.Steps.{IsStart}
use skodun.Reviews.Sound.{IsSafe}

with_sequence-get_or_null :
    (k : Text) (ctx : Request) (rec : Fields)
    → text_eq (codes "request_execution_seq") k ≡ false
    → get_or_null k (with_sequence ctx.execution_seq rec) ≡ get_or_null k rec
with_sequence-get_or_null k ctx rec differ = go ctx.execution_seq
  where
    go : (o : Option ℕ) → get_or_null k (with_sequence o rec) ≡ get_or_null k rec
    go none = refl
    go (some n) = get_or_null-set_other (codes "request_execution_seq") k _ rec differ

bind_review-get_or_null :
    (k : Text) (ctx : Option Request) (id : Json) (rec : Fields) (links : List Link)
    (both : Fields × List Link)
    → text_eq (codes "request_id") k ≡ false
    → text_eq (codes "request_execution_seq") k ≡ false
    → bind_review ctx id rec links ≡ ok both
    → get_or_null k both.0 ≡ get_or_null k rec
unfolding bind_review
bind_review-get_or_null k none id rec links both d e h =
    ap (λ b. get_or_null k b.0) (sym (ok-injective h)) ∙ bind_prepush-get_or_null k id rec d
bind_review-get_or_null k (some ctx) id rec links both d e h =
    let r1 = >>=-eq-ok (link_if ctx.id (codes "review") id links) _ h in
    let r2 =
      >>=-eq-ok
        (link_if ctx.id (codes "recovery_orchestration")
          (get_or_null (codes "orchestration_id") (bound_by ctx rec)) r1.0)
        _ r1.2 in
    let r3 =
      >>=-eq-ok
        (link_if ctx.id (codes "batch_orchestration")
          (get_or_null (codes "batch_orchestration_id") (bound_by ctx rec)) r2.0)
        _ r2.2 in
    ap (λ b. get_or_null k b.0) (sym (ok-injective r3.2))
    ∙ with_sequence-get_or_null k ctx (set (codes "request_id") (str ctx.id) rec) e
    ∙ get_or_null-set_other (codes "request_id") k (str ctx.id) rec d

-- The saved record, and the table with it.
pub record IsSaved (rec : Fields) (rows rows' : List Row) : Type 0 where
  pub id : Json
  pub bound : Fields
  pub written : rows' ≡ upsert (review_values id bound) rows
  pub own_id : get_or_null (codes "id") bound ≡ id
  pub judged : HasVerdict bound
  pub status : get_or_null (codes "status") bound ≡ get_or_null (codes "status") rec
  pub unanswered :
      is_over rec ≡ false
      → IsStart rec
      → (get_or_null (codes "trustworthy") bound ≡ bool false)
        × (is_text (get_or_null (codes "mode") bound) prepush_mode ≡ false)

closed-reviews :
    (py : Python) (now : Text) (id : Json) (rec : Fields) (tables : Tables)
    → (closed_if_over py now id rec tables).reviews ≡ tables.reviews
closed-reviews py now id rec tables = elim (Bool-cases (is_over rec)) [
  | inl over ↦ rw over refl
  | inr runs ↦ rw runs refl
]

id_of-get :
    (rec : Fields) (id : Json)
    → id_of (get (codes "id") rec) ≡ ok id
    → get_or_null (codes "id") rec ≡ id
unfolding get_or_null
id_of-get rec id h = go (get (codes "id") rec) h
  where
    go : (o : Option Json) → id_of o ≡ ok id → or_null o ≡ id
    go none h = ground arith
    go (some v) h = ok-injective h

module _ (py : Python) (now : Text) where
  -- The written record of a record that was made ready.
  written-IsSaved :
      (ctx : Option Request) (rec final : Fields) (store store' : Store)
      → HasVerdict final
      → get_or_null (codes "status") final ≡ get_or_null (codes "status") rec
      → (is_over rec ≡ false
          → IsStart rec
          → (get_or_null (codes "trustworthy") final ≡ bool false)
            × (is_text (get_or_null (codes "mode") final) prepush_mode ≡ false))
      → write_review py now ctx final store ≡ ok store'
      → IsSaved rec store.tables.reviews store'.tables.reviews
  unfolding write_review text_eq
  written-IsSaved ctx rec final store store' v status start h =
      let r1 = >>=-eq-ok (id_of (get (codes "id") final)) _ h in
      let r2 = >>=-eq-ok (bind_review ctx r1.0 final store.links) _ r1.2 in
      let key : (k : Text)
          → text_eq (codes "request_id") k ≡ false
          → text_eq (codes "request_execution_seq") k ≡ false
          → get_or_null k r2.0.0 ≡ get_or_null k final =
        λ k d e. bind_review-get_or_null k ctx r1.0 final store.links r2.0 d e r2.1 in
      record {
        id = r1.0;
        bound = r2.0.0;
        written =
            ap (λ s. s.tables.reviews) (sym (ok-injective r2.2))
            ∙ closed-reviews py now r1.0 r2.0.0 (record store.tables {
              reviews = upsert (review_values r1.0 r2.0.0) store.tables.reviews;
            });
        own_id = key (codes "id") refl refl ∙ id_of-get final r1.0 r1.1;
        judged = record {
          parsed = v.parsed;
          degrades = v.degrades;
          truncates = v.truncates;
          parse_ok = key (codes "parse_ok") refl refl ∙ v.parse_ok;
          degraded = key (codes "degraded") refl refl ∙ v.degraded;
          diff_truncated = key (codes "diff_truncated") refl refl ∙ v.diff_truncated;
          trustworthy = key (codes "trustworthy") refl refl ∙ v.trustworthy;
        };
        status = key (codes "status") refl refl ∙ status;
        unanswered = λ runs s. (
          key (codes "trustworthy") refl refl ∙ (start runs s).0,
          ap (λ m. is_text m prepush_mode) (key (codes "mode") refl refl) ∙ (start runs s).1,
        );
      }

  -- A record without an answer is not trusted once it is normalised.
  unanswered_untrusted :
      (rec stored : Fields)
      → IsNormalOf rec stored
      → IsStart rec
      → get_or_null (codes "trustworthy") stored ≡ bool false
  unfolding get_or_null
  unanswered_untrusted rec stored n s =
      rw n.trustworthy (ground (arith, sym n.axes.gives_parse_ok ∙ s.unanswered))

  pub save_review-IsSaved :
      (annotate : Annotator) (ctx : Option Request) (rec : Fields) (store store' : Store)
      → IsConservative annotate
      → save_review py annotate now ctx rec store ≡ ok store'
      → IsSaved rec store.tables.reviews store'.tables.reviews
  unfolding save_review text_eq all is_in
  save_review-IsSaved annotate ctx rec store store' c h =
      let r1 = >>=-eq-ok (normalize_record py now rec) _ h in
      let n = normalize_record-IsNormalOf py now rec r1.0 r1.1 in
      let r2 =
        >>=-eq-ok (if is_over r1.0 then annotated py annotate now store r1.0 else ok r1.0) _ r1.2 in
      let v = IsNormalOf-HasVerdict rec r1.0 n in
      let status = get_or_null-get (codes "status") r1.0 rec (n.kept (codes "status") refl refl) in
      let mode = get_or_null-get (codes "mode") r1.0 rec (n.kept (codes "mode") refl refl) in
      let same : is_over r1.0 ≡ is_over rec = ap (λ s. not (is_text s running)) status in
      elim (Bool-cases (is_over rec)) [
        | inl over ↦
            let a = then_branch _ (same ∙ over) r2.1 in
            written-IsSaved ctx rec r2.0 store store'
              (annotated-HasVerdict py now annotate store r1.0 r2.0 v a)
              (get_or_null-get (codes "status") r2.0 r1.0 (
                  annotated-get py now annotate store r1.0 r2.0 (codes "status") c refl refl refl a)
                ∙ status)
              (λ runs s. not_both over runs) r2.2
        | inr runs ↦
            let e = ok-injective (else_branch _ (same ∙ runs) r2.1) in
            written-IsSaved ctx rec r2.0 store store' (subst HasVerdict e v)
              (subst (λ f. get_or_null (codes "status") f ≡ get_or_null (codes "status") rec) e
                status)
              (λ _ s. (
                subst (λ f. get_or_null (codes "trustworthy") f ≡ bool false) e
                    (unanswered_untrusted rec r1.0 n s),
                ap (λ f. is_text (get_or_null (codes "mode") f) prepush_mode) (sym e)
                    ∙ ap (λ m. is_text m prepush_mode) mode
                    ∙ s.foreground,
              ))
              r2.2
      ]

-- A stored row is in flight exactly if its record is.
pub stored_running :
    (id : Json) (rec : Fields) → is_running (review_values id rec) ≡ true → is_over rec ≡ false
unfolding review_values
stored_running id rec run = ap not run

stored_trust :
    (id : Json) (rec : Fields)
    → get_or_null (codes "trustworthy") rec ≡ bool false
    → (review_values id rec).trustworthy ≡ false
unfolding review_values
stored_trust id rec e = rw e refl

pub over_unleased :
    (repo branch : Text) (id : Json) (rec : Fields)
    → is_over rec ≡ true
    → is_leased repo branch (review_values id rec) ≡ false
unfolding review_values
over_unleased repo branch id rec over = ground (arith, over)

foreground_unleased :
    (repo branch : Text) (id : Json) (rec : Fields)
    → is_text (get_or_null (codes "mode") rec) prepush_mode ≡ false
    → is_leased repo branch (review_values id rec) ≡ false
unfolding review_values
foreground_unleased repo branch id rec e = ground (arith, e)

-- The written row keeps the invariant.
pub saved-IsSafe :
    {rec : Fields} {rows rows' : List Row} (s : IsSaved rec rows rows')
    → (is_over rec ≡ false → IsStart rec)
    → IsSafe (review_values s.id s.bound)
saved-IsSafe {rec} s start = record {
  consistent = review_values-IsConsistent s.id s.bound s.own_id s.judged;
  pending = λ run.
      let runs : is_over rec ≡ false =
        ap (λ v. not (is_text v running)) (sym s.status) ∙ stored_running s.id s.bound run in
      stored_trust s.id s.bound (s.unanswered runs (start runs)).0;
}

pub saved-no_lease :
    {rec : Fields} {rows rows' : List Row} (s : IsSaved rec rows rows') (repo branch : Text)
    → (is_over rec ≡ false → IsStart rec)
    → is_leased repo branch (review_values s.id s.bound) ≡ false
saved-no_lease {rec} s repo branch start = elim (Bool-cases (is_over rec)) [
  | inl over ↦
      over_unleased repo branch s.id s.bound (ap (λ v. not (is_text v running)) s.status ∙ over)
  | inr runs ↦ foreground_unleased repo branch s.id s.bound (s.unanswered runs (start runs)).1
]
