-- ===== src/Reviews/Finish.antt =====
-- What `finalize_review` of store.py does to the table `reviews`.
use skodun.Prelude.{
  ◌≤◌, ◌≡◌, refl, ap, ◌∙◌, sym, inl, inr, ◌⊎◌, Bool, true, false, not, Option, none, some, List,
  arith, Bool-cases, count_if, is_empty, ◌==◌, &&-true, then_branch, else_branch,
}
use skodun.Prelude.Text.{Text, codes}
use skodun.Json.{Fields, get_or_null}
use skodun.Textnorm.{Python}
use skodun.Triage.Result.{ok, value_error, >>=-eq-ok, require-ok, ok-injective}
use skodun.Gate.Decide.{is_text}
use skodun.Reviews.Record.{normalize_record}
use skodun.Reviews.Table.{
  Row, review_values, update_where, find_row, has_id, is_running, is_running_at,
}
use skodun.Reviews.Finalize.{Batch, batch_of, merge_owned, apply_batch, same_identity}
use skodun.Reviews.Publish.{
  Store, Annotator, annotated, publish, published, with_final, finish_row, finalize_found,
  finalize_review,
}
use skodun.Reviews.Rows.{Has-count, count_if_mono, find_row-Has}
use skodun.Reviews.Final.{IsConservative, IsFinal, annotated-IsFinal, apply_batch-reviews}

-- A running row that the query finds is the one that the update changes.
running_counted :
    (id : Text) (row : Row) (rows : List Row)
    → count_if (has_id id) rows ≤ 1
    → find_row id rows ≡ some row
    → is_running row ≡ true
    → (count_if (is_running_at id) rows == 1) ≡ true
running_counted id row rows one f e =
    let (m, h) = find_row-Has id row rows f in
    ground (
      arith,
      Has-count (is_running_at id) m (rw (h, e) refl),
      count_if_mono (is_running_at id) (has_id id) rows (λ r. at_id r),
    )
  where
    at_id : (r : Row) → is_running_at id r ≡ true → has_id id r ≡ true
    at_id r k = (&&-true (has_id id r) (is_running r) k).0

-- A finalisation that was applied: the reservation was running, the record is about the same content,
-- and the row that was reserved now holds the final record.
pub record IsPublished (annotate : Annotator) (rec : Fields) (record_id : Text) (store : Store)
    (rows' : List Row) : Type 0 where
  pub row : Row
  pub final : Fields
  pub found : find_row record_id store.tables.reviews ≡ some row
  pub was_running : is_running row ≡ true
  pub same_content : same_identity rec row ≡ true
  pub own_id : is_text (get_or_null (codes "id") rec) record_id ≡ true
  pub is_final : IsFinal annotate store rec row final
  pub written :
      rows'
      ≡ update_where (is_running_at record_id) (λ r. review_values r.id final) store.tables.reviews

-- Nothing happened: there is no such row, or it is not running.
pub record IsLate (record_id : Text) (store store' : Store) : Type 0 where
  pub same : store' ≡ store
  pub not_running :
      (row : Row) → find_row record_id store.tables.reviews ≡ some row → is_running row ≡ false

not_found : {A : Type 0} {row : Row} → none ≡ some row → A
not_found h = cc

same_answer : {r s : Row} → some r ≡ some s → is_running r ≡ false → is_running s ≡ false
same_answer e h = cc

module _ (py : Python) (annotate : Annotator) (now record_id : Text) (rec : Fields)
    (store : Store) where
  publish-written :
      (batch : Batch) (final : Fields) (store' : Store) (applied : Bool)
      → (count_if (is_running_at record_id) store.tables.reviews == 1) ≡ true
      → publish py now record_id batch final store ≡ ok (store', applied)
      → (applied ≡ true)
        × (store'.tables.reviews
            ≡ update_where
                (is_running_at record_id)
                (λ r. review_values r.id final)
                store.tables.reviews)
  unfolding publish
  publish-written batch final store' applied one h = go _ one h
    where
      go :
          (b : Bool)
          → b ≡ true
          → published py now record_id batch final store (with_final record_id final store.tables) b
            ≡ ok (store', applied)
          → (applied ≡ true)
            × (store'.tables.reviews
                ≡ update_where
                    (is_running_at record_id)
                    (λ r. review_values r.id final)
                    store.tables.reviews)
      go false e k = ground arith
      go true e k =
          let r =
            >>=-eq-ok (apply_batch record_id now batch (with_final record_id final store.tables)) _
              k in
          let same = ok-injective r.2 in
          (
            ap (λ x. x.1) (sym same),
            ap (λ x. x.0.tables.reviews) (sym same)
                ∙ apply_batch-reviews record_id now batch (with_final record_id final store.tables)
                    r.0 r.1,
          )

  finish_row-IsPublished :
      (row : Row) (store' : Store) (applied : Bool)
      → IsConservative annotate
      → count_if (has_id record_id) store.tables.reviews ≤ 1
      → is_text (get_or_null (codes "id") rec) record_id ≡ true
      → find_row record_id store.tables.reviews ≡ some row
      → same_identity rec row ≡ true
      → is_running row ≡ true
      → finish_row py annotate now record_id rec row store ≡ ok (store', applied)
      → (applied ≡ true) × IsPublished annotate rec record_id store store'.tables.reviews
  unfolding finish_row
  finish_row-IsPublished row store' applied c one own f same run h =
      let r1 = >>=-eq-ok (normalize_record py now (merge_owned row rec)) _ h in
      let r2 = >>=-eq-ok (batch_of r1.0 store.tables) _ r1.2 in
      let r3 = >>=-eq-ok (annotated py annotate now store r1.0) _ r2.2 in
      let p =
        publish-written r2.0 r3.0 store' applied
          (running_counted record_id row store.tables.reviews one f run) r3.2 in
      (
        p.0,
        record {
          row = row;
          final = r3.0;
          found = f;
          was_running = run;
          same_content = same;
          own_id = own;
          is_final = annotated-IsFinal py now annotate store rec row r1.0 r3.0 c r1.1 r3.1;
          written = p.1;
        },
      )

  found-cases :
      (o : Option Row) (store' : Store) (applied : Bool)
      → IsConservative annotate
      → count_if (has_id record_id) store.tables.reviews ≤ 1
      → is_text (get_or_null (codes "id") rec) record_id ≡ true
      → find_row record_id store.tables.reviews ≡ o
      → finalize_found py annotate now record_id rec store o ≡ ok (store', applied)
      → (applied ≡ true) × IsPublished annotate rec record_id store store'.tables.reviews
        ⊎ (applied ≡ false) × IsLate record_id store store'
  found-cases none store' applied c one own f h = inr (
    ap (λ x. x.1) (sym (ok-injective h)),
    record {
      same = ap (λ x. x.0) (sym (ok-injective h));
      not_running = λ row g. not_found (sym f ∙ g);
    },
  )
  found-cases (some row) store' applied c one own f h =
      let r = require-ok (same_identity rec row) value_error _ h in
      elim (Bool-cases (is_running row)) [
        | inl run ↦
            inl (
              finish_row-IsPublished row store' applied c one own f r.0 run (then_branch _ run r.1))
        | inr over ↦
            let same = ok-injective (else_branch _ over r.1) in
            inr (
              ap (λ x. x.1) (sym same),
              record {
                same = ap (λ x. x.0) (sym same);
                not_running = λ other g. same_answer (sym f ∙ g) over;
              },
            )
      ]

  -- A finalisation that does not raise was applied exactly if the reserved row was still running, and
  -- then the record is about the row's content and base, and the row holds the record with the process
  -- and the successor that the store had on the row, normalised: every key that normalisation does not
  -- write is the record's own. With a callback, the row holds what the callback makes of that, normalised
  -- again. Otherwise the store is unchanged. The id is that of one row at most, and the callback leaves
  -- the id, the status and those two keys.
  pub finalize_review-cases :
      (store' : Store) (applied : Bool)
      → IsConservative annotate
      → count_if (has_id record_id) store.tables.reviews ≤ 1
      → finalize_review py annotate now record_id rec store ≡ ok (store', applied)
      → (applied ≡ true) × IsPublished annotate rec record_id store store'.tables.reviews
        ⊎ (applied ≡ false) × IsLate record_id store store'
  unfolding finalize_review
  finalize_review-cases store' applied c one h =
      let r1 = require-ok (not (is_empty record_id)) value_error _ h in
      let r2 = require-ok (is_text (get_or_null (codes "id") rec) record_id) value_error _ r1.1 in
      found-cases (find_row record_id store.tables.reviews) store' applied c one r2.0 refl r2.1
