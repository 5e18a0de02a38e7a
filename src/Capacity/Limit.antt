-- ===== src/Capacity/Limit.antt =====
-- The number of slots in use after any history of transactions.
use skodun.Prelude.{
  ℕ, ◌+◌, ◌≤◌, ◌≡◌, sym, true, false, some, List, [], ◌∷◌, arith, Bool-cases, inl, inr, count_if,
  count_if-append,
}
use mathlib.Core.Path.{subst}
use skodun.Prelude.Text.{Text, text_eq, text_eq_iff}
use skodun.Capacity.Views.{is_queued}
use skodun.Capacity.Rows.{
  Row, in_queue, is_holder_of, capacity_get, update_row, admit, capacity_holder_count,
  resource_review_fg,
}
use skodun.Capacity.Moves.{force_admit, start, finish}
use skodun.Capacity.Update.{count_if-update_row}
use skodun.Capacity.Admission.{
  Admission, denied, admitted, holders_among-views, effective_capacity-le,
}
use skodun.Capacity.Bounds.{count_if-reclaim}
use skodun.Capacity.Effects.{
  capacity_try_admit-Admission, enqueue-append, force-Updates, begin-Updates, end-Updates,
}
use skodun.Capacity.Steps.{
  Step, enqueue, try_admit, force, begin, end_, reclaim, Reach, empty, next,
}
use skodun.Capacity.Reachable.{found-eq, active_not_queued, queued_not_holder}

update-le :
    (cls scope id : Text) (f : Row → Row) (rows : List Row) {r : Row} (limit : ℕ)
    → capacity_get id rows ≡ some r
    → (is_holder_of cls scope (f r) ≡ true → is_holder_of cls scope r ≡ true)
    → capacity_holder_count cls scope rows ≤ limit
    → capacity_holder_count cls scope (update_row id f rows) ≤ limit
unfolding capacity_holder_count
update-le cls scope id f rows limit found still h =
    ground (arith, still, count_if-update_row (is_holder_of cls scope) id f rows found)

update-le-suc :
    (cls scope id : Text) (f : Row → Row) (rows : List Row) {r : Row} (limit : ℕ)
    → capacity_get id rows ≡ some r
    → capacity_holder_count cls scope rows + 1 ≤ limit
    → capacity_holder_count cls scope (update_row id f rows) ≤ limit
unfolding capacity_holder_count
update-le-suc cls scope id f rows limit found h =
    ground (arith, count_if-update_row (is_holder_of cls scope) id f rows found)

admit-le :
    (cls scope : Text) (now c : ℕ) (id : Text) (rows : List Row) {rows' : List Row} (limit : ℕ)
    → c ≤ limit
    → Admission now c id rows rows'
    → capacity_holder_count cls scope rows ≤ limit
    → capacity_holder_count cls scope rows' ≤ limit
admit-le cls scope now c id rows limit le denied h = h
admit-le cls scope now c id rows limit le (admitted r found waiting first) h =
    elim (Bool-cases (in_queue cls scope r)) [
      | inr other ↦
          update-le cls scope id (admit now c) rows limit found
            (λ p. unfold is_holder_of in_queue admit in ground (arith, p, other)) h
      | inl mine ↦
          let same : (r.resource_class ≡ cls) × (r.scope ≡ scope) =
            unfold in_queue in
            ground (arith, text_eq_iff r.resource_class cls, text_eq_iff r.scope scope) in
          let few : capacity_holder_count r.resource_class r.scope rows + 1 ≤ limit = omega (
            arith,
            first.free,
            holders_among-views r.resource_class r.scope rows,
            effective_capacity-le r.resource_class r.scope c rows,
          ) in
          update-le-suc cls scope id (admit now c) rows limit found (
            subst (λ k. capacity_holder_count k scope rows + 1 ≤ limit) same.0
              (subst (λ k. capacity_holder_count r.resource_class k rows + 1 ≤ limit) same.1 few))
    ]

force-le :
    (cls scope : Text) (now : ℕ) (id : Text) (rows : List Row) {r : Row} (limit : ℕ)
    → 1 ≤ limit
    → capacity_get id rows ≡ some r
    → text_eq r.resource_class resource_review_fg ≡ true
    → capacity_holder_count resource_review_fg r.scope rows ≡ 0
    → capacity_holder_count cls scope rows ≤ limit
    → capacity_holder_count cls scope (update_row id (force_admit now) rows) ≤ limit
force-le cls scope now id rows {r} limit pos found fg idle h =
    elim (Bool-cases (in_queue cls scope r)) [
      | inr other ↦
          update-le cls scope id (force_admit now) rows limit found
            (λ p. unfold is_holder_of in_queue force_admit in ground (arith, p, other)) h
      | inl mine ↦
          let same : (resource_review_fg ≡ cls) × (r.scope ≡ scope) =
            unfold in_queue in
            ground (
              arith,
              text_eq_iff r.resource_class resource_review_fg,
              text_eq_iff r.resource_class cls,
              text_eq_iff r.scope scope,
              mine,
            ) in
          update-le-suc cls scope id (force_admit now) rows limit found (
            subst (λ k. capacity_holder_count k scope rows + 1 ≤ limit) same.0
              (subst (λ k. capacity_holder_count resource_review_fg k rows + 1 ≤ limit) same.1
                (omega (arith, idle))))
    ]

Step-le :
    (limit : ℕ) (cls scope : Text) {rows rows' : List Row}
    → 1 ≤ limit
    → Step limit rows rows'
    → capacity_holder_count cls scope rows ≤ limit
    → capacity_holder_count cls scope rows' ≤ limit
Step-le limit cls scope {rows} pos (enqueue birth now id c' s' pid row e) h =
    let (same, queued, _, _) = enqueue-append birth now id c' s' pid rows row e in
    subst (λ x. capacity_holder_count cls scope x ≤ limit) (sym same)
      (unfold capacity_holder_count count_if is_holder_of in
        ground (
          arith,
          h,
          queued_not_holder row.status queued,
          count_if-append (is_holder_of cls scope) rows (row ∷ []),
        ))
Step-le limit cls scope {rows} pos (try_admit now c id out le e) h =
    admit-le cls scope now c id rows limit le (capacity_try_admit-Admission now c id rows out e) h
Step-le limit cls scope {rows} pos (force now id r found fg e) h =
    subst (λ x. capacity_holder_count cls scope x ≤ limit) e
      (elim (force-Updates now id rows) [
        | inl same ↦ subst (λ x. capacity_holder_count cls scope x ≤ limit) (sym same) h
        | inr (same, u) ↦
            let fg' =
              subst (λ x. text_eq x.resource_class resource_review_fg ≡ true)
                (found-eq r u.row found u.found) fg in
            subst (λ x. capacity_holder_count cls scope x ≤ limit) (sym same)
              (force-le cls scope now id rows limit pos u.found fg' (u.when.1 fg') h)
      ])
Step-le limit cls scope {rows} pos (begin now id review_id r found fresh e) h =
    elim (begin-Updates now id review_id rows e) [
      | inl same ↦ subst (λ x. capacity_holder_count cls scope x ≤ limit) same h
      | inr (same, u) ↦
          let held =
            active_not_queued u.row.status u.when
              (subst (λ x. is_queued x.status ≡ false) (found-eq r u.row found u.found) fresh) in
          subst (λ x. capacity_holder_count cls scope x ≤ limit) same
            (update-le cls scope id (start now review_id) rows limit u.found
              (λ p. unfold is_holder_of in_queue start in ground (arith, p, held)) h)
    ]
Step-le limit cls scope {rows} pos (end_ now id status reason e) h =
    let (ended, change) = end-Updates now id status reason rows e in
    elim change [
      | inl same ↦ subst (λ x. capacity_holder_count cls scope x ≤ limit) same h
      | inr (same, u) ↦
          subst (λ x. capacity_holder_count cls scope x ≤ limit) same
            (update-le cls scope id (finish now status reason) rows limit u.found
              (λ p. unfold is_holder_of in_queue finish in ground (arith, p, ended)) h)
    ]
Step-le limit cls scope {rows} pos (reclaim host alive stale now c' s' e) h =
    subst (λ x. capacity_holder_count cls scope x ≤ limit) e
      (unfold capacity_holder_count in
        omega (arith, h, count_if-reclaim cls scope host alive stale now c' s' rows))

-- If no admission asks for more than `limit` slots, and `limit` is at least 1, then after any history every
-- queue of every resource class has at most `limit` holders.
pub holder_count-le_limit :
    (limit : ℕ) (cls scope : Text) {rows : List Row}
    → 1 ≤ limit
    → Reach limit rows
    → capacity_holder_count cls scope rows ≤ limit
holder_count-le_limit limit cls scope pos empty =
    unfold capacity_holder_count count_if in omega arith
holder_count-le_limit limit cls scope pos (next r s) =
    Step-le limit cls scope pos s (holder_count-le_limit limit cls scope pos r)
