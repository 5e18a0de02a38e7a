-- ===== src/Capacity/Reachable.antt =====
-- What holds of the table after any history of transactions.
use skodun.Prelude.{
  ℕ, ◌≤◌, ◌≡◌, sym, true, false, Option, some, List, [], ◌∷◌, ◌++◌, arith, inl, inr, All-append,
  count_if, count_if-append,
}
use mathlib.Core.Path.{subst}
use skodun.Prelude.Text.{Text, text_eq}
use skodun.Capacity.Views.{Status, is_holder, is_queued, is_active}
use skodun.Capacity.Rows.{
  Row, is_limited, is_holder_of, limit_of, capacity_holder_count, resource_review_fg,
}
use skodun.Capacity.Admission.{Allows-le}
use skodun.Capacity.Bounds.{
  IsBounded, try_admit-IsBounded, force_admit-IsBounded, start-IsBounded, finish-IsBounded,
  reclaim-IsBounded,
}
use skodun.Capacity.Effects.{
  capacity_try_admit-Admission, enqueue-append, force-Updates, begin-Updates, end-Updates,
}
use skodun.Capacity.Steps.{
  Step, enqueue, try_admit, force, begin, end_, reclaim, Reach, empty, next,
}

-- A row found twice is one row.
pub found-eq : {o : Option Row} (r s : Row) → o ≡ some r → o ≡ some s → r ≡ s
found-eq r s e f = cc

append-IsBounded :
    (cls scope : Text) (rows : List Row) (row : Row)
    → is_holder row.status ≡ false
    → IsBounded cls scope rows
    → IsBounded cls scope (rows ++ row ∷ [])
unfolding capacity_holder_count
append-IsBounded cls scope rows row free h =
    All-append (λ x. is_holder_of cls scope x ≡ true → n' ≤ limit_of x) rows (row ∷ [])
      (Allows-le n' n cls scope rows le h)
      ((λ p. unfold is_holder_of in ground (arith, p, free)), tt)
  where
    n : ℕ
    n = count_if (is_holder_of cls scope) rows

    n' : ℕ
    n' = count_if (is_holder_of cls scope) (rows ++ row ∷ [])

    le : n' ≤ n
    le =
        unfold count_if is_holder_of in
        ground (arith, free, count_if-append (is_holder_of cls scope) rows (row ∷ []))

pub active_not_queued : (s : Status) → is_active s ≡ true → is_queued s ≡ false → is_holder s ≡ true
active_not_queued s a q = ground arith

pub queued_not_holder : (s : Status) → s ≡ Status.queued → is_holder s ≡ false
queued_not_holder s e = rw e

-- Every transaction keeps the bound of every limited queue.
Step-IsBounded :
    (limit : ℕ) (cls scope : Text) {rows rows' : List Row}
    → is_limited cls ≡ true
    → Step limit rows rows'
    → IsBounded cls scope rows
    → IsBounded cls scope rows'
Step-IsBounded limit cls scope {rows} limited (enqueue birth now id c' s' pid row e) h =
    let (same, queued, _, _) = enqueue-append birth now id c' s' pid rows row e in
    subst (IsBounded cls scope) (sym same)
      (append-IsBounded cls scope rows row (queued_not_holder row.status queued) h)
Step-IsBounded limit cls scope {rows} limited (try_admit now c id out le e) h =
    try_admit-IsBounded cls scope now c id rows limited
      (capacity_try_admit-Admission now c id rows out e) h
Step-IsBounded limit cls scope {rows} limited (force now id r found fg e) h =
    subst (IsBounded cls scope) e (elim (force-Updates now id rows) [
      | inl same ↦ subst (IsBounded cls scope) (sym same) h
      | inr (same, u) ↦ subst (IsBounded cls scope) (sym same) (
          force_admit-IsBounded cls scope now id rows u.found u.when.0
            (subst (λ x. text_eq x.resource_class resource_review_fg ≡ true)
              (found-eq r u.row found u.found) fg)
            (u.when.1 (
              subst (λ x. text_eq x.resource_class resource_review_fg ≡ true)
                (found-eq r u.row found u.found) fg))
            h)
    ])
Step-IsBounded limit cls scope {rows} limited (begin now id review_id r found fresh e) h =
    elim (begin-Updates now id review_id rows e) [
      | inl same ↦ subst (IsBounded cls scope) same h
      | inr (same, u) ↦ subst (IsBounded cls scope) same (
          start-IsBounded cls scope now review_id id rows u.found
            (active_not_queued u.row.status u.when
              (subst (λ x. is_queued x.status ≡ false) (found-eq r u.row found u.found) fresh))
            h)
    ]
Step-IsBounded limit cls scope {rows} limited (end_ now id status reason e) h =
    let (ended, change) = end-Updates now id status reason rows e in
    elim change [
      | inl same ↦ subst (IsBounded cls scope) same h
      | inr (same, u) ↦
          subst (IsBounded cls scope) same
            (finish-IsBounded cls scope now status reason id rows u.found ended h)
    ]
Step-IsBounded limit cls scope {rows} limited (reclaim host alive stale now c' s' e) h =
    subst (IsBounded cls scope) e (reclaim-IsBounded cls scope host alive stale now c' s' rows h)

-- After any history of enqueues, admissions under capacities of any size, forced admissions, starts,
-- finishes and reclaims, in a `review-fg` or `review-machine` queue the number of holders is at most the
-- capacity under which each holder was admitted: a process with a larger setting cannot crowd
-- a queue in which somebody was admitted under a smaller one.
pub Reach-IsBounded :
    (limit : ℕ) (cls scope : Text) {rows : List Row}
    → is_limited cls ≡ true
    → Reach limit rows
    → IsBounded cls scope rows
Reach-IsBounded limit cls scope limited empty = tt
Reach-IsBounded limit cls scope limited (next r s) =
    Step-IsBounded limit cls scope limited s (Reach-IsBounded limit cls scope limited r)
