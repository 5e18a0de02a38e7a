-- ===== src/Capacity/Bounds.antt =====
-- No queue holds more slots than any limit in force allows.
use skodun.Prelude.{
  ℕ, ◌≤◌, ◌<◌, ◌≡◌, refl, ap, sym, Bool, true, false, Option, none, some, List, [], ◌∷◌, arith,
  Bool-cases, inl, inr, if◌then◌else◌, All-map, count_if, count_if-none,
}
use mathlib.Core.Path.{subst}
use skodun.Prelude.Text.{Text, text_eq, text_eq_iff}
use skodun.Capacity.Views.{Status, is_holder, is_queued, is_active, holders_among}
use skodun.Capacity.Rows.{
  Row, is_limited, in_queue, is_peer, is_holder_of, capacity_get, update_row, limit_of,
  effective_capacity, admit, capacity_active_views, capacity_holder_count, resource_review_fg,
}
use skodun.Capacity.Moves.{force_admit, start, finish}
use skodun.Capacity.Reclaim.{
  Host, rejected_for, reclaim_reason, reclaim_row, capacity_reclaim_stale,
}
use skodun.Capacity.Update.{count_if-update_row, All-update_row, All-get}
use skodun.Capacity.Admission.{
  Admission, denied, admitted, Allows, Allows-le, Allows-effective_capacity, effective_capacity-le,
  holders_among-views,
}

-- Every holder of the queue was admitted under a limit that its number of holders respects.
abbrev pub IsBounded : Text → Text → List Row → Type 0
IsBounded cls scope rows = Allows (capacity_holder_count cls scope rows) cls scope rows

-- An update that adds no holder and keeps the limit of a holder.
keeps_bound :
    (cls scope id : Text) (f : Row → Row) (rows : List Row) {r : Row}
    → capacity_get id rows ≡ some r
    → (is_holder_of cls scope (f r) ≡ true
        → (is_holder_of cls scope r ≡ true) × (limit_of (f r) ≡ limit_of r))
    → IsBounded cls scope rows
    → IsBounded cls scope (update_row id f rows)
unfolding capacity_holder_count
keeps_bound cls scope id f rows {r} e still h =
    All-update_row (λ x. is_holder_of cls scope x ≡ true → n' ≤ limit_of x) id f rows e
      (Allows-le n' n cls scope rows le h)
      (λ p.
        let s = still p in
        let b : n ≤ limit_of r =
          All-get (λ x. is_holder_of cls scope x ≡ true → n ≤ limit_of x) id rows e h s.0 in
        omega (arith, s.1, le))
  where
    n : ℕ
    n = count_if (is_holder_of cls scope) rows

    n' : ℕ
    n' = count_if (is_holder_of cls scope) (update_row id f rows)

    le : n' ≤ n
    le = ground (arith, count_if-update_row (is_holder_of cls scope) id f rows e, still)

-- An admission: the queue of the row had room for one more under every limit in force.
module _ (cls scope : Text) (now c : ℕ) (id : Text) (rows : List Row) {r : Row}
    (limited : is_limited cls ≡ true) (found : capacity_get id rows ≡ some r)
    (waiting : is_queued r.status ≡ true)
    (room : holders_among (capacity_active_views r.resource_class r.scope rows)
      < effective_capacity r.resource_class r.scope c rows) where
  not_held : is_holder_of cls scope r ≡ false
  unfolding is_holder_of
  not_held = ground arith

  here_bound : in_queue cls scope r ≡ true → IsBounded cls scope (update_row id (admit now c) rows)
  unfolding capacity_holder_count
  here_bound mine =
      All-update_row (λ x. is_holder_of cls scope x ≡ true → n' ≤ limit_of x) id (admit now c) rows
        found
        (Allows-le n' (effective_capacity cls scope c rows) cls scope rows fits
          (Allows-effective_capacity cls scope c rows limited))
        (λ p. fits_own)
    where
      n' : ℕ
      n' = count_if (is_holder_of cls scope) (update_row id (admit now c) rows)

      same : (r.resource_class ≡ cls) × (r.scope ≡ scope)
      same =
          unfold in_queue in
          ground (arith, text_eq_iff r.resource_class cls, text_eq_iff r.scope scope, mine)

      room' : capacity_holder_count cls scope rows < effective_capacity cls scope c rows
      room' =
          subst (λ k. capacity_holder_count k scope rows < effective_capacity k scope c rows) same.0
            (subst
              (λ k.
                capacity_holder_count r.resource_class k rows
                < effective_capacity r.resource_class k c rows)
              same.1 (rw holders_among-views at room))

      fits : n' ≤ effective_capacity cls scope c rows
      fits =
          ground
            (arith, room', count_if-update_row (is_holder_of cls scope) id (admit now c) rows found)

      fits_own : n' ≤ limit_of (admit now c r)
      fits_own =
          let le = effective_capacity-le cls scope c rows in
          unfold admit in ground (arith, fits, le, room', limited, ap is_limited same.0)

pub try_admit-IsBounded :
    (cls scope : Text) (now c : ℕ) (id : Text) (rows : List Row) {rows' : List Row}
    → is_limited cls ≡ true
    → Admission now c id rows rows'
    → IsBounded cls scope rows
    → IsBounded cls scope rows'
try_admit-IsBounded cls scope now c id rows limited denied h = h
try_admit-IsBounded cls scope now c id rows limited (admitted r found waiting next) h =
    elim (Bool-cases (in_queue cls scope r)) [
      | inl mine ↦ here_bound cls scope now c id rows limited found waiting next.free mine
      | inr other ↦
          keeps_bound cls scope id (admit now c) rows found
            (λ p. unfold is_holder_of in_queue admit in ground (arith, p)) h
    ]

-- The forced admission of a `review-fg` row into a queue without holders.
pub force_admit-IsBounded :
    (cls scope : Text) (now : ℕ) (id : Text) (rows : List Row) {r : Row}
    → capacity_get id rows ≡ some r
    → is_queued r.status ≡ true
    → text_eq r.resource_class resource_review_fg ≡ true
    → capacity_holder_count resource_review_fg r.scope rows ≡ 0
    → IsBounded cls scope rows
    → IsBounded cls scope (update_row id (force_admit now) rows)
unfolding capacity_holder_count
force_admit-IsBounded cls scope now id rows {r} found waiting fg idle h =
    elim (Bool-cases (in_queue cls scope r)) [
      | inr other ↦
          keeps_bound cls scope id (force_admit now) rows found
            (λ p. unfold is_holder_of in_queue force_admit in ground (arith, p)) h
      | inl mine ↦
          let same : (resource_review_fg ≡ cls) × (r.scope ≡ scope) =
            unfold in_queue in
            ground (
              arith,
              text_eq_iff r.resource_class resource_review_fg,
              text_eq_iff r.resource_class cls,
              text_eq_iff r.scope scope,
              mine,
            ) in
          let zero_here : count_if (is_holder_of cls scope) rows ≡ 0 =
            subst (λ k. count_if (is_holder_of k scope) rows ≡ 0) same.0
              (subst (λ k. count_if (is_holder_of resource_review_fg k) rows ≡ 0) same.1 idle) in
          let n' : ℕ = count_if (is_holder_of cls scope) (update_row id (force_admit now) rows) in
          let one : n' ≤ 1 = ground (
            arith,
            zero_here,
            count_if-update_row (is_holder_of cls scope) id (force_admit now) rows found,
          ) in
          All-update_row (λ x. is_holder_of cls scope x ≡ true → n' ≤ limit_of x) id
            (force_admit now) rows found
            (All-map (λ x. is_holder_of cls scope x ≡ false)
              (λ x. is_holder_of cls scope x ≡ true → n' ≤ limit_of x) rows
              (λ x no_holder yes_holder. ground (arith, no_holder, yes_holder))
              (count_if-none (is_holder_of cls scope) rows zero_here))
            (λ p. unfold force_admit in ground (arith, one, fg))
    ]

-- A start of a holder, and a finish of any row.
pub start-IsBounded :
    (cls scope : Text) (now : ℕ) (review_id : Option Text) (id : Text) (rows : List Row) {r : Row}
    → capacity_get id rows ≡ some r
    → is_holder r.status ≡ true
    → IsBounded cls scope rows
    → IsBounded cls scope (update_row id (start now review_id) rows)
start-IsBounded cls scope now review_id id rows found held h =
    keeps_bound cls scope id (start now review_id) rows found
      (λ p. unfold is_holder_of in_queue start in ground (arith, p, held)) h

pub finish-IsBounded :
    (cls scope : Text) (now : ℕ) (status : Status) (reason : Option Text) (id : Text)
    (rows : List Row) {r : Row}
    → capacity_get id rows ≡ some r
    → is_active status ≡ false
    → IsBounded cls scope rows
    → IsBounded cls scope (update_row id (finish now status reason) rows)
finish-IsBounded cls scope now status reason id rows found ended h =
    keeps_bound cls scope id (finish now status reason) rows found
      (λ p. unfold is_holder_of in_queue finish in ground (arith, p, ended)) h

module _ (cls scope : Text) (host : Host) (alive : Option (ℕ → Bool)) (stale now : ℕ)
    (class' scope' : Text) where
  if_held :
      (r : Row) (b : Bool) (reason : Option Text)
      → is_holder_of cls scope (if b then rejected_for now r reason else r) ≡ true
      → (if b then rejected_for now r reason else r) ≡ r
  unfolding is_holder_of finish
  if_held r false reason p = refl
  if_held r true none p = refl
  if_held r true (some reason) p = ground arith

  -- A reclaimed row holds nothing, and any other row is the row that it was.
  still_held :
      (r : Row)
      → is_holder_of cls scope (reclaim_row host alive stale now class' scope' r) ≡ true
      → reclaim_row host alive stale now class' scope' r ≡ r
  unfolding reclaim_row
  still_held r p = if_held r (is_peer class' scope' r) (reclaim_reason host alive stale class' r) p

  pub count_if-reclaim :
      (rows : List Row)
      → count_if
          (is_holder_of cls scope)
          (capacity_reclaim_stale host alive stale now class' scope' rows)
        ≤ count_if (is_holder_of cls scope) rows
  unfolding count_if capacity_reclaim_stale
  count_if-reclaim [] = omega arith
  count_if-reclaim (r ∷ rs) = ground (arith, count_if-reclaim rs, still_held r)

  Allows-reclaim :
      (n : ℕ) (rows : List Row)
      → Allows n cls scope rows
      → Allows n cls scope (capacity_reclaim_stale host alive stale now class' scope' rows)
  unfolding capacity_reclaim_stale
  Allows-reclaim n [] h = tt
  Allows-reclaim n (r ∷ rs) h = (
    λ p.
        let same = still_held r p in
        subst (λ x. n ≤ limit_of x) (sym same)
          (h.0 (subst (λ x. is_holder_of cls scope x ≡ true) same p)),
    Allows-reclaim n rs h.1,
  )

  pub reclaim-IsBounded :
      (rows : List Row)
      → IsBounded cls scope rows
      → IsBounded cls scope (capacity_reclaim_stale host alive stale now class' scope' rows)
  unfolding capacity_holder_count
  reclaim-IsBounded rows h =
      Allows-reclaim _ rows (Allows-le _ _ cls scope rows (count_if-reclaim rows) h)
