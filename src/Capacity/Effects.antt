-- ===== src/Capacity/Effects.antt =====
-- What each method of the table does, as one update or none.
use skodun.Prelude.{
  ℕ, ◌≡◌, refl, Bool, true, false, ◌&&◌, Option, none, some, List, [], ◌∷◌, ◌++◌, arith, Bool-cases,
  inl, inr, ◌⊎◌, if◌then◌else◌, is_none, ltb,
}
use mathlib.Core.Path.{subst}
use skodun.Prelude.Text.{Text, text_eq}
use skodun.Prelude.Int.{pos}
use skodun.Capacity.Views.{Status, is_holder, is_queued, is_active}
use skodun.Capacity.Rows.{
  Row, ok, err, value_error, capacity_get, update_row, capacity_enqueue, capacity_try_admit,
  try_admit_row, capacity_holder_count, resource_review_fg, max_capacity,
}
use skodun.Capacity.Moves.{
  force_admit, start, finish, capacity_force_admit, force_admit_row, capacity_mark_started,
  mark_started_row, capacity_finish, finish_row,
}
use skodun.Capacity.Admission.{Admission, denied, try_admit_row-Admission}

-- One admission under `c` slots either leaves the table, or admits the queued row of the given id: one that
-- the rule allows under the smaller of `c` and the limits of the queue's holders, and no other row changes.
pub capacity_try_admit-Admission :
    (now c : ℕ) (id : Text) (rows : List Row) (out : Option Row) {rows' : List Row}
    → capacity_try_admit now id (pos c) rows ≡ ok (rows', out)
    → Admission now c id rows rows'
unfolding capacity_try_admit
capacity_try_admit-Admission now c id rows out {rows'} h =
    go (ltb max_capacity c) (ltb c 1) (try_admit_row now c (capacity_get id rows) id rows)
      (try_admit_row-Admission now c id rows (capacity_get id rows) refl) h
  where
    go :
        (big small : Bool) (x : List Row × Option Row)
        → Admission now c id rows x.0
        → (if big then err value_error else if small then ok (rows, none) else ok x)
          ≡ ok (rows', out)
        → Admission now c id rows rows'
    go true small x a h = cc
    go false true x a h =
        let e : rows ≡ rows' = ground arith in subst (Admission now c id rows) e denied
    go false false x a h = let e : x.0 ≡ rows' = ground arith in subst (Admission now c id rows) e a

pub enqueue-append :
    (birth : ℕ → Option Text) (now : ℕ) (id cls scope : Text) (pid : Option ℕ) (rows : List Row)
    (row : Row) {rows' : List Row}
    → capacity_enqueue birth now id cls scope pid rows ≡ some (rows', row)
    → (rows' ≡ rows ++ row ∷ [])
      × (row.status ≡ Status.queued)
      × (row.id ≡ id)
      × (capacity_get id rows ≡ none)
unfolding capacity_enqueue
enqueue-append birth now id cls scope pid rows row {rows'} h =
    (ground arith, ground arith, ground arith, no_row (capacity_get id rows) (ground arith))
  where
    no_row : (o : Option Row) → is_none o ≡ true → o ≡ none
    no_row none e = refl
    no_row (some r) e = cc

-- The one row that the update finds.
pub record Updates (id : Text) (rows : List Row) (P : Row → Type 0) : Type 0 where
  pub row : Row
  pub found : capacity_get id rows ≡ some row
  pub when : P row

pub force-Updates :
    (now : ℕ) (id : Text) (rows : List Row)
    → ((capacity_force_admit now id rows).0 ≡ rows)
      ⊎ (((capacity_force_admit now id rows).0 ≡ update_row id (force_admit now) rows)
          × Updates id rows (λ r.
            (is_queued r.status ≡ true)
            × (text_eq r.resource_class resource_review_fg ≡ true
                → capacity_holder_count resource_review_fg r.scope rows ≡ 0)))
unfolding capacity_force_admit
force-Updates now id rows = go (capacity_get id rows) refl
  where
    blocked : Row → Bool
    blocked r =
        text_eq r.resource_class resource_review_fg
        && ltb 0 (capacity_holder_count resource_review_fg r.scope rows)

    go :
        (o : Option Row)
        → capacity_get id rows ≡ o
        → ((force_admit_row now o id rows).0 ≡ rows)
          ⊎ (((force_admit_row now o id rows).0 ≡ update_row id (force_admit now) rows)
              × Updates id rows (λ r.
                (is_queued r.status ≡ true)
                × (text_eq r.resource_class resource_review_fg ≡ true
                    → capacity_holder_count resource_review_fg r.scope rows ≡ 0)))
    go none e = inl refl
    go (some r) e = elim (Bool-cases (is_holder r.status)) [
      | inl held ↦ inl (ground arith)
      | inr free ↦ elim (Bool-cases (is_queued r.status)) [
        | inr gone ↦ inl (ground arith)
        | inl waiting ↦ elim (Bool-cases (blocked r)) [
          | inl b ↦ inl (ground arith)
          | inr b ↦
              inr
                (ground arith, record { row = r; found = e; when = (waiting, λ fg. ground arith) })
        ]
      ]
    ]

pub begin-Updates :
    (now : ℕ) (id : Text) (review_id : Option Text) (rows : List Row) {rows' : List Row}
    → capacity_mark_started now id review_id rows ≡ ok rows'
    → (rows ≡ rows')
      ⊎ ((update_row id (start now review_id) rows ≡ rows')
          × Updates id rows (λ r. is_active r.status ≡ true))
unfolding capacity_mark_started
begin-Updates now id review_id rows {rows'} h = go (capacity_get id rows) refl h
  where
    go :
        (o : Option Row)
        → capacity_get id rows ≡ o
        → mark_started_row now review_id o id rows ≡ ok rows'
        → (rows ≡ rows')
          ⊎ ((update_row id (start now review_id) rows ≡ rows')
              × Updates id rows (λ r. is_active r.status ≡ true))
    go none e h = cc
    go (some r) e h = elim (Bool-cases (is_active r.status)) [
      | inl a ↦ inr (ground arith, record { row = r; found = e; when = a })
      | inr a ↦ inl (ground arith)
    ]

pub end-Updates :
    (now : ℕ) (id : Text) (status : Status) (reason : Option Text) (rows : List Row)
    {rows' : List Row}
    → capacity_finish now id status reason rows ≡ ok rows'
    → (is_active status ≡ false)
      × ((rows ≡ rows')
          ⊎ ((update_row id (finish now status reason) rows ≡ rows')
              × Updates id rows (λ r. is_active r.status ≡ true)))
unfolding capacity_finish
end-Updates now id status reason rows {rows'} h =
    (ground arith, go (capacity_get id rows) refl (ground arith))
  where
    go :
        (o : Option Row)
        → capacity_get id rows ≡ o
        → finish_row now status reason o id rows ≡ ok rows'
        → (rows ≡ rows')
          ⊎ ((update_row id (finish now status reason) rows ≡ rows')
              × Updates id rows (λ r. is_active r.status ≡ true))
    go none e h = cc
    go (some r) e h = elim (Bool-cases (is_active r.status)) [
      | inl a ↦ inr (ground arith, record { row = r; found = e; when = a })
      | inr a ↦ inl (ground arith)
    ]
