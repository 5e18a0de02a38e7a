-- ===== src/Capacity/Admission.antt =====
-- One successful `capacity_try_admit`: which row it admits, and how many holders there are then.
use skodun.Prelude.{
  ℕ, ◌≤◌, ◌≡◌, refl, ◌∙◌, Bool, true, false, ◌&&◌, Option, none, some, List, [], ◌∷◌, arith,
  if◌then◌else◌, All, All-map, All-keep, keep, count_if-map, count_if-keep, count_if-same, min,
}
use skodun.Prelude.Text.{Text}
use skodun.Capacity.Views.{is_holder, is_queued, holders_among}
use skodun.Capacity.Fifo.{IsNext, decide_admit-IsNext}
use skodun.Capacity.Rows.{
  Row, is_limited, is_peer, is_holder_of, capacity_get, update_row, view_of, limit_of, min_limits,
  holder_rows, effective_capacity, admit, capacity_active_views, capacity_holder_count,
  try_admit_row,
}

-- The pure rule sees as many holders as the table has.
pub holders_among-views :
    (cls scope : Text) (rows : List Row)
    → holders_among (capacity_active_views cls scope rows) ≡ capacity_holder_count cls scope rows
unfolding holders_among capacity_active_views capacity_holder_count
holders_among-views cls scope rows =
    count_if-map view_of (λ w. is_holder w.status) (λ r. is_holder r.status)
      (keep (is_peer cls scope) rows) (λ r. refl)
    ∙ count_if-keep (λ r. is_holder r.status) (is_peer cls scope) rows
    ∙ count_if-same (λ r. is_peer cls scope r && is_holder r.status) (is_holder_of cls scope) rows
        (λ r. holder_peer cls scope r)
  where
    holder_peer :
        (cls scope : Text) (r : Row)
        → (is_peer cls scope r && is_holder r.status) ≡ is_holder_of cls scope r
    holder_peer cls scope r = unfold is_peer is_holder_of in ground arith

-- Every row that stands in a queue and holds a slot allows `n` holders.
abbrev pub Allows : ℕ → Text → Text → List Row → Type 0
Allows n cls scope rows = All (λ r. is_holder_of cls scope r ≡ true → n ≤ limit_of r) rows

Allows-min_limits : (c : ℕ) (rs : List Row) → All (λ r. min_limits c rs ≤ limit_of r) rs
unfolding min_limits
Allows-min_limits c [] = tt
Allows-min_limits c (r ∷ rs) = (
  omega arith,
  All-map (λ x. min_limits c rs ≤ limit_of x) (λ x. min (limit_of r) (min_limits c rs) ≤ limit_of x)
      rs (λ x h. omega arith) (Allows-min_limits c rs),
)

min_limits-le : (c : ℕ) (rs : List Row) → min_limits c rs ≤ c
unfolding min_limits
min_limits-le c [] = omega arith
min_limits-le c (r ∷ rs) = omega (arith, min_limits-le c rs)

pub effective_capacity-le :
    (cls scope : Text) (c : ℕ) (rows : List Row) → effective_capacity cls scope c rows ≤ c
unfolding effective_capacity
effective_capacity-le cls scope c rows =
    ground (arith, min_limits-le c (holder_rows cls scope rows))

pub Allows-effective_capacity :
    (cls scope : Text) (c : ℕ) (rows : List Row)
    → is_limited cls ≡ true
    → Allows (effective_capacity cls scope c rows) cls scope rows
unfolding effective_capacity holder_rows
Allows-effective_capacity cls scope c rows limited = rw limited (
    All-keep (is_holder_of cls scope)
      (λ r. min_limits c (keep (is_holder_of cls scope) rows) ≤ limit_of r) rows
      (Allows-min_limits c (keep (is_holder_of cls scope) rows)))

pub Allows-le :
    (m n : ℕ) (cls scope : Text) (rows : List Row)
    → m ≤ n
    → Allows n cls scope rows
    → Allows m cls scope rows
Allows-le m n cls scope rows le h =
    All-map (λ r. is_holder_of cls scope r ≡ true → n ≤ limit_of r)
      (λ r. is_holder_of cls scope r ≡ true → m ≤ limit_of r) rows
      (λ r f p. let b : n ≤ limit_of r = f p in omega arith) h

-- What `try_admit_row` did: nothing to the table, or the admission of a queued row that was next in
-- its queue while that had fewer holders than every limit in force.
pub data Admission (now c : ℕ) (id : Text) (rows : List Row) : List Row → Type 0 where
  denied : Admission now c id rows rows
  admitted :
      (r : Row)
      → capacity_get id rows ≡ some r
      → is_queued r.status ≡ true
      → IsNext id
          (capacity_active_views r.resource_class r.scope rows)
          (effective_capacity r.resource_class r.scope c rows)
      → Admission now c id rows (update_row id (admit now c) rows)

Admission-if :
    {now c : ℕ} {id : Text} {rows : List Row} (b : Bool) (x y : List Row × Option Row)
    → (b ≡ true → Admission now c id rows x.0)
    → (b ≡ false → Admission now c id rows y.0)
    → Admission now c id rows (if b then x else y).0
Admission-if true x y f g = f refl
Admission-if false x y f g = g refl

pub try_admit_row-Admission :
    (now c : ℕ) (id : Text) (rows : List Row) (found : Option Row)
    → capacity_get id rows ≡ found
    → Admission now c id rows (try_admit_row now c found id rows).0
unfolding try_admit_row
try_admit_row-Admission now c id rows none e = denied
try_admit_row-Admission now c id rows (some r) e =
    Admission-if (is_queued r.status) _ _
      (λ q.
        Admission-if _ _ _
          (λ d. admitted r e q (
            decide_admit-IsNext id (capacity_active_views r.resource_class r.scope rows)
              (effective_capacity r.resource_class r.scope c rows) d))
          (λ d. denied))
      (λ q. denied)
