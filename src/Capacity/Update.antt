-- ===== src/Capacity/Update.antt =====
-- Laws of `capacity_get` and `update_row`: what one statement `WHERE id=?` changes.
use skodun.Prelude.{
  ℕ, ◌+◌, ◌≡◌, Bool, Option, none, some, List, [], ◌∷◌, arith, Bool-cases, inl, inr, if◌then◌else◌,
  All, count_if, sym,
}
use mathlib.Core.Path.{subst}
use skodun.Prelude.Text.{Text, text_eq, text_eq_iff}
use skodun.Capacity.Rows.{Row, capacity_get, update_row}

abbrev one_if : Bool → ℕ
one_if b = if b then 1 else 0

pub count_if-update_row :
    (p : Row → Bool) (id : Text) (f : Row → Row) (rows : List Row) {r : Row}
    → capacity_get id rows ≡ some r
    → count_if p (update_row id f rows) + one_if (p r) ≡ count_if p rows + one_if (p (f r))
unfolding capacity_get update_row count_if
count_if-update_row p id f [] h = cc
count_if-update_row p id f (x ∷ xs) {r} h = elim (Bool-cases (text_eq x.id id)) [
  | inl e ↦
      let same : x ≡ r = ground arith in
      rw e (
        subst
          (λ y.
            one_if (p (f x)) + count_if p xs + one_if (p y)
            ≡ one_if (p x) + count_if p xs + one_if (p (f y)))
          same (omega arith))
  | inr e ↦ rw e (omega (arith, count_if-update_row p id f xs {r = r} (ground arith)))
]

pub All-update_row :
    (P : Row → Type 0) (id : Text) (f : Row → Row) (rows : List Row) {r : Row}
    → capacity_get id rows ≡ some r
    → All P rows
    → P (f r)
    → All P (update_row id f rows)
unfolding capacity_get update_row
All-update_row P id f [] h a b = cc
All-update_row P id f (x ∷ xs) {r} h a b = elim (Bool-cases (text_eq x.id id)) [
  | inl e ↦ let same : x ≡ r = ground arith in rw e (subst (λ y. P (f y)) (sym same) b, a.1)
  | inr e ↦ rw e (a.0, All-update_row P id f xs {r = r} (ground arith) a.1 b)
]

pub All-get :
    (P : Row → Type 0) (id : Text) (rows : List Row) {r : Row}
    → capacity_get id rows ≡ some r
    → All P rows
    → P r
unfolding capacity_get
All-get P id [] h a = cc
All-get P id (x ∷ xs) {r} h a = elim (Bool-cases (text_eq x.id id)) [
  | inl e ↦ let same : x ≡ r = ground arith in subst P same a.0
  | inr e ↦ All-get P id xs {r = r} (ground arith) a.1
]

-- A row that is read carries the id that was asked for.
pub get-id : (id : Text) (rows : List Row) {r : Row} → capacity_get id rows ≡ some r → r.id ≡ id
unfolding capacity_get
get-id id [] h = cc
get-id id (x ∷ xs) {r} h = ground (arith, text_eq_iff x.id id, get-id id xs {r = r})

abbrev pub map_row : (Row → Row) → Option Row → Option Row
map_row f none = none
map_row f (some r) = some (f r)

-- Reading any id after an update that keeps the id.
pub get-update_row :
    (id j : Text) (f : Row → Row) (rows : List Row)
    → ((x : Row) → (f x).id ≡ x.id)
    → capacity_get j (update_row id f rows)
      ≡ (if text_eq j id then map_row f (capacity_get j rows) else capacity_get j rows)
unfolding capacity_get update_row
get-update_row id j f [] k = ground arith
get-update_row id j f (x ∷ xs) k = ground (
  arith,
  k x,
  text_eq_iff x.id id,
  text_eq_iff x.id j,
  text_eq_iff j id,
  get-update_row id j f xs k,
)
