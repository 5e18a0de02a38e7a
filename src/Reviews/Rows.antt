-- ===== src/Reviews/Rows.antt =====
-- The statements on the table `reviews`, row by row.
use skodun.Prelude.{
  ◌≤◌, ◌≡◌, refl, ap, ◌∙◌, sym, inl, inr, Bool, true, false, some, List, [], ◌∷◌, arith, Bool-cases,
  if◌then◌else◌, All, Has, here, there, count_if,
}
use mathlib.Core.Path.{subst}
use skodun.Prelude.Text.{Text}
use skodun.Reviews.Table.{Row, update_where, upsert, has_id, same_id, find_row}

some-injective : {r s : Row} → some r ≡ some s → r ≡ s
some-injective h = cc

-- A property of rows that an update keeps where it changes a row holds of every row afterwards.
pub update_where-All :
    (P : Row → Type 0) (p : Row → Bool) (f : Row → Row) (rows : List Row)
    → ((r : Row) → p r ≡ true → P r → P (f r))
    → All P rows
    → All P (update_where p f rows)
unfolding update_where
update_where-All P p f [] step h = tt
update_where-All P p f (r ∷ rows) step h = elim (Bool-cases (p r)) [
  | inl hit ↦ rw hit (step r hit h.0, update_where-All P p f rows step h.1)
  | inr missed ↦ rw missed (h.0, update_where-All P p f rows step h.1)
]

pub upsert-All :
    (P : Row → Type 0) (new : Row) (rows : List Row) → P new → All P rows → All P (upsert new rows)
unfolding upsert
upsert-All P new [] n h = (n, tt)
upsert-All P new (r ∷ rows) n h = elim (Bool-cases (same_id new.id r)) [
  | inl hit ↦ rw hit (n, h.1)
  | inr missed ↦ rw missed (h.0, upsert-All P new rows n h.1)
]

Has-updated :
    {r x : Row} {rows rest : List Row} (y : Row) (b : Bool)
    → (r ≡ x → b ≡ false)
    → (Has r rows → Has r rest)
    → Has r (x ∷ rows)
    → Has r (if b then y ∷ rest else x ∷ rest)
Has-updated y true differ step here = ground (arith, differ refl)
Has-updated y true differ step (there k) = there (step k)
Has-updated y false differ step here = here
Has-updated y false differ step (there k) = there (step k)

-- A row that an update does not name is still there, unchanged.
pub Has-update_where :
    (p : Row → Bool) (f : Row → Row) (r : Row) (rows : List Row)
    → p r ≡ false
    → Has r rows
    → Has r (update_where p f rows)
unfolding update_where
Has-update_where p f r [] missed m = elim m [ ]
Has-update_where p f r (x ∷ rows) missed m =
    Has-updated (f x) (p x) (λ e. ap p (sym e) ∙ missed) (Has-update_where p f r rows missed) m

Has-upserted :
    {r x : Row} {rows rest : List Row} (y : Row) (b : Bool)
    → (r ≡ x → b ≡ false)
    → (Has r rows → Has r rest)
    → Has r (x ∷ rows)
    → Has r (if b then y ∷ rows else x ∷ rest)
Has-upserted y true differ step here = ground (arith, differ refl)
Has-upserted y true differ step (there k) = there k
Has-upserted y false differ step here = here
Has-upserted y false differ step (there k) = there (step k)

-- A row of another id than the written one is still there.
pub Has-upsert :
    (new r : Row) (rows : List Row)
    → same_id new.id r ≡ false
    → Has r rows
    → Has r (upsert new rows)
unfolding upsert
Has-upsert new r [] missed m = elim m [ ]
Has-upsert new r (x ∷ rows) missed m =
    Has-upserted new (same_id new.id x) (λ e. ap (same_id new.id) (sym e) ∙ missed)
      (Has-upsert new r rows missed) m

pub upsert-Has : (new : Row) (rows : List Row) → Has new (upsert new rows)
unfolding upsert
upsert-Has new [] = here
upsert-Has new (r ∷ rows) = elim (Bool-cases (same_id new.id r)) [
  | inl hit ↦ rw hit here
  | inr missed ↦ rw missed (there (upsert-Has new rows))
]

Has-changed :
    (f : Row → Row) {r x : Row} {rows rest : List Row} (b : Bool)
    → (r ≡ x → b ≡ true)
    → (Has r rows → Has (f r) rest)
    → Has r (x ∷ rows)
    → Has (f r) (if b then f x ∷ rest else x ∷ rest)
Has-changed f true same step here = here
Has-changed f true same step (there k) = there (step k)
Has-changed f false same step here = ground (arith, same refl)
Has-changed f false same step (there k) = there (step k)

-- A row that an update names is there as changed.
pub update_where-Has :
    (p : Row → Bool) (f : Row → Row) (r : Row) (rows : List Row)
    → p r ≡ true
    → Has r rows
    → Has (f r) (update_where p f rows)
unfolding update_where
update_where-Has p f r [] hit m = elim m [ ]
update_where-Has p f r (x ∷ rows) hit m =
    Has-changed f (p x) (λ e. ap p (sym e) ∙ hit) (update_where-Has p f r rows hit) m

-- An update that leaves no row of a kind, where the changed ones are none.
pub update_where-count :
    (p q : Row → Bool) (f : Row → Row) (rows : List Row)
    → ((r : Row) → p r ≡ true → q (f r) ≡ false)
    → ((r : Row) → p r ≡ false → q r ≡ false)
    → count_if q (update_where p f rows) ≡ 0
unfolding update_where count_if
update_where-count p q f [] changed kept = refl
update_where-count p q f (r ∷ rows) changed kept = elim (Bool-cases (p r)) [
  | inl hit ↦ rw (hit, changed r hit) (omega (arith, update_where-count p q f rows changed kept))
  | inr missed ↦
      rw (missed, kept r missed) (omega (arith, update_where-count p q f rows changed kept))
]

pub Has-count :
    (p : Row → Bool) {r : Row} {rows : List Row} → Has r rows → p r ≡ true → 1 ≤ count_if p rows
unfolding count_if
Has-count p here e = rw e (omega arith)
Has-count p (there m) e = omega (arith, Has-count p m e)

pub count_if_mono :
    (p q : Row → Bool) (rows : List Row)
    → ((r : Row) → p r ≡ true → q r ≡ true)
    → count_if p rows ≤ count_if q rows
unfolding count_if
count_if_mono p q [] h = omega arith
count_if_mono p q (r ∷ rows) h = ground (arith, h r, count_if_mono p q rows h)

-- The row that a query by id fetches is a row of that id.
pub find_row-Has :
    (id : Text) (row : Row) (rows : List Row)
    → find_row id rows ≡ some row
    → Has row rows × (has_id id row ≡ true)
unfolding find_row
find_row-Has id row [] f = ground arith
find_row-Has id row (r ∷ rows) f = go (has_id id r) refl f (find_row-Has id row rows)
  where
    go :
        (b : Bool)
        → has_id id r ≡ b
        → (if b then some r else find_row id rows) ≡ some row
        → (find_row id rows ≡ some row → Has row rows × (has_id id row ≡ true))
        → Has row (r ∷ rows) × (has_id id row ≡ true)
    go true e g rest =
        let same = some-injective g in
        (subst (λ x. Has x (r ∷ rows)) same here, subst (λ x. has_id id x ≡ true) same e)
    go false e g rest = (there (rest g).0, (rest g).1)
