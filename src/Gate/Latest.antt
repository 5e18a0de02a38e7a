-- ===== src/Gate/Latest.antt =====
-- What `latest_trustworthy_for` of store.py selects.
use skodun.Prelude.{
  ◌≡◌, refl, inl, inr, ◌&&◌, Bool, true, false, Option, none, some, List, [], ◌∷◌, Bool-cases,
  arith, All, All-map, Has, here, there,
}
use skodun.Prelude.Text.{Text, text_eq, text_lt-trans_not, text_lt-asym}
use skodun.Gate.Decide.{IndexRow, newest, newer, later}

-- The row may certify the content.
abbrev pub covers : Text → IndexRow → Bool
covers dh row = text_eq row.diff_hash dh && row.trustworthy

-- A row of the table that may certify the content, and no other that may is newer.
pub record IsLatest (dh : Text) (rows : List IndexRow) (row : IndexRow) : Type 0 where
  pub is_row : Has row rows
  pub covering : covers dh row ≡ true
  pub newest_one : All (λ r. covers dh r ≡ true → newer r.reviewed_at row.reviewed_at ≡ false) rows

newer-trans_not : (a b c : Option Text) → newer a b ≡ false → newer b c ≡ false → newer a c ≡ false
newer-trans_not none b c p q = refl
newer-trans_not (some a) none c p q = ground arith
newer-trans_not (some a) (some b) none p q = ground arith
newer-trans_not (some a) (some b) (some c) p q = text_lt-trans_not a b c p q

newer-asym : (a b : Option Text) → newer a b ≡ true → newer b a ≡ false
newer-asym none b p = ground arith
newer-asym (some a) none p = refl
newer-asym (some a) (some b) p = text_lt-asym b a p

newer_irrefl : (a : Option Text) → newer a a ≡ false
newer_irrefl a = elim (Bool-cases (newer a a)) [ inl t ↦ newer-asym a a t | inr f ↦ f ]

-- The answer of the query: no row covers the content, or a latest one.
abbrev pub IsAnswer : Text → List IndexRow → Option IndexRow → Type 0
IsAnswer dh rows none = All (λ r. covers dh r ≡ false) rows
IsAnswer dh rows (some row) = IsLatest dh rows row

later-IsLatest :
    (dh : Text) (row : IndexRow) (rows : List IndexRow) (rest : Option IndexRow)
    → covers dh row ≡ true
    → IsAnswer dh rows rest
    → IsLatest dh (row ∷ rows) (later row rest)
later-IsLatest dh row rows none c h = record {
  is_row = here;
  covering = c;
  newest_one = (λ _. newer_irrefl row.reviewed_at, All-map _ _ rows (λ r p q. ground arith) h);
}
later-IsLatest dh row rows (some best) c h =
    elim (Bool-cases (newer best.reviewed_at row.reviewed_at)) [
      | inl better ↦ rw better record {
        is_row = there h.is_row;
        covering = h.covering;
        newest_one = (λ _. newer-asym best.reviewed_at row.reviewed_at better, h.newest_one);
      }
      | inr not_better ↦ rw not_better record {
        is_row = here;
        covering = c;
        newest_one = (
          λ _. newer_irrefl row.reviewed_at,
          All-map _ _ rows
              (λ r p q.
                newer-trans_not r.reviewed_at best.reviewed_at row.reviewed_at (p q) not_better)
              h.newest_one,
        );
      }
    ]

skip_row :
    (dh : Text) (row : IndexRow) (rows : List IndexRow) (o : Option IndexRow)
    → covers dh row ≡ false
    → IsAnswer dh rows o
    → IsAnswer dh (row ∷ rows) o
skip_row dh row rows none missed h = (missed, h)
skip_row dh row rows (some best) missed h = record {
  is_row = there h.is_row;
  covering = h.covering;
  newest_one = (λ y. ground arith, h.newest_one);
}

-- The row that the gate reads is one of the table with the content's hash and the trust flag, and no
-- other such row is newer; it finds none only if there is none.
pub newest-IsAnswer : (dh : Text) (rows : List IndexRow) → IsAnswer dh rows (newest dh rows)
unfolding newest
newest-IsAnswer dh [] = tt
newest-IsAnswer dh (row ∷ rows) = elim (Bool-cases (covers dh row)) [
  | inl hit ↦ rw hit (later-IsLatest dh row rows (newest dh rows) hit (newest-IsAnswer dh rows))
  | inr missed ↦ rw missed (skip_row dh row rows (newest dh rows) missed (newest-IsAnswer dh rows))
]
