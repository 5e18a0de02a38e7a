-- ===== src/Capacity/Terminal.antt =====
-- A row that was released, expired or rejected is settled.
use skodun.Prelude.{
  ℕ, ◌≡◌, refl, ap, sym, ◌∙◌, Bool, true, false, Option, none, some, List, [], ◌∷◌, ◌++◌, arith,
  Bool-cases, inl, inr,
}
use mathlib.Core.Path.{subst}
use skodun.Prelude.Text.{Text, text_eq, text_eq_iff}
use skodun.Capacity.Views.{is_active}
use skodun.Capacity.Rows.{Row, is_peer, capacity_get, update_row, admit}
use skodun.Capacity.Moves.{force_admit, start, finish}
use skodun.Capacity.Reclaim.{
  Host, rejected_for, reclaim_reason, reclaim_row, capacity_reclaim_stale,
}
use skodun.Capacity.Update.{get-update_row}
use skodun.Capacity.Admission.{Admission, denied, admitted}
use skodun.Capacity.Effects.{
  capacity_try_admit-Admission, enqueue-append, force-Updates, begin-Updates, end-Updates,
}
use skodun.Capacity.Steps.{Step, enqueue, try_admit, force, begin, end_, reclaim}

get-append :
    (id : Text) (rows more : List Row) {r : Row}
    → capacity_get id rows ≡ some r
    → capacity_get id (rows ++ more) ≡ some r
unfolding capacity_get
get-append id [] more h = cc
get-append id (x ∷ xs) more {r} h = ground (arith, get-append id xs more {r = r})

-- An update of an active row leaves every settled row.
update-settled :
    (id j : Text) (f : Row → Row) (rows : List Row) {r u : Row}
    → ((x : Row) → (f x).id ≡ x.id)
    → capacity_get j rows ≡ some r
    → is_active r.status ≡ false
    → capacity_get id rows ≡ some u
    → is_active u.status ≡ true
    → capacity_get j (update_row id f rows) ≡ some r
update-settled id j f rows {r} {u} keeps at_j settled at_id active =
    elim (Bool-cases (text_eq j id)) [
      | inl e ↦
          let same : j ≡ id = (text_eq_iff j id).0 e in
          let both : capacity_get id rows ≡ some r =
            subst (λ k. capacity_get k rows ≡ some r) same at_j in
          let one : r ≡ u = cc in ground (arith, ap (λ x. is_active x.status) one, settled, active)
      | inr e ↦ get-update_row id j f rows keeps ∙ rw e at_j
    ]

module _ (host : Host) (alive : Option (ℕ → Bool)) (stale now : ℕ) (cls scope : Text) where
  rejected_for-id : (x : Row) (reason : Option Text) → (rejected_for now x reason).id ≡ x.id
  unfolding finish
  rejected_for-id x none = refl
  rejected_for-id x (some reason) = refl

  reclaim_row-id : (x : Row) → (reclaim_row host alive stale now cls scope x).id ≡ x.id
  unfolding reclaim_row
  reclaim_row-id x = ground (arith, rejected_for-id x (reclaim_reason host alive stale cls x))

  reclaim_row-settled :
      (x : Row) → is_active x.status ≡ false → reclaim_row host alive stale now cls scope x ≡ x
  unfolding reclaim_row
  reclaim_row-settled x settled =
      let out : is_peer cls scope x ≡ false = unfold is_peer in ground (arith, settled) in rw out

reclaim-settled :
    (host : Host) (alive : Option (ℕ → Bool)) (stale now : ℕ) (cls scope j : Text) (rows : List Row)
    {r : Row}
    → capacity_get j rows ≡ some r
    → is_active r.status ≡ false
    → capacity_get j (capacity_reclaim_stale host alive stale now cls scope rows) ≡ some r
unfolding capacity_get capacity_reclaim_stale
reclaim-settled host alive stale now cls scope j [] h settled = cc
reclaim-settled host alive stale now cls scope j (x ∷ xs) {r} h settled =
    elim (Bool-cases (text_eq x.id j)) [
      | inl e ↦
          let same : x ≡ r = ground arith in
          rw (reclaim_row-id host alive stale now cls scope x, e)
            (ap some (
              reclaim_row-settled host alive stale now cls scope x
                (subst (λ y. is_active y.status ≡ false) (sym same) settled)
              ∙ same))
      | inr e ↦
          rw (reclaim_row-id host alive stale now cls scope x, e)
            (reclaim-settled host alive stale now cls scope j xs {r = r} (ground arith) settled)
    ]

-- A transaction never changes a row that is released, expired or rejected.
pub Step-settled :
    (limit : ℕ) (j : Text) {rows rows' : List Row} {r : Row}
    → Step limit rows rows'
    → capacity_get j rows ≡ some r
    → is_active r.status ≡ false
    → capacity_get j rows' ≡ some r
Step-settled limit j {rows} {r = r} (enqueue birth now id c' s' pid row e) h settled =
    let (same, _, _, _) = enqueue-append birth now id c' s' pid rows row e in
    subst (λ x. capacity_get j x ≡ some r) (sym same) (get-append j rows (row ∷ []) h)
Step-settled limit j {rows} {r = r} (try_admit now c id out le e) h settled =
    go (capacity_try_admit-Admission now c id rows out e) h
  where
    go :
        {new : List Row}
        → Admission now c id rows new
        → capacity_get j rows ≡ some r
        → capacity_get j new ≡ some r
    go denied h = h
    go (admitted u found waiting first) h =
        update-settled id j (admit now c) rows (λ x. unfold admit in refl) h settled found
          (ground arith)
Step-settled limit j {rows} {r = r} (force now id u found fg e) h settled =
    subst (λ x. capacity_get j x ≡ some r) e
      (elim (force-Updates now id rows) [
        | inl same ↦ subst (λ x. capacity_get j x ≡ some r) (sym same) h
        | inr (same, u) ↦
            subst (λ x. capacity_get j x ≡ some r) (sym same)
              (update-settled id j (force_admit now) rows (λ x. unfold force_admit in refl) h
                settled u.found (let w = u.when.0 in ground arith))
      ])
Step-settled limit j {rows} {r = r} (begin now id review_id u found fresh e) h settled =
    elim (begin-Updates now id review_id rows e) [
      | inl same ↦ subst (λ x. capacity_get j x ≡ some r) same h
      | inr (same, u) ↦
          subst (λ x. capacity_get j x ≡ some r) same
            (update-settled id j (start now review_id) rows (λ x. unfold start in refl) h settled
              u.found u.when)
    ]
Step-settled limit j {rows} {r = r} (end_ now id status reason e) h settled =
    elim (end-Updates now id status reason rows e).1 [
      | inl same ↦ subst (λ x. capacity_get j x ≡ some r) same h
      | inr (same, u) ↦
          subst (λ x. capacity_get j x ≡ some r) same
            (update-settled id j (finish now status reason) rows (λ x. unfold finish in refl) h
              settled u.found u.when)
    ]
Step-settled limit j {rows} {r = r} (reclaim host alive stale now c' s' e) h settled =
    subst (λ x. capacity_get j x ≡ some r) e
      (reclaim-settled host alive stale now c' s' j rows h settled)
