-- ===== src/Capacity/Position.antt =====
-- `queue_position_among`: the position that a waiter is shown.
use skodun.Prelude.{
  ℕ, suc, ◌+◌, ◌≡◌, refl, true, false, Bool, some, List, [], ◌∷◌, arith, Bool-cases, inl, inr,
  if◌then◌else◌, Has, here, there, All-Has, Has-cons, Has-swap, count_if,
}
use skodun.Prelude.Text.{Text, text_eq, text_eq_iff}
use skodun.Capacity.Views.{
  WaiterView, key_lt, insert_view, sort_views, position_from, queue_position_among,
}
use skodun.Capacity.Fifo.{IsFirst, IsFirst-trans, key_lt-asym, key_lt_irrefl, key_lt-total-id}

abbrev IsSorted : List WaiterView → Type 0
IsSorted [] = Unit
IsSorted (v ∷ vs) = IsFirst v vs × IsSorted vs

IsFirst-insert_view :
    (u v : WaiterView) (ws : List WaiterView)
    → key_lt v u ≡ false
    → IsFirst u ws
    → IsFirst u (insert_view v ws)
unfolding insert_view
IsFirst-insert_view u v [] p q = (p, tt)
IsFirst-insert_view u v (w ∷ ws) p q = elim (Bool-cases (key_lt w v)) [
  | inl e ↦ rw e (q.0, IsFirst-insert_view u v ws p q.1)
  | inr e ↦ rw e (p, q)
]

insert_view-IsSorted :
    (v : WaiterView) (ws : List WaiterView) → IsSorted ws → IsSorted (insert_view v ws)
unfolding insert_view
insert_view-IsSorted v [] s = (tt, tt)
insert_view-IsSorted v (w ∷ ws) s = elim (Bool-cases (key_lt w v)) [
  | inl e ↦ rw e (IsFirst-insert_view w v ws (key_lt-asym w v e) s.0, insert_view-IsSorted v ws s.1)
  | inr e ↦ rw e ((e, IsFirst-trans v w ws e s.0), s)
]

sort_views-IsSorted : (ws : List WaiterView) → IsSorted (sort_views ws)
unfolding sort_views
sort_views-IsSorted [] = tt
sort_views-IsSorted (v ∷ vs) = insert_view-IsSorted v (sort_views vs) (sort_views-IsSorted vs)

count_if-insert_view :
    (p : WaiterView → Bool) (v : WaiterView) (ws : List WaiterView)
    → count_if p (insert_view v ws) ≡ count_if p (v ∷ ws)
unfolding insert_view count_if
count_if-insert_view p v [] = refl
count_if-insert_view p v (w ∷ ws) = ground (arith, count_if-insert_view p v ws)

count_if-sort_views :
    (p : WaiterView → Bool) (ws : List WaiterView) → count_if p (sort_views ws) ≡ count_if p ws
unfolding sort_views count_if
count_if-sort_views p [] = refl
count_if-sort_views p (v ∷ vs) =
    omega (arith, count_if-insert_view p v (sort_views vs), count_if-sort_views p vs)

insert_view-Has :
    {x : WaiterView} (v : WaiterView) (ws : List WaiterView)
    → Has x (insert_view v ws)
    → Has x (v ∷ ws)
unfolding insert_view
insert_view-Has v [] m = m
insert_view-Has {x} v (w ∷ ws) m = go (key_lt w v) (insert_view-Has v ws) m
  where
    go :
        (b : Bool)
        → (Has x (insert_view v ws) → Has x (v ∷ ws))
        → Has x (if b then w ∷ insert_view v ws else v ∷ w ∷ ws)
        → Has x (v ∷ w ∷ ws)
    go true rest m = Has-swap (Has-cons rest m)
    go false rest m = m

sort_views-Has : {x : WaiterView} (ws : List WaiterView) → Has x (sort_views ws) → Has x ws
unfolding sort_views
sort_views-Has [] m = m
sort_views-Has (v ∷ vs) m = Has-cons (sort_views-Has vs) (insert_view-Has v (sort_views vs) m)

count_if-IsFirst :
    (v : WaiterView) (ws : List WaiterView) → IsFirst v ws → count_if (λ w. key_lt w v) ws ≡ 0
unfolding count_if
count_if-IsFirst v [] h = refl
count_if-IsFirst v (w ∷ ws) h = ground (arith, count_if-IsFirst v ws h.1)

-- The waiter that a position belongs to, and how many come before it.
pub record IsPlaced (n i : ℕ) (waiter_id : Text) (ws : List WaiterView) : Type 0 where
  pub view : WaiterView
  pub present : Has view ws
  pub named : view.id ≡ waiter_id
  pub place : n ≡ i + count_if (λ w. key_lt w view) ws

position_from-IsPlaced :
    (n i : ℕ) (waiter_id : Text) (ws : List WaiterView)
    → IsSorted ws
    → position_from i waiter_id ws ≡ some n
    → IsPlaced n i waiter_id ws
unfolding position_from count_if
position_from-IsPlaced n i waiter_id [] s h = cc
position_from-IsPlaced n i waiter_id (w ∷ ws) s h = elim (Bool-cases (text_eq w.id waiter_id)) [
  | inl e ↦ record {
    view = w;
    present = here;
    named = (text_eq_iff w.id waiter_id).0 e;
    place = ground (arith, count_if-IsFirst w ws s.0, key_lt_irrefl w);
  }
  | inr e ↦
      let r = position_from-IsPlaced n (suc i) waiter_id ws s.1 (ground arith) in
      record {
        view = r.view;
        present = there r.present;
        named = r.named;
        place = ground (
          arith,
          r.place,
          r.named,
          text_eq_iff w.id waiter_id,
          All-Has (λ x. key_lt x w ≡ false) r.present s.0,
          key_lt-total-id w r.view,
        );
      }
]

-- A reported position is one more than the number of views that come before the waiter's view, in
-- the order by which `decide_admit` admits.
pub queue_position_among_lem :
    (n : ℕ) (waiter_id : Text) (waiters : List WaiterView)
    → queue_position_among waiter_id waiters ≡ some n
    → IsPlaced n 1 waiter_id waiters
unfolding queue_position_among
queue_position_among_lem n waiter_id ws h =
    let r = position_from-IsPlaced n 1 waiter_id (sort_views ws) (sort_views-IsSorted ws) h in
    record {
      view = r.view;
      present = sort_views-Has ws r.present;
      named = r.named;
      place = omega (arith, r.place, count_if-sort_views (λ w. key_lt w r.view) ws);
    }
