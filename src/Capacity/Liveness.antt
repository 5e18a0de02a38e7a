-- ===== src/Capacity/Liveness.antt =====
-- Who gets on: the admission rule of capacity.py with a slot free.
use skodun.Prelude.{ℕ, ◌<◌, ◌≡◌, true, List, [], ◌∷◌, arith, Has, keep}
use skodun.Prelude.Text.{Text, text_eq_refl}
use skodun.Prelude.Int.{pos}
use skodun.Capacity.Views.{
  WaiterView, is_queued, sort_views, insert_view, heads, holders_among, decide_admit,
}

abbrev first_id : List WaiterView → Text
first_id [] = []
first_id (v ∷ vs) = v.id

insert_view-ne :
    (v : WaiterView) (ws : List WaiterView)
    → heads (first_id (insert_view v ws)) (insert_view v ws) ≡ true
unfolding insert_view
insert_view-ne v [] = text_eq_refl v.id
insert_view-ne v (w ∷ ws) = ground (arith, text_eq_refl v.id, text_eq_refl w.id)

sort_views-heads :
    {v : WaiterView} (ws : List WaiterView)
    → Has v ws
    → heads (first_id (sort_views ws)) (sort_views ws) ≡ true
unfolding sort_views
sort_views-heads [] m = elim m [ ]
sort_views-heads (w ∷ ws) m = insert_view-ne w (sort_views ws)

-- If some view is queued and fewer than `capacity` of the views are holders, the rule admits the
-- first of the sorted queue: a free slot never stays closed to everybody.
pub decide_admit_progress :
    (waiters : List WaiterView) (capacity : ℕ) {v : WaiterView}
    → Has v (keep (λ w. is_queued w.status) waiters)
    → holders_among waiters < capacity
    → (waiter_id : Text) × (decide_admit waiter_id waiters (pos capacity) ≡ true)
unfolding decide_admit
decide_admit_progress waiters capacity waits free = (
  first_id (sort_views (keep (λ w. is_queued w.status) waiters)),
  ground (arith, sort_views-heads (keep (λ w. is_queued w.status) waiters) waits),
)
