-- ===== src/Capacity/Views.antt =====
-- The pure admission rule of capacity.py: `WaiterView`, `decide_admit`, `queue_position_among`.
-- A timestamp is its number of seconds: the store writes only canonical, fixed-width UTC texts,
-- whose order as texts is the order of their instants.
use skodun.Prelude.{
  ℕ, suc, Bool, true, false, ◌&&◌, ◌||◌, Option, none, some, List, [], ◌∷◌, ltb, leb, ◌==◌,
  if◌then◌else◌, get_or, keep, count_if,
}
use skodun.Prelude.Text.{Text, text_eq, text_lt}
use skodun.Prelude.Int.{ℤ, pos, negsuc}

pub data Status : Type 0 where
  queued admitted running released expired rejected : Status

-- `w.status in HOLDER_STATUSES`
abbrev pub is_holder : Status → Bool
is_holder admitted = true
is_holder running = true
is_holder _ = false

abbrev pub is_queued : Status → Bool
is_queued queued = true
is_queued _ = false

-- `status in ACTIVE_STATUSES`
abbrev pub is_active : Status → Bool
is_active queued = true
is_active admitted = true
is_active running = true
is_active _ = false

pub record WaiterView : Type 0 where
  pub id : Text
  pub status : Status
  pub queued_at : ℕ
  pub enqueue_order : Option ℕ

-- `(w.queued_at, w.enqueue_order or 0, w.id)`, compared as tuples are.
unfoldable pub key_lt : WaiterView → WaiterView → Bool
key_lt v w =
    ltb v.queued_at w.queued_at
    || (v.queued_at == w.queued_at
        && (ltb (get_or v.enqueue_order 0) (get_or w.enqueue_order 0)
            || (get_or v.enqueue_order 0 == get_or w.enqueue_order 0 && text_lt v.id w.id)))

-- `sorted` by that key; the sort is stable.
unfoldable pub insert_view : WaiterView → List WaiterView → List WaiterView
insert_view v [] = v ∷ []
insert_view v (w ∷ ws) = if key_lt w v then w ∷ insert_view v ws else v ∷ w ∷ ws

unfoldable pub sort_views : List WaiterView → List WaiterView
sort_views [] = []
sort_views (v ∷ vs) = insert_view v (sort_views vs)

-- `bool(queued) and queued[0].id == waiter_id`
abbrev pub heads : Text → List WaiterView → Bool
heads waiter_id [] = false
heads waiter_id (v ∷ vs) = text_eq v.id waiter_id

unfoldable pub holders_among : List WaiterView → ℕ
holders_among waiters = count_if (λ w. is_holder w.status) waiters

unfoldable pub decide_admit : Text → List WaiterView → ℤ → Bool
decide_admit waiter_id waiters (negsuc n) = false
decide_admit waiter_id waiters (pos capacity) =
    if ltb capacity 1
    then false
    else if leb capacity (holders_among waiters)
    then false
    else heads waiter_id (sort_views (keep (λ w. is_queued w.status) waiters))

-- The loop over `enumerate(ordered, start=1)`.
unfoldable pub position_from : ℕ → Text → List WaiterView → Option ℕ
position_from i waiter_id [] = none
position_from i waiter_id (w ∷ ws) =
    if text_eq w.id waiter_id then some i else position_from (suc i) waiter_id ws

unfoldable pub queue_position_among : Text → List WaiterView → Option ℕ
queue_position_among waiter_id waiters = position_from 1 waiter_id (sort_views waiters)
