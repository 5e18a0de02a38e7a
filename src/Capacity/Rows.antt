-- ===== src/Capacity/Rows.antt =====
-- The table `capacity_admissions` and the `capacity_*` statements of store.py over it.
-- A table is the list of its rows in `rowid` order; `id` is its primary key, so a statement `WHERE id=?`
-- touches the first row of that id. `now` is the clock's answer to `_iso_now()`. Each method is one
-- transaction, so it is one function from the table to the table.
use skodun.Prelude.{
  ℕ, zero, suc, Bool, ◌&&◌, ◌||◌, Option, none, some, List, [], ◌∷◌, ◌++◌, map, ltb, min,
  if◌then◌else◌, keep, count_if, is_none,
}
use skodun.Prelude.Text.{Text, codes, text_eq}
use skodun.Prelude.Int.{ℤ, pos, negsuc}
use skodun.Capacity.Views.{
  Status, queued, admitted, is_holder, is_queued, is_active, WaiterView, decide_admit,
  queue_position_among,
}

pub record Row : Type 0 where
  pub rowid : ℕ
  pub id : Text
  pub resource_class : Text
  pub scope : Text
  pub status : Status
  pub queued_at : ℕ
  pub pid : Option ℕ
  pub owner_start : Option Text
  pub admitted_at : Option ℕ
  pub started_at : Option ℕ
  pub ended_at : Option ℕ
  pub wait_ms : Option ℕ
  pub queue_wait_ms : Option ℕ
  pub run_ms : Option ℕ
  pub total_admission_ms : Option ℕ
  pub expire_reason : Option Text
  pub review_id : Option Text
  pub capacity_limit : Option ℕ

abbrev pub resource_review_fg : Text
resource_review_fg = codes "review-fg"

abbrev pub resource_review_machine : Text
resource_review_machine = codes "review-machine"

abbrev pub max_capacity : ℕ
max_capacity = 9223372036854775807

-- `resource_class in ("review-machine", "review-fg")`
unfoldable pub is_limited : Text → Bool
is_limited cls = text_eq cls resource_review_machine || text_eq cls resource_review_fg

unfoldable pub in_queue : Text → Text → Row → Bool
in_queue cls scope r = text_eq r.resource_class cls && text_eq r.scope scope

-- `resource_class=? AND scope=? AND status IN ('queued','admitted','running')`
unfoldable pub is_peer : Text → Text → Row → Bool
is_peer cls scope r = in_queue cls scope r && is_active r.status

unfoldable pub is_holder_of : Text → Text → Row → Bool
is_holder_of cls scope r = in_queue cls scope r && is_holder r.status

-- `capacity_get`
unfoldable pub capacity_get : Text → List Row → Option Row
capacity_get id [] = none
capacity_get id (r ∷ rs) = if text_eq r.id id then some r else capacity_get id rs

-- `UPDATE … WHERE id=?`
unfoldable pub update_row : Text → (Row → Row) → List Row → List Row
update_row id f [] = []
update_row id f (r ∷ rs) = if text_eq r.id id then f r ∷ rs else r ∷ update_row id f rs

-- The rowid that SQLite gives to a new row.
unfoldable pub next_rowid : List Row → ℕ
next_rowid [] = 1
next_rowid (r ∷ rs) = let n = next_rowid rs in if ltb r.rowid n then n else suc r.rowid

unfoldable pub new_row : ℕ → Text → Text → Text → Option ℕ → Option Text → ℕ → Row
new_row rowid id cls scope pid owner_start now = record {
  rowid = rowid;
  id = id;
  resource_class = cls;
  scope = scope;
  status = queued;
  queued_at = now;
  pid = pid;
  owner_start = owner_start;
  admitted_at = none;
  started_at = none;
  ended_at = none;
  wait_ms = none;
  queue_wait_ms = none;
  run_ms = none;
  total_admission_ms = none;
  expire_reason = none;
  review_id = none;
  capacity_limit = none;
}

-- `process_birth_token` asks the operating system.
abbrev birth_token : (ℕ → Option Text) → Option ℕ → Option Text
birth_token process_birth_token none = none
birth_token process_birth_token (some zero) = none
birth_token process_birth_token (some (suc n)) = process_birth_token (suc n)

-- `none` is SQLite's refusal of a second row of one id.
unfoldable pub capacity_enqueue :
    (ℕ → Option Text) → ℕ → Text → Text → Text → Option ℕ → List Row → Option (List Row × Row)
unfolding capacity_get new_row next_rowid
capacity_enqueue process_birth_token now id cls scope pid rows =
    let owner_start =
      if text_eq cls resource_review_machine then birth_token process_birth_token pid else none in
    let row = new_row (next_rowid rows) id cls scope pid owner_start now in
    if is_none (capacity_get id rows) then some (rows ++ row ∷ [], row) else none

abbrev pub view_of : Row → WaiterView
view_of r = record {
  id = r.id;
  status = r.status;
  queued_at = r.queued_at;
  enqueue_order = some r.rowid;
}

unfoldable pub capacity_active_views : Text → Text → List Row → List WaiterView
capacity_active_views cls scope rows = map view_of (keep (is_peer cls scope) rows)

unfoldable pub position_of : Option Row → Text → List Row → Option ℕ
position_of none id rows = none
position_of (some r) id rows =
    if is_active r.status
    then queue_position_among id (capacity_active_views r.resource_class r.scope rows)
    else none

unfoldable pub capacity_position : Text → List Row → Option ℕ
unfolding position_of
capacity_position id rows = position_of (capacity_get id rows) id rows

unfoldable pub capacity_holder_count : Text → Text → List Row → ℕ
capacity_holder_count cls scope rows = count_if (is_holder_of cls scope) rows

-- `p["capacity_limit"] or 1`
abbrev pub limit_of : Row → ℕ
limit_of r = elim r.capacity_limit [ none ↦ 1 | some zero ↦ 1 | some (suc n) ↦ suc n ]

-- `min([capacity, *holder_limits])`
unfoldable pub min_limits : ℕ → List Row → ℕ
min_limits c [] = c
min_limits c (r ∷ rs) = min (limit_of r) (min_limits c rs)

unfoldable pub holder_rows : Text → Text → List Row → List Row
holder_rows cls scope rows = keep (is_holder_of cls scope) rows

unfoldable pub effective_capacity : Text → Text → ℕ → List Row → ℕ
unfolding holder_rows min_limits
effective_capacity cls scope c rows =
    if is_limited cls then min_limits c (holder_rows cls scope rows) else c

unfoldable pub admit : ℕ → ℕ → Row → Row
unfolding is_limited
admit now declared r = record r {
  status = admitted;
  admitted_at = some now;
  capacity_limit = if is_limited r.resource_class then some declared else none;
}

-- `none` beside the rows is the method's `None`.
unfoldable pub try_admit_row : ℕ → ℕ → Option Row → Text → List Row → List Row × Option Row
unfolding admit update_row effective_capacity capacity_active_views capacity_get
try_admit_row now c none id rows = (rows, none)
try_admit_row now c (some r) id rows =
    let views = capacity_active_views r.resource_class r.scope rows in
    let capacity = effective_capacity r.resource_class r.scope c rows in
    let rows' = update_row id (admit now c) rows in
    if is_queued r.status
    then if decide_admit id views (pos capacity)
      then (rows', capacity_get id rows')
      else (rows, none)
    else (rows, some r)

pub data Error : Type 0 where
  value_error : Error

pub data Result {ℓ} (A : Type ℓ) : Type ℓ where
  ok : A → Result A
  err : Error → Result A

unfoldable pub capacity_try_admit : ℕ → Text → ℤ → List Row → Result (List Row × Option Row)
unfolding try_admit_row
capacity_try_admit now id (negsuc n) rows = ok (rows, none)
capacity_try_admit now id (pos capacity) rows =
    if ltb max_capacity capacity
    then err value_error
    else if ltb capacity 1
    then ok (rows, none)
    else ok (try_admit_row now capacity (capacity_get id rows) id rows)
