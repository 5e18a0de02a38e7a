-- ===== src/Capacity/Steps.antt =====
-- The table `capacity_admissions` under any interleaving of the processes that share it. Each method of
-- store.py is one transaction, so a history is a sequence of their effects.
use skodun.Prelude.{ℕ, ◌≤◌, ◌≡◌, Bool, true, false, Option, some, List, []}
use skodun.Prelude.Text.{Text, text_eq}
use skodun.Prelude.Int.{pos}
use skodun.Capacity.Views.{Status, is_queued}
use skodun.Capacity.Rows.{
  Row, ok, capacity_get, capacity_enqueue, capacity_try_admit, resource_review_fg,
}
use skodun.Capacity.Moves.{capacity_force_admit, capacity_mark_started, capacity_finish}
use skodun.Capacity.Reclaim.{Host, capacity_reclaim_stale}

-- One transaction of some process. The callers of `capacity_force_admit` hand it `review-fg` rows, and
-- those of `capacity_mark_started` rows that they saw admitted. Admissions ask for at most `limit` slots.
pub data Step (limit : ℕ) (rows : List Row) : List Row → Type 0 where
  enqueue :
      (birth : ℕ → Option Text) (now : ℕ) (id cls scope : Text) (pid : Option ℕ) (row : Row)
      {rows' : List Row}
      → capacity_enqueue birth now id cls scope pid rows ≡ some (rows', row)
      → Step limit rows rows'
  try_admit :
      (now c : ℕ) (id : Text) (out : Option Row) {rows' : List Row}
      → c ≤ limit
      → capacity_try_admit now id (pos c) rows ≡ ok (rows', out)
      → Step limit rows rows'
  force :
      (now : ℕ) (id : Text) (r : Row) {rows' : List Row}
      → capacity_get id rows ≡ some r
      → text_eq r.resource_class resource_review_fg ≡ true
      → (capacity_force_admit now id rows).0 ≡ rows'
      → Step limit rows rows'
  begin :
      (now : ℕ) (id : Text) (review_id : Option Text) (r : Row) {rows' : List Row}
      → capacity_get id rows ≡ some r
      → is_queued r.status ≡ false
      → capacity_mark_started now id review_id rows ≡ ok rows'
      → Step limit rows rows'
  end_ :
      (now : ℕ) (id : Text) (status : Status) (reason : Option Text) {rows' : List Row}
      → capacity_finish now id status reason rows ≡ ok rows'
      → Step limit rows rows'
  reclaim :
      (host : Host) (alive : Option (ℕ → Bool)) (stale now : ℕ) (cls scope : Text)
      {rows' : List Row}
      → capacity_reclaim_stale host alive stale now cls scope rows ≡ rows'
      → Step limit rows rows'

pub data Reach (limit : ℕ) : List Row → Type 0 where
  empty : Reach limit []
  next : {rows rows' : List Row} → Reach limit rows → Step limit rows rows' → Reach limit rows'
