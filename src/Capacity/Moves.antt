-- ===== src/Capacity/Moves.antt =====
-- The other transitions of a row in store.py: the forced admission beside the foreground lock, the
-- start, the finish and the reclaim of rows that a dead process left behind.
use skodun.Prelude.{ℕ, ◌-◌, ◌*◌, ◌&&◌, not, Option, none, some, List, ltb, if◌then◌else◌, get_or}
use skodun.Prelude.Text.{Text, text_eq}
use skodun.Capacity.Views.{Status, admitted, running, is_holder, is_queued, is_active}
use skodun.Capacity.Rows.{
  Row, Result, ok, err, value_error, resource_review_fg, capacity_get, update_row,
  capacity_holder_count,
}

-- `_duration_ms` of two timestamps: never negative, and `None` where one is missing.
unfoldable pub duration_ms : Option ℕ → Option ℕ → Option ℕ
duration_ms none end_at = none
duration_ms (some start) none = none
duration_ms (some start) (some end_at) = some ((end_at - start) * 1000)

abbrev or_else : Option ℕ → Option ℕ → Option ℕ
or_else none b = b
or_else (some a) b = some a

abbrev or_text : Option Text → Option Text → Option Text
or_text none b = b
or_text (some a) b = some a

unfoldable pub force_admit : ℕ → Row → Row
force_admit now r = record r {
  status = admitted;
  admitted_at = some now;
  capacity_limit = if text_eq r.resource_class resource_review_fg then some 1 else r.capacity_limit;
}

-- The branches on the row, in the order of the method.
unfoldable pub force_admit_row : ℕ → Option Row → Text → List Row → List Row × Option Row
unfolding force_admit update_row capacity_get
force_admit_row now none id rows = (rows, none)
force_admit_row now (some r) id rows =
    let rows' = update_row id (force_admit now) rows in
    if is_holder r.status
    then (rows, some r)
    else if not (is_queued r.status)
    then (rows, none)
    else if text_eq r.resource_class resource_review_fg
        && ltb 0 (capacity_holder_count resource_review_fg r.scope rows)
    then (rows, none)
    else (rows', capacity_get id rows')

unfoldable pub capacity_force_admit : ℕ → Text → List Row → List Row × Option Row
unfolding force_admit_row
capacity_force_admit now id rows = force_admit_row now (capacity_get id rows) id rows

unfoldable pub start : ℕ → Option Text → Row → Row
start now review_id r = record r {
  status = running;
  admitted_at = some (get_or r.admitted_at now);
  started_at = some (get_or r.started_at now);
  review_id = or_text review_id r.review_id;
}

unfoldable pub mark_started_row : ℕ → Option Text → Option Row → Text → List Row → Result (List Row)
unfolding start update_row
mark_started_row now review_id none id rows = err value_error
mark_started_row now review_id (some r) id rows =
    if is_active r.status then ok (update_row id (start now review_id) rows) else ok rows

unfoldable pub capacity_mark_started : ℕ → Text → Option Text → List Row → Result (List Row)
unfolding mark_started_row
capacity_mark_started now id review_id rows =
    mark_started_row now review_id (capacity_get id rows) id rows

-- The terminal write, with the three durations of `_capacity_metrics`.
unfoldable pub finish : ℕ → Status → Option Text → Row → Row
unfolding duration_ms
finish now status reason r = record r {
  status = status;
  ended_at = some now;
  wait_ms = duration_ms (some r.queued_at) (some now);
  queue_wait_ms = duration_ms (some r.queued_at) r.admitted_at;
  run_ms = duration_ms r.started_at (some now);
  total_admission_ms = duration_ms (some r.queued_at) (some now);
  expire_reason = reason;
}

unfoldable pub finish_row :
    ℕ → Status → Option Text → Option Row → Text → List Row → Result (List Row)
unfolding finish update_row
finish_row now status reason none id rows = err value_error
finish_row now status reason (some r) id rows =
    if is_active r.status then ok (update_row id (finish now status reason) rows) else ok rows

unfoldable pub capacity_finish : ℕ → Text → Status → Option Text → List Row → Result (List Row)
unfolding finish_row
capacity_finish now id status reason rows =
    if is_active status
    then err value_error
    else finish_row now status reason (capacity_get id rows) id rows
