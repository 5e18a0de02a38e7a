-- ===== src/Capacity/Reclaim.antt =====
-- The reclaim of rows that a dead process left behind: `should_reclaim_admission` of capacity.py and
-- `capacity_reclaim_stale` of store.py.
use skodun.Prelude.{
  ℕ, zero, suc, ◌-◌, Bool, true, false, ◌&&◌, ◌||◌, not, Option, none, some, List, [], ◌∷◌, ltb,
  if◌then◌else◌, get_or, is_none,
}
use skodun.Prelude.Text.{Text, codes, text_eq}
use skodun.Capacity.Views.{Status, rejected, is_holder}
use skodun.Capacity.Rows.{Row, resource_review_fg, resource_review_machine, is_peer}
use skodun.Capacity.Moves.{finish}

-- `process_observation(pid)`
pub record ProcessObservation : Type 0 where
  pub token : Option Text
  pub exited : Bool

-- What the operating system answers about processes, and the clock in seconds.
pub record Host : Type 0 where
  pub pid_alive : ℕ → Bool
  pub process_observation : ℕ → ProcessObservation
  pub now_epoch : ℕ

abbrev pub reason_stale_pid : Text
reason_stale_pid = codes "stale_pid_dead"

abbrev pub reason_stale_age : Text
reason_stale_age = codes "stale_age"

-- `pid is not None and int(pid) > 0`, with the pid.
abbrev pub usable_pid : Option ℕ → Option ℕ
usable_pid none = none
usable_pid (some zero) = none
usable_pid (some (suc n)) = some (suc n)

abbrev dead_pid : (ℕ → Bool) → Option ℕ → Bool
dead_pid alive none = false
dead_pid alive (some pid) = not (alive pid)

-- `none` for `queued_at` is a text that is no canonical timestamp.
abbrev admission_age_sec : Option ℕ → ℕ → Option ℕ
admission_age_sec none now = none
admission_age_sec (some queued_at) now = some (now - queued_at)

abbrev reclaim_by_age : Status → Option ℕ → ℕ → Option ℕ → Option Text
reclaim_by_age status pid ceiling none = none
reclaim_by_age status pid ceiling (some age) =
    if is_holder status && ltb ceiling age
    then some reason_stale_age
    else if is_none (usable_pid pid) && ltb ceiling age
    then some reason_stale_age
    else none

unfoldable pub should_reclaim_admission :
    Status → Option ℕ → Option ℕ → ℕ → ℕ → (ℕ → Bool) → Option Text
should_reclaim_admission status pid queued_at stale_sec now alive =
    if dead_pid alive (usable_pid pid)
    then some reason_stale_pid
    else reclaim_by_age status pid stale_sec (admission_age_sec queued_at now)

-- What the observation of a live process says: keep the row, reclaim it, or go on to the age rule.
pub data Verdict : Type 0 where
  retain : Verdict
  reclaim : Text → Verdict
  undecided : Verdict

-- `not row["owner_start"] or not observed.token or observed.token == row["owner_start"]`
abbrev pub same_owner : Option Text → Option Text → Bool
same_owner none token = true
same_owner (some []) token = true
same_owner (some (c ∷ s)) none = true
same_owner (some (c ∷ s)) (some []) = true
same_owner (some (c ∷ s)) (some (d ∷ t)) = text_eq (d ∷ t) (c ∷ s)

unfoldable pub observe : Text → Row → ProcessObservation → Verdict
observe cls r o =
    if o.exited
    then reclaim reason_stale_pid
    else if text_eq cls resource_review_machine
    then if same_owner r.owner_start o.token then retain else reclaim reason_stale_pid
    else undecided

abbrev observe_if_alive : Text → Row → Bool → ProcessObservation → Verdict
observe_if_alive cls r true o = observe cls r o
observe_if_alive cls r false o = undecided

-- `row["pid"] and (resource_class == "review-machine" or pid_alive_fn is None)`
abbrev process_verdict : Host → Option (ℕ → Bool) → Text → Row → Option ℕ → Verdict
process_verdict host pid_alive_fn cls r none = undecided
process_verdict host pid_alive_fn cls r (some pid) =
    if text_eq cls resource_review_machine || is_none pid_alive_fn
    then observe_if_alive cls r (get_or pid_alive_fn host.pid_alive pid)
        (host.process_observation pid)
    else undecided

-- The holder's age runs from its start or its admission.
abbrev pub age_from : Text → Row → ℕ
age_from cls r =
    if text_eq cls resource_review_fg && is_holder r.status
    then get_or r.started_at (get_or r.admitted_at r.queued_at)
    else r.queued_at

abbrev reason_after : Host → Option (ℕ → Bool) → ℕ → Text → Row → Verdict → Option Text
reason_after host pid_alive_fn stale_sec cls r retain = none
reason_after host pid_alive_fn stale_sec cls r (reclaim reason) = some reason
reason_after host pid_alive_fn stale_sec cls r undecided =
    should_reclaim_admission r.status r.pid (some (age_from cls r)) stale_sec host.now_epoch
      (get_or pid_alive_fn host.pid_alive)

-- One round of the loop: the reason for which the row is reclaimed, if any.
unfoldable pub reclaim_reason : Host → Option (ℕ → Bool) → ℕ → Text → Row → Option Text
unfolding observe should_reclaim_admission
reclaim_reason host pid_alive_fn stale_sec cls r =
    reason_after host pid_alive_fn stale_sec cls r
      (process_verdict host pid_alive_fn cls r (usable_pid r.pid))

abbrev pub rejected_for : ℕ → Row → Option Text → Row
rejected_for now r none = r
rejected_for now r (some reason) = finish now rejected (some reason) r

unfoldable pub reclaim_row : Host → Option (ℕ → Bool) → ℕ → ℕ → Text → Text → Row → Row
unfolding reclaim_reason finish is_peer
reclaim_row host pid_alive_fn stale_sec now cls scope r =
    if is_peer cls scope r
    then rejected_for now r (reclaim_reason host pid_alive_fn stale_sec cls r)
    else r

-- The rows after the loop. Every row is judged alone, so the order of the loop does not matter here.
unfoldable pub capacity_reclaim_stale :
    Host → Option (ℕ → Bool) → ℕ → ℕ → Text → Text → List Row → List Row
unfolding reclaim_row
capacity_reclaim_stale host pid_alive_fn stale_sec now cls scope [] = []
capacity_reclaim_stale host pid_alive_fn stale_sec now cls scope (r ∷ rs) =
    reclaim_row host pid_alive_fn stale_sec now cls scope r
    ∷ capacity_reclaim_stale host pid_alive_fn stale_sec now cls scope rs
