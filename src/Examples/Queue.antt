-- ===== src/Examples/Queue.antt =====
-- The pure rules of capacity and of the budgets on concrete views.
use skodun.Prelude.{
  ℕ, ◌+◌, ◌≡◌, refl, ◌≤◌, ◌<◌, ◌*◌, ◌↔◌, Bool, true, false, Option, none, some, List, [], ◌∷◌,
  arith, count_if, keep, Has, here, there,
}
use skodun.Prelude.Text.{Text, codes}
use skodun.Prelude.Int.{pos}
use skodun.Capacity.Views.{
  WaiterView, queued, admitted, is_queued, decide_admit, holders_among, queue_position_among,
}
use skodun.Capacity.Fifo.{IsNext, decide_admit_iff}
use skodun.Capacity.Position.{IsPlaced, queue_position_among_lem}
use skodun.Capacity.Liveness.{decide_admit_progress}
use skodun.Capacity.Spared.{IsLive, capacity_reclaim_stale-Has}
use skodun.Capacity.Rows.{Row, new_row, resource_review_fg}
use skodun.Capacity.Reclaim.{capacity_reclaim_stale, Host}
use skodun.Budget.{Defaults}

abbrev holder : WaiterView
holder = record { id = codes "h"; status = admitted; queued_at = 90; enqueue_order = some 1 }

abbrev early : WaiterView
early = record { id = codes "e"; status = queued; queued_at = 100; enqueue_order = some 2 }

abbrev late : WaiterView
late = record { id = codes "l"; status = queued; queued_at = 100; enqueue_order = some 3 }

abbrev views : List WaiterView
views = late ∷ holder ∷ early ∷ []

admits_early : decide_admit (codes "e") views (pos 2) ≡ true
unfolding decide_admit holders_among count_if skodun.Capacity.Views.sort_views keep
    skodun.Capacity.Views.insert_view skodun.Capacity.Views.key_lt skodun.Prelude.Text.text_eq
admits_early = refl

refuses_late : decide_admit (codes "l") views (pos 2) ≡ false
unfolding decide_admit holders_among count_if skodun.Capacity.Views.sort_views keep
    skodun.Capacity.Views.insert_view skodun.Capacity.Views.key_lt skodun.Prelude.Text.text_eq
refuses_late = refl

decide_admit_iff_example :
    (decide_admit (codes "e") views (pos 2) ≡ true) ↔ IsNext (codes "e") views 2
decide_admit_iff_example = decide_admit_iff (codes "e") views 2

third : queue_position_among (codes "l") views ≡ some 3
unfolding queue_position_among skodun.Capacity.Views.position_from skodun.Capacity.Views.sort_views
    skodun.Capacity.Views.insert_view skodun.Capacity.Views.key_lt skodun.Prelude.Text.text_eq
third = refl

queue_position_among_lem_example : IsPlaced 3 1 (codes "l") views
queue_position_among_lem_example = queue_position_among_lem 3 (codes "l") views third

early_waits : Has early (keep (λ w. is_queued w.status) views)
unfolding keep
early_waits = there here

one_holder : holders_among views < 2
unfolding holders_among count_if
one_holder = omega arith

decide_admit_progress_example : (waiter_id : Text) × (decide_admit waiter_id views (pos 2) ≡ true)
decide_admit_progress_example = decide_admit_progress views 2 early_waits one_holder

abbrev host : Host
host = record {
  pid_alive = λ pid. true;
  process_observation = λ pid. record { token = none; exited = false };
  now_epoch = 200;
}

abbrev waiting : Row
waiting = new_row 1 (codes "a") resource_review_fg (codes "repo") (some 11) none 100

abbrev defaults : Defaults
defaults = record { timeout_sec = 420; timeout_retries = 1; degraded_retries = 1 }

-- A waiter of 100 seconds under a ceiling of 60, and a process that lives.
waiting-IsLive : IsLive host 60 resource_review_fg waiting
unfolding new_row
waiting-IsLive = record {
  pid = 10;
  has_pid = refl;
  alive = refl;
  not_exited = refl;
  same_process = λ c d s t machine owner token. ground (arith, owner);
  young = λ since other holds at. ground (arith, holds);
}

capacity_reclaim_stale-Has_example :
    Has waiting
      (capacity_reclaim_stale host none 60 200 resource_review_fg (codes "repo") (waiting ∷ []))
capacity_reclaim_stale-Has_example =
    capacity_reclaim_stale-Has host 60 200 resource_review_fg (codes "repo") (waiting ∷ []) here
      waiting-IsLive
