-- ===== src/Reviews/Budgeted.antt =====
-- How long a reservation of dispatch.py is left alone by the sweep of pipeline.py.
use skodun.Prelude.{
  ℕ, ◌+◌, ◌*◌, ◌≤◌, ◌≡◌, refl, ap, ◌∙◌, sym, true, false, Option, some, List, arith, if◌then◌else◌,
  Has, here, there, ltb, map, All, count_if, ◌==◌, get_or,
}
use native.Mathlib.Nat.{mul-le-mul}
use mathlib.Core.Path.{subst}
use skodun.Prelude.Text.{Text}
use skodun.Prelude.Int.{pos}
use skodun.Json.{int, str}
use skodun.Budget.{Defaults, worst_runtime, attempt_budget}
use skodun.Budget.Ordering.{calls_pos, one-le-calls}
use skodun.Reviews.Table.{Row, is_running, has_id, fail_row}
use skodun.Reviews.Sweep.{stale_recovery_reason, record_budget, epoch_of, recover_stale}
use skodun.Reviews.Sweeping.{IsNamed, is_swept, swept_row, recover_stale-map}

-- `reserved_budget` of dispatch.py, from the plan's number of batches and the admission's wait.
unfoldable pub reserved_budget : Defaults → ℕ → Option ℕ → ℕ → ℕ
unfolding worst_runtime
reserved_budget d width plan wait = worst_runtime d (pos width) (pos (get_or plan 0)) + wait

Has-map : (f : Row → Row) {r : Row} {rows : List Row} → Has r rows → Has (f r) (map f rows)
Has-map f here = here
Has-map f (there m) = there (Has-map f m)

-- Every run of the chain over every batch and the integration pass, with its retries and a grace.
abbrev pub whole_runs : Defaults → ℕ → ℕ → ℕ
whole_runs d width batches =
    width * (batches + 1) * (2 * d.timeout_sec * (1 + d.timeout_retries + d.degraded_retries) + 60)

-- The row once a time has passed, and before.
abbrev pub failed_after : ℕ → ℕ → Row → Row
failed_after limit now r = if ltb limit now then fail_row stale_recovery_reason r else r

reserved_budget-whole_runs :
    (d : Defaults) (width : ℕ) (plan : Option ℕ) (wait : ℕ)
    → 1 ≤ width
    → reserved_budget d width plan wait ≡ whole_runs d width (get_or plan 0) + wait
unfolding reserved_budget worst_runtime attempt_budget
reserved_budget-whole_runs d width plan wait h = rw (calls_pos width (get_or plan 0) h) refl

runs_positive :
    (d : Defaults) (width batches wait : ℕ)
    → 1 ≤ width
    → (whole_runs d width batches + wait == 0) ≡ false
runs_positive d width batches wait h =
    let each : 1 ≤ 2 * d.timeout_sec * (1 + d.timeout_retries + d.degraded_retries) + 60 =
      omega arith in
    let all_runs : 1 ≤ whole_runs d width batches =
      mul-le-mul (one-le-calls width batches h) each in
    ground (arith, all_runs)

module _ (epoch : Text → Option ℕ) (now computed : ℕ) where
  -- In a table of rows with ids of their own, a reservation in flight that was given the time of its runs
  -- is failed by the sweep exactly if it is older than every run of its chain over every batch and the
  -- integration pass may take, with all retries and a minute's grace for each, and the wait for its
  -- admission; otherwise the sweep leaves it as it is.
  pub recover_stale-reserved_budget :
      (d : Defaults) (width : ℕ) (plan : Option ℕ) (wait started : ℕ) (at : Text) (r : Row)
      (rows : List Row)
      → 1 ≤ width
      → All IsNamed rows
      → ((id : Text) → count_if (has_id id) rows ≤ 1)
      → Has r rows
      → is_running r ≡ true
      → r.reviewed_at ≡ str at
      → epoch at ≡ some started
      → r.worst_runtime_sec ≡ int (pos (reserved_budget d width plan wait))
      → Has
          (failed_after (started + (whole_runs d width (get_or plan 0) + wait)) now r)
          (recover_stale epoch now computed rows).0
  recover_stale-reserved_budget d width plan wait started at r rows w named one m run reviewed e
        budget =
      subst
        (λ t. Has (failed_after (started + (whole_runs d width (get_or plan 0) + wait)) now r) t.0)
        (sym (recover_stale-map epoch now computed rows named one))
        (subst
          (λ b.
            Has (if b then fail_row stale_recovery_reason r else r)
              (map (swept_row epoch now computed) rows))
          swept (Has-map (swept_row epoch now computed) m))
    where
      ceiling : record_budget r.worst_runtime_sec ≡ some (whole_runs d width (get_or plan 0) + wait)
      ceiling =
          ap record_budget
            (budget ∙ ap (λ n. int (pos n)) (reserved_budget-whole_runs d width plan wait w))
          ∙ rw (runs_positive d width (get_or plan 0) wait w) refl

      swept :
          is_swept epoch now computed r
          ≡ ltb (started + (whole_runs d width (get_or plan 0) + wait)) now
      swept = rw (run, ceiling, ap (epoch_of epoch) reviewed ∙ e) refl
