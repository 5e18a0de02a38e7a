-- ===== src/Reviews/Sweep.antt =====
-- `recover_stale` of pipeline.py, with `running_records` of store.py.
use skodun.Prelude.{
  ℕ, suc, ◌+◌, Bool, true, false, Option, none, some, List, [], ◌∷◌, keep, ltb, ◌==◌, if◌then◌else◌,
}
use skodun.Prelude.Text.{Text, codes, text_eq}
use skodun.Prelude.Int.{pos}
use skodun.Json.{Json, int, str}
use skodun.Reviews.Table.{Row, is_running, fail_if_running}

abbrev pub stale_recovery_reason : Text
stale_recovery_reason = codes "stale recovery: worker exceeded its runtime budget"

-- `running_records`: the rows in flight.
unfoldable pub running_records : List Row → List Row
unfolding keep text_eq
running_records rows = keep is_running rows

-- `_record_budget`
abbrev pub record_budget : Json → Option ℕ
record_budget (int (pos n)) = if n == 0 then none else some n
record_budget _ = none

-- `_epoch`: a value that is no text, or that `strptime` does not read, has no time.
abbrev pub epoch_of : (Text → Option ℕ) → Json → Option ℕ
epoch_of epoch (str s) = epoch s
epoch_of epoch _ = none

abbrev pub budget_or : ℕ → Option ℕ → ℕ
budget_or computed none = computed
budget_or computed (some persisted) = persisted

-- `now - started <= ceiling` fails; a time in the future has no age.
abbrev is_older : ℕ → ℕ → Option ℕ → Bool
is_older now ceiling none = false
is_older now ceiling (some started) = ltb (started + ceiling) now

abbrev pub recover_at : Json → Bool → List Row → List Row × Bool
recover_at (str id) true rows = fail_if_running id stale_recovery_reason rows
recover_at _ _ rows = (rows, false)

abbrev pub counted : Bool → ℕ → ℕ
counted true swept = suc swept
counted false swept = swept

-- The parameters: how a stored time reads in seconds, the clock, and the ceiling of the configuration.
module _ (epoch : Text → Option ℕ) (now computed : ℕ) where
  abbrev pub is_stale : Row → Bool
  is_stale r =
      is_older now (budget_or computed (record_budget r.worst_runtime_sec))
        (epoch_of epoch r.reviewed_at)

  -- One record of the scan: an id that is no text is passed over.
  abbrev pub recover_row : Row → List Row → List Row × Bool
  recover_row r rows = recover_at r.id (is_stale r) rows

  unfoldable pub recover_rows : List Row → List Row → List Row × ℕ
  unfolding fail_if_running
  recover_rows [] rows = (rows, 0)
  recover_rows (r ∷ rs) rows =
      let (after, failed) = recover_row r rows in
      let (final, swept) = recover_rows rs after in (final, counted failed swept)

  unfoldable pub recover_stale : List Row → List Row × ℕ
  unfolding running_records recover_rows
  recover_stale rows = recover_rows (running_records rows) rows
