-- ===== src/Gate/Record.antt =====
-- `run_gate` of gate.py: decide, record the decision, return it.
use skodun.Prelude.{ℕ, Bool, false, Option, none, some, List, [], ◌∷◌, ◌++◌, if◌then◌else◌, ◌==◌}
use skodun.Prelude.Text.{Text, codes, text_eq}
use skodun.Textnorm.{Python}
use skodun.Trust.{flatten_lines}
use skodun.Ledger.{Event}
use skodun.Triage.Result.{Result, ok, err, Error, artifact_error}
use skodun.Gate.Decide.{GateResult, Outside, IndexRow, gate}

-- A row of `gate_events`.
pub record GateEvent : Type 0 where
  pub at : Text
  pub repo : Text
  pub branch : Option Text
  pub diff_hash : Option Text
  pub outcome : Text
  pub code : ℕ
  pub note : Text

-- The store as the gate uses it; `log_fails` is what the insert into `gate_events` raises, if it does.
pub record Store : Type 0 where
  pub rows : List IndexRow
  pub events : List Event
  pub gate_events : List GateEvent
  pub log_fails : Option Error

unfoldable pub log_gate_event : GateEvent → Store → Result Store
log_gate_event e store = elim store.log_fails [
  | none ↦ ok (record store { gate_events = store.gate_events ++ e ∷ [] })
  | some x ↦ err x
]

-- A branch that cannot be told is recorded as `None`.
abbrev branch_or_none : Result Text → Option Text
branch_or_none (ok b) = some b
branch_or_none (err e) = none

-- `_OUTCOMES[code]`
abbrev pub outcome_of : ℕ → Text
outcome_of code =
    if code == 0
    then codes "pass"
    else if code == 1
    then codes "open-findings"
    else codes "no-review"

-- A decision and the store it leaves.
pub record Outcome : Type 0 where
  pub result : GateResult
  pub store : Store

abbrev pub skipped : GateResult
skipped = record {
  code = 0;
  message = codes "SKODUN GATE: SKIPPED — recorded as a decision";
  diff_hash = none;
}

abbrev pub failed : Text → GateResult
failed message = record {
  code = 2;
  message = codes "SKODUN GATE: FAIL(2) " ++ message;
  diff_hash = none;
}

abbrev pub is_one : Option Text → Bool
is_one none = false
is_one (some v) = text_eq v (codes "1")

module _ (py : Python) (out : Outside) where
  abbrev pub event_of : GateResult → Text → GateEvent
  event_of r outcome = record {
    at = out.now;
    repo = out.repo;
    branch = branch_or_none out.current_branch;
    diff_hash = r.diff_hash;
    outcome = outcome;
    code = r.code;
    note = flatten_lines r.message;
  }

  abbrev pub unrecorded : GateResult → Error → GateResult
  unrecorded r e = record {
    code = 2;
    message =
        r.message ++ codes "\nSKODUN GATE: FAIL(2) could not record gate event: " ++ out.repr e;
    diff_hash = r.diff_hash;
  }

  abbrev after_log : GateResult → Store → Result Store → Outcome
  after_log r store (ok store') = record { result = r; store = store' }
  after_log r store (err e) = record { result = unrecorded r e; store = store }

  -- `_record`
  unfoldable pub record_decision : GateResult → Text → Store → Outcome
  unfolding flatten_lines log_gate_event
  record_decision r outcome store = after_log r store (log_gate_event (event_of r outcome) store)

  abbrev pub settle : Store → Result GateResult → Outcome
  settle store (ok r) = record_decision r (outcome_of r.code) store
  settle store (err (artifact_error p)) =
      record_decision (failed (codes "invalid artifact: " ++ out.str_problem p)) (codes "error")
        store
  settle store (err e) =
      record_decision (failed (codes "internal error: " ++ out.repr e)) (codes "error") store

  unfoldable pub run_gate : Store → Outcome
  unfolding record_decision gate text_eq
  run_gate store =
      if is_one out.skip_variable
      then record_decision skipped (codes "skipped") store
      else settle store (gate py out store.rows store.events)
