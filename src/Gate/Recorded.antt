-- ===== src/Gate/Recorded.antt =====
-- Every decision of `run_gate` of gate.py leaves its record, or is a refusal.
use skodun.Prelude.{◌≡◌, refl, ◌⊎◌, inl, inr, some, [], ◌∷◌, ◌++◌, Bool-cases, Option-cases}
use skodun.Prelude.Text.{Text, codes}
use skodun.Textnorm.{Python}
use skodun.Triage.Result.{Result, ok, err, artifact_error, Error}
use skodun.Gate.Decide.{GateResult, Outside, gate}
use skodun.Gate.Record.{
  Store, GateEvent, Outcome, run_gate, record_decision, is_one, skipped, settle,
}
use skodun.Gate.Outcomes.{run_gate-skip, run_gate-gate, recorded_works, recorded_fails}

-- The decision stands in the log, which grew by it alone, and nothing else of the store changed.
pub record IsLogged (before after : Store) (r : GateResult) : Type 0 where
  pub event : GateEvent
  pub grown : after ≡ record before { gate_events = before.gate_events ++ event ∷ [] }
  pub same_code : event.code ≡ r.code
  pub same_hash : event.diff_hash ≡ r.diff_hash

-- The store could not take the record: the answer is 2, and the store is as before.
pub record IsRefused (before after : Store) (r : GateResult) : Type 0 where
  pub cause : Error
  pub fails : before.log_fails ≡ some cause
  pub two : r.code ≡ 2
  pub same_store : after ≡ before

abbrev IsKept : Store → Outcome → Type 0
IsKept before d = IsLogged before d.store d.result ⊎ IsRefused before d.store d.result

module _ (py : Python) (out : Outside) where
  record_decision-IsKept :
      (r : GateResult) (outcome : Text) (store : Store)
      → IsKept store (record_decision py out r outcome store)
  record_decision-IsKept r outcome store = elim (Option-cases store.log_fails) [
    | inl works ↦
        rw (recorded_works py out r outcome store works)
          (inl record { event = _; grown = refl; same_code = refl; same_hash = refl })
    | inr fails ↦
        rw (recorded_fails py out r outcome store fails.0 fails.1)
          (inr record { cause = fails.0; fails = fails.1; two = refl; same_store = refl })
  ]

  settle-IsKept : (store : Store) (g : Result GateResult) → IsKept store (settle py out store g)
  settle-IsKept store (ok r) = record_decision-IsKept r _ store
  settle-IsKept store (err (artifact_error p)) = record_decision-IsKept _ _ store
  settle-IsKept store (err _) = record_decision-IsKept _ _ store

  -- Whatever is decided, the bypass and every error included, the store's log grows by exactly one event,
  -- which carries the code and the content's hash that are answered, and nothing else of the store
  -- changes; if the store cannot take the event, the answer is 2.
  pub run_gate-IsKept : (store : Store) → IsKept store (run_gate py out store)
  run_gate-IsKept store = elim (Bool-cases (is_one out.skip_variable)) [
    | inl on ↦
        rw (run_gate-skip py out store on) (record_decision-IsKept skipped (codes "skipped") store)
    | inr off ↦
        rw (run_gate-gate py out store off)
          (settle-IsKept store (gate py out store.rows store.events))
  ]
