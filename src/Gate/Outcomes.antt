-- ===== src/Gate/Outcomes.antt =====
-- What each code of `run_gate` of gate.py means, and that each decision is recorded.
use skodun.Prelude.{
  ℕ, ◌≡◌, refl, sym, ap, ◌∙◌, ◌⊎◌, inl, inr, ◌↔◌, ◌≤◌, Bool, true, false, none, some, List, [], ◌∷◌,
  ◌++◌, arith, Bool-cases, Option-cases, if◌then◌else◌, is_empty, not_both,
}
use skodun.Prelude.Text.{Text, codes}
use skodun.Json.{Json, null, obj}
use skodun.Textnorm.{Python}
use skodun.Ledger.{Event}
use skodun.Triage.Result.{
  Result, ok, err, >>=-eq-ok, >>=-ok, ok-injective, ◌>>=◌, artifact_error, Error,
}
use skodun.Triage.Artifact.{Artifact, load_valid_artifact}
use skodun.Gate.Decide.{
  GateResult, Base, Diff, Outside, certify, judge, judge_diff, gate, rstrip_newlines,
  latest_trustworthy_for, diff_identity, prefix_of, nothing_to_review,
}
use skodun.Gate.Record.{
  Store, run_gate, record_decision, log_gate_event, is_one, skipped, settle, event_of, unrecorded,
}
use skodun.Gate.Passing.{IsSound, certify-IsSound, IsSound-certify}

-- The three ways of passing.
pub data Passes (py : Python) (out : Outside) (store : Store) : Type 0 where
  skip : is_one out.skip_variable ≡ true → Passes py out store
  empty :
      (base : Base) (diff : Diff)
      → out.resolve_base ≡ ok base
      → out.capture_diff base.sha ≡ ok diff
      → is_empty (rstrip_newlines diff.bytes) ≡ true
      → Passes py out store
  certified :
      (base : Base) (diff : Diff) (value : Json) (review : Artifact)
      → out.resolve_base ≡ ok base
      → out.capture_diff base.sha ≡ ok diff
      → is_empty (rstrip_newlines diff.bytes) ≡ false
      → latest_trustworthy_for (diff_identity py out diff.bytes) store.rows ≡ ok value
      → load_valid_artifact value ≡ ok review
      → IsSound py store.events (diff_identity py out diff.bytes) base review
      → Passes py out store

-- The continuation of an emptiness test that failed.
pub rest_of :
    {A : Type 0} {b : Bool} (x : A) {y z : A} → b ≡ false → (if b then x else y) ≡ z → y ≡ z
rest_of x e h = ground arith

pub else_of : {A : Type 0} {b : Bool} (x : A) {y : A} → b ≡ false → (if b then x else y) ≡ y
else_of x e = ground arith

pub not_two : {A : Type 0} {n : ℕ} → n ≡ 2 → n ≡ 0 → A
not_two e z = ground arith

module _ (py : Python) (out : Outside) where
  pub judge_loaded :
      (dh prefix : Text) (base : Base) (events : List Event) (v : Json) (r : GateResult)
      → judge py out dh base prefix events v ≡ ok r
      → r.code ≤ 1
      → (load_valid_artifact v >>= certify py out dh base prefix events) ≡ ok r
  unfolding judge
  judge_loaded dh prefix base events null r h z = ground (arith, ok-injective h)
  judge_loaded dh prefix base events _ r h z = h

  pub loaded_judge :
      (dh prefix : Text) (base : Base) (events : List Event) (v : Json) (review : Artifact)
      → load_valid_artifact v ≡ ok review
      → judge py out dh base prefix events v ≡ certify py out dh base prefix events review
  unfolding judge load_valid_artifact
  loaded_judge dh prefix base events null review h = ground arith
  loaded_judge dh prefix base events (obj rec) review h = rw h refl
  loaded_judge dh prefix base events _ review h = ground arith

  gate-Passes :
      (store : Store) (r : GateResult)
      → gate py out store.rows store.events ≡ ok r
      → r.code ≡ 0
      → Passes py out store
  unfolding gate judge_diff
  gate-Passes store r h z =
      let r1 = >>=-eq-ok out.resolve_base _ h in
      let r2 = >>=-eq-ok (out.capture_diff r1.0.sha) _ r1.2 in
      elim (Bool-cases (is_empty (rstrip_newlines r2.0.bytes))) [
        | inl none_left ↦ empty r1.0 r2.0 r1.1 r2.1 none_left
        | inr left ↦
            let r3 =
              >>=-eq-ok (latest_trustworthy_for (diff_identity py out r2.0.bytes) store.rows) _
                (rest_of _ left r2.2) in
            let l =
              judge_loaded (diff_identity py out r2.0.bytes) (prefix_of py out r1.0 r2.0) r1.0
                store.events r3.0 r r3.2 (omega (arith, z)) in
            let r4 = >>=-eq-ok (load_valid_artifact r3.0) _ l in
            certified r1.0 r2.0 r3.0 r4.0 r1.1 r2.1 left r3.1 r4.1 (
              certify-IsSound py out (diff_identity py out r2.0.bytes) (prefix_of py out r1.0 r2.0)
                r1.0 store.events r4.0 r r4.2 z)
      ]

  Passes-gate :
      (store : Store)
      → Passes py out store
      → (is_one out.skip_variable ≡ true)
        ⊎ (r : GateResult) × (gate py out store.rows store.events ≡ ok r) × (r.code ≡ 0)
  unfolding gate judge_diff
  Passes-gate store (skip s) = inl s
  Passes-gate store (empty base diff b d none_left) =
      inr (nothing_to_review py out (prefix_of py out base diff), rw (b, d, none_left) refl, refl)
  Passes-gate store (certified base diff value review b d left latest l s) =
      let c =
        IsSound-certify py out (diff_identity py out diff.bytes) (prefix_of py out base diff) base
          store.events review s in
      inr (
        c.0,
        >>=-ok _ b
            ∙ >>=-ok _ d
            ∙ else_of _ left
            ∙ >>=-ok _ latest
            ∙ loaded_judge (diff_identity py out diff.bytes) (prefix_of py out base diff) base
                store.events value review l
            ∙ c.1,
        c.2,
      )

  pub recorded_works :
      (r : GateResult) (outcome : Text) (store : Store)
      → store.log_fails ≡ none
      → record_decision py out r outcome store ≡ record {
        result = r;
        store = record store { gate_events = store.gate_events ++ event_of py out r outcome ∷ [] };
      }
  unfolding record_decision log_gate_event
  recorded_works r outcome store works = rw works refl

  pub recorded_fails :
      (r : GateResult) (outcome : Text) (store : Store) (x : Error)
      → store.log_fails ≡ some x
      → record_decision py out r outcome store
        ≡ record { result = unrecorded py out r x; store = store }
  unfolding record_decision log_gate_event
  recorded_fails r outcome store x fails = rw fails refl

  recorded_code :
      (r : GateResult) (outcome : Text) (store : Store)
      → (record_decision py out r outcome store).result.code ≡ 0
      → (store.log_fails ≡ none) × (r.code ≡ 0)
  recorded_code r outcome store h = elim (Option-cases store.log_fails) [
    | inl works ↦ (works, sym (ap (λ d. d.result.code) (recorded_works r outcome store works)) ∙ h)
    | inr fails ↦
        not_two (ap (λ d. d.result.code) (recorded_fails r outcome store fails.0 fails.1)) h
  ]

  settle-recorded :
      (store : Store) (g : Result GateResult)
      → (settle py out store g).result.code ≡ 0
      → (store.log_fails ≡ none) × (r : GateResult) × (g ≡ ok r) × (r.code ≡ 0)
  settle-recorded store (ok r) h = let c = recorded_code r _ store h in (c.0, r, refl, c.1)
  settle-recorded store (err (artifact_error p)) h = not_two refl (recorded_code _ _ store h).1
  settle-recorded store (err _) h = not_two refl (recorded_code _ _ store h).1

  pub run_gate-skip :
      (store : Store)
      → is_one out.skip_variable ≡ true
      → run_gate py out store ≡ record_decision py out skipped (codes "skipped") store
  unfolding run_gate
  run_gate-skip store h = rw h refl

  pub run_gate-gate :
      (store : Store)
      → is_one out.skip_variable ≡ false
      → run_gate py out store ≡ settle py out store (gate py out store.rows store.events)
  unfolding run_gate
  run_gate-gate store h = rw h refl

  run_gate-zero :
      (store : Store)
      → (run_gate py out store).result.code ≡ 0
      → (store.log_fails ≡ none) × Passes py out store
  run_gate-zero store h = elim (Bool-cases (is_one out.skip_variable)) [
    | inl on ↦
        let c =
          recorded_code skipped (codes "skipped") store
            (sym (ap (λ d. d.result.code) (run_gate-skip store on)) ∙ h) in
        (c.0, skip on)
    | inr off ↦
        let c =
          settle-recorded store (gate py out store.rows store.events)
            (sym (ap (λ d. d.result.code) (run_gate-gate store off)) ∙ h) in
        (c.0, gate-Passes store c.1 c.2 c.3)
  ]

  settle-zero :
      (store : Store) (g : Result GateResult) (r : GateResult)
      → store.log_fails ≡ none
      → g ≡ ok r
      → r.code ≡ 0
      → (settle py out store g).result.code ≡ 0
  settle-zero store g r works e z =
      rw e (ap (λ d. d.result.code) (recorded_works r _ store works) ∙ z)

  zero-run_gate :
      (store : Store)
      → store.log_fails ≡ none
      → Passes py out store
      → (run_gate py out store).result.code ≡ 0
  zero-run_gate store works p = elim (Bool-cases (is_one out.skip_variable)) [
    | inl on ↦
        ap (λ d. d.result.code)
          (run_gate-skip store on ∙ recorded_works skipped (codes "skipped") store works)
    | inr off ↦ elim (Passes-gate store p) [
      | inl on ↦ not_both on off
      | inr r ↦
          ap (λ d. d.result.code) (run_gate-gate store off)
          ∙ settle-zero store (gate py out store.rows store.events) r.0 works r.1 r.2
    ]
  ]

  -- The gate answers 0 exactly if it could record the decision and one of three things holds: the bypass
  -- variable is set to 1; there is no outgoing change; or the newest trustworthy review of exactly this
  -- content is a valid artifact whose own fields say parsed, not degraded, not truncated and trustworthy,
  -- that names this content and this base, and of whose findings none is open.
  pub run_gate_iff :
      (store : Store)
      → ((run_gate py out store).result.code ≡ 0) ↔ ((store.log_fails ≡ none) × Passes py out store)
  run_gate_iff store = (run_gate-zero store, λ p. zero-run_gate store p.0 p.1)
