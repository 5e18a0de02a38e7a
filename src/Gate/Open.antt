-- ===== src/Gate/Open.antt =====
-- What the code 1 of `run_gate` of gate.py means.
use skodun.Prelude.{
  ℕ, ◌≡◌, refl, sym, ap, ◌∙◌, ◌⊎◌, inl, inr, ◌||◌, Bool, true, not, List, [], ◌∷◌, Bool-cases,
  Option-cases, arith, is_empty, if◌then◌else◌,
}
use skodun.Prelude.Text.{Text, codes, text_eq}
use skodun.Json.{Json, obj, Fields, get_or_null}
use skodun.Textnorm.{Python}
use skodun.Ledger.{Event, triage_for}
use skodun.Triage.Result.{Result, ok, err, artifact_error, >>=-eq-ok, ok-injective}
use skodun.Triage.Artifact.{Artifact, load_valid_artifact}
use skodun.Triage.Verbs.{open_findings}
use skodun.Gate.Decide.{
  GateResult, Base, Diff, Outside, gate, judge_diff, certify, conclude, axes_are_bool, recomputed,
  is_flag, is_text, rstrip_newlines, latest_trustworthy_for, diff_identity, prefix_of,
}
use skodun.Gate.Record.{Store, run_gate, record_decision, is_one, skipped, settle}
use skodun.Gate.Passing.{past}
use skodun.Gate.Outcomes.{
  run_gate-skip, run_gate-gate, recorded_works, recorded_fails, judge_loaded, rest_of,
}

-- A valid artifact, the newest trustworthy review of the content at hand, has an open finding.
pub record HasOpen (py : Python) (out : Outside) (store : Store) : Type 0 where
  pub base : Base
  pub diff : Diff
  pub value : Json
  pub review : Artifact
  pub finding : Fields
  pub others : List Fields
  pub based : out.resolve_base ≡ ok base
  pub captured : out.capture_diff base.sha ≡ ok diff
  pub latest : latest_trustworthy_for (diff_identity py out diff.bytes) store.rows ≡ ok value
  pub loads : load_valid_artifact value ≡ ok review
  pub open_ones :
      open_findings py (obj review.rec) (triage_for review.branch review.base_sha store.events)
      ≡ ok (finding ∷ others)

then_of : {A : Type 0} {b : Bool} {x z : A} (y : A) → b ≡ true → (if b then x else y) ≡ z → x ≡ z
then_of y e h = ground arith

zero_or_two : {A : Type 0} {n : ℕ} → (n ≡ 0) ⊎ (n ≡ 2) → n ≡ 1 → A
zero_or_two (inl z) o = ground arith
zero_or_two (inr z) o = ground arith

module _ (py : Python) (out : Outside) where
  conclude_one :
      (dh prefix : Text) (review : Artifact) (fs : List Fields)
      → (conclude py out dh prefix review fs).code ≡ 1
      → (f : Fields) × (rest : List Fields) × (fs ≡ f ∷ rest)
  unfolding conclude
  conclude_one dh prefix review [] h = zero_or_two (inl refl) h
  conclude_one dh prefix review (f ∷ fs) h = (f, fs, refl)

  certify_one :
      (dh prefix : Text) (base : Base) (events : List Event) (review : Artifact) (r : GateResult)
      → certify py out dh base prefix events review ≡ ok r
      → r.code ≡ 1
      → (f : Fields) × (rest : List Fields) × (open_findings py
            (obj review.rec)
            (triage_for review.branch review.base_sha events)
          ≡ ok (f ∷ rest))
  unfolding certify
  certify_one dh prefix base events review r h z =
      let r1 = past (not (axes_are_bool review.rec)) _ h refl (omega (arith, z)) in
      let r2 =
        past
          (not (recomputed review.rec)
            || not (is_flag (get_or_null (codes "trustworthy") review.rec) (recomputed review.rec)))
          _ r1.1 refl (omega (arith, z)) in
      let r3 =
        past (not (is_text (get_or_null (codes "diff_hash") review.rec) dh)) _ r2.1 refl
          (omega (arith, z)) in
      let r4 = past (not (text_eq review.base_sha base.sha)) _ r3.1 refl (omega (arith, z)) in
      let r5 =
        >>=-eq-ok
          (open_findings py (obj review.rec) (triage_for review.branch review.base_sha events)) _
          r4.1 in
      let c = conclude_one dh prefix review r5.0 (ap (λ x. x.code) (ok-injective r5.2) ∙ z) in
      (c.0, c.1, r5.1 ∙ ap ok c.2)

  gate-HasOpen :
      (store : Store) (r : GateResult)
      → gate py out store.rows store.events ≡ ok r
      → r.code ≡ 1
      → HasOpen py out store
  unfolding gate judge_diff
  gate-HasOpen store r h z =
      let r1 = >>=-eq-ok out.resolve_base _ h in
      let r2 = >>=-eq-ok (out.capture_diff r1.0.sha) _ r1.2 in
      elim (Bool-cases (is_empty (rstrip_newlines r2.0.bytes))) [
        | inl none_left ↦
            zero_or_two (inl refl) (ap (λ x. x.code) (ok-injective (then_of _ none_left r2.2)) ∙ z)
        | inr left ↦
            let r3 =
              >>=-eq-ok (latest_trustworthy_for (diff_identity py out r2.0.bytes) store.rows) _
                (rest_of _ left r2.2) in
            let l =
              judge_loaded py out (diff_identity py out r2.0.bytes) (prefix_of py out r1.0 r2.0)
                r1.0 store.events r3.0 r r3.2 (omega (arith, z)) in
            let r4 = >>=-eq-ok (load_valid_artifact r3.0) _ l in
            let c =
              certify_one (diff_identity py out r2.0.bytes) (prefix_of py out r1.0 r2.0) r1.0
                store.events r4.0 r r4.2 z in
            record {
              base = r1.0;
              diff = r2.0;
              value = r3.0;
              review = r4.0;
              finding = c.0;
              others = c.1;
              based = r1.1;
              captured = r2.1;
              latest = r3.1;
              loads = r4.1;
              open_ones = c.2;
            }
      ]

  recorded_one :
      (r : GateResult) (outcome : Text) (store : Store)
      → (record_decision py out r outcome store).result.code ≡ 1
      → r.code ≡ 1
  recorded_one r outcome store h = elim (Option-cases store.log_fails) [
    | inl works ↦ sym (ap (λ d. d.result.code) (recorded_works py out r outcome store works)) ∙ h
    | inr fails ↦
        zero_or_two
          (inr (ap (λ d. d.result.code) (recorded_fails py out r outcome store fails.0 fails.1))) h
  ]

  settle_one :
      (store : Store) (g : Result GateResult)
      → (settle py out store g).result.code ≡ 1
      → (r : GateResult) × (g ≡ ok r) × (r.code ≡ 1)
  settle_one store (ok r) h = (r, refl, recorded_one r _ store h)
  settle_one store (err (artifact_error p)) h = zero_or_two (inr refl) (recorded_one _ _ store h)
  settle_one store (err _) h = zero_or_two (inr refl) (recorded_one _ _ store h)

  -- The gate answers 1 only for open findings: there is a valid artifact, the newest trustworthy review
  -- of the content at hand, with a finding that no decision clears. No error ever answers 1.
  pub run_gate-HasOpen :
      (store : Store) → (run_gate py out store).result.code ≡ 1 → HasOpen py out store
  run_gate-HasOpen store h = elim (Bool-cases (is_one out.skip_variable)) [
    | inl on ↦ zero_or_two (inl refl) (
        recorded_one skipped (codes "skipped") store
          (sym (ap (λ d. d.result.code) (run_gate-skip py out store on)) ∙ h))
    | inr off ↦
        let c =
          settle_one store (gate py out store.rows store.events)
            (sym (ap (λ d. d.result.code) (run_gate-gate py out store off)) ∙ h) in
        gate-HasOpen store c.0 c.1 c.2
  ]
