-- ===== src/Triage/Open.antt =====
-- The open findings of a review after each verb of triage.py.
use skodun.Prelude.{
  ◌≡◌, refl, ap, ◌∙◌, Bool, false, not, ◌&&◌, ◌||◌, Option, none, some, List, [], ◌∷◌, arith, keep,
  if◌then◌else◌,
}
use skodun.Prelude.Text.{Text, text_eq, text_eq_refl}
use skodun.Json.{Json, Fields}
use skodun.Textnorm.{Python}
use skodun.Ledger
use skodun.Ledger.{
  Event, EventKind, is_clearing, triage_for, triage_state, has_key, state_of, in_scope, State,
}
use skodun.Ledger.Effective.{triage_for-append, triage_state-clears, clearing_event, last_of}
use skodun.Triage.Result.{ok}
use skodun.Triage.Artifact.{Artifact, load_valid_artifact}
use skodun.Triage.Verbs
use skodun.Triage.Verbs.{Recorded, finding_at, key_of, is_cleared, open_findings, clearing_state}
use skodun.Triage.Clearing.{IsRecorded, dismiss-IsRecorded, defer-IsRecorded, reopen-IsRecorded}

keep-same {ℓ} :
    {A : Type ℓ} (p q : A → Bool) (xs : List A) → ((x : A) → p x ≡ q x) → keep p xs ≡ keep q xs
unfolding keep
keep-same p q [] h = refl
keep-same p q (x ∷ xs) h = ground (arith, h x, keep-same p q xs h)

module _ (py : Python) where
  -- Whether the finding is open under a triage stream, for the review's own branch and base.
  unfoldable pub is_open : Artifact → List Event → Fields → Bool
  is_open review events f =
      not (has_key (key_of py f) (triage_for review.branch review.base_sha events))

  open_findings-keep :
      (value : Json) (review : Artifact) (events : List Event)
      → load_valid_artifact value ≡ ok review
      → open_findings py value (triage_for review.branch review.base_sha events)
        ≡ ok (keep (is_open review events) review.findings)
  unfolding open_findings is_open
  open_findings-keep value review events l = rw l refl

  is_open-recorded :
      (review : Artifact) (f : Fields) (reason : Text) (kind : EventKind)
      (events events' : List Event)
      → IsRecorded py review f reason kind events events'
      → (g : Fields)
      → is_open review events' g ≡ (
          if text_eq (key_of py f) (key_of py g)
          then not (is_clearing kind)
          else is_open review events g)
  unfolding is_open in_scope
  is_open-recorded review f reason kind events events' r g = rw r.appended (
      ground (
        arith,
        triage_for-append review.branch review.base_sha (key_of py g) events r.event,
        r.of_kind,
        r.on_finding,
        r.on_branch,
        r.on_base,
        text_eq_refl review.branch,
        text_eq_refl review.base_sha,
      ))

  -- After a dismissal that succeeded, the open findings are those that were open before, in the same
  -- order, less every finding with the key of the one named.
  pub dismiss_closes :
      (value index : Json) (reason : Text) (now : Json) (events : List Event) (r : Recorded)
      (review : Artifact) (f : Fields)
      → Verbs.dismiss py value index reason now events ≡ ok r
      → load_valid_artifact value ≡ ok review
      → finding_at review.findings index ≡ ok f
      → open_findings py value (triage_for review.branch review.base_sha r.events)
        ≡ ok (
            keep
              (λ g. not (text_eq (key_of py f) (key_of py g)) && is_open review events g)
              review.findings)
  dismiss_closes value index reason now events r review f h l g =
      let rec = dismiss-IsRecorded py value index reason now events r review f h l g in
      open_findings-keep value review r.events l
      ∙ ap ok (
          keep-same _ _ review.findings (λ x.
            ground (arith, is_open-recorded review f reason Ledger.dismiss events r.events rec x)))

  -- After a deferral that succeeded, the open findings are those that were open before, in the same
  -- order, less every finding with the key of the one named.
  pub defer_closes :
      (value index ref : Json) (reason : Text) (now : Json) (events : List Event) (r : Recorded)
      (review : Artifact) (f : Fields)
      → Verbs.defer py value index ref reason now events ≡ ok r
      → load_valid_artifact value ≡ ok review
      → finding_at review.findings index ≡ ok f
      → open_findings py value (triage_for review.branch review.base_sha r.events)
        ≡ ok (
            keep
              (λ g. not (text_eq (key_of py f) (key_of py g)) && is_open review events g)
              review.findings)
  defer_closes value index ref reason now events r review f h l g =
      let rec = defer-IsRecorded py value index ref reason now events r review f h l g in
      open_findings-keep value review r.events l
      ∙ ap ok (
          keep-same _ _ review.findings (λ x.
            ground (arith, is_open-recorded review f reason Ledger.defer events r.events rec x)))

  is_cleared-is_open :
      (review : Artifact) (f : Fields) (events : List Event)
      → is_cleared py review (key_of py f) events ≡ not (is_open review events f)
  unfolding is_cleared is_open
  is_cleared-is_open review f events =
      cleared (state_of (key_of py f) (triage_state review.branch review.base_sha events))
        (triage_state-clears review.branch review.base_sha (key_of py f) events)
    where
      cleared :
          (st : Option State) {b : Bool}
          → b ≡ clearing_event (last_of st)
          → clearing_state st ≡ not (not b)
      cleared none h = ground arith
      cleared (some st) h = ground arith

  -- A finding can be reopened only while it is dismissed or deferred. After a reopening that succeeded,
  -- the open findings are those that were open before and every finding with the key of the one named.
  pub reopen_opens :
      (value index : Json) (reason : Text) (now : Json) (events : List Event) (r : Recorded)
      (review : Artifact) (f : Fields)
      → Verbs.reopen py value index reason now events ≡ ok r
      → load_valid_artifact value ≡ ok review
      → finding_at review.findings index ≡ ok f
      → (is_open review events f ≡ false)
        × (open_findings py value (triage_for review.branch review.base_sha r.events)
            ≡ ok (
                keep
                  (λ g. text_eq (key_of py f) (key_of py g) || is_open review events g)
                  review.findings))
  reopen_opens value index reason now events r review f h l g =
      let rec = reopen-IsRecorded py value index reason now events r review f h l g in
      (
        ground (arith, rec.1, is_cleared-is_open review f events),
        open_findings-keep value review r.events l
            ∙ ap ok (
                keep-same _ _ review.findings (λ x.
                  ground (
                    arith,
                    is_open-recorded review f reason Ledger.reopen events r.events rec.0 x,
                  ))),
      )
