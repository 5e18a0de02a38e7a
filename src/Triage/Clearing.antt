-- ===== src/Triage/Clearing.antt =====
-- What the verbs of triage.py change of the findings that stay open.
use skodun.Prelude.{◌≡◌, refl, sym, ap, ◌∙◌, true, Option, none, some, List, [], ◌∷◌, ◌++◌, arith}
use skodun.Prelude.Text.{Text}
use skodun.Json.{Json, Fields}
use skodun.Textnorm.{Python}
use skodun.Ledger
use skodun.Ledger.{
  Event, EventKind, is_clearing, triage_for, triage_state, has_key, state_of, in_scope,
  append_triage_event, triage_event,
}
use skodun.Triage.Result.{ok, >>=-eq-ok, require-ok, ok-injective}
use skodun.Triage.Artifact.{Artifact, load_valid_artifact}
use skodun.Triage.Floors.{validate_reason, validate_tracking_ref}
use skodun.Triage.Doors.{
  Decided, add_triage, triage_reopen, triage_defer, require_text, require_ts, ref_text,
}
use skodun.Triage.Verbs
use skodun.Triage.Verbs.{Recorded, Named, finding_at, keys_for, key_of, is_cleared, open_findings}

-- The stream grew by one event of the verb, on the finding named, in the scope of the review, for a
-- reason that clears the floor.
pub record IsRecorded (py : Python) (review : Artifact) (finding : Fields) (reason : Text)
    (kind : EventKind) (events events' : List Event) : Type 0 where
  pub event : Event
  pub appended : events' ≡ events ++ event ∷ []
  pub of_kind : event.event ≡ kind
  pub on_finding : event.finding_key ≡ key_of py finding
  pub on_branch : event.branch ≡ review.branch
  pub on_base : event.base_sha ≡ review.base_sha
  pub floor : validate_reason py reason ≡ ok tt

-- The event that a door of the store wrote.
record IsWritten (kind : EventKind) (d : Decided) (events events' : List Event) : Type 0 where
  stored : Text
  at : Json
  ref : Option Text
  same : events' ≡ append_triage_event kind d.decision stored at ref events

module _ (py : Python) where
  triage_defer-ok :
      (d : Decided) (events events' : List Event)
      → triage_defer py d events ≡ ok events'
      → IsWritten Ledger.defer d events events'
  unfolding triage_defer
  triage_defer-ok d events events' h =
      let s1 = >>=-eq-ok (require_text d.reason) _ h in
      let s2 = >>=-eq-ok (ref_text py d.tracking_ref) _ s1.2 in
      let s3 = >>=-eq-ok (require_ts py d.at) _ s2.2 in
      record { stored = s1.0; at = s3.0; ref = some s2.0; same = sym (ok-injective s3.2) }

  triage_reopen-ok :
      (d : Decided) (events events' : List Event)
      → triage_reopen py d events ≡ ok events'
      → IsWritten Ledger.reopen d events events'
  unfolding triage_reopen
  triage_reopen-ok d events events' h =
      let s1 = >>=-eq-ok (require_text d.reason) _ h in
      let s2 = >>=-eq-ok (require_ts py d.at) _ s1.2 in
      record { stored = s1.0; at = s2.0; ref = none; same = sym (ok-injective s2.2) }

  keys_for-named :
      (review : Artifact) (index : Json) (n : Named) (f : Fields)
      → keys_for py review index ≡ ok n
      → finding_at review.findings index ≡ ok f
      → n.fkey ≡ key_of py f
  unfolding keys_for
  keys_for-named review index n f h g = ground arith

  floor_passed :
      (reason : Text) (u : Unit {0})
      → validate_reason py reason ≡ ok u
      → validate_reason py reason ≡ ok tt
  floor_passed reason tt h = h

  recorded :
      (review : Artifact) (n : Named) (f : Fields) (reason : Text) (kind : EventKind)
      (stored : Text) (at : Json) (ref : Option Text) (events : List Event)
      → n.fkey ≡ key_of py f
      → validate_reason py reason ≡ ok tt
      → IsRecorded py review f reason kind events
          (append_triage_event kind (Verbs.decision review n) stored at ref events)
  unfolding append_triage_event
  recorded review n f reason kind stored at ref events k v = record {
    event = triage_event kind (Verbs.decision review n) stored at ref;
    appended = refl;
    of_kind = refl;
    on_finding = k;
    on_branch = refl;
    on_base = refl;
    floor = v;
  }

  pub dismiss-IsRecorded :
      (value index : Json) (reason : Text) (now : Json) (events : List Event) (r : Recorded)
      (review : Artifact) (f : Fields)
      → Verbs.dismiss py value index reason now events ≡ ok r
      → load_valid_artifact value ≡ ok review
      → finding_at review.findings index ≡ ok f
      → IsRecorded py review f reason Ledger.dismiss events r.events
  unfolding Verbs.dismiss add_triage
  dismiss-IsRecorded value index reason now events r review f h l g =
      let r1 = >>=-eq-ok (load_valid_artifact value) _ h in
      let r2 = >>=-eq-ok (validate_reason py reason) _ r1.2 in
      let r3 = >>=-eq-ok (keys_for py r1.0 index) _ r2.2 in
      let same : review ≡ r1.0 = ok-injective (sym l ∙ r1.1) in
      let named = keys_for-named r1.0 index r3.0 f r3.1 (rw (sym same) g) in
      let left : r.events ≡ _ = ap (λ x. x.events) (sym (ok-injective r3.2)) in
      rw (same, left)
        (recorded r1.0 r3.0 f reason Ledger.dismiss reason now none events named
          (floor_passed reason r2.0 r2.1))

  pub defer-IsRecorded :
      (value index ref : Json) (reason : Text) (now : Json) (events : List Event) (r : Recorded)
      (review : Artifact) (f : Fields)
      → Verbs.defer py value index ref reason now events ≡ ok r
      → load_valid_artifact value ≡ ok review
      → finding_at review.findings index ≡ ok f
      → IsRecorded py review f reason Ledger.defer events r.events
  unfolding Verbs.defer
  defer-IsRecorded value index ref reason now events r review f h l g =
      let r1 = >>=-eq-ok (load_valid_artifact value) _ h in
      let r2 = >>=-eq-ok (keys_for py r1.0 index) _ r1.2 in
      let r3 = >>=-eq-ok (validate_tracking_ref py ref) _ r2.2 in
      let r4 = >>=-eq-ok (validate_reason py reason) _ r3.2 in
      let r5 =
        >>=-eq-ok (triage_defer py (Verbs.decided r1.0 r2.0 reason now (some r3.0)) events) _
          r4.2 in
      let written =
        triage_defer-ok (Verbs.decided r1.0 r2.0 reason now (some r3.0)) events r5.0 r5.1 in
      let same : review ≡ r1.0 = ok-injective (sym l ∙ r1.1) in
      let named = keys_for-named r1.0 index r2.0 f r2.1 (rw (sym same) g) in
      let left : r.events ≡ r5.0 = ap (λ x. x.events) (sym (ok-injective r5.2)) in
      let whole = left ∙ written.same in
      rw (same, whole)
        (recorded r1.0 r2.0 f reason Ledger.defer written.stored written.at written.ref events named
          (floor_passed reason r4.0 r4.1))

  pub reopen-IsRecorded :
      (value index : Json) (reason : Text) (now : Json) (events : List Event) (r : Recorded)
      (review : Artifact) (f : Fields)
      → Verbs.reopen py value index reason now events ≡ ok r
      → load_valid_artifact value ≡ ok review
      → finding_at review.findings index ≡ ok f
      → IsRecorded py review f reason Ledger.reopen events r.events
        × (is_cleared py review (key_of py f) events ≡ true)
  unfolding Verbs.reopen
  reopen-IsRecorded value index reason now events r review f h l g =
      let r1 = >>=-eq-ok (load_valid_artifact value) _ h in
      let r2 = >>=-eq-ok (keys_for py r1.0 index) _ r1.2 in
      let r3 = >>=-eq-ok (validate_reason py reason) _ r2.2 in
      let r4 = require-ok (is_cleared py r1.0 r2.0.fkey events) _ _ r3.2 in
      let r5 =
        >>=-eq-ok (triage_reopen py (Verbs.decided r1.0 r2.0 reason now none) events) _ r4.1 in
      let written = triage_reopen-ok (Verbs.decided r1.0 r2.0 reason now none) events r5.0 r5.1 in
      let same : review ≡ r1.0 = ok-injective (sym l ∙ r1.1) in
      let named = keys_for-named r1.0 index r2.0 f r2.1 (rw (sym same) g) in
      let left : r.events ≡ r5.0 = ap (λ x. x.events) (sym (ok-injective r5.2)) in
      let whole = left ∙ written.same in
      rw (same, whole)
        (
          recorded r1.0 r2.0 f reason Ledger.reopen written.stored written.at written.ref events
              named (floor_passed reason r3.0 r3.1),
          rw (sym named) r4.0,
        )
