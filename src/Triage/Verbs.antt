-- ===== src/Triage/Verbs.antt =====
-- The verbs of triage.py: naming a finding, dismissing, deferring and reopening it, and what stays open.
use skodun.Prelude.{Bool, false, not, Option, none, some, List, [], keep, get_elem?}
use skodun.Prelude.Text.{Text, codes}
use skodun.Prelude.Int.{pos, negsuc}
use skodun.Json.{Json, int, str, Fields, get_default, get_or_null}
use skodun.Textnorm.{Python, finding_key, ledger_key}
use skodun.Ledger.{Event, is_clearing, Decision, State, States, triage_state, state_of, has_key}
use skodun.Triage.Result.{
  Result, ok, err, finding_not_found, triage_error, not_cleared, ◌>>◌, ◌>>=◌, require,
}
use skodun.Triage.Artifact.{Artifact, load_valid_artifact}
use skodun.Triage.Floors.{validate_reason, validate_tracking_ref}
use skodun.Triage.Doors.{Decided, add_triage, triage_reopen, triage_defer}

-- What a verb leaves: the dictionary that it returns, and the stream.
pub record Recorded : Type 0 where
  pub rec : Decided
  pub events : List Event

-- `(finding, finding_key, ledger_key)`
pub record Named : Type 0 where
  pub finding : Fields
  pub fkey : Text
  pub lkey : Text

abbrev pub found : Option Fields → Result Fields
found none = err finding_not_found
found (some f) = ok f

-- `_finding_at`: Booleans, other values, negative numbers and numbers past the end name nothing.
unfoldable pub finding_at : List Fields → Json → Result Fields
finding_at findings (int (pos i)) = found (get_elem? findings i)
finding_at findings (int (negsuc i)) = err finding_not_found
finding_at findings _ = err finding_not_found

abbrev pub decision : Artifact → Named → Decision
decision review n = record {
  ledger_key = n.lkey;
  finding_key = n.fkey;
  id = review.id;
  branch = review.branch;
  base_sha = review.base_sha;
  file = get_or_null (codes "file") n.finding;
  line = get_or_null (codes "line") n.finding;
  severity = get_or_null (codes "severity") n.finding;
  title = get_or_null (codes "title") n.finding;
}

abbrev pub decided : Artifact → Named → Text → Json → Option Text → Decided
decided review n reason now tracking_ref = record {
  decision = decision review n;
  reason = reason;
  at = now;
  tracking_ref = tracking_ref;
}

abbrev pub clearing_state : Option State → Bool
clearing_state none = false
clearing_state (some st) = is_clearing st.last.event

module _ (py : Python) where
  unfoldable pub key_of : Fields → Text
  unfolding finding_key get_default
  key_of f =
      finding_key py (get_default (codes "file") (str []) f)
        (get_default (codes "title") (str []) f)

  unfoldable pub keys_for : Artifact → Json → Result Named
  unfolding finding_at key_of ledger_key
  keys_for review index = do
    f ← finding_at review.findings index
    let fkey = key_of f
    ok (record {
      finding = f;
      fkey = fkey;
      lkey = ledger_key py review.branch review.base_sha fkey;
    })

  unfoldable pub dismiss : Json → Json → Text → Json → List Event → Result Recorded
  unfolding load_valid_artifact validate_reason keys_for add_triage
  dismiss value index reason now events = do
    review ← load_valid_artifact value
    validate_reason py reason
    n ← keys_for review index
    let rec = decided review n reason now none
    ok (record { rec = rec; events = add_triage rec events })

  unfoldable pub defer : Json → Json → Json → Text → Json → List Event → Result Recorded
  unfolding load_valid_artifact validate_reason validate_tracking_ref keys_for triage_defer
  defer value index tracking_ref reason now events = do
    review ← load_valid_artifact value
    n ← keys_for review index
    ref ← validate_tracking_ref py tracking_ref
    validate_reason py reason
    let rec = decided review n reason now (some ref)
    events' ← triage_defer py rec events
    ok (record { rec = rec; events = events' })

  -- `_effective_event(…) in Store.CLEARING_EVENTS`
  unfoldable pub is_cleared : Artifact → Text → List Event → Bool
  unfolding triage_state state_of
  is_cleared review fkey events =
      clearing_state (state_of fkey (triage_state review.branch review.base_sha events))

  unfoldable pub reopen : Json → Json → Text → Json → List Event → Result Recorded
  unfolding load_valid_artifact validate_reason keys_for is_cleared triage_reopen
  reopen value index reason now events = do
    review ← load_valid_artifact value
    n ← keys_for review index
    validate_reason py reason
    require (is_cleared review n.fkey events) (triage_error not_cleared)
    let rec = decided review n reason now none
    events' ← triage_reopen py rec events
    ok (record { rec = rec; events = events' })

  unfoldable pub open_findings : Json → States → Result (List Fields)
  unfolding load_valid_artifact key_of has_key keep
  open_findings value triaged = do
    review ← load_valid_artifact value
    ok (keep (λ f. not (has_key (key_of f) triaged)) review.findings)
