-- ===== src/Ledger.antt =====
-- The append-only triage event stream of store.py and the effective state that it defines. The stream is
-- the list of its events in the order of `seq`.
pub mod Effective
use skodun.Prelude.{
  Bool, true, false, ◌&&◌, Option, none, some, List, [], ◌∷◌, ◌++◌, if◌then◌else◌, keep, ℕ, take,
}
use mathlib.Core.List.{reverse}
use skodun.Prelude.Text.{Text, text_eq}
use skodun.Json.{Json}

pub data EventKind : Type 0 where
  dismiss reopen defer : EventKind

-- `event in Store.CLEARING_EVENTS`
abbrev pub is_clearing : EventKind → Bool
is_clearing dismiss = true
is_clearing defer = true
is_clearing reopen = false

pub record Event : Type 0 where
  pub ledger_key : Text
  pub finding_key : Text
  pub event : EventKind
  pub review_id : Text
  pub branch : Text
  pub base_sha : Text
  pub file : Json
  pub line : Json
  pub severity : Json
  pub title : Json
  pub reason : Text
  pub at : Json
  pub tracking_ref : Option Text

-- The columns that the three verbs share, as `triage.py` hands them over.
pub record Decision : Type 0 where
  pub ledger_key : Text
  pub finding_key : Text
  pub id : Text
  pub branch : Text
  pub base_sha : Text
  pub file : Json
  pub line : Json
  pub severity : Json
  pub title : Json

abbrev pub triage_event : EventKind → Decision → Text → Json → Option Text → Event
triage_event kind rec reason at tracking_ref = record {
  ledger_key = rec.ledger_key;
  finding_key = rec.finding_key;
  event = kind;
  review_id = rec.id;
  branch = rec.branch;
  base_sha = rec.base_sha;
  file = rec.file;
  line = rec.line;
  severity = rec.severity;
  title = rec.title;
  reason = reason;
  at = at;
  tracking_ref = tracking_ref;
}

-- `_append_triage_event`
unfoldable pub append_triage_event :
    EventKind → Decision → Text → Json → Option Text → List Event → List Event
append_triage_event kind rec reason at tracking_ref events =
    events ++ triage_event kind rec reason at tracking_ref ∷ []

-- One value of `triage_state`: the last event, and the last of each verb on its own.
pub record State : Type 0 where
  pub last : Event
  pub dismissed : Option Event
  pub reopened : Option Event
  pub deferred : Option Event

abbrev pub first_state : Event → State
first_state e = record { last = e; dismissed = none; reopened = none; deferred = none }

-- The loop's body: the event overwrites the columns, and its verb's own fields.
abbrev note_verb : EventKind → Event → State → State
note_verb dismiss e st = record st { last = e; dismissed = some e }
note_verb reopen e st = record st { last = e; reopened = some e }
note_verb defer e st = record st { last = e; deferred = some e }

unfoldable pub note_event : Event → State → State
note_event e st = note_verb e.event e st

-- The dictionary `state`, in the order of its keys' first appearance.
abbrev pub States : Type 0
States = List (Text × State)

-- `state.setdefault(key, …)` and `cur.update(…)`.
unfoldable pub note : Event → States → States
unfolding note_event
note e [] = (e.finding_key, note_event e (first_state e)) ∷ []
note e ((k, st) ∷ states) =
    if text_eq k e.finding_key then (k, note_event e st) ∷ states else (k, st) ∷ note e states

unfoldable pub note_all : States → List Event → States
unfolding note
note_all states [] = states
note_all states (e ∷ es) = note_all (note e states) es

-- `WHERE branch=? AND base_sha=?`
unfoldable pub in_scope : Text → Text → Event → Bool
in_scope branch base_sha e = text_eq e.branch branch && text_eq e.base_sha base_sha

unfoldable pub triage_state : Text → Text → List Event → States
unfolding note_all in_scope
triage_state branch base_sha events = note_all [] (keep (in_scope branch base_sha) events)

abbrev pub clears : Text × State → Bool
clears (k, st) = is_clearing st.last.event

unfoldable pub triage_for : Text → Text → List Event → States
unfolding triage_state
triage_for branch base_sha events = keep clears (triage_state branch base_sha events)

-- `states.get(key)`
unfoldable pub state_of : Text → States → Option State
state_of key [] = none
state_of key ((k, st) ∷ states) = if text_eq k key then some st else state_of key states

-- `key in states`
unfoldable pub has_key : Text → States → Bool
has_key key [] = false
has_key key ((k, st) ∷ states) = if text_eq k key then true else has_key key states

unfoldable pub triage_history : Text → List Event → List Event
triage_history key events = keep (λ e. text_eq e.ledger_key key) events
