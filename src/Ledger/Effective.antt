-- ===== src/Ledger/Effective.antt =====
-- The state of a finding is its last event in the scope.
use skodun.Prelude.{
  ◌≡◌, refl, ap, ◌∙◌, Bool, true, false, ◌&&◌, Option, none, some, List, [], ◌∷◌, ◌++◌, arith,
  Bool-cases, inl, inr, if◌then◌else◌, keep,
}
use skodun.Prelude.Text.{Text, text_eq, text_eq_iff}
use skodun.Ledger
use skodun.Ledger.{
  EventKind, is_clearing, Event, Decision, State, States, note_event, note, note_all, in_scope,
  triage_state, triage_for, clears, state_of, has_key, append_triage_event,
}

-- The last event of a finding among those of a list, by reading it in order.
pub last_from : Option Event → Text → List Event → Option Event
last_from found key [] = found
last_from found key (e ∷ es) =
    last_from (if text_eq e.finding_key key then some e else found) key es

-- The last event of the finding in a scope.
pub last_event : Text → Text → Text → List Event → Option Event
last_event branch base_sha key events = last_from none key (keep (in_scope branch base_sha) events)

abbrev pub last_of : Option State → Option Event
last_of none = none
last_of (some st) = some st.last

last-note_event : (e : Event) (st : State) → (note_event e st).last ≡ e
unfolding note_event
last-note_event e st = ground arith

last-note :
    (e : Event) (key : Text) (states : States)
    → last_of (state_of key (note e states))
      ≡ (if text_eq e.finding_key key then some e else last_of (state_of key states))
unfolding note state_of
last-note e key [] = ground (arith, last-note_event e (Ledger.first_state e))
last-note e key ((k, st) ∷ states) = ground (
  arith,
  text_eq_iff k e.finding_key,
  text_eq_iff k key,
  text_eq_iff e.finding_key key,
  last-note_event e st,
  last-note e key states,
)

last-note_all :
    (key : Text) (states : States) (es : List Event)
    → last_of (state_of key (note_all states es)) ≡ last_from (last_of (state_of key states)) key es
unfolding note_all last_from
last-note_all key states [] = refl
last-note_all key states (e ∷ es) =
    last-note_all key (note e states) es ∙ ap (λ o. last_from o key es) (last-note e key states)

-- No key stands twice.
abbrev IsUnique : States → Type 0
IsUnique [] = Unit
IsUnique ((k, st) ∷ states) = (has_key k states ≡ false) × IsUnique states

has_key-note :
    (e : Event) (key : Text) (states : States)
    → has_key key (note e states) ≡ (if text_eq e.finding_key key then true else has_key key states)
unfolding note has_key
has_key-note e key [] = ground arith
has_key-note e key ((k, st) ∷ states) = ground (
  arith,
  text_eq_iff k e.finding_key,
  text_eq_iff k key,
  text_eq_iff e.finding_key key,
  has_key-note e key states,
)

note-IsUnique : (e : Event) (states : States) → IsUnique states → IsUnique (note e states)
unfolding note has_key
note-IsUnique e [] u = (refl, tt)
note-IsUnique e ((k, st) ∷ states) u = elim (Bool-cases (text_eq k e.finding_key)) [
  | inl same ↦ rw same u
  | inr other ↦ rw other (
    ground (
      arith,
      has_key-note e k states,
      text_eq_iff k e.finding_key,
      text_eq_iff e.finding_key k,
      u.0,
    ),
    note-IsUnique e states u.1,
  )
]

pub note_all-IsUnique :
    (states : States) (es : List Event) → IsUnique states → IsUnique (note_all states es)
unfolding note_all
note_all-IsUnique states [] u = u
note_all-IsUnique states (e ∷ es) u =
    note_all-IsUnique (note e states) es (note-IsUnique e states u)

abbrev pub clearing_event : Option Event → Bool
clearing_event none = false
clearing_event (some e) = is_clearing e.event

has_key-missing :
    (key : Text) (states : States)
    → has_key key states ≡ false
    → has_key key (keep clears states) ≡ false
unfolding has_key keep
has_key-missing key [] h = refl
has_key-missing key ((k, st) ∷ states) h = ground (arith, has_key-missing key states)

pub has_key-clears :
    (key : Text) (states : States)
    → IsUnique states
    → has_key key (keep clears states) ≡ clearing_event (last_of (state_of key states))
unfolding has_key keep state_of
has_key-clears key [] u = refl
has_key-clears key ((k, st) ∷ states) u = ground (
  arith,
  text_eq_iff k key,
  has_key-clears key states u.1,
  has_key-missing key states,
  u.0,
  ap (λ j. has_key j states),
)

-- A finding is cleared in a scope exactly if the last event that the stream holds for it there is a
-- dismissal or a deferral: an earlier decision never counts, and neither does another scope.
pub triage_for-last_event :
    (branch base_sha key : Text) (events : List Event)
    → has_key key (triage_for branch base_sha events)
      ≡ clearing_event (last_event branch base_sha key events)
unfolding triage_for triage_state last_event
triage_for-last_event branch base_sha key events =
    has_key-clears key (note_all [] (keep (in_scope branch base_sha) events))
      (note_all-IsUnique [] (keep (in_scope branch base_sha) events) tt)
    ∙ ap clearing_event (last-note_all key [] (keep (in_scope branch base_sha) events))
    ∙ (unfold state_of in refl)

last_from-append :
    (found : Option Event) (key : Text) (es : List Event) (e : Event)
    → last_from found key (es ++ e ∷ [])
      ≡ (if text_eq e.finding_key key then some e else last_from found key es)
unfolding last_from
last_from-append found key [] e = refl
last_from-append found key (x ∷ es) e =
    last_from-append (if text_eq x.finding_key key then some x else found) key es e

keep-snoc :
    (p : Event → Bool) (es : List Event) (e : Event)
    → keep p (es ++ e ∷ []) ≡ (if p e then keep p es ++ e ∷ [] else keep p es)
unfolding keep
keep-snoc p [] e = refl
keep-snoc p (x ∷ es) e = ground (arith, keep-snoc p es e)

-- What one more event changes: the last event of its own finding in its own scope.
pub last_event-append :
    (branch base_sha key : Text) (events : List Event) (e : Event)
    → last_event branch base_sha key (events ++ e ∷ []) ≡ (
        if in_scope branch base_sha e && text_eq e.finding_key key
        then some e
        else last_event branch base_sha key events)
unfolding last_event
last_event-append branch base_sha key events e =
    ap (last_from none key) (keep-snoc (in_scope branch base_sha) events e)
    ∙ ground (arith, last_from-append none key (keep (in_scope branch base_sha) events) e)

-- After one more event a finding is cleared in a scope as before, except that the event's own finding is
-- cleared in the event's own scope exactly if the event is a dismissal or a deferral.
pub triage_for-append :
    (branch base_sha key : Text) (events : List Event) (e : Event)
    → has_key key (triage_for branch base_sha (events ++ e ∷ [])) ≡ (
        if in_scope branch base_sha e && text_eq e.finding_key key
        then is_clearing e.event
        else has_key key (triage_for branch base_sha events))
triage_for-append branch base_sha key events e = ground (
  arith,
  triage_for-last_event branch base_sha key (events ++ e ∷ []),
  triage_for-last_event branch base_sha key events,
  last_event-append branch base_sha key events e,
)

-- The effective event of a finding clears it exactly if the finding is among those of `triage_for`.
pub triage_state-clears :
    (branch base_sha key : Text) (events : List Event)
    → has_key key (triage_for branch base_sha events)
      ≡ clearing_event (last_of (state_of key (triage_state branch base_sha events)))
unfolding triage_for triage_state
triage_state-clears branch base_sha key events =
    has_key-clears key (note_all [] (keep (in_scope branch base_sha) events))
      (note_all-IsUnique [] (keep (in_scope branch base_sha) events) tt)
