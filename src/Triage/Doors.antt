-- ===== src/Triage/Doors.antt =====
-- The writers of the triage stream in store.py, with what they require of a record.
use skodun.Prelude.{
  ℕ, Bool, true, false, ◌&&◌, not, Option, none, some, List, [], ◌∷◌, is_empty, leb, ◌==◌,
  if◌then◌else◌,
}
use skodun.Prelude.Text.{Text, codes}
use skodun.Json.{Json, str}
use skodun.Textnorm.{Python, strip}
use skodun.Ledger.{Event, Decision, append_triage_event, dismiss, reopen, defer}
use skodun.Triage.Result.{Result, ok, err, value_error, ◌>>◌, ◌>>=◌, require}

-- The dictionary that a verb hands to the store and returns.
pub record Decided : Type 0 where
  pub decision : Decision
  pub reason : Text
  pub at : Json
  pub tracking_ref : Option Text

-- One character against one of the pattern `_TS_RE`, where `d` stands for `[0-9]`.
abbrev fits_char : ℕ → ℕ → Bool
fits_char p c = if p == 100 then leb 48 c && leb c 57 else p == c

unfoldable pub fits : Text → Text → Bool
fits [] [] = true
fits [] (c ∷ s) = false
fits (p ∷ ps) [] = false
fits (p ∷ ps) (c ∷ s) = fits_char p c && fits ps s

unfoldable pub require_text : Text → Result Text
unfolding strip
require_text value = do require (not (is_empty (strip value))) value_error; ok (strip value)

unfoldable pub add_triage : Decided → List Event → List Event
unfolding append_triage_event
add_triage d events = append_triage_event dismiss d.decision d.reason d.at none events

module _ (py : Python) where
  unfoldable pub is_canonical_ts : Json → Bool
  unfolding fits
  is_canonical_ts (str value) = fits (codes "dddd-dd-ddTdd:dd:ddZ") value && py.is_time value
  is_canonical_ts _ = false

  unfoldable pub require_ts : Json → Result Json
  unfolding is_canonical_ts
  require_ts value = do require (is_canonical_ts value) value_error; ok value

  unfoldable pub triage_reopen : Decided → List Event → Result (List Event)
  unfolding append_triage_event require_text require_ts
  triage_reopen d events = do
    reason ← require_text d.reason
    at ← require_ts d.at
    ok (append_triage_event reopen d.decision reason at none events)

  abbrev pub ref_text : Option Text → Result Text
  ref_text none = err value_error
  ref_text (some ref) = require_text ref

  unfoldable pub triage_defer : Decided → List Event → Result (List Event)
  unfolding append_triage_event require_text require_ts
  triage_defer d events = do
    reason ← require_text d.reason
    tracking_ref ← ref_text d.tracking_ref
    at ← require_ts d.at
    ok (append_triage_event defer d.decision reason at (some tracking_ref) events)
