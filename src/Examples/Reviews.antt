-- ===== src/Examples/Reviews.antt =====
-- triage.py and the triage stream on a review of two findings.
use skodun.Prelude.{
  ◌≡◌, refl, ◌↔◌, true, false, not, ◌&&◌, ◌||◌, none, some, [], ◌∷◌, ◌++◌, keep, if◌then◌else◌,
}
use skodun.Prelude.Text.{Text, codes, text_eq}
use skodun.Prelude.Int.{pos}
use skodun.Json.{Json, str, int, bool, arr, obj, Fields, end, field, nil, cons}
use skodun.Ledger
use skodun.Ledger.{Event, triage_for, has_key, in_scope, is_clearing}
use skodun.Ledger.Effective.{triage_for-last_event, triage_for-append, clearing_event, last_event}
use skodun.Triage.Result.{ok}
use skodun.Triage.Artifact.{Artifact, load_valid_artifact}
use skodun.Triage.Checked.{IsChecked, load_valid_artifact_iff}
use skodun.Triage.Verbs
use skodun.Triage.Verbs.{Recorded, decided, Named, keys_for, finding_at, key_of, open_findings}
use skodun.Triage.Open.{is_open, dismiss_closes, reopen_opens}
use skodun.Triage.Refuter.{adopt_refuter}
use skodun.Triage.Adopt.{IsAdopted, adopt_refuter-IsAdopted}
use skodun.Examples.Host.{ascii}

abbrev annotation : Fields
annotation = field (codes "verdict") (str (codes "refuted")) (
    field (codes "reasoning") (str (codes "the guard is checked by the caller"))
      (field (codes "provider") (str (codes "xai")) (field (codes "model") (str (codes "m")) end)))

abbrev race : Fields
race =
    field (codes "file") (str (codes "a.py"))
      (field (codes "title") (str (codes "race")) (field (codes "refuter") (obj annotation) end))

abbrev leak : Fields
leak = field (codes "file") (str (codes "b.py")) (field (codes "title") (str (codes "leak")) end)

abbrev refuter : Fields
refuter = field (codes "ran") (bool true) (
    field (codes "contributing_providers") (arr (cons (str (codes "openai-api")) nil))
      (field (codes "provider") (str (codes "xai")) (field (codes "model") (str (codes "m")) end)))

abbrev pub rec : Fields
rec = field (codes "id") (str (codes "r1")) (
    field (codes "branch") (str (codes "main")) (
      field (codes "base_sha") (str (codes "b1")) (
        field (codes "findings") (arr (cons (obj race) (cons (obj leak) nil))) (
          field (codes "findings_total") (int (pos 2))
            (field (codes "extra_passes") (obj (field (codes "refuter") (obj refuter) end)) end)))))

abbrev review : Artifact
review = record {
  rec = rec;
  id = codes "r1";
  branch = codes "main";
  base_sha = codes "b1";
  findings = race ∷ leak ∷ [];
}

loads : load_valid_artifact (obj rec) ≡ ok review
unfolding load_valid_artifact text_eq
loads = refl

load_valid_artifact_iff_example :
    (load_valid_artifact (obj rec) ≡ ok review) ↔ IsChecked (obj rec) review
load_valid_artifact_iff_example = load_valid_artifact_iff (obj rec) review

abbrev why : Text
why = codes "the lock is held by the caller"

abbrev at : Json
at = str (codes "2026-07-28T12:00:00Z")

abbrev named : Named
named = record {
  finding = race;
  fkey = codes "a.py" ++ 0 ∷ codes "race";
  lkey = codes "main" ++ 0 ∷ (codes "b1" ++ 0 ∷ (codes "a.py" ++ 0 ∷ codes "race"));
}

abbrev dismissed : Event
dismissed = Ledger.triage_event Ledger.dismiss (Verbs.decision review named) why at none

abbrev after_dismiss : Recorded
after_dismiss = record { rec = decided review named why at none; events = dismissed ∷ [] }

first_finding : finding_at review.findings (int (pos 0)) ≡ ok race
unfolding finding_at
first_finding = refl

dismiss_runs : Verbs.dismiss ascii (obj rec) (int (pos 0)) why at [] ≡ ok after_dismiss
unfolding Verbs.dismiss
dismiss_runs = refl

dismiss_closes_example :
    open_findings ascii (obj rec) (triage_for (codes "main") (codes "b1") (dismissed ∷ []))
    ≡ ok (
        keep
          (λ g. not (text_eq (key_of ascii race) (key_of ascii g)) && is_open ascii review [] g)
          (race ∷ leak ∷ []))
dismiss_closes_example =
    dismiss_closes ascii (obj rec) (int (pos 0)) why at [] after_dismiss review race dismiss_runs
      loads first_finding

abbrev deferred : Event
deferred =
    Ledger.triage_event Ledger.defer (Verbs.decision review named) why at (some (codes "#12"))

abbrev after_defer : Recorded
after_defer = record {
  rec = decided review named why at (some (codes "#12"));
  events = deferred ∷ [];
}

defer_runs :
    Verbs.defer ascii (obj rec) (int (pos 0)) (str (codes "#12")) why at [] ≡ ok after_defer
unfolding Verbs.defer
defer_runs = refl

abbrev reopened : Event
reopened = Ledger.triage_event Ledger.reopen (Verbs.decision review named) why at none

abbrev after_reopen : Recorded
after_reopen = record { rec = decided review named why at none; events = dismissed ∷ reopened ∷ [] }

reopen_runs : Verbs.reopen ascii (obj rec) (int (pos 0)) why at (dismissed ∷ []) ≡ ok after_reopen
unfolding Verbs.reopen keep
reopen_runs = refl

reopen_opens_example :
    (is_open ascii review (dismissed ∷ []) race ≡ false)
    × (open_findings ascii
          (obj rec)
          (triage_for (codes "main") (codes "b1") (dismissed ∷ reopened ∷ []))
        ≡ ok (
            keep
              (λ g.
                text_eq (key_of ascii race) (key_of ascii g)
                || is_open ascii review (dismissed ∷ []) g)
              (race ∷ leak ∷ [])))
reopen_opens_example =
    reopen_opens ascii (obj rec) (int (pos 0)) why at (dismissed ∷ []) after_reopen review race
      reopen_runs loads first_finding

triage_for-last_event_example :
    has_key named.fkey (triage_for (codes "main") (codes "b1") (dismissed ∷ reopened ∷ []))
    ≡ clearing_event (last_event (codes "main") (codes "b1") named.fkey (dismissed ∷ reopened ∷ []))
triage_for-last_event_example =
    triage_for-last_event (codes "main") (codes "b1") named.fkey (dismissed ∷ reopened ∷ [])

triage_for-append_example :
    has_key named.fkey (triage_for (codes "main") (codes "b1") (dismissed ∷ reopened ∷ [])) ≡ (
      if in_scope (codes "main") (codes "b1") reopened && text_eq reopened.finding_key named.fkey
      then is_clearing reopened.event
      else has_key named.fkey (triage_for (codes "main") (codes "b1") (dismissed ∷ [])))
triage_for-append_example =
    triage_for-append (codes "main") (codes "b1") named.fkey (dismissed ∷ []) reopened

abbrev attributed_reason : Text
attributed_reason = codes "refuter(xai/m): the guard is checked by the caller"

abbrev after_adopt : Recorded
after_adopt = record {
  rec = decided review named attributed_reason at none;
  events =
      Ledger.triage_event Ledger.dismiss (Verbs.decision review named) attributed_reason at none
      ∷ [];
}

adopt_runs : adopt_refuter ascii (obj rec) (int (pos 0)) at [] ≡ ok after_adopt
unfolding adopt_refuter
adopt_runs = refl

adopt_refuter-IsAdopted_example : IsAdopted ascii (obj rec) (int (pos 0)) at [] after_adopt
adopt_refuter-IsAdopted_example =
    adopt_refuter-IsAdopted ascii (obj rec) (int (pos 0)) at [] after_adopt adopt_runs
