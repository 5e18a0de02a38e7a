-- ===== src/Triage/Refuter.antt =====
-- refuter_policy.py, and how triage.py reads a refuter's annotation and adopts it.
use skodun.Prelude.{
  Bool, false, not, ◌||◌, Option, none, some, List, [], ◌∷◌, ◌++◌, if◌then◌else◌, is_empty,
}
use skodun.Prelude.Text.{Text, codes, text_eq, is_in}
use skodun.Json.{Json, str, arr, obj, Items, nil, cons, Fields, get_or_null, is_true}
use skodun.Textnorm.{Python, collapse_ws}
use skodun.Trust.{one_line}
use skodun.Ledger.{Event}
use skodun.Triage.Result.{
  Result, ok, err, triage_error, Refusal, no_refuter_pass, no_annotation, no_verdict, other_verdict,
  thin_reasoning, reasoning_not_text, unattributed, unknown_family, same_family, other_pass, ◌>>=◌,
  ◌>>◌, require,
}
use skodun.Triage.Artifact.{load_valid_artifact}
use skodun.Triage.Floors.{validate_reason}
use skodun.Triage.Verbs
use skodun.Triage.Verbs.{Recorded, finding_at}

abbrev pub refuter_key : Text
refuter_key = codes "refuter"

-- `value if isinstance(value, dict) else None`
abbrev pub object_of : Json → Option Fields
object_of (obj fs) = some fs
object_of _ = none

abbrev pub string_of : Json → Option Text
string_of (str s) = some s
string_of _ = none

unfoldable pub refuter_annotation : Fields → Option Fields
unfolding get_or_null
refuter_annotation finding = object_of (get_or_null refuter_key finding)

-- `extra_passes["refuter"]` of a record that has one.
abbrev meta_in : Option Fields → Option Fields
meta_in none = none
meta_in (some extras) = object_of (get_or_null refuter_key extras)

unfoldable pub refuter_meta : Fields → Option Fields
unfolding get_or_null
refuter_meta review = meta_in (object_of (get_or_null (codes "extra_passes") review))

abbrev pub says_ran : Option Fields → Bool
says_ran none = false
says_ran (some meta) = is_true (get_or_null (codes "ran") meta)

unfoldable pub refuter_pass_ran : Fields → Bool
unfolding refuter_meta
refuter_pass_ran review = says_ran (refuter_meta review)

abbrev known_family : Text → Option Text
known_family p =
    if text_eq p (codes "openai-api")
    then some (codes "openai")
    else if is_in p (codes "openai" ∷ codes "xai" ∷ codes "google" ∷ codes "junie" ∷ [])
    then some p
    else none

abbrev cons_family : Option Text → Option (List Text) → Option (List Text)
cons_family (some f) (some fs) = some (f ∷ fs)
cons_family _ _ = none

abbrev pub is_family : Option Text → Text → Bool
is_family none p = false
is_family (some q) p = text_eq q p

abbrev pub is_model : Json → Text → Bool
is_model (str s) t = text_eq s t
is_model _ t = false

abbrev pub needed {ℓ} : {A : Type ℓ} → Refusal → Option A → Result A
needed why none = err (triage_error why)
needed why (some a) = ok a

abbrev pub unless_refused : Option Refusal → Result (Unit {0})
unless_refused none = ok tt
unless_refused (some why) = err (triage_error why)

module _ (py : Python) where
  unfoldable pub provider_family : Json → Option Text
  unfolding text_eq is_in
  provider_family (str value) = known_family (py.lower value)
  provider_family _ = none

  unfoldable pub families_of : Items → Option (List Text)
  unfolding provider_family
  families_of nil = some []
  families_of (cons v vs) = cons_family (provider_family v) (families_of vs)

  unfoldable pub contributor_families : Json → Option (List Text)
  unfolding families_of
  contributor_families (arr (cons v vs)) = families_of (cons v vs)
  contributor_families _ = none

  abbrev lower_of : Json → Text
  lower_of (str s) = py.lower s
  lower_of _ = []

  -- The checks after both families are known.
  abbrev pub refusal_among : Fields → Text → Text → List Text → Text → Option Refusal
  refusal_among meta provider model contributors family =
      if is_true (get_or_null (codes "same_provider_as_finder") meta) || is_in family contributors
      then some same_family
      else if not (is_family (provider_family (str provider)) family)
          || not (text_eq (py.lower provider) (lower_of (get_or_null (codes "provider") meta)))
          || not (is_model (get_or_null (codes "model") meta) model)
      then some other_pass
      else none

  abbrev pub refusal_of : Fields → Text → Text → Option (List Text) → Option Text → Option Refusal
  refusal_of meta provider model (some contributors) (some family) =
      refusal_among meta provider model contributors family
  refusal_of meta provider model _ _ = some unknown_family

  -- The annotation's provider and model are texts where this is called: `_attribution` has passed them.
  unfoldable pub adoption_refusal : Fields → Text → Text → Option Refusal
  unfolding contributor_families provider_family is_in text_eq get_or_null
  adoption_refusal meta provider model =
      refusal_of meta provider model
        (contributor_families (get_or_null (codes "contributing_providers") meta))
        (provider_family (get_or_null (codes "provider") meta))

  abbrev pub attributed : Option Text → Result Text
  attributed none = err (triage_error unattributed)
  attributed (some s) =
      if is_empty (collapse_ws py (str s)) then err (triage_error unattributed) else ok s

  -- `_attribution`, before `one_line` is applied to what it returns.
  unfoldable pub attribution : Fields → Text → Result Text
  unfolding collapse_ws get_or_null
  attribution annotation field = attributed (string_of (get_or_null field annotation))

  abbrev pub adopted_reason : Text → Text → Text → Text
  adopted_reason provider model reasoning =
      refuter_key
      ++ codes "("
      ++ one_line py (str provider)
      ++ codes "/"
      ++ one_line py (str model)
      ++ codes "): "
      ++ reasoning

  unfoldable pub adopt_refuter : Json → Json → Json → List Event → Result Recorded
  unfolding load_valid_artifact finding_at refuter_meta refuter_pass_ran refuter_annotation
      attribution adoption_refusal validate_reason one_line text_eq Verbs.dismiss
  adopt_refuter value index now events = do
    review ← load_valid_artifact value
    finding ← finding_at review.findings index
    require (refuter_pass_ran review.rec) (triage_error no_refuter_pass)
    annotation ← needed no_annotation (refuter_annotation finding)
    verdict ← needed no_verdict (string_of (get_or_null (codes "verdict") annotation))
    require (text_eq verdict (codes "refuted")) (triage_error other_verdict)
    require (not (is_true (get_or_null (codes "thin_reasoning") annotation)))
        (triage_error thin_reasoning)
    reasoning ← needed reasoning_not_text (string_of (get_or_null (codes "reasoning") annotation))
    validate_reason py reasoning
    provider ← attribution annotation (codes "provider")
    model ← attribution annotation (codes "model")
    validate_reason py (adopted_reason provider model reasoning)
    meta ← needed no_refuter_pass (refuter_meta review.rec)
    unless_refused (adoption_refusal meta provider model)
    Verbs.dismiss py (obj review.rec) index (adopted_reason provider model reasoning) now events
