-- ===== src/Triage/Adopt.antt =====
-- What `adopt_refuter` of triage.py has checked by the time it dismisses.
use skodun.Prelude.{
  ◌≡◌, refl, ap, ◌∙◌, Bool, true, false, not, ◌||◌, Option, none, some, List, arith, if◌then◌else◌,
}
use skodun.Prelude.Text.{Text, codes, text_eq, text_eq_iff, is_in}
use skodun.Json.{Json, str, obj, Fields, get_or_null, is_true}
use skodun.Textnorm.{Python}
use skodun.Ledger.{Event}
use skodun.Triage.Result.{
  ok, >>=-eq-ok, require-ok, Refusal, no_annotation, no_verdict, reasoning_not_text,
  no_refuter_pass,
}
use skodun.Triage.Artifact.{Artifact, load_valid_artifact}
use skodun.Triage.Floors.{validate_reason}
use skodun.Triage.Verbs
use skodun.Triage.Verbs.{Recorded, finding_at}
use skodun.Triage.Refuter.{
  adopt_refuter, refuter_pass_ran, refuter_meta, refuter_annotation, string_of, needed, attribution,
  adopted_reason, adoption_refusal, unless_refused, is_family, is_model, refusal_among, refusal_of,
  provider_family, contributor_families,
}

-- The provider's family is known, as are the families of all that contributed findings, and is none of them.
pub record IsIndependent (py : Python) (meta : Fields) (provider model : Text) : Type 0 where
  pub contributors : List Text
  pub family : Text
  pub known :
      contributor_families py (get_or_null (codes "contributing_providers") meta)
      ≡ some contributors
  pub pass_family : provider_family py (get_or_null (codes "provider") meta) ≡ some family
  pub apart : is_in family contributors ≡ false
  pub annotated : provider_family py (str provider) ≡ some family
  pub by_model : get_or_null (codes "model") meta ≡ str model

-- The evidence of an adoption.
pub record IsAdopted (py : Python) (value index now : Json) (events : List Event) (r : Recorded)
    : Type 0 where
  pub review : Artifact
  pub finding : Fields
  pub annotation : Fields
  pub meta : Fields
  pub reasoning : Text
  pub provider : Text
  pub model : Text
  pub loads : load_valid_artifact value ≡ ok review
  pub named : finding_at review.findings index ≡ ok finding
  pub ran : refuter_pass_ran review.rec ≡ true
  pub annotated : refuter_annotation finding ≡ some annotation
  pub refuted : get_or_null (codes "verdict") annotation ≡ str (codes "refuted")
  pub reasoned : get_or_null (codes "reasoning") annotation ≡ str reasoning
  pub floor : validate_reason py reasoning ≡ ok tt
  pub has_meta : refuter_meta review.rec ≡ some meta
  pub independent : IsIndependent py meta provider model
  pub dismissed :
      Verbs.dismiss py
        (obj review.rec)
        index
        (adopted_reason py provider model reasoning)
        now
        events
      ≡ ok r

needed-ok : {A : Type 0} (why : Refusal) (o : Option A) {a : A} → needed why o ≡ ok a → o ≡ some a
needed-ok why none h = ground arith
needed-ok why (some b) h = ground arith

string_of-some : (v : Json) (s : Text) → string_of v ≡ some s → v ≡ str s
string_of-some (str t) s h = ground arith
string_of-some _ s h = ground arith

unless_refused-ok : (o : Option Refusal) (u : Unit {0}) → unless_refused o ≡ ok u → o ≡ none
unless_refused-ok none u h = refl
unless_refused-ok (some w) u h = ground arith

is_family-some : (o : Option Text) (f : Text) → is_family o f ≡ true → o ≡ some f
is_family-some none f h = ground arith
is_family-some (some q) f h = ap some ((text_eq_iff q f).0 h)

is_model-str : (v : Json) (t : Text) → is_model v t ≡ true → v ≡ str t
is_model-str (str s) t h = ap str ((text_eq_iff s t).0 h)
is_model-str _ t h = ground arith

guards :
    (same among fam low same_model : Bool) (a b : Refusal)
    → (if same || among
        then some a
        else if not fam || not low || not same_model
        then some b
        else none)
      ≡ none
    → (among ≡ false) × (fam ≡ true) × (same_model ≡ true)
guards true among fam low same_model a b h = ground arith
guards false true fam low same_model a b h = ground arith
guards false false false low same_model a b h = ground arith
guards false false true false same_model a b h = ground arith
guards false false true true false a b h = ground arith
guards false false true true true a b h = (refl, refl, refl)

module _ (py : Python) where
  refusal_among-none :
      (meta : Fields) (provider model : Text) (contributors : List Text) (family : Text)
      → refusal_among py meta provider model contributors family ≡ none
      → (is_in family contributors ≡ false)
        × (is_family (provider_family py (str provider)) family ≡ true)
        × (is_model (get_or_null (codes "model") meta) model ≡ true)
  refusal_among-none meta provider model contributors family h =
      guards (is_true (get_or_null (codes "same_provider_as_finder") meta))
        (is_in family contributors) (is_family (provider_family py (str provider)) family) _
        (is_model (get_or_null (codes "model") meta) model) _ _ h

  refusal_of-none :
      (meta : Fields) (provider model : Text) (cs : Option (List Text)) (f : Option Text)
      → contributor_families py (get_or_null (codes "contributing_providers") meta) ≡ cs
      → provider_family py (get_or_null (codes "provider") meta) ≡ f
      → refusal_of py meta provider model cs f ≡ none
      → IsIndependent py meta provider model
  refusal_of-none meta provider model (some cs) (some f) c e h =
      let a = refusal_among-none meta provider model cs f h in
      record {
        contributors = cs;
        family = f;
        known = c;
        pass_family = e;
        apart = a.0;
        annotated = is_family-some (provider_family py (str provider)) f a.1;
        by_model = is_model-str (get_or_null (codes "model") meta) model a.2;
      }
  refusal_of-none meta provider model none f c e h = ground arith
  refusal_of-none meta provider model (some cs) none c e h = ground arith

  adoption_refusal-IsIndependent :
      (meta : Fields) (provider model : Text)
      → adoption_refusal py meta provider model ≡ none
      → IsIndependent py meta provider model
  unfolding adoption_refusal
  adoption_refusal-IsIndependent meta provider model h =
      refusal_of-none meta provider model _ _ refl refl h

  floor_passed :
      (reason : Text) (u : Unit {0})
      → validate_reason py reason ≡ ok u
      → validate_reason py reason ≡ ok tt
  floor_passed reason tt h = h

  -- An adoption that succeeds was of a finding whose annotation says `refuted`, on a review on which a
  -- refuter pass ran, by reasoning that clears the audit floor on its own, from a provider whose family
  -- is known and is none of those that contributed findings, and with the model of the pass; and it is
  -- the ordinary dismissal for the attributed reason.
  pub adopt_refuter-IsAdopted :
      (value index now : Json) (events : List Event) (r : Recorded)
      → adopt_refuter py value index now events ≡ ok r
      → IsAdopted py value index now events r
  unfolding adopt_refuter
  adopt_refuter-IsAdopted value index now events r h =
      let r1 = >>=-eq-ok (load_valid_artifact value) _ h in
      let r2 = >>=-eq-ok (finding_at r1.0.findings index) _ r1.2 in
      let r3 = require-ok (refuter_pass_ran r1.0.rec) _ _ r2.2 in
      let r4 = >>=-eq-ok (needed no_annotation (refuter_annotation r2.0)) _ r3.1 in
      let r5 =
        >>=-eq-ok (needed no_verdict (string_of (get_or_null (codes "verdict") r4.0))) _ r4.2 in
      let r6 = require-ok (text_eq r5.0 (codes "refuted")) _ _ r5.2 in
      let r7 = require-ok (not (is_true (get_or_null (codes "thin_reasoning") r4.0))) _ _ r6.1 in
      let r8 =
        >>=-eq-ok (needed reasoning_not_text (string_of (get_or_null (codes "reasoning") r4.0))) _
          r7.1 in
      let r9 = >>=-eq-ok (validate_reason py r8.0) _ r8.2 in
      let r10 = >>=-eq-ok (attribution py r4.0 (codes "provider")) _ r9.2 in
      let r11 = >>=-eq-ok (attribution py r4.0 (codes "model")) _ r10.2 in
      let r12 = >>=-eq-ok (validate_reason py (adopted_reason py r10.0 r11.0 r8.0)) _ r11.2 in
      let r13 = >>=-eq-ok (needed no_refuter_pass (refuter_meta r1.0.rec)) _ r12.2 in
      let r14 = >>=-eq-ok (unless_refused (adoption_refusal py r13.0 r10.0 r11.0)) _ r13.2 in
      record {
        review = r1.0;
        finding = r2.0;
        annotation = r4.0;
        meta = r13.0;
        reasoning = r8.0;
        provider = r10.0;
        model = r11.0;
        loads = r1.1;
        named = r2.1;
        ran = r3.0;
        annotated = needed-ok no_annotation (refuter_annotation r2.0) r4.1;
        refuted =
            string_of-some (get_or_null (codes "verdict") r4.0) r5.0 (needed-ok no_verdict _ r5.1)
            ∙ ap str ((text_eq_iff r5.0 (codes "refuted")).0 r6.0);
        reasoned =
            string_of-some (get_or_null (codes "reasoning") r4.0) r8.0
              (needed-ok reasoning_not_text _ r8.1);
        floor = floor_passed r8.0 r9.0 r9.1;
        has_meta = needed-ok no_refuter_pass (refuter_meta r1.0.rec) r13.1;
        independent =
            adoption_refusal-IsIndependent r13.0 r10.0 r11.0
              (unless_refused-ok (adoption_refusal py r13.0 r10.0 r11.0) r14.0 r14.1);
        dismissed = r14.2;
      }
