-- ===== src/Gate/Passing.antt =====
-- When gate.py certifies a review.
use skodun.Prelude.{
  ◌≡◌, refl, ap, ◌∙◌, ◌≤◌, Bool, true, false, not, ◌||◌, List, [], ◌∷◌, arith, if◌then◌else◌,
}
use skodun.Prelude.Text.{Text, codes, text_eq, text_eq_iff, text_eq_refl}
use skodun.Json.{Json, bool, str, obj, Fields, get_or_null, is_bool, truthy}
use skodun.Textnorm.{Python}
use skodun.Trust.{is_trustworthy}
use skodun.Ledger.{Event, triage_for}
use skodun.Triage.Result.{Result, ok, >>=-eq-ok, ok-injective}
use skodun.Triage.Artifact.{Artifact}
use skodun.Triage.Verbs.{open_findings}
use skodun.Gate.Decide.{
  GateResult, Base, Outside, is_flag, is_text, axes_are_bool, recomputed, conclude, certify,
}

-- What the gate requires of a review before a push may pass on it.
pub record IsSound (py : Python) (events : List Event) (dh : Text) (base : Base) (review : Artifact)
    : Type 0 where
  pub parsed : get_or_null (codes "parse_ok") review.rec ≡ bool true
  pub not_degraded : get_or_null (codes "degraded") review.rec ≡ bool false
  pub not_truncated : get_or_null (codes "diff_truncated") review.rec ≡ bool false
  pub trusted : get_or_null (codes "trustworthy") review.rec ≡ bool true
  pub of_diff : get_or_null (codes "diff_hash") review.rec ≡ str dh
  pub of_base : review.base_sha ≡ base.sha
  pub nothing_open :
      open_findings py (obj review.rec) (triage_for review.branch review.base_sha events) ≡ ok []

bool_of_truthy : (v : Json) (b : Bool) → is_bool v ≡ true → truthy v ≡ b → v ≡ bool b
bool_of_truthy (bool c) b h t = ground arith
bool_of_truthy _ b h t = ground arith

flag_true : (v : Json) → is_flag v true ≡ true → v ≡ bool true
flag_true (bool true) h = refl
flag_true (bool false) h = ground arith
flag_true _ h = ground arith

text_of : (v : Json) (t : Text) → is_text v t ≡ true → v ≡ str t
text_of (str s) t h = ap str ((text_eq_iff s t).0 h)
text_of _ t h = ground arith

-- A guard that answers 2 was not met by a run that answered less.
pub past :
    (b : Bool) (v : GateResult) {r : GateResult} {m : Result GateResult}
    → (if b then ok v else m) ≡ ok r
    → v.code ≡ 2
    → r.code ≤ 1
    → (b ≡ false) × (m ≡ ok r)
past true v h e z = ground (arith, ok-injective h)
past false v h e z = (refl, h)

not-false : (b : Bool) → not b ≡ false → b ≡ true
not-false b h = ground arith

-- What the four Booleans say once they are known to be Booleans.
axes :
    (rec : Fields)
    → axes_are_bool rec ≡ true
    → recomputed rec ≡ true
    → (get_or_null (codes "parse_ok") rec ≡ bool true)
      × (get_or_null (codes "degraded") rec ≡ bool false)
      × (get_or_null (codes "diff_truncated") rec ≡ bool false)
unfolding is_trustworthy
axes rec b t = (
  bool_of_truthy (get_or_null (codes "parse_ok") rec) true (ground arith) (ground arith),
  bool_of_truthy (get_or_null (codes "degraded") rec) false (ground arith) (ground arith),
  bool_of_truthy (get_or_null (codes "diff_truncated") rec) false (ground arith) (ground arith),
)

module _ (py : Python) (out : Outside) where
  conclude_zero :
      (dh prefix : Text) (review : Artifact) (fs : List Fields)
      → (conclude py out dh prefix review fs).code ≡ 0
      → fs ≡ []
  unfolding conclude
  conclude_zero dh prefix review [] h = refl
  conclude_zero dh prefix review (f ∷ fs) h = ground arith

  pub certify-IsSound :
      (dh prefix : Text) (base : Base) (events : List Event) (review : Artifact) (r : GateResult)
      → certify py out dh base prefix events review ≡ ok r
      → r.code ≡ 0
      → IsSound py events dh base review
  unfolding certify
  certify-IsSound dh prefix base events review r h z =
      let r1 = past (not (axes_are_bool review.rec)) _ h refl (omega (arith, z)) in
      let r2 =
        past
          (not (recomputed review.rec)
            || not (is_flag (get_or_null (codes "trustworthy") review.rec) (recomputed review.rec)))
          _ r1.1 refl (omega (arith, z)) in
      let r3 =
        past (not (is_text (get_or_null (codes "diff_hash") review.rec) dh)) _ r2.1 refl
          (omega (arith, z)) in
      let r4 = past (not (text_eq review.base_sha base.sha)) _ r3.1 refl (omega (arith, z)) in
      let r5 =
        >>=-eq-ok
          (open_findings py (obj review.rec) (triage_for review.branch review.base_sha events)) _
          r4.1 in
      let t : recomputed review.rec ≡ true = ground (arith, r2.0) in
      let a = axes review.rec (not-false (axes_are_bool review.rec) r1.0) t in
      record {
        parsed = a.0;
        not_degraded = a.1;
        not_truncated = a.2;
        trusted =
            flag_true (get_or_null (codes "trustworthy") review.rec) (ground (arith, r2.0, t));
        of_diff = text_of (get_or_null (codes "diff_hash") review.rec) dh (not-false _ r3.0);
        of_base = (text_eq_iff review.base_sha base.sha).0 (not-false _ r4.0);
        nothing_open =
            r5.1
            ∙ ap ok
                (conclude_zero dh prefix review r5.0 (ap (λ x. x.code) (ok-injective r5.2) ∙ z));
      }

  pub IsSound-certify :
      (dh prefix : Text) (base : Base) (events : List Event) (review : Artifact)
      → IsSound py events dh base review
      → (r : GateResult) × (certify py out dh base prefix events review ≡ ok r) × (r.code ≡ 0)
  unfolding certify is_trustworthy conclude
  IsSound-certify dh prefix base events review s = (
    conclude py out dh prefix review [],
    rw
        (
          s.parsed,
          s.not_degraded,
          s.not_truncated,
          s.trusted,
          s.of_diff,
          s.nothing_open,
          text_eq_refl dh,
          (text_eq_iff review.base_sha base.sha).1 s.of_base,
        )
        refl,
    refl,
  )
