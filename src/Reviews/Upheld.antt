-- ===== src/Reviews/Upheld.antt =====
-- A suppressed push, judged by gate.py: the gate knows the same review.
use skodun.Prelude.{
  ◌≡◌, refl, ap, ◌∙◌, sym, inl, inr, true, false, not, some, List, [], ◌∷◌, arith, if◌then◌else◌,
  All, is_empty, keep, &&-true,
}
use mathlib.Core.Path.{subst}
use skodun.Prelude.Text.{Text, codes, text_eq, text_eq_iff}
use skodun.Json.{Json, bool, str, obj, Fields, get, get_or_null, is_true, is_bool}
use skodun.Textnorm.{Python}
use skodun.Ledger.{Event, triage_for}
use skodun.Triage.Result.{Result, ok, err, >>=-ok}
use skodun.Triage.Artifact.{Artifact, load_valid_artifact}
use skodun.Triage.Checked.{IsChecked, load_valid_artifact_iff}
use skodun.Triage.Verbs.{open_findings, key_of}
use skodun.Ledger.{has_key}
use skodun.Gate.Decide.{
  GateResult, Base, Diff, Outside, is_text, is_flag, axes_are_bool, recomputed, certify, conclude,
  judge_diff, gate, latest_trustworthy_for, diff_identity, prefix_of, rstrip_newlines,
}
use skodun.Gate.Outcomes.{loaded_judge, else_of}
use skodun.Reviews.Table.{Row}
use skodun.Reviews.Policy.{Values}
use skodun.Reviews.Evidence.{DedupEvidence}
use skodun.Reviews.Reserve.{
  Push, Retired, Reserved, suppression_candidate, DedupEvent, reserved, suppressed_by,
  reserve_prepush, newest_candidate, certifies, is_clean, is_about, loads, same_key,
}
use skodun.Reviews.Lease.{reserve_prepush-cases}
use skodun.Reviews.Suppression.{
  IsPending, gate_rows, newest-gate_rows, IsMatch, suppression_candidate-IsMatch,
}

loaded_artifact : (m : Result Artifact) → loads m ≡ true → (review : Artifact) × (m ≡ ok review)
loaded_artifact (ok review) h = (review, refl)
loaded_artifact (err e) h = ground arith

flag_of_true : (v : Json) → is_true v ≡ true → is_flag v true ≡ true
flag_of_true (bool true) h = refl
flag_of_true _ h = ground arith

bool_of_true : (v : Json) → is_true v ≡ true → is_bool v ≡ true
bool_of_true (bool b) h = refl
bool_of_true _ h = ground arith

same_text : (v : Json) (s : Text) → same_key (str s) v ≡ true → v ≡ str s
same_text (str t) s h = ap str (sym ((text_eq_iff s t).0 h))
same_text _ s h = ground arith

text_is : (v : Json) (s t : Text) → v ≡ str s → is_text v t ≡ true → s ≡ t
text_is v s t e h = (text_eq_iff s t).0 (subst (λ x. is_text x t ≡ true) e h)

suppressed-injective : {i j : Json} → suppressed_by i ≡ suppressed_by j → i ≡ j
suppressed-injective h = cc

never_both :
    {A : Type 0} {s : Text} {l : List Retired} {i : Json} → reserved s l ≡ suppressed_by i → A
never_both h = cc

obj-injective : {f g : Fields} → obj f ≡ obj g → f ≡ g
obj-injective h = cc

-- The review that the gate finds open, and what it answers on it.
pub record IsUpheld (py : Python) (out : Outside) (rows : List Row) (triage : List Event)
    (id : Json) : Type 0 where
  pub review : Artifact
  pub named : id ≡ str review.id
  pub remaining : List Fields
  pub left_open :
      open_findings py (obj review.rec) (triage_for review.branch review.base_sha triage)
      ≡ ok remaining
  pub answer : GateResult
  pub answers : gate py out (gate_rows rows) triage ≡ ok answer
  pub code : answer.code ≡ (if is_empty remaining then 0 else 1)

-- What the checks of `_suppression_candidate` say of the loaded review.
record IsCertified (dh base_sha : Text) (review : Artifact) : Type 0 where
  bools : axes_are_bool review.rec ≡ true
  trusted : recomputed review.rec ≡ true
  flagged : is_flag (get_or_null (codes "trustworthy") review.rec) true ≡ true
  of_diff : is_text (get_or_null (codes "diff_hash") review.rec) dh ≡ true
  of_base : text_eq review.base_sha base_sha ≡ true

checked_text :
    (k : Text) (rec : Fields) (s : Text) → get k rec ≡ some (str s) → get_or_null k rec ≡ str s
unfolding get_or_null
checked_text k rec s e = rw e refl

certifies-IsCertified :
    (dh base_sha : Text) (row : Row) (review : Artifact)
    → certifies dh base_sha row ≡ true
    → IsChecked (obj row.artifact) review
    → IsCertified dh base_sha review × (row.id ≡ str review.id)
certifies-IsCertified dh base_sha row review c k =
    let same = obj-injective k.is_obj in
    let (c1, c3) = &&-true _ (is_about dh base_sha row row.artifact) c in
    let (_, c2) = &&-true _ (is_clean row.artifact) c1 in
    let clean : is_clean review.rec ≡ true = subst (λ f. is_clean f ≡ true) same c2 in
    let about : is_about dh base_sha row review.rec ≡ true =
      subst (λ f. is_about dh base_sha row f ≡ true) same c3 in
    let (a1, a5) = &&-true _ (is_text (get_or_null (codes "base_sha") review.rec) base_sha) about in
    let (a2, _) = &&-true _ (is_text row.base_sha base_sha) a1 in
    let (a4, a3) = &&-true _ (is_text (get_or_null (codes "diff_hash") review.rec) dh) a2 in
    let (a0, _) =
      &&-true _ (same_key (get_or_null (codes "diff_hash") review.rec) row.diff_hash) a4 in
    let (d1, trust) = &&-true _ (is_true (get_or_null (codes "trustworthy") review.rec)) clean in
    let (d2, trusted) = &&-true _ (recomputed review.rec) d1 in
    let (d3, b2) = &&-true _ (is_bool (get_or_null (codes "diff_truncated") review.rec)) d2 in
    let (b0, b1) = &&-true _ (is_bool (get_or_null (codes "degraded") review.rec)) d3 in
    let base_text = checked_text (codes "base_sha") review.rec review.base_sha k.has_base_sha in
    (
      record {
        bools = rw (b0, b1, b2, bool_of_true _ trust) refl;
        trusted = trusted;
        flagged = flag_of_true _ trust;
        of_diff = a3;
        of_base =
            (text_eq_iff review.base_sha base_sha).1
              (text_is _ review.base_sha base_sha base_text a5);
      },
      same_text row.id review.id (
          subst (λ v. same_key v row.id ≡ true)
            (checked_text (codes "id") review.rec review.id k.has_id) a0),
    )

module _ (py : Python) (out : Outside) where
  -- Such a review is only asked for what is open.
  certify-conclude :
      (dh prefix : Text) (base : Base) (triage : List Event) (review : Artifact) (fs : List Fields)
      → IsCertified dh base.sha review
      → open_findings py (obj review.rec) (triage_for review.branch review.base_sha triage) ≡ ok fs
      → certify py out dh base prefix triage review ≡ ok (conclude py out dh prefix review fs)
  unfolding certify
  certify-conclude dh prefix base triage review fs c o =
      rw (c.bools, c.trusted, c.flagged, c.of_diff, c.of_base, o) refl

  conclude-code :
      (dh prefix : Text) (review : Artifact) (fs : List Fields)
      → (conclude py out dh prefix review fs).code ≡ (if is_empty fs then 0 else 1)
  unfolding conclude
  conclude-code dh prefix review [] = refl
  conclude-code dh prefix review (f ∷ fs) = refl

  open_findings-loaded :
      (review : Artifact) (triage : List Event)
      → load_valid_artifact (obj review.rec) ≡ ok review
      → (fs : List Fields) × (open_findings py
            (obj review.rec)
            (triage_for review.branch review.base_sha triage)
          ≡ ok fs)
  unfolding open_findings
  open_findings-loaded review triage h = (
    keep (λ f. not (has_key (key_of py f) (triage_for review.branch review.base_sha triage)))
        review.findings,
    >>=-ok _ h,
  )

  latest-gate_rows :
      (dh : Text) (rows : List Row) (row : Row)
      → All IsPending rows
      → newest_candidate dh rows ≡ some row
      → latest_trustworthy_for dh (gate_rows rows) ≡ ok (obj row.artifact)
  unfolding latest_trustworthy_for
  latest-gate_rows dh rows row pending found = rw (newest-gate_rows dh rows pending, found) refl

  module _ (base : Base) (diff : Diff) where
    match-IsUpheld :
        (dh : Text) (rows : List Row) (triage : List Event) (id : Json)
        → All IsPending rows
        → out.resolve_base ≡ ok base
        → out.capture_diff base.sha ≡ ok diff
        → is_empty (rstrip_newlines diff.bytes) ≡ false
        → diff_identity py out diff.bytes ≡ dh
        → IsMatch dh base.sha rows id
        → IsUpheld py out rows triage id
    unfolding gate judge_diff
    match-IsUpheld dh rows triage id pending b d left same m =
        let l =
          loaded_artifact (load_valid_artifact (obj m.row.artifact))
            (ground (arith, m.certified)) in
        let review = l.0 in
        let k = (load_valid_artifact_iff (obj m.row.artifact) review).0 l.1 in
        let loaded : load_valid_artifact (obj review.rec) ≡ ok review =
          subst (λ f. load_valid_artifact (obj f) ≡ ok review) (obj-injective k.is_obj) l.1 in
        let c = certifies-IsCertified dh base.sha m.row review m.certified k in
        let o = open_findings-loaded review triage loaded in
        record {
          review = review;
          named = sym m.named ∙ c.1;
          remaining = o.0;
          left_open = o.1;
          answer = conclude py out dh (prefix_of py out base diff) review o.0;
          answers =
              >>=-ok _ b
              ∙ >>=-ok _ d
              ∙ else_of _ left
              ∙ rw (same, latest-gate_rows dh rows m.row pending m.newest_one)
                  (loaded_judge py out dh (prefix_of py out base diff) base triage
                      (obj m.row.artifact) review l.1
                    ∙ certify-conclude dh (prefix_of py out base diff) base triage review o.0 c.0
                        o.1);
          code = conclude-code dh (prefix_of py out base diff) review o.0;
        }

    -- A push whose review a reservation suppresses passes the gate on the very review that it names, or is
    -- stopped only by findings of that review which are still open: where no review in flight is trusted,
    -- and git answers the base and the diff that the reservation was made for, the gate answers 0 if
    -- nothing of that review is open, and otherwise 1; it never asks for a new review.
    pub reserve_prepush-IsUpheld :
        (values : Values) (push : Push) (evidence : DedupEvidence) (now : Text) (at : Json)
        (rows : List Row) (events : List DedupEvent) (done : Reserved) (id : Json)
        (triage : List Event)
        → All IsPending rows
        → reserve_prepush py values now at push evidence rows events ≡ ok done
        → done.reservation ≡ suppressed_by id
        → out.resolve_base ≡ ok base
        → base.sha ≡ push.base_sha
        → out.capture_diff base.sha ≡ ok diff
        → is_empty (rstrip_newlines diff.bytes) ≡ false
        → diff_identity py out diff.bytes ≡ push.diff_hash
        → IsUpheld py out rows triage id
    reserve_prepush-IsUpheld values push evidence now at rows events done id triage pending h answer
          b on_base d left same =
        elim (reserve_prepush-cases py values push evidence now at rows events done h) [
          | inl s ↦ match-IsUpheld push.diff_hash rows triage id pending b d left same (
              subst (λ sha. IsMatch push.diff_hash sha rows id) (sym on_base)
                (suppression_candidate-IsMatch values push.diff_hash push.base_sha evidence rows id
                  (subst
                    (λ i.
                      suppression_candidate values push.diff_hash push.base_sha evidence rows
                      ≡ ok (some i))
                    (suppressed-injective (sym s.answer ∙ answer)) s.matched)))
          | inr r ↦ never_both (sym r.answer ∙ answer)
        ]
