-- ===== src/Reviews/Suppression.antt =====
-- What a suppression of store.py rests on, against what gate.py answers for the same push.
use skodun.Prelude.{
  ◌≡◌, refl, ap, ◌∙◌, inl, inr, Bool, true, false, not, ◌&&◌, Option, none, some, List, [], ◌∷◌,
  arith, Bool-cases, if◌then◌else◌, All,
}
use mathlib.Core.Option
use skodun.Prelude.Text.{Text, text_eq}
use skodun.Json.{Json, str, obj, is_str, is_true}
use skodun.Triage.Result.{Result, ok, >>=-eq-ok, ok-injective}
use skodun.Gate.Decide.{IndexRow, newest, later, newer, is_text}
use skodun.Reviews.Table.{Row, is_running}
use skodun.Reviews.Policy.{Values}
use skodun.Reviews.Evidence.{DedupEvidence, evidence_permits_suppression}
use skodun.Reviews.Reserve.{
  time_of, is_candidate, later_row, newest_candidate, certifies, suppression_candidate, examined,
  permitted,
}

-- No review in flight is trusted.
abbrev pub IsPending : Row → Type 0
IsPending r = is_running r ≡ true → r.trustworthy ≡ false

abbrev text_of : Json → Text
text_of (str s) = s
text_of _ = []

-- A row as the gate's query reads it.
abbrev pub gate_row : Row → IndexRow
gate_row r = record {
  diff_hash = text_of r.diff_hash;
  trustworthy = r.trustworthy;
  reviewed_at = time_of r.reviewed_at;
  artifact = some (obj r.artifact);
}

-- The rows that the gate's query can select: those whose hash is a text.
unfoldable pub gate_rows : List Row → List IndexRow
gate_rows [] = []
gate_rows (r ∷ rows) =
    let rest = gate_rows rows in if is_str r.diff_hash then gate_row r ∷ rest else rest

same_cover :
    (dh : Text) (v : Json) (t runs : Bool)
    → (runs ≡ true → t ≡ false)
    → is_str v ≡ true
    → (text_eq (text_of v) dh && t) ≡ (is_text v dh && t && not runs)
same_cover dh (str s) t runs p h = ground arith
same_cover dh _ t runs p h = ground arith

no_cover : (dh : Text) (v : Json) → is_str v ≡ false → is_text v dh ≡ false
no_cover dh (str s) h = ground arith
no_cover dh _ h = refl

later-gate_row :
    (r : Row) (o : Option Row)
    → later (gate_row r) (Option.map gate_row o) ≡ gate_row (later_row r o)
later-gate_row r none = refl
later-gate_row r (some best) =
    elim (Bool-cases (newer (time_of best.reviewed_at) (time_of r.reviewed_at))) [
      | inl y ↦ rw y refl
      | inr n ↦ rw n refl
    ]

-- The gate selects the row that a reservation would rest on, where no review in flight is trusted.
pub newest-gate_rows :
    (dh : Text) (rows : List Row)
    → All IsPending rows
    → newest dh (gate_rows rows) ≡ Option.map gate_row (newest_candidate dh rows)
unfolding newest gate_rows newest_candidate
newest-gate_rows dh [] h = refl
newest-gate_rows dh (r ∷ rows) h = elim (Bool-cases (is_str r.diff_hash)) [
  | inl text ↦
      let same = same_cover dh r.diff_hash r.trustworthy (is_running r) h.0 text in
      elim (Bool-cases (is_candidate dh r)) [
        | inl hit ↦
            rw (text, same ∙ hit, hit, newest-gate_rows dh rows h.1)
              (ap some (later-gate_row r (newest_candidate dh rows)))
        | inr missed ↦ rw (text, same ∙ missed, missed) (newest-gate_rows dh rows h.1)
      ]
  | inr other ↦ rw (other, no_cover dh r.diff_hash other) (newest-gate_rows dh rows h.1)
]

-- What a suppression rests on.
pub record IsMatch (dh base_sha : Text) (rows : List Row) (id : Json) : Type 0 where
  pub row : Row
  pub newest_one : newest_candidate dh rows ≡ some row
  pub certified : certifies dh base_sha row ≡ true
  pub named : row.id ≡ id

matched_through :
    (b : Bool) (id : Json) {m : Result (Option Json)}
    → (if b then m else ok none) ≡ ok (some id)
    → m ≡ ok (some id)
matched_through true id h = h
matched_through false id h = ground (arith, ok-injective h)

module _ (values : Values) (dh base_sha : Text) (evidence : DedupEvidence) where
  examined-IsMatch :
      (rows : List Row) (id : Json) (o : Option Row)
      → newest_candidate dh rows ≡ o
      → examined values dh base_sha evidence o ≡ ok (some id)
      → IsMatch dh base_sha rows id
  examined-IsMatch rows id none e h = ground (arith, ok-injective h)
  examined-IsMatch rows id (some row) e h = go (certifies dh base_sha row) refl h
    where
      chosen : (fine : Bool) → (if fine then some row.id else none) ≡ some id → row.id ≡ id
      chosen true p = cc
      chosen false p = cc

      go :
          (b : Bool)
          → certifies dh base_sha row ≡ b
          → (if b then permitted values evidence row else ok none) ≡ ok (some id)
          → IsMatch dh base_sha rows id
      go true c p =
          let r = >>=-eq-ok (evidence_permits_suppression values (obj row.artifact) evidence) _ p in
          record { row = row; newest_one = e; certified = c; named = chosen r.0 (ok-injective r.2) }
      go false c p = ground (arith, ok-injective p)

  pub suppression_candidate-IsMatch :
      (rows : List Row) (id : Json)
      → suppression_candidate values dh base_sha evidence rows ≡ ok (some id)
      → IsMatch dh base_sha rows id
  unfolding suppression_candidate
  suppression_candidate-IsMatch rows id h =
      examined-IsMatch rows id (newest_candidate dh rows) refl
        (matched_through (is_true evidence.enabled) id h)
