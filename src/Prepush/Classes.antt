-- ===== src/Prepush/Classes.antt =====
-- Which lines of a push are reviewed (dispatch.py).
use skodun.Prelude.{
  ℕ, zero, suc, ◌≡◌, refl, ap, ◌∙◌, ◌↔◌, Bool, true, false, not, Bool-cases, inl, inr, List, [],
  ◌∷◌, ◌++◌, is_empty, length, leb, keep, All, arith,
}
use skodun.Prelude.Text.{Text, codes, starts_with}
use skodun.Textnorm.{is_space}
use skodun.Trust.{split_lines}
use skodun.Prepush.Refs.{
  Ref, heads, is_zero, is_branch, split, with_field, after, or_ref, classified, skipped, malformed,
  ref_of, refs_of, is_blank, parse_ref_lines,
}

starts_with-after : (p s : Text) → starts_with p s ≡ true → s ≡ p ++ after p s
unfolding starts_with after
starts_with-after [] s h = refl
starts_with-after (a ∷ p) [] h = cc
starts_with-after (a ∷ p) (c ∷ s) h = grind (arith, h, starts_with-after p s)

starts_with-append : (p s : Text) → starts_with p (p ++ s) ≡ true
unfolding starts_with
starts_with-append [] s = refl
starts_with-append (a ∷ p) s = ground (arith, starts_with-append p s)

longer : (p s : Text) → leb (length (p ++ s)) (length p) ≡ is_empty s
longer [] [] = refl
longer [] (c ∷ s) = ground arith
longer (a ∷ p) s = ground (arith, longer p s)

abbrev pub IsField : Text → Type 0
IsField field = is_empty field ≡ false

with_field-IsField :
    (cur : Text) (fields : List Text) → All IsField fields → All IsField (with_field cur fields)
with_field-IsField [] fields h = h
with_field-IsField (c ∷ s) fields h = (refl, h)

split-IsField : (cur s : Text) → All IsField (split cur s)
unfolding split
split-IsField cur [] = with_field-IsField cur [] tt
split-IsField cur (c ∷ s) = elim (Bool-cases (is_space c)) [
  | inl space ↦ rw space (with_field-IsField cur (split [] s) (split-IsField [] s))
  | inr no_space ↦ rw no_space (split-IsField (cur ++ c ∷ []) s)
]

-- The update of a branch, from a line of four fields.
abbrev pub IsPushed : Ref → Type 0
IsPushed r =
    (name : Text) × (r.local_ref ≡ heads ++ name)
    × (is_empty name ≡ false)
    × (is_zero r.local_oid ≡ false)
    × (is_empty r.remote_oid ≡ false)

abbrev pub IsClassified : Ref → Type 0
IsClassified r =
    ((r.actionable ≡ true) ↔ IsPushed r)
    × (r.actionable ≡ true → r.local_ref ≡ heads ++ r.branch)
    × (is_empty r.skip_reason ≡ r.actionable)

not_empty-append : (s : Text) (c : ℕ) (t : Text) → is_empty (s ++ c ∷ t) ≡ false
not_empty-append [] c t = refl
not_empty-append (a ∷ s) c t = refl

is_branch-append : (name : Text) → is_empty name ≡ false → is_branch (heads ++ name) ≡ true
is_branch-append name h =
    let l = longer heads name in ground (arith, starts_with-append heads name, l, h)

is_branch-after :
    (s : Text)
    → is_branch s ≡ true
    → (s ≡ heads ++ after heads s) × (is_empty (after heads s) ≡ false)
is_branch-after s h =
    let eq = starts_with-after heads s (ground (arith, h)) in
    let l = ap (λ x. leb (length x) (length heads)) eq ∙ longer heads (after heads s) in
    (eq, ground (arith, h, l))

false_not_true : ¬ (false ≡ true)
false_not_true h = ground (arith, h)

skipped-IsClassified :
    (a b c d why : Text)
    → is_empty why ≡ false
    → ¬ IsPushed (skipped a b c d why)
    → IsClassified (skipped a b c d why)
skipped-IsClassified a b c d why w n =
    ((λ h. absurd (false_not_true h), λ r. absurd (n r)), λ h. absurd (false_not_true h), w)

pushed-is_branch :
    (a : Text) (name : Text) → a ≡ heads ++ name → is_empty name ≡ false → is_branch a ≡ true
pushed-is_branch a name eq h = ap is_branch eq ∙ is_branch-append name h

differ : (b : Bool) → b ≡ true → ¬ (b ≡ false)
differ b h k = ground (arith, h, k)

classified-IsClassified : (a b c d : Text) → IsField d → IsClassified (classified a b c d)
unfolding classified
classified-IsClassified a b c d f = elim (Bool-cases (is_zero b)) [
  | inl zeros ↦ rw zeros (
      skipped-IsClassified a b c d _ (not_empty-append (or_ref c a) _ _)
        (λ r. differ (is_zero b) zeros r.3))
  | inr oid ↦ rw oid (elim (Bool-cases (is_branch a)) [
    | inl branch ↦ rw branch (
        let name = is_branch-after a branch in
        ((λ h. (after heads a, name.0, name.1, oid, f), λ r. refl), λ h. name.0, refl))
    | inr other ↦ rw other (
        skipped-IsClassified a b c d _ (not_empty-append a _ _)
          (λ r. differ (is_branch a) (pushed-is_branch a r.0 r.1 r.2) other))
  ])
]

-- The field at a place of a line, empty where the line is too short.
abbrev pub field_at : ℕ → List Text → Text
field_at n [] = []
field_at zero (field ∷ fields) = field
field_at (suc n) (field ∷ fields) = field_at n fields

-- The reference has the first four fields of the line, in git's order.
abbrev pub IsRead : List Text → Ref → Type 0
IsRead fields r =
    (r.local_ref ≡ field_at 0 fields)
    × (r.local_oid ≡ field_at 1 fields)
    × (r.remote_ref ≡ field_at 2 fields)
    × (r.remote_oid ≡ field_at 3 fields)

-- The references answer the lines one by one.
abbrev pub Answers : List Text → List Ref → Type 0
Answers [] [] = Unit
Answers [] (r ∷ refs) = ⊥
Answers (raw ∷ lines) [] = ⊥
Answers (raw ∷ lines) (r ∷ refs) = IsRead (split [] raw) r × IsClassified r × Answers lines refs

classified-IsRead :
    (a b c d : Text) (rest : List Text) → IsRead (a ∷ b ∷ c ∷ d ∷ rest) (classified a b c d)
unfolding classified
classified-IsRead a b c d rest = elim (Bool-cases (is_zero b)) [
  | inl zeros ↦ rw zeros (refl, refl, refl, refl)
  | inr oid ↦ rw oid (elim (Bool-cases (is_branch a)) [
    | inl branch ↦ rw branch (refl, refl, refl, refl)
    | inr other ↦ rw other (refl, refl, refl, refl)
  ])
]

module _ (repr : Text → Text) where
  malformed-IsClassified :
      (raw count a b c : Text) → IsClassified (skipped a b c [] (malformed repr raw count))
  malformed-IsClassified raw count a b c =
      skipped-IsClassified a b c [] (malformed repr raw count) refl (λ r. differ true refl r.4)

  ref_of-IsClassified :
      (raw : Text) (fields : List Text) → All IsField fields → IsClassified (ref_of repr raw fields)
  unfolding ref_of
  ref_of-IsClassified raw [] h = malformed-IsClassified raw (codes "0") [] [] []
  ref_of-IsClassified raw (a ∷ []) h = malformed-IsClassified raw (codes "1") a [] []
  ref_of-IsClassified raw (a ∷ b ∷ []) h = malformed-IsClassified raw (codes "2") a b []
  ref_of-IsClassified raw (a ∷ b ∷ c ∷ []) h = malformed-IsClassified raw (codes "3") a b c
  ref_of-IsClassified raw (a ∷ b ∷ c ∷ d ∷ rest) h = classified-IsClassified a b c d h.1.1.1.0

  abbrev pub has_text : Text → Bool
  has_text raw = not (is_blank repr raw)

  ref_of-IsRead : (raw : Text) (fields : List Text) → IsRead fields (ref_of repr raw fields)
  unfolding ref_of
  ref_of-IsRead raw [] = (refl, refl, refl, refl)
  ref_of-IsRead raw (a ∷ []) = (refl, refl, refl, refl)
  ref_of-IsRead raw (a ∷ b ∷ []) = (refl, refl, refl, refl)
  ref_of-IsRead raw (a ∷ b ∷ c ∷ []) = (refl, refl, refl, refl)
  ref_of-IsRead raw (a ∷ b ∷ c ∷ d ∷ rest) = classified-IsRead a b c d rest

  refs_of-Answers : (lines : List Text) → Answers (keep has_text lines) (refs_of repr lines)
  unfolding refs_of keep
  refs_of-Answers [] = tt
  refs_of-Answers (raw ∷ lines) = elim (Bool-cases (is_blank repr raw)) [
    | inl blank ↦ rw blank (refs_of-Answers lines)
    | inr text ↦ rw text (
      ref_of-IsRead raw (split [] raw),
      ref_of-IsClassified raw (split [] raw) (split-IsField [] raw),
      refs_of-Answers lines,
    )
  ]

  -- Every line that is not blank has its reference, in order, with the line's first four fields as local
  -- reference, local object id, remote reference and remote object id, empty where the line ends before.
  -- It is to be reviewed exactly if the local reference is `refs/heads/` and a text that is not empty, the
  -- local object id is not all zeros and there is a fourth field; then the branch is that text. It has a
  -- reason for being skipped exactly if it is not to be reviewed.
  pub parse_ref_lines-Answers :
      (text : Text)
      → Answers (keep has_text (split_lines [] false text)) (parse_ref_lines repr text)
  unfolding parse_ref_lines
  parse_ref_lines-Answers text = refs_of-Answers (split_lines [] false text)
