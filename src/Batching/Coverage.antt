-- ===== src/Batching/Coverage.antt =====
-- The batches of `split` carry every line of the diff, in order.
use skodun.Prelude.{
  ℕ, ◌≤◌, ◌≡◌, refl, ap, sym, ◌∙◌, true, false, ◌&&◌, not, none, some, List, [], ◌∷◌, ◌++◌, map,
  arith, Bool-cases, inl, inr, leb, ◌<◌, ◌⊎◌, leb→le, concat, concat-append, is_empty, All,
  All-append,
}
use mathlib.Core.List.{append_assoc, append-nil, map-append}
use mathlib.Core.Path.{subst}
use skodun.Prelude.Text.{Text}
use skodun.Batching.Lines.{Bytes, is_diff_git, is_hunk, blen}
use skodun.Batching.Labels.{file_of}
use skodun.Batching.Split.{
  Unit_, sections_from, sections, cut_from, label_files, with_header, pieces, units, all_units,
}

concat-sections_from : (cur lines : List Bytes) → concat (sections_from cur lines) ≡ cur ++ lines
unfolding sections_from concat
concat-sections_from [] [] = refl
concat-sections_from (c ∷ cur) [] = refl
concat-sections_from cur (ln ∷ lines) = elim (Bool-cases (is_diff_git ln && not (is_empty cur))) [
  | inl e ↦ rw (e, concat-sections_from (ln ∷ []) lines)
  | inr e ↦ rw (e, concat-sections_from (cur ++ ln ∷ []) lines) (append_assoc cur (ln ∷ []) lines)
]

-- Cutting the lines of a diff into sections loses nothing.
pub concat-sections : (lines : List Bytes) → concat (sections lines) ≡ lines
unfolding sections
concat-sections lines = concat-sections_from [] lines

-- A section has a line, and `diff --git` at most at its first.
abbrev pub IsSection : List Bytes → Type 0
IsSection [] = ⊥
IsSection (ln ∷ body) = All (λ x. is_diff_git x ≡ false) body

-- A section that begins with `diff --git`.
abbrev pub IsOpened : List Bytes → Type 0
IsOpened [] = ⊥
IsOpened (ln ∷ body) = (is_diff_git ln ≡ true) × All (λ x. is_diff_git x ≡ false) body

-- Every `diff --git` line begins a section, and every section but the first begins with one.
abbrev pub AreSections : List (List Bytes) → Type 0
AreSections [] = Unit
AreSections (section ∷ rest) = IsSection section × All IsOpened rest

All-snoc {ℓ} :
    {A : Type ℓ} (P : A → Type 0) (xs : List A) (x : A) → All P xs → P x → All P (xs ++ x ∷ [])
All-snoc P xs x h p = All-append P xs (x ∷ []) h (p, tt)

sections_from-IsOpened :
    (cur lines : List Bytes) → IsOpened cur → All IsOpened (sections_from cur lines)
unfolding sections_from
sections_from-IsOpened [] lines h = absurd h
sections_from-IsOpened (c ∷ cur) [] h = (h, tt)
sections_from-IsOpened (c ∷ cur) (ln ∷ lines) h = elim (Bool-cases (is_diff_git ln)) [
  | inl e ↦ rw e (h, sections_from-IsOpened (ln ∷ []) lines (e, tt))
  | inr e ↦ rw e (
      sections_from-IsOpened (c ∷ cur ++ ln ∷ []) lines
        (h.0, All-snoc (λ x. is_diff_git x ≡ false) cur ln h.1 e))
]

sections_from-AreSections :
    (cur lines : List Bytes) → IsSection cur → AreSections (sections_from cur lines)
unfolding sections_from
sections_from-AreSections [] lines h = absurd h
sections_from-AreSections (c ∷ cur) [] h = (h, tt)
sections_from-AreSections (c ∷ cur) (ln ∷ lines) h = elim (Bool-cases (is_diff_git ln)) [
  | inl e ↦ rw e (h, sections_from-IsOpened (ln ∷ []) lines (e, tt))
  | inr e ↦ rw e (
      sections_from-AreSections (c ∷ cur ++ ln ∷ []) lines
        (All-snoc (λ x. is_diff_git x ≡ false) cur ln h e))
]

pub sections-AreSections : (lines : List Bytes) → AreSections (sections lines)
unfolding sections sections_from
sections-AreSections [] = tt
sections-AreSections (ln ∷ lines) = elim (Bool-cases (is_diff_git ln)) [
  | inl e ↦ rw e (sections_from-AreSections (ln ∷ []) lines tt)
  | inr e ↦ rw e (sections_from-AreSections (ln ∷ []) lines tt)
]

-- A header line opens a hunk, and the lines behind it do not.
abbrev pub IsHunk : List Bytes → Type 0
IsHunk [] = ⊥
IsHunk (ln ∷ body) = (is_hunk ln ≡ true) × All (λ x. is_hunk x ≡ false) body

-- What becomes of one section: it stays whole if it fits or has no hunk; above the budget each of its
-- hunks is a piece behind a copy of the section's header.
pub data Cut (budget : ℕ) (section : List Bytes) : List (List Bytes) → Type 0 where
  whole :
      (blen section ≤ budget) ⊎ All (λ ln. is_hunk ln ≡ false) section
      → Cut budget section (section ∷ [])
  by_hunks :
      (header hunk : List Bytes) (hunks : List (List Bytes))
      → budget < blen section
      → header ++ concat (hunk ∷ hunks) ≡ section
      → All (λ ln. is_hunk ln ≡ false) header
      → All IsHunk (hunk ∷ hunks)
      → Cut budget section (map (λ h. header ++ h) (hunk ∷ hunks))

pub data Cuts (budget : ℕ) : List (List Bytes) → List (List Bytes) → Type 0 where
  nil : Cuts budget [] []
  cons :
      {section : List Bytes} {rest mine more : List (List Bytes)}
      → Cut budget section mine
      → Cuts budget rest more
      → Cuts budget (section ∷ rest) (mine ++ more)

-- The result of the loop of `_units`.
abbrev CutsInto : List Bytes → List Bytes × List (List Bytes) → Type 0
CutsInto section (header, hunks) =
    (header ++ concat hunks ≡ section) × All (λ ln. is_hunk ln ≡ false) header × All IsHunk hunks

IsHunk-snoc :
    (cur : List Bytes) (ln : Bytes) → IsHunk cur → is_hunk ln ≡ false → IsHunk (cur ++ ln ∷ [])
IsHunk-snoc [] ln h e = absurd h
IsHunk-snoc (c ∷ cur) ln h e = (h.0, All-snoc (λ x. is_hunk x ≡ false) cur ln h.1 e)

cut_open :
    (header : List Bytes) (hunks : List (List Bytes)) (cur lines : List Bytes)
    → All (λ ln. is_hunk ln ≡ false) header
    → All IsHunk hunks
    → IsHunk cur
    → CutsInto (header ++ (concat hunks ++ (cur ++ lines))) (cut_from header hunks (some cur) lines)
unfolding cut_from
cut_open header hunks cur [] h hs c = (
  simp (concat-append, append-nil) (unfold concat in simp append-nil),
  h,
  All-snoc IsHunk hunks cur hs c,
)
cut_open header hunks cur (ln ∷ lines) h hs c = elim (Bool-cases (is_hunk ln)) [
  | inl e ↦ rw e (
      subst (λ s. CutsInto s (cut_from header (hunks ++ cur ∷ []) (some (ln ∷ [])) lines))
        (simp (concat-append, append_assoc) (unfold concat in simp append-nil))
        (cut_open header (hunks ++ cur ∷ []) (ln ∷ []) lines h (All-snoc IsHunk hunks cur hs c)
          (e, tt)))
  | inr e ↦ rw e (
      subst (λ s. CutsInto s (cut_from header hunks (some (cur ++ ln ∷ [])) lines))
        (simp append_assoc)
        (cut_open header hunks (cur ++ ln ∷ []) lines h hs (IsHunk-snoc cur ln c e)))
]

cut_closed :
    (header lines : List Bytes)
    → All (λ ln. is_hunk ln ≡ false) header
    → CutsInto (header ++ lines) (cut_from header [] none lines)
unfolding cut_from concat
cut_closed header [] h = (refl, h, tt)
cut_closed header (ln ∷ lines) h = elim (Bool-cases (is_hunk ln)) [
  | inl e ↦ rw e (cut_open header [] (ln ∷ []) lines h tt (e, tt))
  | inr e ↦ rw e (
      subst (λ s. CutsInto s (cut_from (header ++ ln ∷ []) [] none lines))
        (append_assoc header (ln ∷ []) lines)
        (cut_closed (header ++ ln ∷ []) lines (All-snoc (λ x. is_hunk x ≡ false) header ln h e)))
]

abbrev pub unit_lines : List Unit_ → List (List Bytes)
unit_lines = map (λ u. u.lines)

unit_lines-with_header :
    (header : List Bytes) (files : List Text) (hunks : List (List Bytes))
    → unit_lines (map (with_header header files) hunks) ≡ map (λ h. header ++ h) hunks
unit_lines-with_header header files [] = refl
unit_lines-with_header header files (h ∷ hs) =
    ap (λ t. (header ++ h) ∷ t) (unit_lines-with_header header files hs)

pieces-Cut :
    (budget : ℕ) (section : List Bytes) (files : List Text) (cut : List Bytes × List (List Bytes))
    → budget < blen section
    → CutsInto section cut
    → Cut budget section (unit_lines (pieces section files cut))
pieces-Cut budget section files (header, []) big c = whole (
    inr (
      subst (All (λ ln. is_hunk ln ≡ false)) (sym (append-nil header) ∙ (unfold concat in c.0))
        c.1))
pieces-Cut budget section files (header, hunk ∷ hunks) big c =
    subst (Cut budget section) (sym (unit_lines-with_header header files (hunk ∷ hunks)))
      (by_hunks header hunk hunks big c.0 c.1 c.2)

units-Cut :
    (decode : Bytes → Text) (section : List Bytes) (budget : ℕ)
    → Cut budget section (unit_lines (units decode section budget))
unfolding units
units-Cut decode section budget = elim (Bool-cases (leb (blen section) budget)) [
  | inl e ↦ rw e (whole (inl (leb→le _ _ e)))
  | inr e ↦ rw e (
      pieces-Cut budget section (label_files (file_of decode section)) (cut_from [] [] none section)
        (ground arith) (cut_closed [] section tt))
]

pub map-append-lines : (us vs : List Unit_) → unit_lines (us ++ vs) ≡ unit_lines us ++ unit_lines vs
map-append-lines us vs = rw map-append

pub all_units-Cuts :
    (decode : Bytes → Text) (budget : ℕ) (secs : List (List Bytes))
    → Cuts budget secs (unit_lines (all_units decode secs budget))
unfolding all_units
all_units-Cuts decode budget [] = nil
all_units-Cuts decode budget (section ∷ rest) =
    subst (Cuts budget (section ∷ rest))
      (sym (map-append-lines (units decode section budget) (all_units decode rest budget)))
      (cons (units-Cut decode section budget) (all_units-Cuts decode budget rest))
