-- ===== src/Textnorm/Collapse.antt =====
-- `collapse_ws` gives a canonical form.
use skodun.Prelude.{
  ℕ, ◌≡◌, refl, Bool, true, false, [], ◌∷◌, arith, Bool-cases, inl, inr, if◌then◌else◌,
}
use skodun.Prelude.Text.{Text}
use skodun.Textnorm.{is_space, squeeze, lstrip, rstrip, collapse_text}

-- Every white space character is a blank, and none follows another; `run` says that one stands before.
abbrev pub IsTidy : Bool → Text → Type 0
IsTidy run [] = Unit
IsTidy run (c ∷ s) = (is_space c ≡ true → (c ≡ 32) × (run ≡ false)) × IsTidy (is_space c) s

blank_is_space : is_space 32 ≡ true
unfolding is_space
blank_is_space = refl

IsTidy-step :
    (run b : Bool) (c : ℕ) (rest : Text)
    → is_space c ≡ b
    → IsTidy b rest
    → IsTidy run (if b then if run then rest else 32 ∷ rest else c ∷ rest)
IsTidy-step true true c rest e h = h
IsTidy-step false true c rest e h = ((λ _. (refl, refl)), rw blank_is_space h)
IsTidy-step run false c rest e h = ((λ p. cc), rw e h)

squeeze-IsTidy : (run : Bool) (s : Text) → IsTidy run (squeeze run s)
unfolding squeeze
squeeze-IsTidy run [] = tt
squeeze-IsTidy run (c ∷ s) =
    IsTidy-step run (is_space c) c (squeeze (is_space c) s) refl (squeeze-IsTidy (is_space c) s)

squeeze_tidy : (run : Bool) (s : Text) → IsTidy run s → squeeze run s ≡ s
unfolding squeeze
squeeze_tidy run [] h = refl
squeeze_tidy run (c ∷ s) h = ground (arith, squeeze_tidy (is_space c) s h.1, h.0)

IsTidy-false : (run : Bool) (s : Text) → IsTidy run s → IsTidy false s
IsTidy-false run [] h = tt
IsTidy-false run (c ∷ s) h = ((λ p. ((h.0 p).0, refl)), h.1)

-- A text that does not begin, or does not end, with white space.
abbrev pub IsBare : Text → Type 0
IsBare [] = Unit
IsBare (c ∷ s) = is_space c ≡ false

abbrev pub EndsBare : Text → Type 0
EndsBare [] = Unit
EndsBare (c ∷ []) = is_space c ≡ false
EndsBare (c ∷ d ∷ s) = EndsBare (d ∷ s)

lstrip_step :
    (b : Bool) (c : ℕ) (s rest : Text)
    → is_space c ≡ b
    → IsTidy (is_space c) s
    → IsTidy false rest × IsBare rest
    → IsTidy false (if b then rest else c ∷ s) × IsBare (if b then rest else c ∷ s)
lstrip_step true c s rest e h r = r
lstrip_step false c s rest e h r = (((λ p. cc), h), e)

lstrip-IsTidy : (run : Bool) (s : Text) → IsTidy run s → IsTidy false (lstrip s) × IsBare (lstrip s)
unfolding lstrip
lstrip-IsTidy run [] h = (tt, tt)
lstrip-IsTidy run (c ∷ s) h =
    lstrip_step (is_space c) c s (lstrip s) refl h.1 (lstrip-IsTidy (is_space c) s h.1)

-- What `rstrip` keeps of a text is tidy, bare at its end, and bare at its beginning if the text was.
record IsTrimmed (run : Bool) (s t : Text) : Type 0 where
  tidy : IsTidy run t
  ends : EndsBare t
  begins : IsBare s → IsBare t

rstrip_step :
    (run : Bool) (c : ℕ) (s rest : Text)
    → IsTidy run (c ∷ s)
    → IsTrimmed (is_space c) s rest
    → IsTrimmed run
        (c ∷ s)
        (elim rest [ [] ↦ if is_space c then [] else c ∷ [] | d ∷ t ↦ c ∷ d ∷ t ])
rstrip_step run c s [] h r = elim (Bool-cases (is_space c)) [
  | inl e ↦ rw e (record { tidy = tt; ends = tt; begins = λ b. tt })
  | inr e ↦ rw e (record { tidy = ((λ p. h.0 p), tt); ends = e; begins = λ b. b })
]
rstrip_step run c s (d ∷ t) h r = record { tidy = (h.0, r.tidy); ends = r.ends; begins = λ b. b }

rstrip-IsTrimmed : (run : Bool) (s : Text) → IsTidy run s → IsTrimmed run s (rstrip s)
unfolding rstrip
rstrip-IsTrimmed run [] h = record { tidy = tt; ends = tt; begins = λ b. b }
rstrip-IsTrimmed run (c ∷ s) h =
    rstrip_step run c s (rstrip s) h (rstrip-IsTrimmed (is_space c) s h.1)

lstrip_bare : (s : Text) → IsBare s → lstrip s ≡ s
unfolding lstrip
lstrip_bare [] h = refl
lstrip_bare (c ∷ s) h = rw h

rstrip_bare : (s : Text) → EndsBare s → rstrip s ≡ s
unfolding rstrip
rstrip_bare [] h = refl
rstrip_bare (c ∷ []) h = rw h
rstrip_bare (c ∷ d ∷ s) h = rw (rstrip_bare (d ∷ s) h)

-- No white space at either end, and every white space inside is one blank.
pub record IsCollapsed (s : Text) : Type 0 where
  pub tidy : IsTidy false s
  pub begins : IsBare s
  pub ends : EndsBare s

-- What `collapse_ws` makes of a text begins and ends without white space, and inside it every white
-- space is a single blank.
pub collapse_text-IsCollapsed : (s : Text) → IsCollapsed (collapse_text s)
unfolding collapse_text
collapse_text-IsCollapsed s =
    let l = lstrip-IsTidy false (squeeze false s) (squeeze-IsTidy false s) in
    let r = rstrip-IsTrimmed false (lstrip (squeeze false s)) l.0 in
    record { tidy = r.tidy; begins = r.begins l.1; ends = r.ends }

collapse_collapsed : (s : Text) → IsCollapsed s → collapse_text s ≡ s
unfolding collapse_text
collapse_collapsed s h =
    rw (squeeze_tidy false s h.tidy, lstrip_bare s h.begins) (rstrip_bare s h.ends)

-- Collapsing once is enough.
pub collapse_text_idem : (s : Text) → collapse_text (collapse_text s) ≡ collapse_text s
collapse_text_idem s = collapse_collapsed (collapse_text s) (collapse_text-IsCollapsed s)
