-- ===== src/Trust/Rendering.antt =====
-- The banner and the gate's note of trust.py as lines of text.
use skodun.Prelude.{
  ℕ, suc, ◌≡◌, refl, Bool, true, false, ◌||◌, List, [], ◌∷◌, ◌++◌, arith, Bool-cases, inl, inr,
  ◌==◌, all, All, not, concat, take, zero, ◌&&◌,
}
use Prim.Native.String.{String}
use skodun.Prelude.Text.{Text, codes}
use skodun.Prelude.Int.{ℤ}
use skodun.Json.{Json, Fields, get_or_null, int}
use skodun.Textnorm.{Python}
use skodun.Trust.{
  lower_bool, coerce_count, flatten_text, one_line, shown, count_text, banner_pieces, banner,
  is_line_break, split_lines, join, flatten_lines, severity_of,
}

-- No line boundary of any kind.
abbrev pub unbroken : Text → Bool
unbroken s = all (λ c. not (is_line_break c)) s

-- One line, as `str.splitlines` counts.
pub record IsOneLine (s : Text) : Type 0 where
  pub fits : unbroken s ≡ true

unbroken-append : (s t : Text) → unbroken s ≡ true → unbroken t ≡ true → unbroken (s ++ t) ≡ true
unfolding all
unbroken-append [] t h k = k
unbroken-append (c ∷ s) t h k = ground (arith, unbroken-append s t)

unbroken-take : (n : ℕ) (s : Text) → unbroken s ≡ true → unbroken (take n s) ≡ true
unfolding all
unbroken-take zero s h = refl
unbroken-take (suc n) [] h = refl
unbroken-take (suc n) (c ∷ s) h = ground (arith, unbroken-take n s)

-- No line boundary but carriage returns and line feeds.
abbrev pub is_plain : Text → Bool
is_plain s = all (λ c. c == 13 || c == 10 || not (is_line_break c)) s

unbroken-flatten_text : (s : Text) → is_plain s ≡ true → unbroken (flatten_text s) ≡ true
unfolding all flatten_text is_line_break
unbroken-flatten_text [] h = refl
unbroken-flatten_text (c ∷ s) h = ground (arith, h, unbroken-flatten_text s)

take-IsOneLine : (n : ℕ) {s : Text} → IsOneLine s → IsOneLine (take n s)
take-IsOneLine n {s} h = record { fits = unbroken-take n s h.fits }

concat-IsOneLine : (ss : List Text) → All IsOneLine ss → IsOneLine (concat ss)
unfolding concat
concat-IsOneLine [] h = record { fits = unfold all in refl }
concat-IsOneLine (s ∷ ss) h = record {
  fits = unbroken-append s (concat ss) h.0.fits (concat-IsOneLine ss h.1).fits;
}

-- A text that the program writes out.
literal : {s : Text} → unbroken s ≡ true → IsOneLine s
literal e = record { fits = e }

lower_bool-IsOneLine : (v : Json) → IsOneLine (lower_bool v)
unfolding all is_line_break
lower_bool-IsOneLine v = record { fits = ground arith }

-- The text of a value has no line boundary that `one_line` leaves.
abbrev pub IsPlain : Python → Json → Type 0
IsPlain py v = is_plain (shown py v) ≡ true

-- `one_line` of such a value is one line.
pub one_line-IsOneLine : (py : Python) (v : Json) → IsPlain py v → IsOneLine (one_line py v)
unfolding one_line
one_line-IsOneLine py v h = record { fits = unbroken-flatten_text (shown py v) h }

-- Python prints an integer on one line.
abbrev pub PrintsInts : Python → Type 0
PrintsInts py = (n : ℤ) → IsOneLine (py.to_str (int n))

count-IsOneLine : (py : Python) → PrintsInts py → (v : Json) → IsOneLine (count_text py v)
unfolding count_text
count-IsOneLine py ints v = ints (coerce_count v)

-- While the texts of `stop_reason`, `head` and `id` have no line boundary but carriage returns and line
-- feeds, and Python's integers have none, the banner is one line as `str.splitlines` counts, whatever else
-- the record holds.
pub banner-IsOneLine :
    (py : Python)
    → PrintsInts py
    → (review : Fields) → IsPlain py (get_or_null (codes "stop_reason") review)
    → IsPlain py (get_or_null (codes "head") review)
    → IsPlain py (get_or_null (codes "id") review)
    → IsOneLine (banner py review)
unfolding banner all is_line_break
banner-IsOneLine py ints review stop head id = concat-IsOneLine (banner_pieces py review sev) (
  literal refl,
  (
    lower_bool-IsOneLine (at "trustworthy"),
    (
      literal refl,
      (
        count-IsOneLine py ints (at "findings_total"),
        (
          literal refl,
          (
            lower_bool-IsOneLine (at "degraded"),
            (
              literal refl,
              (
                one_line-IsOneLine py (at "stop_reason") stop,
                (
                  literal refl,
                  (
                    take-IsOneLine 9 (one_line-IsOneLine py (at "head") head),
                    (
                      literal refl,
                      (
                        one_line-IsOneLine py (at "id") id,
                        (
                          literal refl,
                          (
                            count-IsOneLine py ints (level "high"),
                            (
                              literal refl,
                              (
                                count-IsOneLine py ints (level "medium"),
                                (literal refl, (count-IsOneLine py ints (level "low"), tt)),
                              ),
                            ),
                          ),
                        ),
                      ),
                    ),
                  ),
                ),
              ),
            ),
          ),
        ),
      ),
    ),
  ),
)
  where
    sev : Fields
    sev = severity_of py (get_or_null (codes "severity") review)

    at : String → Json
    at key = get_or_null (codes key) review

    level : String → Json
    level key = get_or_null (codes key) sev

split_lines-unbroken :
    (cur : Text) (cr : Bool) (s : Text)
    → unbroken cur ≡ true
    → All (λ l. unbroken l ≡ true) (split_lines cur cr s)
unfolding split_lines
split_lines-unbroken [] cr [] h = tt
split_lines-unbroken (c ∷ cur) cr [] h = (h, tt)
split_lines-unbroken cur cr (c ∷ s) h = elim (Bool-cases (cr && c == 10)) [
  | inl e ↦ rw e (split_lines-unbroken [] false s (unfold all in refl))
  | inr e ↦ elim (Bool-cases (is_line_break c)) [
    | inl b ↦ rw (e, b) (h, split_lines-unbroken [] (c == 13) s (unfold all in refl))
    | inr b ↦
        rw (e, b)
          (split_lines-unbroken (cur ++ c ∷ []) false s
            (unbroken-append cur (c ∷ []) h (unfold all in ground arith)))
  ]
]

join-unbroken :
    (sep : Text) (ls : List Text)
    → unbroken sep ≡ true
    → All (λ l. unbroken l ≡ true) ls
    → unbroken (join sep ls) ≡ true
unfolding join
join-unbroken sep [] k h = unfold all in refl
join-unbroken sep (l ∷ []) k h = h.0
join-unbroken sep (l ∷ m ∷ ls) k h =
    unbroken-append (l ++ sep) (join sep (m ∷ ls)) (unbroken-append l sep h.0 k)
      (join-unbroken sep (m ∷ ls) k h.1)

-- The note that the gate records is one line, by every line boundary that Python knows.
pub flatten_lines-unbroken : (message : Text) → unbroken (flatten_lines message) ≡ true
unfolding flatten_lines is_line_break all
flatten_lines-unbroken message =
    join-unbroken (codes " | ") (split_lines [] false message) refl
      (split_lines-unbroken [] false message refl)
