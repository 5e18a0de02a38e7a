-- ===== src/Triage/Audit.antt =====
-- What the audit floors of triage.py let through.
use skodun.Prelude.{
  ◌≡◌, refl, ◌≤◌, ◌↔◌, Bool, true, false, not, ◌||◌, List, [], ◌∷◌, arith, All, any, length, ltb,
  leb, is_empty, sym, leb→le,
}
use skodun.Prelude.Text.{Text}
use skodun.Json.{Json, str}
use skodun.Textnorm.{Python, strip, is_space, collapse_ws, norm}
use skodun.Triage.Result.{
  ok, require, ◌>>◌, require-ok, ok-injective, triage_error, empty_reason, placeholder,
  short_reason,
}
use skodun.Triage.Floors.{
  validate_reason, is_placeholder, check_ref, validate_tracking_ref, is_control, min_reason_chars,
  max_tracking_ref_chars,
}

length-not_empty : (s : Text) → not (is_empty s) ≡ true → 1 ≤ length s
length-not_empty [] h = ground arith
length-not_empty (c ∷ s) h = omega arith

any-none {ℓ} :
    {A : Type ℓ} (p : A → Bool) (xs : List A) → any p xs ≡ false → All (λ x. p x ≡ false) xs
unfolding any
any-none p [] h = tt
any-none p (x ∷ xs) h = (ground arith, any-none p xs (ground arith))

floors :
    (s : Text) (b : Bool)
    → ((do
      require (not (is_empty s)) (triage_error empty_reason)
      require (not b) (triage_error placeholder)
      require (not (ltb (length s) min_reason_chars)) (triage_error short_reason)
      ok (tt {0}))
        ≡ ok tt)
      ↔ ((20 ≤ length s) × (b ≡ false))
floors [] b = ground arith
floors (c ∷ s) true = ground arith
floors (c ∷ s) false = ground arith

-- `validate_reason` accepts a reason exactly if its collapsed form has 20 characters or more and its
-- normal form is no placeholder.
pub validate_reason_iff :
    (py : Python) (reason : Text)
    → (validate_reason py reason ≡ ok tt) ↔ (
        (20 ≤ length (collapse_ws py (str reason)))
        × (is_placeholder (norm py (str (collapse_ws py (str reason)))) ≡ false))
unfolding validate_reason
validate_reason_iff py reason =
    floors (collapse_ws py (str reason))
      (is_placeholder (norm py (str (collapse_ws py (str reason)))))

-- An accepted reference: a token of 1 to 200 characters.
pub record IsReference (py : Python) (ref : Text) : Type 0 where
  pub not_empty : 1 ≤ length ref
  pub fits_limit : length ref ≤ 200
  pub no_space : All (λ c. is_space c ≡ false) ref
  pub no_control : All (λ c. is_control c ≡ false) ref
  pub names : any (py.is_alnum) ref ≡ true

check_ref-IsReference :
    (py : Python) (cleaned ref : Text)
    → check_ref py cleaned ≡ ok ref
    → (ref ≡ cleaned) × IsReference py cleaned
unfolding check_ref
check_ref-IsReference py cleaned ref h =
    let r1 = require-ok (not (is_empty cleaned)) _ _ h in
    let r2 = require-ok (leb (length cleaned) max_tracking_ref_chars) _ _ r1.1 in
    let r3 = require-ok (not (any is_space cleaned || any is_control cleaned)) _ _ r2.1 in
    let r4 = require-ok (any (py.is_alnum) cleaned) _ _ r3.1 in
    let same : ref ≡ cleaned = sym (ok-injective r4.1) in
    (
      same,
      record {
        not_empty = length-not_empty cleaned r1.0;
        fits_limit = leb→le (length cleaned) 200 r2.0;
        no_space = any-none is_space cleaned (ground (arith, r3.0));
        no_control = any-none is_control cleaned (ground (arith, r3.0));
        names = r4.0;
      },
    )

-- A reference that `validate_tracking_ref` returns is the stripped text it was given: 1 to 200
-- characters, among them a letter or a digit, and neither white space nor a control character.
pub validate_tracking_ref-IsReference :
    (py : Python) (value : Json) (ref : Text)
    → validate_tracking_ref py value ≡ ok ref
    → (s : Text) × (value ≡ str s) × (ref ≡ strip s) × IsReference py ref
unfolding validate_tracking_ref
validate_tracking_ref-IsReference py (str s) ref h =
    let r = check_ref-IsReference py (strip s) ref h in (s, refl, r.0, rw r.0 r.1)
validate_tracking_ref-IsReference py _ ref h = ground arith
