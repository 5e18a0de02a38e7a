-- ===== src/Routing/Shared.antt =====
-- Which entry a pool's load in routing.py is read for.
use skodun.Prelude.{
  ◌≡◌, refl, sym, ap, ◌∙◌, Bool, true, false, Bool-cases, inl, inr, Option, none, some, List, [],
  ◌∷◌, if◌then◌else◌, is_none, arith,
}
use skodun.Prelude.Text.{Text, text_eq, text_eq_iff}
use skodun.Textnorm.{Python}
use skodun.Triage.Result.{Result, ok, err, >>=-eq-ok, ok-injective}
use skodun.Routing.Family.{Reviewer, quota_pool_for}
use skodun.Routing.Score.{ProviderLoad}
use skodun.Routing.Loads.{Probes, load_of, load_at, assigned, noted, loads_from, provider_loads}

abbrev is_ok_at : Text → Result Text → Bool
is_ok_at key (ok k) = text_eq k key
is_ok_at key (err why) = false

-- The first entry of the quota pool.
unfoldable pub first_entry : Python → Text → List Reviewer → Option Reviewer
unfolding quota_pool_for text_eq
first_entry py key [] = none
first_entry py key (entry ∷ pool) =
    let later = first_entry py key pool in
    if is_ok_at key (quota_pool_for py entry) then some entry else later

abbrev pub loaded : Probes → Text → Option Reviewer → Option ProviderLoad
loaded p key none = none
loaded p key (some entry) = some (load_of p entry key)

abbrev or_load : Option ProviderLoad → Option ProviderLoad → Option ProviderLoad
or_load none other = other
or_load (some load) other = some load

or_load-none : (o : Option ProviderLoad) → or_load o none ≡ o
or_load-none none = refl
or_load-none (some load) = refl

or_load_assoc : (a b c : Option ProviderLoad) → or_load (or_load a b) c ≡ or_load a (or_load b c)
or_load_assoc none b c = refl
or_load_assoc (some load) b c = refl

true_not_false : ¬ (true ≡ false)
true_not_false e = ground (arith, e)

other_key : (k k' key : Text) → text_eq k' key ≡ true → text_eq k' k ≡ false → text_eq k key ≡ false
other_key k k' key hit differ = elim (Bool-cases (text_eq k key)) [
  | inl same ↦ absurd (
      true_not_false (
        sym ((text_eq_iff k' k).1 ((text_eq_iff k' key).0 hit ∙ sym ((text_eq_iff k key).0 same)))
        ∙ differ))
  | inr other ↦ other
]

load_at-assigned :
    (key k : Text) (load : ProviderLoad) (out : List (Text × ProviderLoad))
    → load_at key (assigned k load out) ≡ (if text_eq k key then some load else load_at key out)
unfolding load_at assigned
load_at-assigned key k load [] = refl
load_at-assigned key k load ((k', held) ∷ out) = elim (Bool-cases (text_eq k' k)) [
  | inl same ↦
      let e : text_eq k' key ≡ text_eq k key =
        ap (λ x. text_eq x key) ((text_eq_iff k' k).0 same) in
      rw (same, e)
        (elim (Bool-cases (text_eq k key)) [ inl hit ↦ rw hit refl | inr miss ↦ rw miss refl ])
  | inr differ ↦
      rw (differ, load_at-assigned key k load out)
        (elim (Bool-cases (text_eq k' key)) [
          | inl hit ↦ rw (hit, other_key k k' key hit differ) refl
          | inr miss ↦ rw miss refl
        ])
]

-- What one step adds under a key.
abbrev share_at : Probes → Reviewer → Text → Text → Option ProviderLoad
share_at p entry k key = if text_eq k key then some (load_of p entry key) else none

not_none : (o : Option ProviderLoad) → is_none o ≡ false → ¬ (o ≡ none)
not_none o n h = ground (arith, n, h)

already :
    (p : Probes) (entry : Reviewer) (k key : Text) (held got : Option ProviderLoad)
    → is_none held ≡ false
    → (k ≡ key → held ≡ got)
    → or_load got (share_at p entry k key) ≡ got
already p entry k key held (some load) n h = refl
already p entry k key held none n h = elim (Bool-cases (text_eq k key)) [
  | inl same ↦ absurd (not_none held n (h ((text_eq_iff k key).0 same)))
  | inr other ↦ rw other refl
]

got_none : (held got : Option ProviderLoad) → is_none held ≡ true → held ≡ got → got ≡ none
got_none none got n e = sym e
got_none (some load) got n e = ground (arith, n)

fresh :
    (p : Probes) (entry : Reviewer) (k key : Text) (held got : Option ProviderLoad)
    → is_none held ≡ true
    → (k ≡ key → held ≡ got)
    → (if text_eq k key then some (load_of p entry k) else got)
      ≡ or_load got (share_at p entry k key)
fresh p entry k key held got n h = elim (Bool-cases (text_eq k key)) [
  | inl same ↦
      let e = (text_eq_iff k key).0 same in
      rw (same, got_none held got n (h e)) (ap (λ x. some (load_of p entry x)) e)
  | inr other ↦ rw other (sym (or_load-none got))
]

noted-at :
    (p : Probes) (entry : Reviewer) (k key : Text) (out : List (Text × ProviderLoad))
    → load_at key (noted p entry k out) ≡ or_load (load_at key out) (share_at p entry k key)
unfolding noted
noted-at p entry k key out = elim (Bool-cases (is_none (load_at k out))) [
  | inl absent ↦ rw absent (
      load_at-assigned key k (load_of p entry k) out
      ∙ fresh p entry k key (load_at k out) (load_at key out) absent
          (λ e. ap (λ x. load_at x out) e))
  | inr present ↦ rw present (
      sym (
        already p entry k key (load_at k out) (load_at key out) present
          (λ e. ap (λ x. load_at x out) e)))
]

first_or :
    (p : Probes) (entry : Reviewer) (k key : Text) (later : Option Reviewer)
    → or_load (share_at p entry k key) (loaded p key later)
      ≡ loaded p key (if text_eq k key then some entry else later)
first_or p entry k key later = elim (Bool-cases (text_eq k key)) [
  | inl same ↦ rw same refl
  | inr other ↦ rw other refl
]

pub loads_from-at :
    (py : Python) (p : Probes) (key : Text) (out got : List (Text × ProviderLoad))
    (pool : List Reviewer)
    → loads_from py p out pool ≡ ok got
    → load_at key got ≡ or_load (load_at key out) (loaded p key (first_entry py key pool))
unfolding loads_from first_entry
loads_from-at py p key out got [] h =
    ap (load_at key) (sym (ok-injective h)) ∙ sym (or_load-none (load_at key out))
loads_from-at py p key out got (entry ∷ pool) h =
    let r = >>=-eq-ok (quota_pool_for py entry) _ h in
    loads_from-at py p key (noted p entry r.0 out) got pool r.2
    ∙ ap (λ o. or_load o (loaded p key (first_entry py key pool))) (noted-at p entry r.0 key out)
    ∙ or_load_assoc (load_at key out) (share_at p entry r.0 key)
        (loaded p key (first_entry py key pool))
    ∙ ap (or_load (load_at key out)) (rw r.1 (first_or p entry r.0 key (first_entry py key pool)))

pub provider_loads-first :
    (py : Python) (p : Probes) (key : Text) (got : List (Text × ProviderLoad))
    (pool : List Reviewer)
    → provider_loads py p pool ≡ ok got
    → load_at key got ≡ loaded p key (first_entry py key pool)
unfolding provider_loads load_at
provider_loads-first py p key got pool h = loads_from-at py p key [] got pool h
