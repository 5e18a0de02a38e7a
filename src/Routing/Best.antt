-- ===== src/Routing/Best.antt =====
-- The pick of routing.py is the first of the best candidates.
use skodun.Prelude.{
  ◌+◌, ◌<◌, ◌≡◌, refl, ap, ◌∙◌, sym, inl, inr, Bool, true, false, Option, none, some, List, [], ◌∷◌,
  ◌++◌, arith, Bool-cases, All, All-map, All-append,
}
use mathlib.Core.Path.{subst}
use mathlib.Core.List.{append_assoc, append-nil}
use skodun.Prelude.Text.{Text}
use skodun.Prelude.Int.{ℤ, pos_part, neg_part, ◌≤ℤ◌, lt_ℤ}
use skodun.Textnorm.{Python}
use skodun.Triage.Result.{ok, >>=-eq-ok, ok-injective}
use skodun.Routing.Family.{Reviewer, quota_pool_for}
use skodun.Routing.Score.{ProviderLoad}
use skodun.Routing.Pick.{Choice, usable, scored, weighed, argmax_from, argmax}

lt_ℤ-lt : (a b : ℤ) → lt_ℤ a b ≡ true → pos_part a + neg_part b < pos_part b + neg_part a
lt_ℤ-lt a b h = ground (arith, h)

not_lt_ℤ-le : (a b : ℤ) → lt_ℤ a b ≡ false → b ≤ℤ a
not_lt_ℤ-le a b h = ground (arith, h)

lt_trans : (a b c : ℤ) → lt_ℤ a b ≡ true → lt_ℤ b c ≡ true → lt_ℤ a c ≡ true
lt_trans a b c h k = ground (arith, h, k)

le_lt : (a b c : ℤ) → a ≤ℤ b → lt_ℤ b c ≡ true → lt_ℤ a c ≡ true
le_lt a b c h k = ground (arith, h, k)

some-injective : {a b : ProviderLoad} → some a ≡ some b → a ≡ b
some-injective h = cc

not_some : {a : ProviderLoad} → ¬ (none ≡ some a)
not_some h = cc

longer :
    (seen before after : List Reviewer) (e new : Reviewer)
    → seen ≡ before ++ e ∷ after
    → seen ++ new ∷ [] ≡ before ++ e ∷ (after ++ new ∷ [])
longer seen before after e new h =
    ap (λ l. l ++ new ∷ []) h ∙ append_assoc before (e ∷ after) (new ∷ [])

module _ (py : Python) (loads : Text → Option ProviderLoad) (client_family : Option Text)
    (cross_model : Bool) (shares : Option (Text → Option ℤ)) where
  -- The entry can be routed to, under this load.
  abbrev pub IsRoutable : Reviewer → ProviderLoad → Type 0
  IsRoutable entry load =
      (key : Text) × (quota_pool_for py entry ≡ ok key) × (usable (loads key) ≡ some load)

  abbrev pub score_of : Reviewer → ProviderLoad → ℤ
  score_of entry load = (scored py loads client_family cross_model shares entry load).score

  -- Under every load that it may have, the entry scores less than `s`, or at most `s`.
  abbrev pub IsUnder : ℤ → Reviewer → Type 0
  IsUnder s entry =
      (load : ProviderLoad) → IsRoutable entry load → lt_ℤ (score_of entry load) s ≡ true

  abbrev pub IsAtMost : ℤ → Reviewer → Type 0
  IsAtMost s entry = (load : ProviderLoad) → IsRoutable entry load → score_of entry load ≤ℤ s

  abbrev pub IsOut : Reviewer → Type 0
  IsOut entry = (load : ProviderLoad) → ¬ IsRoutable entry load

  -- The choice among the pool: those before it score less, those after it no more.
  pub record IsFirstBest (pool : List Reviewer) (c : Choice) : Type 0 where
    pub before : List Reviewer
    pub after : List Reviewer
    pub split : pool ≡ before ++ c.entry ∷ after
    pub routable : IsRoutable c.entry c.load
    pub own_score : c.score ≡ score_of c.entry c.load
    pub under : All (IsUnder c.score) before
    pub at_most : All (IsAtMost c.score) after

  abbrev pub IsBest : List Reviewer → Option Choice → Type 0
  IsBest pool none = All IsOut pool
  IsBest pool (some c) = IsFirstBest pool c

  -- The load of an entry is the one that its quota pool has.
  pub same_load :
      (entry : Reviewer) (key : Text) (load other : ProviderLoad)
      → quota_pool_for py entry ≡ ok key
      → usable (loads key) ≡ some load
      → IsRoutable entry other
      → load ≡ other
  same_load entry key load other q u (k, q', u') =
      some-injective (sym u ∙ ap (λ x. usable (loads x)) (ok-injective (sym q ∙ q')) ∙ u')

  no_load :
      (entry : Reviewer) (key : Text) (other : ProviderLoad)
      → quota_pool_for py entry ≡ ok key
      → usable (loads key) ≡ none
      → ¬ IsRoutable entry other
  no_load entry key other q u (k, q', u') =
      not_some (sym u ∙ ap (λ x. usable (loads x)) (ok-injective (sym q ∙ q')) ∙ u')

  All-IsUnder :
      (seen : List Reviewer) (best : Choice) (s : ℤ)
      → IsFirstBest seen best
      → lt_ℤ best.score s ≡ true
      → All (IsUnder s) seen
  All-IsUnder seen best s h more = subst (All (IsUnder s)) (sym h.split) (
      All-append (IsUnder s) h.before (best.entry ∷ h.after)
        (All-map (IsUnder best.score) (IsUnder s) h.before
          (λ e b l r. lt_trans (score_of e l) best.score s (b l r) more) h.under)
        (
          (λ l r.
              subst (λ x. lt_ℤ x s ≡ true)
                (h.own_score
                  ∙ ap (score_of best.entry)
                      (same_load best.entry h.routable.0 best.load l h.routable.1 h.routable.2 r))
                more),
          All-map (IsAtMost best.score) (IsUnder s) h.after
              (λ e b l r. le_lt (score_of e l) best.score s (b l r) more) h.at_most,
        ))

  weighed-IsBest :
      (seen : List Reviewer) (best : Option Choice) (entry : Reviewer) (key : Text)
      (load : Option ProviderLoad)
      → quota_pool_for py entry ≡ ok key
      → usable (loads key) ≡ load
      → IsBest seen best
      → IsBest
          (seen ++ entry ∷ [])
          (weighed py loads client_family cross_model shares entry load best)
  weighed-IsBest seen none entry key none q u h =
      All-append IsOut seen (entry ∷ []) h ((λ load r. no_load entry key load q u r), tt)
  weighed-IsBest seen (some best) entry key none q u h = record {
    before = h.before;
    after = h.after ++ entry ∷ [];
    split = longer seen h.before h.after best.entry entry h.split;
    routable = h.routable;
    own_score = h.own_score;
    under = h.under;
    at_most =
        All-append (IsAtMost best.score) h.after (entry ∷ []) h.at_most
          ((λ load r. absurd (no_load entry key load q u r)), tt);
  }
  weighed-IsBest seen none entry key (some load) q u h = record {
    before = seen;
    after = [];
    split = refl;
    routable = (key, q, u);
    own_score = refl;
    under = All-map IsOut (IsUnder (score_of entry load)) seen (λ e out l r. absurd (out l r)) h;
    at_most = tt;
  }
  weighed-IsBest seen (some best) entry key (some load) q u h =
      elim (Bool-cases (lt_ℤ best.score (score_of entry load))) [
        | inl more ↦ rw more record {
          before = seen;
          after = [];
          split = refl;
          routable = (key, q, u);
          own_score = refl;
          under = All-IsUnder seen best (score_of entry load) h more;
          at_most = tt;
        }
        | inr no_more ↦ rw no_more record {
          before = h.before;
          after = h.after ++ entry ∷ [];
          split = longer seen h.before h.after best.entry entry h.split;
          routable = h.routable;
          own_score = h.own_score;
          under = h.under;
          at_most = All-append (IsAtMost best.score) h.after (entry ∷ []) h.at_most (
            (λ l r.
                subst (λ x. score_of entry x ≤ℤ best.score) (same_load entry key load l q u r)
                  (not_lt_ℤ-le best.score (score_of entry load) no_more)),
            tt,
          );
        }
      ]

  argmax_from-IsBest :
      (seen pool : List Reviewer) (best got : Option Choice)
      → IsBest seen best
      → argmax_from py loads client_family cross_model shares best pool ≡ ok got
      → IsBest (seen ++ pool) got
  unfolding argmax_from
  argmax_from-IsBest seen [] best got b h =
      subst (λ p. IsBest p got) (sym (append-nil seen)) (subst (IsBest seen) (ok-injective h) b)
  argmax_from-IsBest seen (entry ∷ pool) best got b h =
      let r = >>=-eq-ok (quota_pool_for py entry) _ h in
      subst (λ p. IsBest p got) (append_assoc seen (entry ∷ []) pool)
        (argmax_from-IsBest (seen ++ entry ∷ []) pool
          (weighed py loads client_family cross_model shares entry (usable (loads r.0)) best) got
          (weighed-IsBest seen best entry r.0 (usable (loads r.0)) r.1 refl b) r.2)

  -- The candidate that the router picks can be routed to; every candidate that the operator listed before
  -- it and that can be routed to scores less, and every one listed behind it no more. It picks none only
  -- if no candidate can be routed to.
  pub argmax-IsBest :
      (pool : List Reviewer) (got : Option Choice)
      → argmax py loads client_family cross_model shares pool ≡ ok got
      → IsBest pool got
  unfolding argmax
  argmax-IsBest pool got h = argmax_from-IsBest [] pool none got tt h
