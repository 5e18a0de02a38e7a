-- ===== src/Routing/Capacity.antt =====
-- Capacity against the soft terms of the score in routing.py.
use skodun.Prelude.{
  ℕ, ◌+◌, ◌≤◌, ◌<◌, ◌≡◌, true, Bool, Bool-cases, inl, inr, Option, some, List, ◌∷◌, All, All-map,
  All-append, arith, ltb,
}
use mathlib.Core.Path.{subst, sym}
use skodun.Prelude.Text.{Text}
use skodun.Prelude.Int.{ℤ, pos, pos_part, neg_part, ◌+ℤ◌, +ℤ_parts, ◌≤ℤ◌, lt_ℤ}
use skodun.Textnorm.{Python}
use skodun.Triage.Result.{ok}
use skodun.Routing.Family.{Reviewer}
use skodun.Routing.Score.{
  ProviderLoad, cross_model_bonus, cross_bonus_applies, load_score, share_score, score_candidate,
}
use skodun.Routing.Pick.{Choice, share_of, argmax}
use skodun.Routing.Best.{IsRoutable, IsUnder, IsAtMost, same_load, score_of, argmax-IsBest}

-- `WEIGHT_SHARE_SCORE`: the ceiling of a share term.
abbrev pub weight_share_score : ℕ
weight_share_score = 24

-- The share term that is added lies between the ceilings.
abbrev pub IsSoft : Option ℤ → Type 0
IsSoft share =
    (pos_part (share_score share) ≤ weight_share_score)
    × (neg_part (share_score share) ≤ weight_share_score)

-- The score between the bounds that its load sets.
score_bounds :
    (entry : Reviewer) (load : ProviderLoad) (family : Option Text) (cross_model : Bool)
    (share : Option ℤ)
    → IsSoft share
    → (pos_part (score_candidate entry load family cross_model share) + neg_part (load_score load)
        ≤ neg_part (score_candidate entry load family cross_model share)
          + pos_part (load_score load)
          + 44)
      × (neg_part (score_candidate entry load family cross_model share) + pos_part (load_score load)
          ≤ pos_part (score_candidate entry load family cross_model share)
            + neg_part (load_score load)
            + 24)
unfolding score_candidate
score_bounds entry load family cross_model share soft =
    let a = load_score load in
    let b = share_score share in
    let p = +ℤ_parts a b in
    elim (Bool-cases (cross_bonus_applies entry family cross_model)) [
      | inl eq ↦
          rw eq (let q = +ℤ_parts (a +ℤ b) (pos cross_model_bonus) in omega (arith, soft, p, q))
      | inr eq ↦ rw eq (let q = +ℤ_parts (a +ℤ b) (pos 0) in omega (arith, soft, p, q))
    ]

-- One free slot more is worth more than both soft terms together.
pub score_candidate_mono :
    (e e' : Reviewer) (l l' : ProviderLoad) (family : Option Text) (cross_model : Bool)
    (share share' : Option ℤ)
    → IsSoft share
    → IsSoft share'
    → l.free_slots < l'.free_slots
    → lt_ℤ
        (score_candidate e l family cross_model share)
        (score_candidate e' l' family cross_model share')
      ≡ true
score_candidate_mono e e' l l' family cross_model share share' soft soft' more =
    let b = score_bounds e l family cross_model share soft in
    let b' = score_bounds e' l' family cross_model share' soft' in ground (arith, b, b', more)

le_not_lt : (a b : ℤ) → a ≤ℤ b → ¬ (lt_ℤ b a ≡ true)
le_not_lt a b h k = ground (arith, h, k)

lt_le : (a b : ℤ) → lt_ℤ a b ≡ true → a ≤ℤ b
lt_le a b h = ground (arith, h)

module _ (py : Python) (loads : Text → Option ProviderLoad) (client_family : Option Text)
    (cross_model : Bool) (shares : Option (Text → Option ℤ)) where
  -- The chosen load has at least the free slots of every load that the entry may have.
  abbrev pub IsLessFree : ProviderLoad → Reviewer → Type 0
  IsLessFree chosen entry =
      (load : ProviderLoad)
      → IsRoutable py loads client_family cross_model shares entry load
      → load.free_slots ≤ chosen.free_slots

  module _ (soft : (entry : Reviewer) → IsSoft (share_of shares entry)) where
    at_most-IsLessFree :
        (c : Choice)
        → c.score ≡ score_of py loads client_family cross_model shares c.entry c.load
        → (entry : Reviewer) → IsAtMost py loads client_family cross_model shares c.score entry
        → IsLessFree c.load entry
    at_most-IsLessFree c own entry b load r =
        elim (Bool-cases (ltb c.load.free_slots load.free_slots)) [
          | inr le ↦ ground (arith, le)
          | inl more ↦ absurd (
              le_not_lt (score_of py loads client_family cross_model shares entry load) c.score
                (b load r)
                (subst
                  (λ s.
                    lt_ℤ s (score_of py loads client_family cross_model shares entry load) ≡ true)
                  (sym own)
                  (score_candidate_mono c.entry entry c.load load client_family cross_model
                    (share_of shares c.entry) (share_of shares entry) (soft c.entry) (soft entry)
                    (ground (arith, more)))))
        ]

    -- Capacity decides: while every share term lies within its ceilings, no candidate that can be routed to
    -- has more free slots than the one that the router picks.
    pub argmax-most_free :
        (pool : List Reviewer) (c : Choice)
        → argmax py loads client_family cross_model shares pool ≡ ok (some c)
        → All (IsLessFree c.load) pool
    argmax-most_free pool c h =
        let best = argmax-IsBest py loads client_family cross_model shares pool (some c) h in
        let free = at_most-IsLessFree c best.own_score in
        subst (All (IsLessFree c.load)) (sym best.split) (
          All-append (IsLessFree c.load) best.before (c.entry ∷ best.after)
            (All-map (IsUnder py loads client_family cross_model shares c.score) (IsLessFree c.load)
              best.before
              (λ e under. free e (λ l r.
                lt_le (score_of py loads client_family cross_model shares e l) c.score (under l r)))
              best.under)
            (
              (λ l r.
                  subst (λ x. x.free_slots ≤ c.load.free_slots)
                    (same_load py loads client_family cross_model shares c.entry best.routable.0
                      c.load l best.routable.1 best.routable.2 r)
                    (ground arith)),
              All-map (IsAtMost py loads client_family cross_model shares c.score)
                  (IsLessFree c.load) best.after free best.at_most,
            ))
