-- ===== src/Routing/Score.antt =====
-- `score_candidate` of routing.py.
use skodun.Prelude.{ℕ, ◌+◌, ◌*◌, Bool, false, not, ◌&&◌, Option, none, some, if◌then◌else◌, ltb}
use skodun.Prelude.Text.{Text, text_eq}
use skodun.Prelude.Int.{ℤ, pos, neg, ◌+ℤ◌}
use skodun.Routing.Family.{Reviewer, provider_family}

pub record ProviderLoad : Type 0 where
  pub free_slots : ℕ
  pub queue_depth : ℕ
  pub unavailable : Bool

abbrev pub free_slot_score : ℕ
free_slot_score = 100

abbrev pub queue_depth_penalty : ℕ
queue_depth_penalty = 10

abbrev pub cross_model_bonus : ℕ
cross_model_bonus = 20

unfoldable pub cross_bonus_applies : Reviewer → Option Text → Bool → Bool
unfolding provider_family text_eq
cross_bonus_applies entry none cross_model = false
cross_bonus_applies entry (some family) cross_model =
    cross_model && not (text_eq (provider_family entry.provider) family)

-- The score of the load alone.
abbrev pub load_score : ProviderLoad → ℤ
load_score load =
    if ltb 0 load.free_slots
    then pos (free_slot_score * load.free_slots)
    else neg (queue_depth_penalty * (load.queue_depth + 1))

abbrev pub share_score : Option ℤ → ℤ
share_score none = pos 0
share_score (some term) = term

-- `score_candidate`; a share is the rounded term that it adds.
unfoldable pub score_candidate : Reviewer → ProviderLoad → Option Text → Bool → Option ℤ → ℤ
unfolding ◌+ℤ◌ cross_bonus_applies
score_candidate entry load client_family cross_model share =
    load_score load
    +ℤ share_score share
    +ℤ (if cross_bonus_applies entry client_family cross_model
        then pos cross_model_bonus
        else pos 0)
