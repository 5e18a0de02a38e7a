-- ===== src/Routing/Pick.antt =====
-- `pick_finder` of routing.py, with `_argmax` and `_label`.
use skodun.Prelude.{
  Bool, true, false, not, ◌||◌, Option, none, some, List, [], ◌∷◌, if◌then◌else◌, ltb,
}
use skodun.Prelude.Text.{Text, codes, text_eq}
use skodun.Prelude.Int.{ℤ, lt_ℤ}
use skodun.Textnorm.{Python}
use skodun.Triage.Result.{Result, ok, ◌>>=◌}
use skodun.Routing.Family.{Reviewer, quota_pool_for}
use skodun.Routing.Score.{ProviderLoad, score_candidate}

-- The candidate that is ahead, with its load and its score.
pub record Choice : Type 0 where
  pub entry : Reviewer
  pub load : ProviderLoad
  pub score : ℤ

-- The load of a candidate that can be routed to.
abbrev pub usable : Option ProviderLoad → Option ProviderLoad
usable none = none
usable (some load) = if load.unavailable then none else some load

-- `if best is None or score > best`
abbrev pub better : Choice → Option Choice → Option Choice
better new none = some new
better new (some best) = if lt_ℤ best.score new.score then some new else some best

-- What a pick is owed to.
pub data Cause : Type 0 where
  plain share cross : Cause

-- The texts of the recorded reasons.
abbrev reason_of : Bool → Cause → Text
reason_of true plain = codes "auto:free"
reason_of true share = codes "auto:free+share"
reason_of true cross = codes "auto:free+cross"
reason_of false plain = codes "auto:wait"
reason_of false share = codes "auto:wait+share"
reason_of false cross = codes "auto:wait+cross"

pub record Route : Type 0 where
  pub reviewer : Reviewer
  pub reason : Text

-- `None if shares is None else shares.get(entry.provider)`, as the rounded term.
abbrev pub share_of : Option (Text → Option ℤ) → Reviewer → Option ℤ
share_of none entry = none
share_of (some shares) entry = shares entry.provider

-- `loads`, by the quota pool, and `shares`, by the provider, are dictionaries.
module _ (py : Python) (loads : Text → Option ProviderLoad) (client_family : Option Text) where
  abbrev pub scored : Bool → Option (Text → Option ℤ) → Reviewer → ProviderLoad → Choice
  scored cross_model shares entry load = record {
    entry = entry;
    load = load;
    score = score_candidate entry load client_family cross_model (share_of shares entry);
  }

  abbrev pub weighed :
      Bool
      → Option (Text → Option ℤ)
      → Reviewer
      → Option ProviderLoad
      → Option Choice
      → Option Choice
  weighed cross_model shares entry none best = best
  weighed cross_model shares entry (some load) best =
      better (scored cross_model shares entry load) best

  -- The loop of `_argmax`.
  unfoldable pub argmax_from :
      Bool → Option (Text → Option ℤ) → Option Choice → List Reviewer → Result (Option Choice)
  unfolding quota_pool_for score_candidate
  argmax_from cross_model shares best [] = ok best
  argmax_from cross_model shares best (entry ∷ pool) = do
    key ← quota_pool_for py entry
    argmax_from cross_model shares (weighed cross_model shares entry (usable (loads key)) best) pool

  unfoldable pub argmax : Bool → Option (Text → Option ℤ) → List Reviewer → Result (Option Choice)
  unfolding argmax_from
  argmax cross_model shares pool = argmax_from cross_model shares none pool

  abbrev heads : Text → Option Choice → Bool
  heads name none = false
  heads name (some c) = text_eq c.entry.name name

  -- `wins(cross, share)`
  abbrev wins : Bool → Option (Text → Option ℤ) → List Reviewer → Choice → Result Bool
  wins cross_model shares pool chosen = do
    got ← argmax cross_model shares pool
    ok (heads chosen.entry.name got)

  unfoldable pub label : Bool → Option (Text → Option ℤ) → List Reviewer → Choice → Result Cause
  unfolding argmax text_eq
  label cross_model shares pool chosen = do
    by_load ← wins false none pool chosen
    by_share ← wins false shares pool chosen
    by_cross ← wins cross_model none pool chosen
    ok (if by_load then plain else if by_share || not by_cross then share else cross)

  abbrev routed :
      Bool → Option (Text → Option ℤ) → List Reviewer → Option Choice → Result (Option Route)
  routed cross_model shares pool none = ok none
  routed cross_model shares pool (some chosen) = do
    cause ← label cross_model shares pool chosen
    ok (
        some (record {
          reviewer = chosen.entry;
          reason = reason_of (ltb 0 chosen.load.free_slots) cause;
        }))

  unfoldable pub pick_finder :
      Bool → Option (Text → Option ℤ) → List Reviewer → Result (Option Route)
  unfolding argmax label
  pick_finder cross_model shares pool = do
    winner ← argmax cross_model shares pool
    routed cross_model shares pool winner
