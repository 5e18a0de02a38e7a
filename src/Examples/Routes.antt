-- ===== src/Examples/Routes.antt =====
-- routing.py on three finders: one without a free slot, one with two, one whose pool nobody could read.
use skodun.Prelude.{
  ◌≡◌, refl, Bool, true, false, Bool-cases, inl, inr, Option, none, some, List, [], ◌∷◌, All, arith,
  if◌then◌else◌,
}
use skodun.Prelude.Text.{Text, codes, text_eq}
use skodun.Prelude.Int.{ℤ, pos, negsuc}
use skodun.Triage.Result.{ok}
use skodun.Routing.Family.{Reviewer, resolve_client_family, resolve_pool}
use skodun.Routing.Score.{ProviderLoad}
use skodun.Routing.Pick.{Choice, share_of, argmax, pick_finder}
use skodun.Routing.Best.{IsFirstBest, argmax-IsBest}
use skodun.Routing.Capacity.{IsSoft, IsLessFree, argmax-most_free}
use skodun.Routing.Loads.{Probes, load_at, provider_loads}
use skodun.Routing.Picked.{IsBacked, argmax-IsBacked}
use skodun.Json.{str, null}
use skodun.Examples.Host.{ascii}

abbrev codex : Reviewer
codex = record {
  name = codes "codex";
  provider = codes "openai";
  model = codes "gpt";
  role = codes "finder";
  enabled = true;
  quota_pool = none;
}

abbrev agy : Reviewer
agy = record codex { name = codes "agy"; provider = codes "google"; model = codes "Gemini pro" }

abbrev grok : Reviewer
grok = record codex { name = codes "grok"; provider = codes "xai" }

abbrev finders : List Reviewer
finders = codex ∷ agy ∷ grok ∷ []

abbrev loads : Text → Option ProviderLoad
loads key =
    if text_eq key (codes "openai")
    then some (record { free_slots = 0; queue_depth = 2; unavailable = false })
    else if text_eq key (codes "google:gemini")
    then some (record { free_slots = 2; queue_depth = 0; unavailable = false })
    else none

abbrev shares : Text → Option ℤ
shares provider = if text_eq provider (codes "google") then some (negsuc 11) else none

abbrev chosen : Choice
chosen = record {
  entry = agy;
  load = record { free_slots = 2; queue_depth = 0; unavailable = false };
  score = pos 208;
}

pools_implicit : resolve_pool finders [] ≡ finders
unfolding resolve_pool text_eq skodun.Prelude.keep
pools_implicit = refl

family_by_client :
    resolve_client_family ascii (str (codes " ")) null (str (codes "OpenAI Codex"))
    ≡ some (codes "openai")
unfolding resolve_client_family text_eq skodun.Textnorm.is_space
family_by_client = refl

picked :
    pick_finder ascii loads (some (codes "openai")) true (some shares) finders
    ≡ ok (some (record { reviewer = agy; reason = codes "auto:free" }))
unfolding pick_finder text_eq skodun.Textnorm.is_space
picked = refl

chosen_first :
    argmax ascii loads (some (codes "openai")) true (some shares) finders ≡ ok (some chosen)
unfolding argmax text_eq skodun.Textnorm.is_space
chosen_first = refl

shares-IsSoft : (entry : Reviewer) → IsSoft (share_of (some shares) entry)
shares-IsSoft entry = elim (Bool-cases (text_eq entry.provider (codes "google"))) [
  | inl eq ↦ rw eq (ground arith)
  | inr eq ↦ rw eq (ground arith)
]

argmax-IsBest_example :
    IsFirstBest ascii loads (some (codes "openai")) true (some shares) finders chosen
argmax-IsBest_example =
    argmax-IsBest ascii loads (some (codes "openai")) true (some shares) finders (some chosen)
      chosen_first

argmax-most_free_example :
    All (IsLessFree ascii loads (some (codes "openai")) true (some shares) chosen.load) finders
unfolding text_eq
argmax-most_free_example =
    argmax-most_free ascii loads (some (codes "openai")) true (some shares) shares-IsSoft finders
      chosen chosen_first

-- Two providers that declare one quota pool; the second is blacked out.
abbrev shared : Reviewer → Reviewer
shared r = record r { quota_pool = some (codes "team") }

abbrev probes : Probes
probes = record {
  registered = λ provider. true;
  local_reason = λ entry. none;
  blackout = λ entry. ok (text_eq entry.provider (codes "xai"));
  at_count = λ entry. ok [];
  at_read = λ entry. ok [];
  max_in_flight = 2;
}

abbrev sharers : List Reviewer
sharers = shared codex ∷ shared grok ∷ []

abbrev team_load : ProviderLoad
team_load = record { free_slots = 2; queue_depth = 0; unavailable = false }

one_load : provider_loads ascii probes sharers ≡ ok ((codes "team", team_load) ∷ [])
unfolding provider_loads text_eq skodun.Textnorm.is_space
    skodun.Routing.Loads.provider_resource_class skodun.Capacity.Rows.capacity_holder_count
    skodun.Prelude.count_if skodun.Capacity.Rows.capacity_active_views skodun.Prelude.keep
one_load = refl

-- With the client of codex's family, the finder whose provider is blacked out is picked.
blacked_out_picked :
    pick_finder ascii
      (λ key. load_at key ((codes "team", team_load) ∷ []))
      (some (codes "openai"))
      true
      none
      sharers
    ≡ ok (some (record { reviewer = shared grok; reason = codes "auto:free+cross" }))
unfolding pick_finder text_eq load_at skodun.Textnorm.is_space
blacked_out_picked = refl

abbrev held : Choice
held = record { entry = shared grok; load = team_load; score = pos 220 }

held_first :
    argmax ascii
      (λ key. load_at key ((codes "team", team_load) ∷ []))
      (some (codes "openai"))
      true
      none
      sharers
    ≡ ok (some held)
unfolding argmax text_eq load_at skodun.Textnorm.is_space
held_first = refl

argmax-IsBacked_example : IsBacked ascii probes sharers held
argmax-IsBacked_example =
    argmax-IsBacked ascii probes (some (codes "openai")) true none sharers
      ((codes "team", team_load) ∷ []) held one_load held_first
