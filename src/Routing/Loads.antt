-- ===== src/Routing/Loads.antt =====
-- `provider_loads` of routing.py over the table of capacity.py.
use skodun.Prelude.{
  ℕ, ◌-◌, Bool, true, false, ◌||◌, Option, none, some, List, [], ◌∷◌, ◌++◌, if◌then◌else◌, count_if,
  is_empty, is_none,
}
use skodun.Prelude.Text.{Text, codes, text_eq, starts_with}
use skodun.Textnorm.{Python, strip}
use skodun.Triage.Result.{Result, ok, err, value_error, ◌>>=◌}
use skodun.Capacity.Views.{WaiterView, is_queued}
use skodun.Capacity.Rows.{Row, capacity_holder_count, capacity_active_views}
use skodun.Routing.Family.{Reviewer, quota_pool_for}
use skodun.Routing.Score.{ProviderLoad}

abbrev pub blocked : ProviderLoad
blocked = record { free_slots = 0; queue_depth = 0; unavailable = true }

-- `pool if pool == pid or pool.startswith(f"{pid}:") else f"{pid}:{pool}"`
unfoldable pub class_key : Text → Text → Text
unfolding text_eq starts_with
class_key pid pool =
    if text_eq pool pid || starts_with (pid ++ codes ":") pool
    then pool
    else pid ++ codes ":" ++ pool

-- `provider_resource_class` of capacity.py
unfoldable pub provider_resource_class : Text → Text → Result Text
unfolding strip class_key
provider_resource_class provider_id quota_pool =
    let pid = strip provider_id in
    let pool = strip (if is_empty quota_pool then pid else quota_pool) in
    if is_empty pid || is_empty pool
    then err value_error
    else ok (codes "provider:" ++ class_key pid pool)

abbrev waits : WaiterView → Bool
waits v = is_queued v.status

-- What the table says of one queue, at the count of its holders and at the read of its waiters.
abbrev pub load_in : ℕ → Text → Text → List Row → List Row → ProviderLoad
load_in max_in_flight cls key counted read = record {
  free_slots = max_in_flight - capacity_holder_count cls key counted;
  queue_depth = count_if waits (capacity_active_views cls key read);
  unavailable = false;
}

-- An exception marks the pool.
abbrev pub recovered : Result ProviderLoad → ProviderLoad
recovered (ok load) = load
recovered (err why) = blocked

-- The registry of adapters, `_candidate_unavailable`, the test for a blackout, and the table that the store
-- holds at the two reads for an entry, or the exception that a read raises.
pub record Probes : Type 0 where
  pub registered : Text → Bool
  pub local_reason : Reviewer → Option Text
  pub blackout : Reviewer → Result Bool
  pub at_count : Reviewer → Result (List Row)
  pub at_read : Reviewer → Result (List Row)
  pub max_in_flight : ℕ

abbrev read_load : Probes → Reviewer → Text → Result ProviderLoad
read_load p entry key = do
  cls ← provider_resource_class entry.provider key
  counted ← p.at_count entry
  read ← p.at_read entry
  ok (load_in p.max_in_flight cls key counted read)

abbrev probed_load : Probes → Reviewer → Text → Result ProviderLoad
probed_load p entry key = do
  out ← p.blackout entry
  if out then ok blocked else read_load p entry key

abbrev measured : Probes → Reviewer → Text → ProviderLoad
measured p entry key = elim (p.local_reason entry) [
  | some why ↦ blocked
  | none ↦ recovered (probed_load p entry key)
]

abbrev pub load_of : Probes → Reviewer → Text → ProviderLoad
load_of p entry key = if p.registered entry.provider then measured p entry key else blocked

unfoldable pub load_at : Text → List (Text × ProviderLoad) → Option ProviderLoad
unfolding text_eq
load_at key [] = none
load_at key ((k, load) ∷ out) = if text_eq k key then some load else load_at key out

-- `out[key] = load`
unfoldable pub assigned :
    Text → ProviderLoad → List (Text × ProviderLoad) → List (Text × ProviderLoad)
unfolding text_eq
assigned key load [] = (key, load) ∷ []
assigned key load ((k, held) ∷ out) =
    let rest = assigned key load out in if text_eq k key then (k, load) ∷ out else (k, held) ∷ rest

-- `if pool_key in out: continue`
unfoldable pub noted :
    Probes → Reviewer → Text → List (Text × ProviderLoad) → List (Text × ProviderLoad)
unfolding load_at assigned
noted p entry key out =
    if is_none (load_at key out) then assigned key (load_of p entry key) out else out

-- The loop of `provider_loads`.
unfoldable pub loads_from :
    Python
    → Probes
    → List (Text × ProviderLoad)
    → List Reviewer
    → Result (List (Text × ProviderLoad))
unfolding quota_pool_for noted
loads_from py p out [] = ok out
loads_from py p out (entry ∷ pool) = do
  key ← quota_pool_for py entry
  loads_from py p (noted p entry key out) pool

unfoldable pub provider_loads :
    Python → Probes → List Reviewer → Result (List (Text × ProviderLoad))
unfolding loads_from
provider_loads py p pool = loads_from py p [] pool
