-- ===== src/Routing/Picked.antt =====
-- What a pick of routing.py rests on, when the loads are those of `provider_loads`.
use skodun.Prelude.{
  ℕ, ◌-◌, ◌≡◌, refl, sym, ap, ◌∙◌, Bool, true, false, Bool-cases, inl, inr, Option, none, some,
  List, if◌then◌else◌, arith,
}
use skodun.Prelude.Text.{Text}
use skodun.Prelude.Int.{ℤ}
use skodun.Textnorm.{Python}
use skodun.Triage.Result.{Result, ok, err, ◌>>=◌}
use skodun.Capacity.Rows.{Row, capacity_holder_count}
use skodun.Routing.Family.{Reviewer, quota_pool_for}
use skodun.Routing.Score.{ProviderLoad}
use skodun.Routing.Pick.{Choice, usable, argmax}
use skodun.Routing.Best.{argmax-IsBest}
use skodun.Routing.Loads.{
  Probes, blocked, recovered, load_in, load_of, load_at, provider_resource_class, provider_loads,
}
use skodun.Routing.Shared.{first_entry, loaded, provider_loads-first}

-- The entry was registered, ready and not blacked out, and the load counts the holders of its queue.
pub record IsOpen (p : Probes) (entry : Reviewer) (key : Text) (load : ProviderLoad) : Type 0 where
  pub registered : p.registered entry.provider ≡ true
  pub ready : p.local_reason entry ≡ none
  pub not_blacked_out : p.blackout entry ≡ ok false
  pub cls : Text
  pub rows : List Row
  pub class_of : provider_resource_class entry.provider key ≡ ok cls
  pub counted : p.at_count entry ≡ ok rows
  pub free : load.free_slots ≡ p.max_in_flight - capacity_holder_count cls key rows

marked : {A : Type 0} {load : ProviderLoad} → blocked ≡ load → load.unavailable ≡ false → A
marked {load = load} e u = absurd (true_not_false (ap (λ l. l.unavailable) e ∙ u))
  where
    true_not_false : ¬ (true ≡ false)
    true_not_false h = ground (arith, h)

-- The load of a pool that was not marked, by the steps of its reading.
opened :
    (max_in_flight : ℕ) (key : Text) (registered : Bool) (why : Option Text) (out : Result Bool)
    (cls : Result Text) (counted read : Result (List Row)) (load : ProviderLoad)
    → (if registered
        then elim why [
          | some w ↦ blocked
          | none ↦ recovered (
              out >>= λ o.
              if o
              then ok blocked
              else (cls >>= λ c.
                  counted >>= λ n. read >>= λ r. ok (load_in max_in_flight c key n r)))
        ]
        else blocked)
      ≡ load
    → load.unavailable ≡ false
    → (registered ≡ true)
      × (why ≡ none)
      × (out ≡ ok false)
      × ((c : Text) × (n : List Row) × (cls ≡ ok c)
          × (counted ≡ ok n)
          × (load.free_slots ≡ max_in_flight - capacity_holder_count c key n))
opened m key false why out cls counted read load e u = marked e u
opened m key true (some w) out cls counted read load e u = marked e u
opened m key true none (err w) cls counted read load e u = marked e u
opened m key true none (ok true) cls counted read load e u = marked e u
opened m key true none (ok false) (err w) counted read load e u = marked e u
opened m key true none (ok false) (ok c) (err w) read load e u = marked e u
opened m key true none (ok false) (ok c) (ok n) (err w) load e u = marked e u
opened m key true none (ok false) (ok c) (ok n) (ok r) load e u =
    (refl, refl, refl, (c, n, refl, refl, ap (λ l. l.free_slots) (sym e)))

-- A load that can be routed to is one that is held, and is not marked.
usable-some :
    (o : Option ProviderLoad) (load : ProviderLoad)
    → usable o ≡ some load
    → (o ≡ some load) × (load.unavailable ≡ false)
usable-some none load h = cc
usable-some (some held) load h = elim (Bool-cases (held.unavailable)) [
  | inl marked ↦ absurd (no_load (sym (ap (λ b. if b then none else some held) marked) ∙ h))
  | inr free ↦
      let e = sym (ap (λ b. if b then none else some held) free) ∙ h in
      (e, sym (ap unavailable_of e) ∙ free)
]
  where
    no_load : ¬ (none ≡ some load)
    no_load e = cc

    unavailable_of : Option ProviderLoad → Bool
    unavailable_of none = true
    unavailable_of (some l) = l.unavailable

loaded-some :
    (p : Probes) (key : Text) (o : Option Reviewer) (load : ProviderLoad)
    → loaded p key o ≡ some load
    → (entry : Reviewer) × (o ≡ some entry) × (load_of p entry key ≡ load)
loaded-some p key none load h = cc
loaded-some p key (some entry) load h = (entry, refl, ground (arith, h))

-- The pick stands on the first entry of its quota pool.
pub record IsBacked (py : Python) (p : Probes) (pool : List Reviewer) (c : Choice) : Type 0 where
  pub key : Text
  pub first : Reviewer
  pub pool_of : quota_pool_for py c.entry ≡ ok key
  pub is_first : first_entry py key pool ≡ some first
  pub is_open : IsOpen p first key c.load

-- Whatever is picked on the loads that were just read, the first entry of its quota pool is registered,
-- ready and not blacked out, and the free slots that it was picked for are the slots that the holders of
-- that entry's queue leave.
pub argmax-IsBacked :
    (py : Python) (p : Probes) (client_family : Option Text) (cross_model : Bool)
    (shares : Option (Text → Option ℤ)) (pool : List Reviewer) (got : List (Text × ProviderLoad))
    (c : Choice)
    → provider_loads py p pool ≡ ok got
    → argmax py (λ key. load_at key got) client_family cross_model shares pool ≡ ok (some c)
    → IsBacked py p pool c
argmax-IsBacked py p client_family cross_model shares pool got c l h =
    let best =
      argmax-IsBest py (λ key. load_at key got) client_family cross_model shares pool (some c) h in
    let key = best.routable.0 in
    let held = usable-some (load_at key got) c.load best.routable.2 in
    let r =
      loaded-some p key (first_entry py key pool) c.load
        (sym (provider_loads-first py p key got pool l) ∙ held.0) in
    let o =
      opened p.max_in_flight key (p.registered r.0.provider) (p.local_reason r.0) (p.blackout r.0)
        (provider_resource_class r.0.provider key) (p.at_count r.0) (p.at_read r.0) c.load r.2
        held.1 in
    record {
      key = key;
      first = r.0;
      pool_of = best.routable.1;
      is_first = r.1;
      is_open = record {
        registered = o.0;
        ready = o.1;
        not_blacked_out = o.2;
        cls = o.3.0;
        rows = o.3.1;
        class_of = o.3.2;
        counted = o.3.3;
        free = o.3.4;
      };
    }
