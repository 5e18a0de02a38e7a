-- ===== src/Capacity/Fifo.antt =====
-- `decide_admit` admits the earliest queued waiter and no other.
use skodun.Prelude.{
  ℕ, ◌<◌, ◌≡◌, refl, ap, sym, ◌∙◌, inl, inr, ◌↔◌, true, false, Bool, Option, none, some, List, [],
  ◌∷◌, arith, Bool-cases, if◌then◌else◌, All, Has, here, there, All-Has, keep, Has-keep, keep-Has,
}
use mathlib.Core.Path.{subst}
use skodun.Prelude.Text.{Text, text_eq_iff, text_lt-trans_not, text_lt-asym, text_lt-total}
use skodun.Prelude.Int.{pos}
use skodun.Capacity.Views.{
  WaiterView, is_queued, key_lt, insert_view, sort_views, heads, holders_among, decide_admit,
}

-- No waiter of `ws` comes before `v`.
abbrev pub IsFirst : WaiterView → List WaiterView → Type 0
IsFirst v ws = All (λ w. key_lt w v ≡ false) ws

pub key_lt-trans_not :
    (u v w : WaiterView) → key_lt v u ≡ false → key_lt w v ≡ false → key_lt w u ≡ false
unfolding key_lt
key_lt-trans_not u v w p q = ground (arith, text_lt-trans_not u.id v.id w.id)

pub key_lt-asym : (v w : WaiterView) → key_lt v w ≡ true → key_lt w v ≡ false
unfolding key_lt
key_lt-asym v w p = ground (arith, text_lt-asym v.id w.id)

abbrev head? : List WaiterView → Option WaiterView
head? [] = none
head? (w ∷ ws) = some w

abbrev pick : WaiterView → Option WaiterView → WaiterView
pick v none = v
pick v (some w) = if key_lt w v then w else v

head?-insert_view :
    (v : WaiterView) (ws : List WaiterView) → head? (insert_view v ws) ≡ some (pick v (head? ws))
unfolding insert_view
head?-insert_view v [] = refl
head?-insert_view v (w ∷ ws) = ground arith

pub IsFirst-trans :
    (u v : WaiterView) (ws : List WaiterView) → key_lt v u ≡ false → IsFirst v ws → IsFirst u ws
IsFirst-trans u v [] p q = tt
IsFirst-trans u v (w ∷ ws) p q = (key_lt-trans_not u v w p q.0, IsFirst-trans u v ws p q.1)

pub key_lt_irrefl : (v : WaiterView) → key_lt v v ≡ false
unfolding key_lt
key_lt_irrefl v = elim (Bool-cases (key_lt v v)) [ inl e ↦ key_lt-asym v v e | inr e ↦ e ]

abbrev IsHead : List WaiterView → Option WaiterView → Type 0
IsHead ws none = ws ≡ []
IsHead ws (some h) = IsFirst h ws × Has h ws

IsHead-cons :
    (v : WaiterView) (vs : List WaiterView) (o : Option WaiterView)
    → IsHead vs o
    → IsHead (v ∷ vs) (some (pick v o))
IsHead-cons v vs none h = ((key_lt_irrefl v, rw h tt), here)
IsHead-cons v vs (some w) h = elim (Bool-cases (key_lt w v)) [
  | inl e ↦
      subst IsLeast (sym (ap (λ b. if b then w else v) e)) ((key_lt-asym w v e, h.0), there h.1)
  | inr e ↦
      subst IsLeast (sym (ap (λ b. if b then w else v) e))
        ((key_lt_irrefl v, IsFirst-trans v w vs e h.0), here)
]
  where
    IsLeast : WaiterView → Type 0
    IsLeast x = IsFirst x (v ∷ vs) × Has x (v ∷ vs)

-- The head of the sorted list is its earliest waiter.
head?-sort_views : (ws : List WaiterView) → IsHead ws (head? (sort_views ws))
unfolding sort_views
head?-sort_views [] = refl
head?-sort_views (v ∷ vs) =
    rw head?-insert_view (IsHead-cons v vs (head? (sort_views vs)) (head?-sort_views vs))

abbrev is_waiting : WaiterView → Bool
is_waiting w = is_queued w.status

pub key_lt-total-id : (v w : WaiterView) → key_lt v w ≡ false → key_lt w v ≡ false → v.id ≡ w.id
unfolding key_lt
key_lt-total-id v w p q = text_lt-total v.id w.id (ground arith) (ground arith)

-- The rule asks for a free slot and a queued waiter of that id that no queued waiter precedes.
pub record IsNext (waiter_id : Text) (waiters : List WaiterView) (capacity : ℕ) : Type 0 where
  pub view : WaiterView
  pub free : holders_among waiters < capacity
  pub present : Has view waiters
  pub waiting : is_queued view.status ≡ true
  pub named : view.id ≡ waiter_id
  pub first : IsFirst view (keep is_waiting waiters)

heads-IsNext :
    (waiter_id : Text) (ws qs : List WaiterView) (c : ℕ)
    → keep is_waiting ws ≡ qs
    → IsHead qs (head? (sort_views qs))
    → holders_among ws < c
    → heads waiter_id (sort_views qs) ≡ true
    → IsNext waiter_id ws c
heads-IsNext waiter_id ws qs c e h free named = go (sort_views qs) h named
  where
    go :
        (sorted : List WaiterView)
        → IsHead qs (head? sorted)
        → heads waiter_id sorted ≡ true
        → IsNext waiter_id ws c
    go [] h n = cc
    go (v ∷ vs) h n =
        let kept = Has-keep is_waiting ws (subst (Has v) (sym e) h.1) in
        record {
          view = v;
          free = free;
          present = kept.0;
          waiting = kept.1;
          named = (text_eq_iff v.id waiter_id).0 n;
          first = subst (IsFirst v) (sym e) h.0;
        }

pub decide_admit-IsNext :
    (waiter_id : Text) (waiters : List WaiterView) (c : ℕ)
    → decide_admit waiter_id waiters (pos c) ≡ true
    → IsNext waiter_id waiters c
unfolding decide_admit
decide_admit-IsNext waiter_id ws c h =
    heads-IsNext waiter_id ws (keep is_waiting ws) c refl (head?-sort_views (keep is_waiting ws))
      (ground arith) (ground arith)

IsNext-heads :
    (waiter_id : Text) (qs sorted : List WaiterView) (v : WaiterView)
    → IsHead qs (head? sorted)
    → Has v qs
    → v.id ≡ waiter_id
    → IsFirst v qs
    → heads waiter_id sorted ≡ true
IsNext-heads waiter_id qs [] v h m n f =
    absurd (subst (λ l. Has v l → ⊥) (sym h) (λ m. elim m [ ]) m)
IsNext-heads waiter_id qs (w ∷ ws) v h m n f = (text_eq_iff w.id waiter_id).1 (
    key_lt-total-id w v (All-Has (λ x. key_lt x v ≡ false) h.1 f)
      (All-Has (λ x. key_lt x w ≡ false) m h.0)
    ∙ n)

pub IsNext-decide_admit :
    (waiter_id : Text) (waiters : List WaiterView) (c : ℕ)
    → IsNext waiter_id waiters c
    → decide_admit waiter_id waiters (pos c) ≡ true
unfolding decide_admit
IsNext-decide_admit waiter_id ws c n = ground (
  arith,
  IsNext-heads waiter_id (keep is_waiting ws) (sort_views (keep is_waiting ws)) n.view
      (head?-sort_views (keep is_waiting ws)) (keep-Has is_waiting ws n.waiting n.present) n.named
      n.first,
  n.free,
)

-- The admission rule says yes exactly when fewer than `capacity` of the views are holders and some
-- view of the given id is queued and no queued view comes before it by time of queueing, then order
-- of insertion, then id.
pub decide_admit_iff :
    (waiter_id : Text) (waiters : List WaiterView) (capacity : ℕ)
    → (decide_admit waiter_id waiters (pos capacity) ≡ true) ↔ IsNext waiter_id waiters capacity
decide_admit_iff waiter_id ws c =
    (decide_admit-IsNext waiter_id ws c, IsNext-decide_admit waiter_id ws c)
