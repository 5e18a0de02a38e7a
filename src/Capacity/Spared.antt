-- ===== src/Capacity/Spared.antt =====
-- Which rows `capacity_reclaim_stale` of store.py leaves alone.
use skodun.Prelude.{
  ℕ, suc, ◌+◌, ◌-◌, ◌≤◌, ◌≡◌, refl, sym, true, false, Bool-cases, inl, inr, ◌&&◌, Option, none,
  some, List, [], ◌∷◌, arith, Has, here, there, ltb, get_or,
}
use mathlib.Core.Path.{subst}
use skodun.Prelude.Text.{Text, text_eq, text_eq_iff}
use skodun.Capacity.Views.{is_holder}
use skodun.Capacity.Rows.{Row, resource_review_machine, resource_review_fg}
use skodun.Capacity.Reclaim.{
  Host, should_reclaim_admission, same_owner, age_from, reclaim_reason, reclaim_row,
  capacity_reclaim_stale,
}

-- The time from which a holder's age counts: in the queue of foreground reviews its start, else its
-- admission, else its queueing; in any other queue its queueing.
pub data IsSince (cls : Text) (r : Row) : ℕ → Type 0 where
  start : (t : ℕ) → text_eq cls resource_review_fg ≡ true → r.started_at ≡ some t → IsSince cls r t
  admission :
      (t : ℕ)
      → text_eq cls resource_review_fg ≡ true
      → r.started_at ≡ none
      → r.admitted_at ≡ some t
      → IsSince cls r t
  queueing :
      text_eq cls resource_review_fg ≡ true
      → r.started_at ≡ none
      → r.admitted_at ≡ none
      → IsSince cls r r.queued_at
  elsewhere : text_eq cls resource_review_fg ≡ false → IsSince cls r r.queued_at

-- The row names a process that lives. In the machine's queue, where the row's birth token and that of the
-- process are both known, they are the same; in any other queue, a holder is not older than the ceiling.
pub record IsLive (host : Host) (stale_sec : ℕ) (cls : Text) (r : Row) : Type 0 where
  pub pid : ℕ
  pub has_pid : r.pid ≡ some (suc pid)
  pub alive : host.pid_alive (suc pid) ≡ true
  pub not_exited : (host.process_observation (suc pid)).exited ≡ false
  pub same_process :
      (c d : ℕ) (s t : Text)
      → text_eq cls resource_review_machine ≡ true
      → r.owner_start ≡ some (c ∷ s)
      → (host.process_observation (suc pid)).token ≡ some (d ∷ t)
      → d ∷ t ≡ c ∷ s
  pub young :
      (since : ℕ)
      → text_eq cls resource_review_machine ≡ false
      → is_holder r.status ≡ true
      → IsSince cls r since
      → host.now_epoch ≤ since + stale_sec

same_owner-true :
    (owner token : Option Text)
    → ((c d : ℕ) (s t : Text) → owner ≡ some (c ∷ s) → token ≡ some (d ∷ t) → d ∷ t ≡ c ∷ s)
    → same_owner owner token ≡ true
same_owner-true none token h = refl
same_owner-true (some []) token h = refl
same_owner-true (some (c ∷ s)) none h = refl
same_owner-true (some (c ∷ s)) (some []) h = refl
same_owner-true (some (c ∷ s)) (some (d ∷ t)) h =
    (text_eq_iff (d ∷ t) (c ∷ s)).1 (h c d s t refl refl)

age_from-IsSince :
    (cls : Text) (r : Row) → is_holder r.status ≡ true → IsSince cls r (age_from cls r)
age_from-IsSince cls r h = elim (Bool-cases (text_eq cls resource_review_fg)) [
  | inr other ↦ rw other (elsewhere other)
  | inl fg ↦ rw (fg, h) (go r.started_at r.admitted_at refl refl fg)
]
  where
    go :
        (s a : Option ℕ)
        → r.started_at ≡ s
        → r.admitted_at ≡ a
        → text_eq cls resource_review_fg ≡ true
        → IsSince cls r (get_or s (get_or a r.queued_at))
    go (some t) a e f fg = start t fg e
    go none (some t) e f fg = admission t fg e f
    go none none e f fg = queueing fg e f

-- A holder that is young enough, or a waiter.
young_enough :
    (host : Host) (stale_sec : ℕ) (cls : Text) (r : Row)
    → IsLive host stale_sec cls r
    → text_eq cls resource_review_machine ≡ false
    → (is_holder r.status && ltb stale_sec (host.now_epoch - age_from cls r)) ≡ false
young_enough host stale_sec cls r h other = elim (Bool-cases (is_holder r.status)) [
  | inl holds ↦
      let y = h.young (age_from cls r) other holds (age_from-IsSince cls r holds) in
      rw holds (ground (arith, y))
  | inr waits ↦ rw waits refl
]

reclaim_reason-none :
    (host : Host) (stale_sec : ℕ) (cls : Text) (r : Row)
    → IsLive host stale_sec cls r
    → reclaim_reason host none stale_sec cls r ≡ none
unfolding reclaim_reason should_reclaim_admission
reclaim_reason-none host stale_sec cls r h =
    elim (Bool-cases (text_eq cls resource_review_machine)) [
      | inl machine ↦
          let o =
            same_owner-true r.owner_start (host.process_observation (suc h.pid)).token
              (λ c d s t. h.same_process c d s t machine) in
          rw (h.has_pid, h.alive, h.not_exited, machine, o) refl
      | inr other ↦
          let y = young_enough host stale_sec cls r h other in
          rw (h.has_pid, h.alive, h.not_exited, other) (ground (arith, y, h.alive))
    ]

reclaim_row-same :
    (host : Host) (stale_sec now : ℕ) (cls scope : Text) (r : Row)
    → IsLive host stale_sec cls r
    → reclaim_row host none stale_sec now cls scope r ≡ r
unfolding reclaim_row
reclaim_row-same host stale_sec now cls scope r h =
    rw (reclaim_reason-none host stale_sec cls r h) (ground arith)

-- Under the operating system's own test of life, no reclaim changes the row of a process that lives: not a
-- waiter of whatever age, not a holder within the ceiling, and in the machine's queue no row whose process
-- is not proved to be another one.
pub capacity_reclaim_stale-Has :
    (host : Host) (stale_sec now : ℕ) (cls scope : Text) (rows : List Row) {r : Row}
    → Has r rows
    → IsLive host stale_sec cls r
    → Has r (capacity_reclaim_stale host none stale_sec now cls scope rows)
unfolding capacity_reclaim_stale
capacity_reclaim_stale-Has host stale_sec now cls scope [] m h = elim m [ ]
capacity_reclaim_stale-Has host stale_sec now cls scope (q ∷ rows) (there m) h =
    there (capacity_reclaim_stale-Has host stale_sec now cls scope rows m h)
capacity_reclaim_stale-Has host stale_sec now cls scope (q ∷ rows) here h =
    subst (λ x. Has q (x ∷ capacity_reclaim_stale host none stale_sec now cls scope rows))
      (sym (reclaim_row-same host stale_sec now cls scope q h)) here
