-- ===== src/Reviews/Sweeping.antt =====
-- What the sweep of pipeline.py fails: exactly the rows in flight that are over their time.
use skodun.Prelude.{
  ℕ, ◌+◌, ◌≤◌, ◌≡◌, refl, ap, ◌∙◌, sym, inl, inr, Bool, true, false, ◌&&◌, List, [], ◌∷◌, ◌++◌,
  arith, &&-true, Bool-cases, if◌then◌else◌, count_if, count_if-append, count_if-map, ◌==◌, keep,
  map, All, Option,
}
use mathlib.Core.List.{append_assoc, append-nil, map-append}
use mathlib.Core.Path.{subst}
use skodun.Prelude.Text.{Text, text_eq_refl}
use skodun.Json.{Json, str}
use skodun.Gate.Decide.{is_text}
use skodun.Reviews.Table.{
  Row, update_where, has_id, is_running, is_running_at, fail_if_running, fail_row,
}
use skodun.Reviews.Rows.{count_if_mono}
use skodun.Reviews.Sweep.{
  stale_recovery_reason, is_stale, recover_at, recover_row, recover_rows, recover_stale, counted,
  running_records,
}

-- The id is a text, as every id that the program draws.
abbrev pub IsNamed : Row → Type 0
IsNamed r = (id : Text) × (r.id ≡ str id)

update_where-none :
    (p : Row → Bool) (f : Row → Row) (rows : List Row)
    → count_if p rows ≡ 0
    → update_where p f rows ≡ rows
unfolding update_where count_if
update_where-none p f [] h = refl
update_where-none p f (r ∷ rows) h = elim (Bool-cases (p r)) [
  | inl hit ↦ ground (arith, h, hit)
  | inr missed ↦
      rw missed (ap (λ t. r ∷ t) (update_where-none p f rows (ground (arith, h, missed))))
]

update_where-append :
    (p : Row → Bool) (f : Row → Row) (xs ys : List Row)
    → update_where p f (xs ++ ys) ≡ update_where p f xs ++ update_where p f ys
unfolding update_where
update_where-append p f [] ys = refl
update_where-append p f (x ∷ xs) ys = elim (Bool-cases (p x)) [
  | inl hit ↦ rw hit (ap (λ t. f x ∷ t) (update_where-append p f xs ys))
  | inr missed ↦ rw missed (ap (λ t. x ∷ t) (update_where-append p f xs ys))
]

-- An update that names one row of the table.
update_where-one :
    (p : Row → Bool) (f : Row → Row) (xs ys : List Row) (y : Row)
    → p y ≡ true
    → count_if p (xs ++ y ∷ ys) ≤ 1
    → (update_where p f (xs ++ y ∷ ys) ≡ xs ++ f y ∷ ys) × ((count_if p (xs ++ y ∷ ys) == 1) ≡ true)
unfolding update_where count_if
update_where-one p f xs ys y hit h =
    let total = count_if-append p xs (y ∷ ys) in
    let here : count_if p (y ∷ ys) ≡ 1 + count_if p ys = rw hit refl in
    let before : count_if p xs ≡ 0 = omega (arith, total, here, h) in
    let behind : count_if p ys ≡ 0 = omega (arith, total, here, h) in
    (
      update_where-append p f xs (y ∷ ys)
          ∙ rw (update_where-none p f xs before, hit, update_where-none p f ys behind) refl,
      ground (arith, total, here, before, behind),
    )

failed_pair :
    (id : Text) (rows : List Row) {after : List Row}
    → update_where (is_running_at id) (fail_row stale_recovery_reason) rows ≡ after
    → (count_if (is_running_at id) rows == 1) ≡ true
    → fail_if_running id stale_recovery_reason rows ≡ (after, true)
unfolding fail_if_running
failed_pair id rows e f = rw (e, f) refl

module _ (epoch : Text → Option ℕ) (now computed : ℕ) where
  -- A row that the sweep is to fail.
  abbrev pub is_swept : Row → Bool
  is_swept r = is_running r && is_stale epoch now computed r

  -- The row as the sweep is to leave it.
  abbrev pub swept_row : Row → Row
  swept_row r = if is_swept r then fail_row stale_recovery_reason r else r

  swept_id : (id : Text) (r : Row) → has_id id (swept_row r) ≡ has_id id r
  swept_id id r = elim (Bool-cases (is_swept r)) [
    | inl hit ↦ rw hit (unfold fail_row in refl)
    | inr missed ↦ rw missed refl
  ]

  unique_still :
      (id : Text) (xs ys : List Row)
      → count_if (has_id id) (xs ++ ys) ≤ 1
      → count_if (has_id id) (map swept_row xs ++ ys) ≤ 1
  unique_still id xs ys h = omega (
    arith,
    count_if-append (has_id id) xs ys,
    count_if-append (has_id id) (map swept_row xs) ys,
    count_if-map swept_row (has_id id) (has_id id) xs (swept_id id),
    h,
  )

  recover_one :
      (xs ys : List Row) (y : Row) (id : Text)
      → y.id ≡ str id
      → is_running y ≡ true
      → is_stale epoch now computed y ≡ true
      → count_if (has_id id) (xs ++ y ∷ ys) ≤ 1
      → recover_row epoch now computed y (map swept_row xs ++ y ∷ ys)
        ≡ (map swept_row xs ++ fail_row stale_recovery_reason y ∷ ys, true)
  recover_one xs ys y id named run stale one =
      let at_id : is_running_at id y ≡ true =
        rw run (ap (λ v. is_text v id && true) named ∙ rw (text_eq_refl id) refl) in
      let u =
        update_where-one (is_running_at id) (fail_row stale_recovery_reason) (map swept_row xs) ys y
          at_id
          (omega (
            arith,
            unique_still id xs (y ∷ ys) one,
            count_if_mono (is_running_at id) (has_id id) (map swept_row xs ++ y ∷ ys)
                (λ r e. (&&-true (has_id id r) (is_running r) e).0),
          )) in
      ap (λ v. recover_at v (is_stale epoch now computed y) (map swept_row xs ++ y ∷ ys)) named
      ∙ ap (λ b. recover_at (str id) b (map swept_row xs ++ y ∷ ys)) stale
      ∙ failed_pair id (map swept_row xs ++ y ∷ ys) u.0 u.1

  same_row : (y : Row) → is_swept y ≡ false → swept_row y ≡ y
  same_row y e = rw e refl

  failed_row : (y : Row) → is_swept y ≡ true → swept_row y ≡ fail_row stale_recovery_reason y
  failed_row y e = rw e refl

  recover_none :
      (y : Row) (table : List Row)
      → is_stale epoch now computed y ≡ false
      → recover_row epoch now computed y table ≡ (table, false)
  recover_none y table fresh = rw fresh (go y.id)
    where
      go : (v : Json) → recover_at v false table ≡ (table, false)
      go (str id) = refl
      go _ = refl

  recover_rows-cons :
      (y : Row) (rest table after final : List Row) (b : Bool) (n : ℕ)
      → recover_row epoch now computed y table ≡ (after, b)
      → recover_rows epoch now computed rest after ≡ (final, n)
      → recover_rows epoch now computed (y ∷ rest) table ≡ (final, counted b n)
  unfolding recover_rows
  recover_rows-cons y rest table after final b n e f =
      ap (λ p. go p) e ∙ ap (λ q. (q.0, counted b q.1)) f
    where
      go : List Row × Bool → List Row × ℕ
      go p = let q = recover_rows epoch now computed rest p.0 in (q.0, counted p.1 q.1)

  -- The rest of the sweep, with the row `r` behind it.
  abbrev Reached : List Row → List Row → List Row → ℕ → Row → Type 0
  Reached xs ys final n r =
      recover_rows epoch now computed (keep is_running ys) (map swept_row xs ++ r ∷ ys) ≡ (final, n)

  -- One more row of the table, whatever it is.
  recover_next :
      (xs ys : List Row) (y : Row) (final : List Row) (n : ℕ)
      → IsNamed y
      → ((id : Text) → count_if (has_id id) (xs ++ y ∷ ys) ≤ 1)
      → recover_rows epoch now computed (keep is_running ys) (map swept_row xs ++ swept_row y ∷ ys)
        ≡ (final, n)
      → recover_rows epoch now computed (keep is_running (y ∷ ys)) (map swept_row xs ++ y ∷ ys)
        ≡ (final, (if is_swept y then 1 else 0) + n)
  unfolding keep
  recover_next xs ys y final n (id, named) one h = elim (Bool-cases (is_running y)) [
    | inr over ↦ rw over (
        subst (Reached xs ys final n) (same_row y (rw over refl)) h
        ∙ ap (λ k. (final, k)) (omega arith))
    | inl run ↦ elim (Bool-cases (is_stale epoch now computed y)) [
      | inl stale ↦
          rw (run, stale)
            (recover_rows-cons y (keep is_running ys) (map swept_row xs ++ y ∷ ys)
                (map swept_row xs ++ fail_row stale_recovery_reason y ∷ ys) final true n
                (recover_one xs ys y id named run stale (one id))
                (subst (Reached xs ys final n) (failed_row y (rw (run, stale) refl)) h)
              ∙ ap (λ k. (final, k)) (omega arith))
      | inr fresh ↦
          rw (run, fresh)
            (recover_rows-cons y (keep is_running ys) (map swept_row xs ++ y ∷ ys)
                (map swept_row xs ++ y ∷ ys) final false n (recover_none y _ fresh)
                (subst (Reached xs ys final n) (same_row y (rw (run, fresh) refl)) h)
              ∙ ap (λ k. (final, k)) (omega arith))
    ]
  ]

  recover_rows-map :
      (xs ys : List Row)
      → All IsNamed ys
      → ((id : Text) → count_if (has_id id) (xs ++ ys) ≤ 1)
      → recover_rows epoch now computed (keep is_running ys) (map swept_row xs ++ ys)
        ≡ (map swept_row (xs ++ ys), count_if is_swept ys)
  unfolding recover_rows keep count_if
  recover_rows-map xs [] named one =
      ap (λ t. (t, 0)) (append-nil (map swept_row xs) ∙ ap (map swept_row) (sym (append-nil xs)))
  recover_rows-map xs (y ∷ ys) named one =
      recover_next xs ys y (map swept_row (xs ++ y ∷ ys)) (count_if is_swept ys) named.0 one (
        sym (ap (recover_rows epoch now computed (keep is_running ys)) moved)
        ∙ recover_rows-map (xs ++ y ∷ []) ys named.1 (λ id.
          subst (λ l. count_if (has_id id) l ≤ 1) (sym (append_assoc xs (y ∷ []) ys)) (one id))
        ∙ ap (λ l. (map swept_row l, count_if is_swept ys)) (append_assoc xs (y ∷ []) ys))
    where
      moved : map swept_row (xs ++ y ∷ []) ++ ys ≡ map swept_row xs ++ swept_row y ∷ ys
      moved =
          ap (λ l. l ++ ys) (map-append swept_row xs (y ∷ []))
          ∙ append_assoc (map swept_row xs) (swept_row y ∷ []) ys

  -- The sweep, which updates the table once for each row that it scanned in flight, leaves the same table
  -- as one pass over it: each row in flight whose age exceeds its own positive budget, or else the
  -- configuration's ceiling, is failed with its trust withdrawn, every other row stays, and the answer
  -- counts the failed rows. A row without a readable time stays. The ids are texts, each of one row.
  pub recover_stale-map :
      (rows : List Row)
      → All IsNamed rows
      → ((id : Text) → count_if (has_id id) rows ≤ 1)
      → recover_stale epoch now computed rows ≡ (map swept_row rows, count_if is_swept rows)
  unfolding recover_stale running_records
  recover_stale-map rows named one = recover_rows-map [] rows named one
