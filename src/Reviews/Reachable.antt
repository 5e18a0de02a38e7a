-- ===== src/Reviews/Reachable.antt =====
-- What holds of the table `reviews` after any history of transactions.
use skodun.Prelude.{
  ◌≤◌, ◌≡◌, refl, ap, ◌∙◌, sym, inl, inr, Bool, true, not, List, arith, Bool-cases, count_if,
  &&-true, ◌==◌, not_both,
}
use mathlib.Core.Path.{subst}
use skodun.Prelude.Text.{Text, text_eq_iff}
use skodun.Json.{Json, str, Fields}
use skodun.Textnorm.{Python}
use skodun.Triage.Result.{ok, require-ok, ok-injective, value_error}
use skodun.Gate.Decide.{is_text}
use skodun.Reviews.Record.{is_over, running, prepush_mode}
use skodun.Reviews.Reserve.{Push, Retired}
use skodun.Reviews.Fresh.{IsFresh}
use skodun.Reviews.Rows.{upsert-All}
use skodun.Reviews.Table.{
  Row, review_values, update_where, has_id, is_running, is_running_at, is_pidless_at, is_trusted_at,
  is_leased, supersede_row, mark_failed, fail_if_running, attach_pid, fail_row, cancel_row, pid_row,
}
use skodun.Reviews.Policy.{Values}
use skodun.Reviews.Finalize.{Tables}
use skodun.Reviews.Publish.{Store, Annotator, mark_cancelled}
use skodun.Reviews.Agreement.{review_values-IsConsistent}
use skodun.Reviews.Final.{IsConservative}
use skodun.Reviews.Finish.{IsPublished, finalize_review-cases}
use skodun.Reviews.Lease.{IsLease, reserve_prepush-cases}
use skodun.Reviews.Steps.{
  Work, reserve, attach, finalize, janitor, Step, work, fail, cancel, save, Reach, empty, step,
}
use skodun.Reviews.Sound.{
  IsSafe, IsSound, IsChange, update_where-IsSound, upsert-IsSound, fail_row-IsChange,
  cancel_row-IsChange, pid_row-IsChange, supersede_row-IsChange, upsert-unique_all, upsert-count_le,
}
use skodun.Reviews.Saving.{
  save_review-IsSaved, saved-IsSafe, saved-no_lease, stored_running, over_unleased,
}

text_is : (v : Json) (s : Text) → is_text v s ≡ true → v ≡ str s
text_is (str t) s h = ap str ((text_eq_iff t s).0 h)
text_is _ s h = ground arith

-- The row that a worker finishes.
published-IsChange :
    {annotate : Annotator} {rec : Fields} {id : Text} {store : Store} {rows' : List Row}
    (p : IsPublished annotate rec id store rows')
    → is_over rec ≡ true
    → IsChange (is_running_at id) (λ r. review_values r.id p.final)
published-IsChange {rec} {id} p over = record {
  keeps_safe = λ r hit s. record {
    consistent =
        review_values-IsConsistent r.id p.final
          (p.is_final.id
            ∙ text_is _ id p.own_id
            ∙ sym (text_is r.id id (&&-true (has_id id r) (is_running r) hit).0))
          p.is_final.judged;
    pending = λ run. not_both over_final (stored_running r.id p.final run);
  };
  keeps_id = λ r hit. unfold review_values in refl;
  no_lease = λ repo branch r hit e. not_both e (over_unleased repo branch r.id p.final over_final);
}
  where
    over_final : is_over p.final ≡ true
    over_final = ap (λ v. not (is_text v running)) p.is_final.status ∙ over

-- The row of a reservation is a lease of its own repository and branch only.
fresh_lease :
    (push : Push) (r : Row) (repo branch : Text)
    → IsFresh push r
    → is_leased repo branch r ≡ true
    → (repo ≡ push.repo) × (branch ≡ push.branch)
fresh_lease push r repo branch f e =
    let (e1, _) = &&-true _ (is_running r) e in
    let (e2, _) = &&-true _ (is_text r.mode prepush_mode) e1 in
    let (e3, e4) = &&-true (is_text r.repo repo) (is_text r.branch branch) e2 in
    (same_text r.repo push.repo repo f.repo e3, same_text r.branch push.branch branch f.branch e4)
  where
    same_text : (v : Json) (s t : Text) → v ≡ str s → is_text v t ≡ true → t ≡ s
    same_text v s t e h = sym ((text_eq_iff s t).0 (subst (λ x. is_text x t ≡ true) e h))

lease-IsSound :
    (push : Push) (rows rows' : List Row) (retired : List Retired)
    → IsLease push rows rows' retired
    → IsSound rows
    → IsSound rows'
lease-IsSound push rows rows' retired l s = subst IsSound (sym l.written) record {
  safe =
      upsert-All IsSafe l.fresh rest
        (record { consistent = l.is_fresh.consistent; pending = λ run. l.is_fresh.untrusted })
        s'.safe;
  unique = upsert-unique_all l.fresh rest s'.unique;
  one_lease = λ repo branch. elim (Bool-cases (is_leased repo branch l.fresh)) [
    | inl own ↦
        let (same_repo, same_branch) = fresh_lease push l.fresh repo branch l.is_fresh own in
        rw (same_repo, same_branch)
          (subst (λ x. count_if (is_leased push.repo push.branch) x ≤ 1) l.written
            (omega (arith, l.only_one)))
    | inr other ↦ omega (
      arith,
      s'.one_lease repo branch,
      upsert-count_le (is_leased repo branch) l.fresh rest other,
    )
  ];
}
  where
    rest : List Row
    rest = update_where (is_leased push.repo push.branch) (supersede_row push.record_id) rows

    s' : IsSound rest
    s' =
        update_where-IsSound (is_leased push.repo push.branch) (supersede_row push.record_id) rows
          (supersede_row-IsChange (is_leased push.repo push.branch) push.record_id) s

pub attach_pid-written :
    (id : Text) (pid : Json) (applied : Bool) (rows : List Row) {rows' : List Row}
    → attach_pid id pid rows ≡ ok (rows', applied)
    → rows' ≡ update_where (is_pidless_at id) (pid_row pid) rows
unfolding attach_pid
attach_pid-written id pid applied rows h =
    sym (ap (λ x. x.0) (ok-injective (require-ok _ value_error _ h).1))

mark_cancelled-reviews :
    (now id reason : Text) (tables : Tables)
    → (mark_cancelled now id reason tables).0.reviews
      ≡ update_where (is_trusted_at id) (cancel_row reason) tables.reviews
unfolding mark_cancelled
mark_cancelled-reviews now id reason tables =
    elim (Bool-cases (count_if (is_trusted_at id) tables.reviews == 1)) [
      | inl one ↦ rw one refl
      | inr other ↦ rw other refl
    ]

module _ (py : Python) (values : Values) (annotate : Annotator) (c : IsConservative annotate) where
  pub Work-IsSound :
      {rows rows' : List Row} → Work py values annotate rows rows' → IsSound rows → IsSound rows'
  Work-IsSound {rows} (reserve now at push evidence events done new h) s =
      elim (reserve_prepush-cases py values push evidence now at rows events done h) [
        | inl same ↦ subst IsSound (sym same.same_rows) s
        | inr r ↦ lease-IsSound push rows done.rows r.retired r.is_lease s
      ]
  Work-IsSound {rows} (attach id pid applied h) s =
      subst IsSound (sym (attach_pid-written id pid applied rows h)) (
        update_where-IsSound (is_pidless_at id) (pid_row pid) rows
          (pid_row-IsChange (is_pidless_at id) pid) s)
  Work-IsSound {rows} (finalize now id rec store store' applied same over h) s =
      let s' = subst IsSound (sym same) s in
      elim (finalize_review-cases py annotate now id rec store store' applied c (s'.unique id) h) [
        | inl p ↦ subst IsSound (sym p.1.written) (
            update_where-IsSound (is_running_at id) (λ r. review_values r.id p.1.final)
              store.tables.reviews (published-IsChange p.1 over) s')
        | inr late ↦ subst (λ x. IsSound x.tables.reviews) (sym late.1.same) s'
      ]
  Work-IsSound {rows} (janitor id reason) s =
      unfold fail_if_running in
      update_where-IsSound (is_running_at id) (fail_row reason) rows
        (fail_row-IsChange (is_running_at id) reason) s

  Step-IsSound :
      {rows rows' : List Row} → Step py values annotate rows rows' → IsSound rows → IsSound rows'
  Step-IsSound (work w) s = Work-IsSound w s
  Step-IsSound {rows} (fail id reason) s =
      unfold mark_failed in
      update_where-IsSound (has_id id) (fail_row reason) rows (fail_row-IsChange (has_id id) reason)
        s
  Step-IsSound {rows} (cancel now id reason tables same) s =
      subst IsSound (sym (mark_cancelled-reviews now id reason tables)) (
        update_where-IsSound (is_trusted_at id) (cancel_row reason) tables.reviews
          (cancel_row-IsChange (is_trusted_at id) reason) (subst IsSound (sym same) s))
  Step-IsSound {rows} (save now ctx rec store store' same start h) s =
      let p = save_review-IsSaved py now annotate ctx rec store store' c h in
      subst IsSound (sym p.written) (
        upsert-IsSound (review_values p.id p.bound) store.tables.reviews (saved-IsSafe p start)
          (λ repo branch. saved-no_lease p repo branch start) (subst IsSound (sym same) s))

  -- After any history of reservations, process attachments, finalisations, sweeps, foreground saves and
  -- failures and late cancellations, in any order: every row of the table repeats its stored object, is
  -- trusted exactly if its object says parsed, not degraded and not truncated, and is not trusted while
  -- it is in flight; an id names one row at most; and a branch of a repository has one pre-push run in
  -- flight at most. The callback leaves a record's identity, and the saved records in flight are
  -- foreground ones without an answer.
  pub Reach-IsSound : {rows : List Row} → Reach py values annotate rows → IsSound rows
  unfolding count_if
  Reach-IsSound empty = record {
    safe = tt;
    unique = λ id. omega arith;
    one_lease = λ repo branch. omega arith;
  }
  Reach-IsSound (step r st) = Step-IsSound st (Reach-IsSound r)
