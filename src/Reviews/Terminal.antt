-- ===== src/Reviews/Terminal.antt =====
-- A review that is over stays as it is: of the racing ends of a run, the first wins.
use skodun.Prelude.{◌≡◌, sym, inl, inr, false, List, arith, Bool-cases, Has, here, count_if}
use mathlib.Core.Path.{subst}
use skodun.Prelude.Text.{Text}
use skodun.Textnorm.{Python}
use skodun.Reviews.Table.{
  Row, review_values, has_id, is_running, is_running_at, is_pidless_at, fail_if_running, fail_row,
  pid_row,
}
use skodun.Reviews.Policy.{Values}
use skodun.Reviews.Publish.{Annotator}
use skodun.Reviews.Final.{IsConservative}
use skodun.Reviews.Finish.{finalize_review-cases}
use skodun.Reviews.Lease.{reserve_prepush-cases}
use skodun.Reviews.Rows.{Has-update_where, Has-count}
use skodun.Reviews.Steps.{Work, reserve, attach, finalize, janitor, Works, here, next}
use skodun.Reviews.Sound.{IsSound, over-no_lease}
use skodun.Reviews.Reachable.{attach_pid-written, Work-IsSound}

-- No row has the id, so this one has another.
new_id :
    (id : Text) (r : Row) (rows : List Row)
    → Has r rows
    → count_if (has_id id) rows ≡ 0
    → has_id id r ≡ false
new_id id r rows m none_of = elim (Bool-cases (has_id id r)) [
  | inl e ↦ ground (arith, Has-count (has_id id) m e, none_of)
  | inr e ↦ e
]

not_at : (id : Text) (r : Row) → is_running r ≡ false → is_running_at id r ≡ false
not_at id r over = ground (arith, over)

not_pidless : (id : Text) (r : Row) → is_running r ≡ false → is_pidless_at id r ≡ false
not_pidless id r over = ground (arith, over)

module _ (py : Python) (values : Values) (annotate : Annotator) (c : IsConservative annotate) where
  Work-Has :
      {rows rows' : List Row} (r : Row)
      → Work py values annotate rows rows'
      → IsSound rows
      → is_running r ≡ false
      → Has r rows
      → Has r rows'
  Work-Has {rows} r (reserve now at push evidence events done new h) s over m =
      elim (reserve_prepush-cases py values push evidence now at rows events done h) [
        | inl same ↦ subst (Has r) (sym same.same_rows) m
        | inr leased ↦
            leased.is_lease.kept r m (over-no_lease push.repo push.branch r over)
              (new_id push.record_id r rows m new)
      ]
  Work-Has {rows} r (attach id pid applied h) s over m =
      subst (Has r) (sym (attach_pid-written id pid applied rows h))
        (Has-update_where (is_pidless_at id) (pid_row pid) r rows (not_pidless id r over) m)
  Work-Has {rows} r (finalize now id rec store store' applied same ended h) s over m =
      let s' = subst IsSound (sym same) s in
      let m' = subst (Has r) (sym same) m in
      elim (finalize_review-cases py annotate now id rec store store' applied c (s'.unique id) h) [
        | inl p ↦ subst (Has r) (sym p.1.written) (
            Has-update_where (is_running_at id) (λ x. review_values x.id p.1.final) r
              store.tables.reviews (not_at id r over) m')
        | inr late ↦ subst (λ x. Has r x.tables.reviews) (sym late.1.same) m'
      ]
  Work-Has {rows} r (janitor id reason) s over m =
      unfold fail_if_running in
      Has-update_where (is_running_at id) (fail_row reason) r rows (not_at id r over) m

  -- A row that is over, whether clean, failed or superseded, is left exactly as it is by every later
  -- reservation under a new id, process attachment, finalisation and sweep, however many and in any
  -- order, on a table that satisfies the invariant: the first end of a run wins, and a late worker never
  -- overwrites it.
  pub Works-Has :
      {rows rows' : List Row} (r : Row)
      → Works py values annotate rows rows'
      → IsSound rows
      → is_running r ≡ false
      → Has r rows
      → Has r rows' × IsSound rows'
  Works-Has r here s over m = (m, s)
  Works-Has r (next ws w) s over m =
      let (m', s') = Works-Has r ws s over m in
      (Work-Has r w s' over m', Work-IsSound py values annotate c w s')
