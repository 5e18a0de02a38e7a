-- ===== src/Reviews/Sound.antt =====
-- The invariant of the table `reviews`, and the statements that keep it.
use skodun.Prelude.{
  ℕ, ◌+◌, ◌≤◌, ◌≡◌, refl, ap, ◌∙◌, sym, inl, inr, Bool, true, false, not, ◌&&◌, Option, none, some,
  List, [], ◌∷◌, arith, Bool-cases, if◌then◌else◌, All, All-map, count_if,
}
use skodun.Prelude.Text.{Text, codes, text_eq}
use skodun.Json.{Json, str}
use skodun.Gate.Decide.{is_text}
use skodun.Reviews.Table.{
  Row, update_where, upsert, has_id, same_id, is_leased, is_running, fail_row, cancel_row, pid_row,
  supersede_row,
}
use skodun.Reviews.Agreement.{
  IsConsistent, fail_row-IsConsistent, cancel_row-IsConsistent, pid_row-IsConsistent,
  supersede_row-IsConsistent,
}
use skodun.Reviews.Rows.{update_where-All, upsert-All}
use skodun.Reviews.Suppression.{IsPending}

-- A row: it agrees with its object, and is not trusted while it is in flight.
pub record IsSafe (r : Row) : Type 0 where
  pub consistent : IsConsistent r
  pub pending : IsPending r

-- The table: every row is such, an id names one row at most, and a branch has one run in flight at most.
pub record IsSound (rows : List Row) : Type 0 where
  pub safe : All IsSafe rows
  pub unique : (id : Text) → count_if (has_id id) rows ≤ 1
  pub one_lease : (repo branch : Text) → count_if (is_leased repo branch) rows ≤ 1

-- A change of rows that keeps the row safe, its id, and makes no lease.
pub record IsChange (p : Row → Bool) (f : Row → Row) : Type 0 where
  pub keeps_safe : (r : Row) → p r ≡ true → IsSafe r → IsSafe (f r)
  pub keeps_id : (r : Row) → p r ≡ true → (f r).id ≡ r.id
  pub no_lease :
      (repo branch : Text) (r : Row)
      → p r ≡ true
      → is_leased repo branch (f r) ≡ true
      → is_leased repo branch r ≡ true

update_where-count_le :
    (p q : Row → Bool) (f : Row → Row) (rows : List Row)
    → ((r : Row) → p r ≡ true → q (f r) ≡ true → q r ≡ true)
    → count_if q (update_where p f rows) ≤ count_if q rows
unfolding update_where count_if
update_where-count_le p q f [] h = omega arith
update_where-count_le p q f (r ∷ rows) h = elim (Bool-cases (p r)) [
  | inl hit ↦ rw hit (ground (arith, h r hit, update_where-count_le p q f rows h))
  | inr missed ↦ rw missed (omega (arith, update_where-count_le p q f rows h))
]

pub update_where-IsSound :
    (p : Row → Bool) (f : Row → Row) (rows : List Row)
    → IsChange p f
    → IsSound rows
    → IsSound (update_where p f rows)
update_where-IsSound p f rows c s = record {
  safe = update_where-All IsSafe p f rows c.keeps_safe s.safe;
  unique = λ id. omega (
    arith,
    s.unique id,
    update_where-count_le p (has_id id) f rows
        (λ r hit e. ap (λ v. is_text v id) (sym (c.keeps_id r hit)) ∙ e),
  );
  one_lease = λ repo branch. omega (
    arith,
    s.one_lease repo branch,
    update_where-count_le p (is_leased repo branch) f rows (c.no_lease repo branch),
  );
}

-- The written row is counted beside the others, unless it takes the place of one.
pub upsert-count_le :
    (q : Row → Bool) (new : Row) (rows : List Row)
    → q new ≡ false
    → count_if q (upsert new rows) ≤ count_if q rows
unfolding upsert count_if
upsert-count_le q new [] e = rw e (omega arith)
upsert-count_le q new (r ∷ rows) e = elim (Bool-cases (same_id new.id r)) [
  | inl hit ↦ rw (hit, e) (omega arith)
  | inr missed ↦ rw missed (omega (arith, upsert-count_le q new rows e))
]

same_id-text : (v : Json) (id : Text) (r : Row) → is_text v id ≡ true → same_id v r ≡ has_id id r
same_id-text (str s) id r e = ap (λ t. has_id t r) ((skodun.Prelude.Text.text_eq_iff s id).0 e)
same_id-text _ id r e = ground arith

upsert_unique :
    (id : Text) (new : Row) (rows : List Row)
    → has_id id new ≡ true
    → count_if (has_id id) rows ≤ 1
    → count_if (has_id id) (upsert new rows) ≤ 1
unfolding upsert count_if
upsert_unique id new [] e h = rw e (omega arith)
upsert_unique id new (r ∷ rows) e h = elim (Bool-cases (has_id id r)) [
  | inl hit ↦ rw (same_id-text new.id id r e ∙ hit, e) (ground (arith, hit))
  | inr missed ↦
      rw (same_id-text new.id id r e ∙ missed, missed)
        (omega (arith, upsert_unique id new rows e (ground (arith, missed))))
]

pub upsert-unique_all :
    (new : Row) (rows : List Row)
    → ((id : Text) → count_if (has_id id) rows ≤ 1)
    → (id : Text) → count_if (has_id id) (upsert new rows) ≤ 1
upsert-unique_all new rows h id = elim (Bool-cases (has_id id new)) [
  | inl e ↦ upsert_unique id new rows e (h id)
  | inr e ↦ omega (arith, h id, upsert-count_le (has_id id) new rows e)
]

pub upsert-IsSound :
    (new : Row) (rows : List Row)
    → IsSafe new
    → ((repo branch : Text) → is_leased repo branch new ≡ false)
    → IsSound rows
    → IsSound (upsert new rows)
upsert-IsSound new rows safe free s = record {
  safe = upsert-All IsSafe new rows safe s.safe;
  unique = upsert-unique_all new rows s.unique;
  one_lease = λ repo branch. omega (
    arith,
    s.one_lease repo branch,
    upsert-count_le (is_leased repo branch) new rows (free repo branch),
  );
}

-- A row that is not running is no lease.
pub over-no_lease :
    (repo branch : Text) (r : Row) → is_running r ≡ false → is_leased repo branch r ≡ false
over-no_lease repo branch r e = ground (arith, e)

-- The four changes of a row.
pub fail_row-IsChange : (p : Row → Bool) (reason : Text) → IsChange p (fail_row reason)
fail_row-IsChange p reason = record {
  keeps_safe = λ r hit s. record {
    consistent = fail_row-IsConsistent reason r s.consistent;
    pending = λ run. unfold fail_row in refl;
  };
  keeps_id = λ r hit. unfold fail_row in refl;
  no_lease = λ repo branch r hit e. unfold fail_row text_eq in ground (arith, e);
}

pub cancel_row-IsChange : (p : Row → Bool) (reason : Text) → IsChange p (cancel_row reason)
cancel_row-IsChange p reason = record {
  keeps_safe = λ r hit s. record {
    consistent = cancel_row-IsConsistent reason r s.consistent;
    pending = λ run. unfold cancel_row in refl;
  };
  keeps_id = λ r hit. unfold cancel_row in refl;
  no_lease = λ repo branch r hit e. unfold cancel_row text_eq in ground (arith, e);
}

pub supersede_row-IsChange : (p : Row → Bool) (by : Text) → IsChange p (supersede_row by)
supersede_row-IsChange p by = record {
  keeps_safe = λ r hit s. record {
    consistent = supersede_row-IsConsistent by r s.consistent;
    pending = λ run. unfold supersede_row text_eq in ground (arith, run);
  };
  keeps_id = λ r hit. unfold supersede_row in refl;
  no_lease = λ repo branch r hit e. unfold supersede_row text_eq in ground (arith, e);
}

pub pid_row-IsChange : (p : Row → Bool) (pid : Json) → IsChange p (pid_row pid)
pid_row-IsChange p pid = record {
  keeps_safe = λ r hit s. record {
    consistent = pid_row-IsConsistent pid r s.consistent;
    pending = λ run. unfold pid_row in s.pending (unfold pid_row in run);
  };
  keeps_id = λ r hit. unfold pid_row in refl;
  no_lease = λ repo branch r hit e. unfold pid_row in e;
}
