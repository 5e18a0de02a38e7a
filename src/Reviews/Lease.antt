-- ===== src/Reviews/Lease.antt =====
-- What a reservation of store.py leaves: the older runs of the branch retired, and one running row.
use skodun.Prelude.{
  ◌≡◌, refl, inl, inr, ◌⊎◌, Bool, true, false, Option, none, some, List, [], ◌∷◌, ◌++◌, map, keep,
  arith, Bool-cases, Has, count_if,
}
use mathlib.Core.Path.{subst}
use skodun.Prelude.Text.{Text, text_eq, text_eq_refl}
use skodun.Json.{Json, str}
use skodun.Textnorm.{Python}
use skodun.Triage.Result.{ok, >>=-eq-ok, ok-injective}
use skodun.Triage.Doors.{require_ts}
use skodun.Reviews.Record.{normalize_record}
use skodun.Reviews.Table.{
  Row, review_values, update_where, upsert, is_leased, has_id, same_id, supersede_row,
}
use skodun.Reviews.Policy.{Values}
use skodun.Reviews.Evidence.{DedupEvidence}
use skodun.Reviews.Reserve.{
  Push, Retired, reserved_record, bind_prepush, lease, retired_of, DedupEvent, dedup_event,
  Reserved, reserved, suppressed_by, suppression_candidate, reserve_prepush, decided,
}
use skodun.Reviews.Fresh.{IsFresh, review_values-IsFresh}
use skodun.Reviews.Rows.{
  update_where-count, Has-update_where, Has-upsert, upsert-Has, update_where-Has,
}

-- A row written beside none of its kind is the only one.
upsert-count :
    (q : Row → Bool) (new : Row) (rows : List Row)
    → q new ≡ true
    → count_if q rows ≡ 0
    → count_if q (upsert new rows) ≡ 1
unfolding upsert count_if
upsert-count q new [] is none_before = rw is refl
upsert-count q new (r ∷ rows) is none_before = elim (Bool-cases (same_id new.id r)) [
  | inl hit ↦ rw (hit, is) (ground (arith, none_before))
  | inr missed ↦ rw missed (ground (arith, none_before, upsert-count q new rows is))
]

pub superseded_not_leased :
    (repo branch by : Text) (r : Row) → is_leased repo branch (supersede_row by r) ≡ false
unfolding supersede_row text_eq
superseded_not_leased repo branch by r = ground arith

fresh-is_leased :
    (push : Push) (r : Row) → IsFresh push r → is_leased push.repo push.branch r ≡ true
unfolding text_eq
fresh-is_leased push r f =
    rw (f.repo, f.branch, f.mode, f.status, text_eq_refl push.repo, text_eq_refl push.branch) refl

-- The table after a reservation against the table before it.
pub record IsLease (push : Push) (rows rows' : List Row) (retired : List Retired) : Type 0 where
  pub fresh : Row
  pub is_fresh : IsFresh push fresh
  pub written :
      rows'
      ≡ upsert fresh
          (update_where (is_leased push.repo push.branch) (supersede_row push.record_id) rows)
  pub is_row : Has fresh rows'
  pub only_one : count_if (is_leased push.repo push.branch) rows' ≡ 1
  pub returned : retired ≡ map retired_of (keep (is_leased push.repo push.branch) rows)
  pub superseded :
      (r : Row)
      → Has r rows
      → is_leased push.repo push.branch r ≡ true
      → has_id push.record_id r ≡ false
      → Has (supersede_row push.record_id r) rows'
  pub kept :
      (r : Row)
      → Has r rows
      → is_leased push.repo push.branch r ≡ false
      → has_id push.record_id r ≡ false
      → Has r rows'

module _ (py : Python) (now : Text) (at : Json) (push : Push) where
  pub lease-IsLease :
      (rows rows' : List Row) (retired : List Retired)
      → lease py now at push rows ≡ ok (rows', retired)
      → IsLease push rows rows' retired
  unfolding lease
  lease-IsLease rows rows' retired h =
      let r = >>=-eq-ok (normalize_record py now (reserved_record at push)) _ h in
      let fresh = review_values (str push.record_id) (bind_prepush (str push.record_id) r.0) in
      let f = review_values-IsFresh py now at push r.0 r.1 in
      let older = is_leased push.repo push.branch in
      let rest = update_where older (supersede_row push.record_id) rows in
      subst (λ p. IsLease push rows p.0 p.1) (ok-injective r.2)
        record {
          fresh = fresh;
          is_fresh = f;
          written = refl;
          is_row = upsert-Has fresh rest;
          only_one = upsert-count older fresh rest (fresh-is_leased push fresh f) (
              update_where-count older older (supersede_row push.record_id) rows
                (λ x _. superseded_not_leased push.repo push.branch push.record_id x) (λ x e. e));
          returned = refl;
          superseded = λ x m is differ.
              Has-upsert fresh (supersede_row push.record_id x) rest
                (unfold supersede_row in differ)
                (update_where-Has older (supersede_row push.record_id) x rows is m);
          kept = λ x m is differ.
              Has-upsert fresh x rest differ
                (Has-update_where older (supersede_row push.record_id) x rows is m);
        }

-- A suppression: the trail has one more event, the table is as it was.
pub record IsSuppressed (values : Values) (push : Push) (evidence : DedupEvidence) (rows : List Row)
    (events : List DedupEvent) (out : Reserved) : Type 0 where
  pub at : Json
  pub id : Json
  pub matched :
      suppression_candidate values push.diff_hash push.base_sha evidence rows ≡ ok (some id)
  pub same_rows : out.rows ≡ rows
  pub logged : out.dedup_events ≡ events ++ dedup_event at push id ∷ []
  pub answer : out.reservation ≡ suppressed_by id

-- A lease: no review could stand in, and the trail is as it was.
pub record IsReserved (values : Values) (push : Push) (evidence : DedupEvidence) (rows : List Row)
    (events : List DedupEvent) (out : Reserved) : Type 0 where
  pub retired : List Retired
  pub unmatched : suppression_candidate values push.diff_hash push.base_sha evidence rows ≡ ok none
  pub same_events : out.dedup_events ≡ events
  pub answer : out.reservation ≡ reserved push.record_id retired
  pub is_lease : IsLease push rows out.rows retired

module _ (py : Python) (values : Values) (push : Push) (evidence : DedupEvidence) where
  decided-cases :
      (now : Text) (at : Json) (rows : List Row) (events : List DedupEvent) (out : Reserved)
      (matched : Option Json)
      → suppression_candidate values push.diff_hash push.base_sha evidence rows ≡ ok matched
      → decided py values now at push rows events matched ≡ ok out
      → IsSuppressed values push evidence rows events out
        ⊎ IsReserved values push evidence rows events out
  decided-cases now at rows events out none m h =
      let r = >>=-eq-ok (lease py now at push rows) _ h in
      inr (
        subst (IsReserved values push evidence rows events) (ok-injective r.2) record {
          retired = r.0.1;
          unmatched = m;
          same_events = refl;
          answer = refl;
          is_lease = lease-IsLease py now at push rows r.0.0 r.0.1 r.1;
        })
  decided-cases now at rows events out (some id) m h = inl (
      subst (IsSuppressed values push evidence rows events) (ok-injective h)
        record { at = at; id = id; matched = m; same_rows = refl; logged = refl; answer = refl })

  -- A reservation that does not raise either finds a review that may stand in, records that, and leaves
  -- the table alone; or it finds none, returns exactly the running pre-push rows of its repository and
  -- branch as retired, turns each into a superseded row (unless its id is drawn again), keeps every
  -- other row, and writes an untrusted running row with the push's identity, the only running pre-push
  -- row of that repository and branch.
  pub reserve_prepush-cases :
      (now : Text) (at : Json) (rows : List Row) (events : List DedupEvent) (out : Reserved)
      → reserve_prepush py values now at push evidence rows events ≡ ok out
      → IsSuppressed values push evidence rows events out
        ⊎ IsReserved values push evidence rows events out
  unfolding reserve_prepush
  reserve_prepush-cases now at rows events out h =
      let r1 = >>=-eq-ok (require_ts py at) _ h in
      let r2 =
        >>=-eq-ok (suppression_candidate values push.diff_hash push.base_sha evidence rows) _
          r1.2 in
      decided-cases now r1.0 rows events out r2.0 r2.1 r2.2
