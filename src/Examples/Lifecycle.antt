-- ===== src/Examples/Lifecycle.antt =====
-- store.py on a branch whose push is reserved twice, finished and swept, and on one that is suppressed.
use skodun.Prelude.{
  ◌+◌, ◌≤◌, ◌≡◌, refl, ◌⊎◌, Bool, true, false, none, some, List, [], ◌∷◌, arith, Has, here, All,
  count_if, map, is_empty, not_both,
}
use skodun.Prelude.Text.{Text, codes, text_eq}
use skodun.Prelude.Int.{pos}
use skodun.Json.{str, int, get, bool, Fields, end, field, nil, get_or_null}
use skodun.Triage.Result.{Result, ok, err}
use skodun.Gate.Decide.{rstrip_newlines, diff_identity}
use skodun.Reviews.Record.{normalize_record}
use skodun.Reviews.Table.{Row, review_values, has_id, is_running}
use skodun.Reviews.Policy.{Values}
use skodun.Reviews.Evidence.{DedupEvidence}
use skodun.Reviews.Reserve.{
  Push, Reserved, suppressed_by, reserve_prepush, dedup_event, reserved_record,
}
use skodun.Reviews.Publish.{Store, finalize_review}
use skodun.Reviews.Normal.{IsNormalOf, normalize_record-IsNormalOf}
use skodun.Reviews.Lease.{IsSuppressed, IsReserved, reserve_prepush-cases}
use skodun.Reviews.Suppression.{IsPending}
use skodun.Reviews.Upheld.{IsUpheld, reserve_prepush-IsUpheld}
use skodun.Reviews.Finish.{IsPublished, IsLate, finalize_review-cases}
use skodun.Reviews.Steps.{
  Work, Works, Step, Reach, reserve, attach, finalize, janitor, empty, step, work, next,
}
use skodun.Reviews.Steps
use skodun.Reviews.Agreement.{review_values-IsConsistent}
use skodun.Reviews.Sound.{IsSound}
use skodun.Reviews.Reachable.{Reach-IsSound}
use skodun.Reviews.Terminal.{Works-Has}
use skodun.Reviews.Sweep.{recover_stale}
use skodun.Reviews.Sweeping.{recover_stale-map, swept_row, is_swept, IsNamed}
use skodun.Reviews.Budgeted.{
  reserved_budget, whole_runs, failed_after, recover_stale-reserved_budget,
}
use skodun.Budget.{Defaults}
use skodun.Examples.Host.{ascii}
use skodun.Examples.Pushes.{record_with, outside}

abbrev values : Values
values = record { digest = λ fs. []; equal = λ a b. false }

abbrev push : Push
push = record {
  record_id = codes "sk_1";
  branch = codes "main";
  head = codes "h1";
  base_ref = codes "origin/main";
  base_sha = codes "b1";
  diff_hash = codes "+x";
  worst_runtime_sec = 60;
  repo = codes "repo";
  worktree_root = none;
}

abbrev pushed_again : Push
pushed_again = record push { record_id = codes "sk_2"; head = codes "h2" }

abbrev evidence : DedupEvidence
evidence = record {
  enabled = bool true;
  valid = bool true;
  candidate_context_hash = none;
  planning_policy = none;
}

abbrev now : Text
now = codes "2026-07-28T12:30:00Z"

-- A review of the same content that is over and trusted.
abbrev covered : List Row
covered = review_values (str (codes "r1")) (record_with nil 0) ∷ []

abbrev skipped : Reserved
skipped = record {
  rows = covered;
  dedup_events = dedup_event (str now) push (str (codes "r1")) ∷ [];
  reservation = suppressed_by (str (codes "r1"));
}

skips : reserve_prepush ascii values now (str now) push evidence covered [] ≡ ok skipped
unfolding reserve_prepush
skips = refl

-- What a run returned, for runs that do.
abbrev outcome : Result Reserved → Reserved
outcome (ok done) = done
outcome (err e) = skipped

abbrev first : Reserved
first = outcome (reserve_prepush ascii values now (str now) push evidence [] [])

first_reserved : reserve_prepush ascii values now (str now) push evidence [] [] ≡ ok first
unfolding reserve_prepush skodun.Textnorm.is_space
first_reserved = refl

-- A table with one run in flight.
abbrev in_flight : List Row
in_flight = review_values (str (codes "sk_1")) (reserved_record (str now) push) ∷ []

abbrev second : Reserved
second = outcome (reserve_prepush ascii values now (str now) pushed_again evidence in_flight [])

second_reserved :
    reserve_prepush ascii values now (str now) pushed_again evidence in_flight [] ≡ ok second
unfolding reserve_prepush skodun.Textnorm.is_space
second_reserved = refl

reserve_prepush-cases_example :
    IsSuppressed values pushed_again evidence in_flight [] second
    ⊎ IsReserved values pushed_again evidence in_flight [] second
reserve_prepush-cases_example =
    reserve_prepush-cases ascii values pushed_again evidence now (str now) in_flight [] second
      second_reserved

covered-IsPending : All IsPending covered
unfolding review_values text_eq
covered-IsPending = (λ run. not_both run refl, tt)

not_empty : is_empty (rstrip_newlines (codes "+x\n")) ≡ false
unfolding rstrip_newlines
not_empty = refl

same_hash : diff_identity ascii outside (codes "+x\n") ≡ codes "+x"
unfolding diff_identity
same_hash = refl

reserve_prepush-IsUpheld_example : IsUpheld ascii outside covered [] (str (codes "r1"))
reserve_prepush-IsUpheld_example =
    reserve_prepush-IsUpheld ascii outside (record { sha = codes "b1"; warning = none })
      (record { bytes = codes "+x\n"; truncated_untracked = false }) values push evidence now
      (str now) covered [] skipped (str (codes "r1")) [] covered-IsPending skips refl refl refl refl
      not_empty same_hash

abbrev answer : Fields
answer = field (codes "id") (str (codes "sk_1")) (
    field (codes "branch") (str (codes "main")) (
      field (codes "head") (str (codes "h1")) (
        field (codes "base_ref") (str (codes "origin/main")) (
          field (codes "base_sha") (str (codes "b1")) (
            field (codes "diff_hash") (str (codes "+x")) (
              field (codes "status") (str (codes "clean")) (
                field (codes "parse_ok") (bool true) (
                  field (codes "source") (str (codes "skodun")) (
                    field (codes "mode") (str (codes "prepush"))
                      (field (codes "usable_output") (bool true) end))))))))))

abbrev stored_answer : Result Fields → Fields
stored_answer (ok rec) = rec
stored_answer (err e) = end

answer_stored :
    normalize_record ascii now answer ≡ ok (stored_answer (normalize_record ascii now answer))
unfolding normalize_record
answer_stored = refl

normalize_record-IsNormalOf_example :
    IsNormalOf answer (stored_answer (normalize_record ascii now answer))
normalize_record-IsNormalOf_example =
    normalize_record-IsNormalOf ascii now answer (stored_answer (normalize_record ascii now answer))
      answer_stored

abbrev store : Store
store = record {
  tables = record {
    reviews = in_flight;
    orchestrations = [];
    checkpoints = [];
    cancellations = [];
  };
  lineage = [];
  links = [];
}

abbrev finished : Result (Store × Bool) → Store × Bool
finished (ok both) = both
finished (err e) = (store, false)

abbrev done : Store × Bool
done = finished (finalize_review ascii none now (codes "sk_1") answer store)

abbrev returned : Result (Store × Bool) → Bool
returned (ok both) = true
returned (err e) = false

returned-ok : (m : Result (Store × Bool)) → returned m ≡ true → m ≡ ok (finished m)
returned-ok (ok both) h = refl
returned-ok (err e) h = ground arith

answer_returns : returned (finalize_review ascii none now (codes "sk_1") answer store) ≡ true
unfolding finalize_review reserved_record
answer_returns = refl

answer_finished : finalize_review ascii none now (codes "sk_1") answer store ≡ ok (done.0, done.1)
answer_finished =
    returned-ok (finalize_review ascii none now (codes "sk_1") answer store) answer_returns

was_applied : done.1 ≡ true
unfolding finalize_review reserved_record
was_applied = refl

one_row : count_if (has_id (codes "sk_1")) in_flight ≤ 1
unfolding count_if reserved_record review_values text_eq
one_row = omega arith

finalize_review-cases_example :
    (done.1 ≡ true) × IsPublished none answer (codes "sk_1") store done.0.tables.reviews
    ⊎ (done.1 ≡ false) × IsLate (codes "sk_1") store done.0
finalize_review-cases_example =
    finalize_review-cases ascii none now (codes "sk_1") answer store done.0 done.1 tt one_row
      answer_finished

none_yet : count_if (has_id (codes "sk_1")) [] ≡ 0
unfolding count_if
none_yet = refl

Reach-IsSound_example : IsSound first.rows
Reach-IsSound_example =
    Reach-IsSound ascii values none tt
      (step empty (work (reserve now (str now) push evidence [] first none_yet first_reserved)))

flight-IsNamed : All IsNamed in_flight
unfolding review_values
flight-IsNamed = ((codes "sk_1", refl), tt)

one_of_each : (id : Text) → count_if (has_id id) in_flight ≤ 1
unfolding count_if
one_of_each id = ground arith

recover_stale-map_example : recover_stale (λ s. some 0) 100 30 in_flight ≡ (
  map (swept_row (λ s. some 0) 100 30) in_flight,
  count_if (is_swept (λ s. some 0) 100 30) in_flight,
)
recover_stale-map_example =
    recover_stale-map (λ s. some 0) 100 30 in_flight flight-IsNamed one_of_each

-- The covered row, beside which a push is reserved without regard to it.
abbrev unfazed : DedupEvidence
unfazed = record evidence { enabled = bool false }

abbrev third : Reserved
third = outcome (reserve_prepush ascii values now (str now) push unfazed covered [])

third_reserved : reserve_prepush ascii values now (str now) push unfazed covered [] ≡ ok third
unfolding reserve_prepush skodun.Textnorm.is_space
third_reserved = refl

covered_id : get_or_null (codes "id") (record_with nil 0) ≡ str (codes "r1")
unfolding get_or_null text_eq
covered_id = refl

covered_parse_ok : get_or_null (codes "parse_ok") (record_with nil 0) ≡ bool true
unfolding get_or_null text_eq
covered_parse_ok = refl

covered_degraded : get_or_null (codes "degraded") (record_with nil 0) ≡ bool false
unfolding get_or_null text_eq
covered_degraded = refl

covered_truncated : get_or_null (codes "diff_truncated") (record_with nil 0) ≡ bool false
unfolding get_or_null text_eq
covered_truncated = refl

covered_trustworthy : get_or_null (codes "trustworthy") (record_with nil 0) ≡ bool true
unfolding get_or_null text_eq
covered_trustworthy = refl

covered-IsSound : IsSound covered
covered-IsSound = record {
  safe = (
    record {
      consistent =
          review_values-IsConsistent (str (codes "r1")) (record_with nil 0) covered_id record {
            parsed = true;
            degrades = false;
            truncates = false;
            parse_ok = covered_parse_ok;
            degraded = covered_degraded;
            diff_truncated = covered_truncated;
            trustworthy = covered_trustworthy;
          };
      pending = covered-IsPending.0;
    },
    tt,
  );
  unique = λ id. unfold count_if in ground arith;
  one_lease = λ repo branch. unfold count_if in ground arith;
}

free_id : count_if (has_id (codes "sk_1")) covered ≡ 0
unfolding count_if review_values text_eq
free_id = refl

covered_over : is_running (review_values (str (codes "r1")) (record_with nil 0)) ≡ false
unfolding review_values text_eq
covered_over = refl

Works-Has_example :
    Has (review_values (str (codes "r1")) (record_with nil 0)) third.rows × IsSound third.rows
Works-Has_example =
    Works-Has ascii values none tt (review_values (str (codes "r1")) (record_with nil 0))
      (next Steps.here (reserve now (str now) push unfazed [] third free_id third_reserved))
      covered-IsSound covered_over here

-- A reservation of one run of a minute, one retry and two batches, and half a minute of waiting.
abbrev limits : Defaults
limits = record { timeout_sec = 60; timeout_retries = 1; degraded_retries = 0 }

abbrev planned : Push
planned = record push { worst_runtime_sec = 930 }

abbrev planned_row : Row
planned_row = review_values (str (codes "sk_1")) (reserved_record (str now) planned)

planned_budget : planned_row.worst_runtime_sec ≡ int (pos (reserved_budget limits 1 (some 2) 30))
unfolding review_values reserved_record get_or_null get text_eq reserved_budget
planned_budget = refl

planned_at : planned_row.reviewed_at ≡ str now
unfolding review_values reserved_record get_or_null get text_eq
planned_at = refl

planned_runs : is_running planned_row ≡ true
unfolding review_values reserved_record get_or_null get text_eq
planned_runs = refl

planned-IsNamed : All IsNamed (planned_row ∷ [])
unfolding review_values
planned-IsNamed = ((codes "sk_1", refl), tt)

planned_once : (id : Text) → count_if (has_id id) (planned_row ∷ []) ≤ 1
unfolding count_if
planned_once id = ground arith

recover_stale-reserved_budget_example :
    Has
      (failed_after (100 + (whole_runs limits 1 2 + 30)) 900 planned_row)
      (recover_stale (λ s. some 100) 900 300 (planned_row ∷ [])).0
recover_stale-reserved_budget_example =
    recover_stale-reserved_budget (λ s. some 100) 900 300 limits 1 (some 2) 30 100 now planned_row
      (planned_row ∷ []) (omega arith) planned-IsNamed planned_once here planned_runs planned_at
      refl planned_budget
