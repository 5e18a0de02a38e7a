-- ===== src/Reviews/Reserve.antt =====
-- `reserve_prepush` of store.py, with the decision to skip the review (`_suppression_candidate`).
use skodun.Prelude.{
  ℕ, Bool, true, false, not, ◌&&◌, Option, none, some, List, [], ◌∷◌, ◌++◌, map, keep,
  if◌then◌else◌,
}
use skodun.Prelude.Text.{Text, codes, text_eq, text_lt}
use skodun.Prelude.Int.{pos}
use skodun.Json.{
  Json, null, bool, int, str, arr, obj, nil, Fields, end, field, get, get_or_null, is_bool, is_true,
}
use skodun.Textnorm.{Python}
use skodun.Trust.{is_trustworthy}
use skodun.Triage.Result.{Result, ok, err, ◌>>=◌}
use skodun.Triage.Artifact.{Artifact, load_valid_artifact}
use skodun.Triage.Doors.{require_ts}
use skodun.Gate.Decide.{is_text, newer, recomputed}
use skodun.Reviews.Record.{normalize_record, running, prepush_mode, skodun_source, set}
use skodun.Reviews.Table.{
  Row, review_values, upsert, update_where, is_leased, is_running, supersede_row,
}
use skodun.Reviews.Policy.{Values}
use skodun.Reviews.Evidence.{DedupEvidence, evidence_permits_suppression}

-- A row of `dedup_events`.
pub record DedupEvent : Type 0 where
  pub at : Json
  pub branch : Text
  pub diff_hash : Text
  pub matched_review_id : Json

-- `{"id", "pid"}` of a retired row.
pub record Retired : Type 0 where
  pub id : Json
  pub pid : Json

pub data Reservation : Type 0 where
  reserved : Text → List Retired → Reservation
  suppressed_by : Json → Reservation

-- What the caller of `reserve_prepush` names, and the id that it draws.
pub record Push : Type 0 where
  pub record_id : Text
  pub branch : Text
  pub head : Text
  pub base_ref : Text
  pub base_sha : Text
  pub diff_hash : Text
  pub worst_runtime_sec : ℕ
  pub repo : Text
  pub worktree_root : Option Text

-- The rows and the trail of suppressions.
pub record Reserved : Type 0 where
  pub rows : List Row
  pub dedup_events : List DedupEvent
  pub reservation : Reservation

-- `reviewed_at` as the order of the query reads it.
abbrev pub time_of : Json → Option Text
time_of (str s) = some s
time_of _ = none

-- `diff_hash=? AND trustworthy=1 AND COALESCE(status, '') <> 'running'`
abbrev pub is_candidate : Text → Row → Bool
is_candidate diff_hash r = is_text r.diff_hash diff_hash && r.trustworthy && not (is_running r)

abbrev pub later_row : Row → Option Row → Row
later_row row none = row
later_row row (some best) =
    if newer (time_of best.reviewed_at) (time_of row.reviewed_at) then best else row

-- `ORDER BY reviewed_at DESC LIMIT 1`
unfoldable pub newest_candidate : Text → List Row → Option Row
unfolding text_eq text_lt
newest_candidate diff_hash [] = none
newest_candidate diff_hash (row ∷ rows) =
    let rest = newest_candidate diff_hash rows in
    if is_candidate diff_hash row then some (later_row row rest) else rest

-- `a == b` for a key that is a text or `None`; a key of another type equals neither.
abbrev pub same_key : Json → Json → Bool
same_key (str s) (str t) = text_eq s t
same_key null null = true
same_key _ _ = false

-- The artifact repeats the row, and both are about this content against this base.
abbrev pub is_about : Text → Text → Row → Fields → Bool
is_about diff_hash base_sha row rec =
    same_key (get_or_null (codes "id") rec) row.id
    && same_key (get_or_null (codes "diff_hash") rec) row.diff_hash
    && is_text (get_or_null (codes "diff_hash") rec) diff_hash
    && is_text row.base_sha base_sha
    && is_text (get_or_null (codes "base_sha") rec) base_sha

abbrev pub is_clean : Fields → Bool
is_clean rec =
    is_bool (get_or_null (codes "parse_ok") rec)
    && is_bool (get_or_null (codes "degraded") rec)
    && is_bool (get_or_null (codes "diff_truncated") rec)
    && recomputed rec
    && is_true (get_or_null (codes "trustworthy") rec)

abbrev pub loads : Result Artifact → Bool
loads (ok review) = true
loads (err e) = false

-- Every check of the row except the context's, which comes last.
abbrev pub certifies : Text → Text → Row → Bool
certifies diff_hash base_sha row =
    loads (load_valid_artifact (obj row.artifact))
    && is_clean row.artifact
    && is_about diff_hash base_sha row row.artifact

module _ (values : Values) where
  abbrev pub permitted : DedupEvidence → Row → Result (Option Json)
  permitted evidence row = do
    fine ← evidence_permits_suppression values (obj row.artifact) evidence
    ok (if fine then some row.id else none)

  abbrev pub examined : Text → Text → DedupEvidence → Option Row → Result (Option Json)
  examined diff_hash base_sha evidence none = ok none
  examined diff_hash base_sha evidence (some row) =
      if certifies diff_hash base_sha row then permitted evidence row else ok none

  -- `_suppression_candidate`
  unfoldable pub suppression_candidate :
      Text → Text → DedupEvidence → List Row → Result (Option Json)
  unfolding newest_candidate load_valid_artifact is_trustworthy get_or_null text_eq
      evidence_permits_suppression
  suppression_candidate diff_hash base_sha evidence rows =
      if is_true evidence.enabled
      then examined diff_hash base_sha evidence (newest_candidate diff_hash rows)
      else ok none

abbrev worktree_field : Option Text → Fields
worktree_field none = end
worktree_field (some root) = field (codes "worktree_root") (str root) end

-- The reserved record's first shape.
unfoldable pub reserved_record : Json → Push → Fields
reserved_record at push = field (codes "id") (str push.record_id) (
    field (codes "reviewed_at") at (
      field (codes "branch") (str push.branch) (
        field (codes "head") (str push.head) (
          field (codes "base_ref") (str push.base_ref) (
            field (codes "base_sha") (str push.base_sha) (
              field (codes "diff_hash") (str push.diff_hash) (
                field (codes "mode") (str prepush_mode) (
                  field (codes "source") (str skodun_source)
                    (field (codes "status") (str running) (flags push))))))))))
  where
    owned : Push → Fields
    owned push = field (codes "worst_runtime_sec") (int (pos push.worst_runtime_sec)) (
        field (codes "pid") null (
          field (codes "superseded_by") null
            (field (codes "repo") (str push.repo) (worktree_field push.worktree_root))))

    flags : Push → Fields
    flags push = field (codes "parse_ok") (bool false) (
        field (codes "degraded") (bool false) (
          field (codes "diff_truncated") (bool false) (
            field (codes "findings") (arr nil) (
              field (codes "findings_total") (int (pos 0)) (
                field (codes "summary") (str []) (
                  field (codes "failure_reason") null
                    (field (codes "usable_output") (bool false) (owned push))))))))

abbrev pub unless_bound : Json → Fields → Option Json → Fields
unless_bound id rec none = set (codes "request_id") id rec
unless_bound id rec (some v) = rec

-- `bind_review` outside of a request: the reservation is the request's identity.
unfoldable pub bind_prepush : Json → Fields → Fields
unfolding get get_or_null set text_eq
bind_prepush id rec =
    if is_text (get_or_null (codes "mode") rec) prepush_mode
    then unless_bound id rec (get (codes "request_id") rec)
    else rec

abbrev pub retired_of : Row → Retired
retired_of r = record { id = r.id; pid = r.pid }

module _ (py : Python) where
  -- The lease: the older runs of the branch are retired, and the new row is written.
  unfoldable pub lease : Text → Json → Push → List Row → Result (List Row × List Retired)
  unfolding normalize_record reserved_record bind_prepush review_values upsert update_where keep
  lease now at push rows = do
    let older = is_leased push.repo push.branch
    rec ← normalize_record py now (reserved_record at push)
    ok (
      upsert (review_values (str push.record_id) (bind_prepush (str push.record_id) rec))
          (update_where older (supersede_row push.record_id) rows),
      map retired_of (keep older rows),
    )

abbrev pub leased : List DedupEvent → Push → List Row × List Retired → Reserved
leased events push (rows, retired) = record {
  rows = rows;
  dedup_events = events;
  reservation = reserved push.record_id retired;
}

-- The row of `dedup_events` that a suppression leaves.
abbrev pub dedup_event : Json → Push → Json → DedupEvent
dedup_event at push id = record {
  at = at;
  branch = push.branch;
  diff_hash = push.diff_hash;
  matched_review_id = id;
}

module _ (py : Python) (values : Values) where
  abbrev pub decided :
      Text → Json → Push → List Row → List DedupEvent → Option Json → Result Reserved
  decided now at push rows events none = do
    both ← lease py now at push rows
    ok (leased events push both)
  decided now at push rows events (some id) = ok (record {
    rows = rows;
    dedup_events = events ++ dedup_event at push id ∷ [];
    reservation = suppressed_by id;
  })

  -- `at` is the caller's time or the clock's, and `now` the clock's.
  unfoldable pub reserve_prepush :
      Text → Json → Push → DedupEvidence → List Row → List DedupEvent → Result Reserved
  unfolding require_ts suppression_candidate lease
  reserve_prepush now at push evidence rows events = do
    at' ← require_ts py at
    matched ← suppression_candidate values push.diff_hash push.base_sha evidence rows
    decided now at' push rows events matched
