-- ===== src/Reviews/Finalize.antt =====
-- The worker's end of a review in store.py: `finalize_review`, `save_review` and the late cancellation.
use skodun.Prelude.{
  Bool, true, false, not, ◌&&◌, ◌||◌, Option, none, some, List, [], ◌∷◌, ◌==◌, is_none, count_if,
  if◌then◌else◌,
}
use skodun.Prelude.Text.{Text, codes, text_eq}
use skodun.Json.{Fields, get_or_null, is_true}
use skodun.Triage.Result.{Result, ok, err, value_error, ◌>>=◌, ◌>>◌, require}
use skodun.Gate.Decide.{is_text}
use skodun.Reviews.Record.{text_value, is_null, set}
use skodun.Reviews.Table.{Row}
use skodun.Reviews.Reserve.{same_key}

-- The states of `review_orchestrations`.
pub data OrchestrationState : Type 0 where
  active complete cancelled failed expired consumed : OrchestrationState

-- A row of `review_orchestrations`, as far as a review's end reads and writes it.
pub record Orchestration : Type 0 where
  pub id : Text
  pub state : OrchestrationState
  pub identity_digest : Text
  pub final_review_id : Option Text
  pub updated_at : Text
  pub terminal_reason : Option Text

-- A row of `review_checkpoints`: its orchestration, and whether its state is `complete`.
pub record Checkpoint : Type 0 where
  pub orchestration_id : Text
  pub is_complete : Bool

-- A row of `cancellation_audit`, as far as a review's end reads and writes it.
pub record Cancellation : Type 0 where
  pub target_id : Text
  pub request_id : Option Text
  pub outcome : Text
  pub completed_at : Option Text

pub record Tables : Type 0 where
  pub reviews : List Row
  pub orchestrations : List Orchestration
  pub checkpoints : List Checkpoint
  pub cancellations : List Cancellation

abbrev is_finalizable : OrchestrationState → Bool
is_finalizable expired = false
is_finalizable consumed = false
is_finalizable _ = true

-- What `_require_complete_orchestration` raises or not; only the last `ValueError` is told apart.
pub data Completeness : Type 0 where
  whole unfinished refused : Completeness

unfoldable pub find_orchestration : Text → List Orchestration → Option Orchestration
unfolding text_eq
find_orchestration id [] = none
find_orchestration id (o ∷ os) =
    let rest = find_orchestration id os in if text_eq o.id id then some o else rest

abbrev counted : Text → List Checkpoint → Completeness
counted id checkpoints =
    if count_if (λ c. text_eq c.orchestration_id id) checkpoints == 0
      || not (
          count_if (λ c. text_eq c.orchestration_id id && c.is_complete) checkpoints
          == count_if (λ c. text_eq c.orchestration_id id) checkpoints)
    then unfinished
    else whole

abbrev judged : Text → Text → List Checkpoint → Option Orchestration → Completeness
judged id digest checkpoints none = refused
judged id digest checkpoints (some o) =
    if text_eq o.identity_digest digest && is_finalizable o.state
    then counted id checkpoints
    else refused

-- `_require_complete_orchestration`
unfoldable pub completeness : Text → Text → Tables → Completeness
unfolding find_orchestration count_if text_eq
completeness id digest tables =
    judged id digest tables.checkpoints (find_orchestration id tables.orchestrations)

unfoldable pub update_orchestrations :
    (Orchestration → Bool)
    → (Orchestration → Orchestration)
    → List Orchestration
    → List Orchestration
update_orchestrations p f [] = []
update_orchestrations p f (o ∷ os) =
    let rest = update_orchestrations p f os in if p o then f o ∷ rest else o ∷ rest

abbrev is_open_at : Text → Orchestration → Bool
is_open_at id o = text_eq o.id id && is_finalizable o.state

-- `_consume_orchestration_in_transaction`
unfoldable pub consume_orchestration : Text → Text → Text → Tables → Result Tables
unfolding update_orchestrations count_if text_eq
consume_orchestration id review_id at tables = do
  require (count_if (is_open_at id) tables.orchestrations == 1) value_error
  ok (record tables {
    orchestrations =
        update_orchestrations (is_open_at id)
          (λ o. record o { state = consumed; final_review_id = some review_id; updated_at = at })
          tables.orchestrations;
  })

abbrev is_pending : Text → Cancellation → Bool
is_pending target c =
    text_eq c.target_id target
    && is_none c.request_id
    && (text_eq c.outcome (codes "requested") || text_eq c.outcome (codes "observed"))

-- `finish_cancellations` of control_store.py, by the target.
unfoldable pub finish_cancellations : Text → Text → Text → List Cancellation → List Cancellation
unfolding text_eq
finish_cancellations target outcome now [] = []
finish_cancellations target outcome now (c ∷ cs) =
    let rest = finish_cancellations target outcome now cs in
    if is_pending target c
    then record c { outcome = outcome; completed_at = some now } ∷ rest
    else c ∷ rest

-- The five reserved identity fields.
abbrev pub same_identity : Fields → Row → Bool
same_identity rec row =
    same_key (get_or_null (codes "branch") rec) row.branch
    && same_key (get_or_null (codes "head") rec) row.head
    && same_key (get_or_null (codes "base_ref") rec) row.base_ref
    && same_key (get_or_null (codes "base_sha") rec) row.base_sha
    && same_key (get_or_null (codes "diff_hash") rec) row.diff_hash

-- `orchestration_id`: none, or one whose set is whole, or one that a failed record leaves unfinished.
pub data Batch : Type 0 where
  no_batch unfinished_batch : Batch
  whole_batch : Text → Batch

abbrev is_failed_record : Fields → Bool
is_failed_record rec =
    is_text (get_or_null (codes "status") rec) (codes "failed")
    && is_true (get_or_null (codes "degraded") rec)

abbrev batch_from : Text → Bool → Completeness → Result Batch
batch_from id excused whole = ok (whole_batch id)
batch_from id excused unfinished = do require excused value_error; ok unfinished_batch
batch_from id excused refused = err value_error

unfoldable pub batch_of : Fields → Tables → Result Batch
unfolding completeness get_or_null text_eq
batch_of rec tables =
    if is_null (get_or_null (codes "batch_orchestration_id") rec) then ok no_batch else do
      id ← text_value (get_or_null (codes "batch_orchestration_id") rec)
      digest ← text_value (get_or_null (codes "batch_identity_digest") rec)
      batch_from id (is_failed_record rec) (completeness id digest tables)

-- The database-owned columns of the reservation.
unfoldable pub merge_owned : Row → Fields → Fields
unfolding set
merge_owned row rec = set (codes "superseded_by") row.superseded_by (set (codes "pid") row.pid rec)

abbrev pub apply_batch : Text → Text → Batch → Tables → Result Tables
apply_batch record_id now (whole_batch id) tables = consume_orchestration id record_id now tables
apply_batch record_id now _ tables = ok tables
