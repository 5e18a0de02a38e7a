-- ===== src/Reviews/Publish.antt =====
-- `save_review`, `finalize_review` and `mark_cancelled` of store.py: each is one transaction, and an
-- exception leaves the tables as they were.
use skodun.Prelude.{
  ℕ, Bool, true, false, not, ◌&&◌, Option, none, some, List, [], ◌∷◌, ◌++◌, ◌==◌, is_empty, any,
  count_if, length, leb, if◌then◌else◌,
}
use skodun.Prelude.Text.{Text, codes, text_eq, contains}
use skodun.Prelude.Int.{pos}
use skodun.Json.{Json, null, int, str, Fields, get, get_or_null, truthy, is_true}
use skodun.Textnorm.{Python}
use skodun.Triage.Result.{Result, ok, err, value_error, unexpected, ◌>>=◌, ◌>>◌, require}
use skodun.Gate.Decide.{is_text}
use skodun.Reviews.Record.{normalize_record, is_over, set}
use skodun.Reviews.Table.{
  Row, review_values, update_where, find_row, is_running, is_running_at, is_trusted_at, cancel_row,
  upsert,
}
use skodun.Reviews.Reserve.{bind_prepush}
use skodun.Reviews.Lineage.{LineageRow, write_lineage}
use skodun.Reviews.Finalize.{
  Orchestration, OrchestrationState, consumed, failed, Tables, update_orchestrations,
  finish_cancellations, same_identity, Batch, batch_of, merge_owned, apply_batch,
}

-- A row of `request_links`.
pub record Link : Type 0 where
  pub request_id : Text
  pub kind : Text
  pub target_id : Text

-- The request that the caller runs for, as `bind_review` reads it.
pub record Request : Type 0 where
  pub id : Text
  pub execution_seq : Option ℕ

-- The store: the tables, the lineage of findings and the links of requests.
pub record Store : Type 0 where
  pub tables : Tables
  pub lineage : List LineageRow
  pub links : List Link

abbrev is_limited_text : Text → Bool
is_limited_text s = not (is_empty s) && leb (length s) 4096

abbrev is_link : Text → Text → Text → Link → Bool
is_link request kind target l =
    text_eq l.request_id request && text_eq l.kind kind && text_eq l.target_id target

-- `link_request`, for the kinds that `bind_review` names; a link that is there is left alone.
unfoldable pub link_request : Text → Text → Json → List Link → Result (List Link)
unfolding any text_eq
link_request request kind (str target) links = do
  require (is_limited_text request && is_limited_text target) value_error
  ok (
      if any (is_link request kind target) links
      then links
      else links ++ (record { request_id = request; kind = kind; target_id = target }) ∷ [])
link_request request kind _ links = err value_error

abbrev pub link_if : Text → Text → Json → List Link → Result (List Link)
link_if request kind target links =
    if truthy target then link_request request kind target links else ok links

abbrev pub with_sequence : Option ℕ → Fields → Fields
with_sequence none rec = rec
with_sequence (some n) rec = set (codes "request_execution_seq") (int (pos n)) rec

-- The record under its request.
abbrev pub bound_by : Request → Fields → Fields
bound_by ctx rec = with_sequence ctx.execution_seq (set (codes "request_id") (str ctx.id) rec)

-- `bind_review`: the record as it is written, and the links.
unfoldable pub bind_review :
    Option Request → Json → Fields → List Link → Result (Fields × List Link)
unfolding bind_prepush set link_request get_or_null
bind_review none id rec links = ok (bind_prepush id rec, links)
bind_review (some ctx) id rec links = do
  reviewed ← link_if ctx.id (codes "review") id links
  recovered ←
      link_if ctx.id (codes "recovery_orchestration")
        (get_or_null (codes "orchestration_id") (bound_by ctx rec)) reviewed
  batched ←
      link_if ctx.id (codes "batch_orchestration")
        (get_or_null (codes "batch_orchestration_id") (bound_by ctx rec)) recovered
  ok (bound_by ctx rec, batched)

-- `rec["id"]`
abbrev pub id_of : Option Json → Result Json
id_of none = err (unexpected (codes "KeyError"))
id_of (some id) = ok id

abbrev text_of : Json → Text
text_of (str s) = s
text_of _ = []

-- An optional callback that completes a finished record, and may raise.
abbrev pub Annotator : Type 0
Annotator = Option (Store → Fields → Result Fields)

-- `_FINALIZE_REVIEW`
abbrev pub with_final : Text → Fields → Tables → Tables
with_final record_id final tables = record tables {
  reviews = update_where (is_running_at record_id) (λ r. review_values r.id final) tables.reviews;
}

module _ (py : Python) where
  -- `str(rec.get('failure_reason') or '')`
  abbrev reason_text : Json → Text
  reason_text (str s) = s
  reason_text v = if truthy v then py.to_str v else []

  -- `cancellation_completion`
  unfoldable pub cancellation_completion : Fields → Text
  unfolding get_or_null contains
  cancellation_completion rec =
      if is_true (get_or_null (codes "trustworthy") rec)
      then codes "completed_before_cancel"
      else if contains (codes "cancel")
          (py.lower (reason_text (get_or_null (codes "failure_reason") rec)))
      then codes "cancelled"
      else codes "failed_after_cancel"

  -- What a finished record closes: the cancellations of its id.
  abbrev pub close_cancellations : Text → Text → Fields → Tables → Tables
  close_cancellations now id rec tables = record tables {
    cancellations = finish_cancellations id (cancellation_completion rec) now tables.cancellations;
  }

  abbrev pub closed_if_over : Text → Json → Fields → Tables → Tables
  closed_if_over now id rec tables =
      if is_over rec then close_cancellations now (text_of id) rec tables else tables

  -- `_write_review`
  unfoldable pub write_review : Text → Option Request → Fields → Store → Result Store
  unfolding get bind_review review_values upsert finish_cancellations cancellation_completion
      write_lineage
  write_review now ctx rec store = do
    id ← id_of (get (codes "id") rec)
    both ← bind_review ctx id rec store.links
    let written = record store.tables {
      reviews = upsert (review_values id both.0) store.tables.reviews;
    }
    ok (record {
      tables = closed_if_over now id both.0 written;
      lineage = write_lineage now both.0 store.lineage;
      links = both.1;
    })

  abbrev pub annotated : Annotator → Text → Store → Fields → Result Fields
  annotated none now store rec = ok rec
  annotated (some annotate) now store rec = annotate store rec >>= normalize_record py now

  unfoldable pub save_review : Annotator → Text → Option Request → Fields → Store → Result Store
  unfolding normalize_record write_review get_or_null
  save_review annotate now ctx rec store = do
    normalized ← normalize_record py now rec
    final ← if is_over normalized then annotated annotate now store normalized else ok normalized
    write_review now ctx final store

  -- What follows the update, with whether it changed a row.
  abbrev pub published :
      Text → Text → Batch → Fields → Store → Tables → Bool → Result (Store × Bool)
  published now record_id batch final store written false =
      ok (record store { tables = written }, false)
  published now record_id batch final store written true = do
    after ← apply_batch record_id now batch written
    ok (
      record store {
        tables = close_cancellations now record_id final after;
        lineage = write_lineage now final store.lineage;
      },
      true,
    )

  unfoldable pub publish : Text → Text → Batch → Fields → Store → Result (Store × Bool)
  unfolding update_where review_values count_if finish_cancellations cancellation_completion
      write_lineage
  publish now record_id batch final store =
      published now record_id batch final store (with_final record_id final store.tables)
        (count_if (is_running_at record_id) store.tables.reviews == 1)

  unfoldable pub finish_row : Annotator → Text → Text → Fields → Row → Store → Result (Store × Bool)
  unfolding normalize_record merge_owned batch_of publish
  finish_row annotate now record_id rec row store = do
    merged ← normalize_record py now (merge_owned row rec)
    batch ← batch_of merged store.tables
    final ← annotated annotate now store merged
    publish now record_id batch final store

  abbrev pub finalize_found :
      Annotator → Text → Text → Fields → Store → Option Row → Result (Store × Bool)
  finalize_found annotate now record_id rec store none = ok (store, false)
  finalize_found annotate now record_id rec store (some row) = do
    require (same_identity rec row) value_error
    if is_running row then finish_row annotate now record_id rec row store else ok (store, false)

  unfoldable pub finalize_review : Annotator → Text → Text → Fields → Store → Result (Store × Bool)
  unfolding find_row get_or_null text_eq finish_row
  finalize_review annotate now record_id rec store = do
    require (not (is_empty record_id)) value_error
    require (is_text (get_or_null (codes "id") rec) record_id) value_error
    finalize_found annotate now record_id rec store (find_row record_id store.tables.reviews)

abbrev names_review : Text → Option Text → Bool
names_review id none = false
names_review id (some r) = text_eq r id

abbrev is_consumed : OrchestrationState → Bool
is_consumed consumed = true
is_consumed _ = false

-- The orchestration that the demoted review had consumed.
abbrev is_spent_by : Json → Text → Orchestration → Bool
is_spent_by oid id o = is_text oid o.id && is_consumed o.state && names_review id o.final_review_id

abbrev orchestration_of : Option Row → Json
orchestration_of none = null
orchestration_of (some r) = get_or_null (codes "batch_orchestration_id") r.artifact

-- `mark_cancelled`
unfoldable pub mark_cancelled : Text → Text → Text → Tables → Tables × Bool
unfolding update_where cancel_row find_row count_if update_orchestrations get_or_null text_eq
mark_cancelled now id reason tables =
    if count_if (is_trusted_at id) tables.reviews == 1
    then (
      record demoted {
        orchestrations =
            if truthy oid
            then update_orchestrations (is_spent_by oid id)
                (λ o. record o {
                  state = failed;
                  final_review_id = none;
                  updated_at = now;
                  terminal_reason = some reason;
                })
                tables.orchestrations
            else tables.orchestrations;
      },
      true,
    )
    else (demoted, false)
  where
    demoted : Tables
    demoted = record tables {
      reviews = update_where (is_trusted_at id) (cancel_row reason) tables.reviews;
    }

    oid : Json
    oid = orchestration_of (find_row id demoted.reviews)
