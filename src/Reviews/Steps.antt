-- ===== src/Reviews/Steps.antt =====
-- The table `reviews` under any interleaving of dispatchers, workers and janitors. Each operation is one
-- transaction, so a history is a sequence of their effects.
use skodun.Prelude.{◌≡◌, Bool, true, false, List, [], Option, count_if}
use skodun.Prelude.Text.{Text, codes}
use skodun.Json.{Json, bool, Fields, get_default, get_or_null}
use skodun.Textnorm.{Python}
use skodun.Triage.Result.{ok}
use skodun.Gate.Decide.{is_text}
use skodun.Reviews.Record.{is_over, prepush_mode}
use skodun.Reviews.Table.{Row, has_id, mark_failed, fail_if_running, attach_pid}
use skodun.Reviews.Policy.{Values}
use skodun.Reviews.Evidence.{DedupEvidence}
use skodun.Reviews.Reserve.{Push, DedupEvent, Reserved, reserve_prepush}
use skodun.Reviews.Finalize.{Tables}
use skodun.Reviews.Publish.{Store, Annotator, Request, finalize_review, save_review, mark_cancelled}

-- A record in flight that the foreground saves: it has no answer yet, and is no reserved push.
pub record IsStart (rec : Fields) : Type 0 where
  pub unanswered : get_default (codes "parse_ok") (bool false) rec ≡ bool false
  pub foreground : is_text (get_or_null (codes "mode") rec) prepush_mode ≡ false

module _ (py : Python) (values : Values) (annotate : Annotator) where
  -- The background flow: a push is reserved under a new id, its worker's process is attached, the worker
  -- finishes it with a record that is over, or a janitor fails it.
  pub data Work (rows : List Row) : List Row → Type 0 where
    reserve :
        (now : Text) (at : Json) (push : Push) (evidence : DedupEvidence) (events : List DedupEvent)
        (done : Reserved)
        → count_if (has_id push.record_id) rows ≡ 0
        → reserve_prepush py values now at push evidence rows events ≡ ok done
        → Work rows done.rows
    attach :
        (id : Text) (pid : Json) (applied : Bool) {rows' : List Row}
        → attach_pid id pid rows ≡ ok (rows', applied)
        → Work rows rows'
    finalize :
        (now id : Text) (rec : Fields) (store store' : Store) (applied : Bool)
        → store.tables.reviews ≡ rows
        → is_over rec ≡ true
        → finalize_review py annotate now id rec store ≡ ok (store', applied)
        → Work rows store'.tables.reviews
    janitor : (id reason : Text) → Work rows (fail_if_running id reason rows).0

  -- Beside it the foreground, which saves and fails its own record, and the late cancellation.
  pub data Step (rows : List Row) : List Row → Type 0 where
    work : {rows' : List Row} → Work rows rows' → Step rows rows'
    fail : (id reason : Text) → Step rows (mark_failed id reason rows).0
    cancel :
        (now id reason : Text) (tables : Tables)
        → tables.reviews ≡ rows
        → Step rows (mark_cancelled now id reason tables).0.reviews
    save :
        (now : Text) (ctx : Option Request) (rec : Fields) (store store' : Store)
        → store.tables.reviews ≡ rows
        → (is_over rec ≡ false → IsStart rec)
        → save_review py annotate now ctx rec store ≡ ok store'
        → Step rows store'.tables.reviews

  pub data Works (rows : List Row) : List Row → Type 0 where
    here : Works rows rows
    next : {mid rows' : List Row} → Works rows mid → Work mid rows' → Works rows rows'

  -- The tables that a history from the empty one leads to.
  pub data Reach : List Row → Type 0 where
    empty : Reach []
    step : {rows rows' : List Row} → Reach rows → Step rows rows' → Reach rows'
