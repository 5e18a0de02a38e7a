-- ===== src/Reviews/Table.antt =====
-- The tables of store.py that a review's life touches, and the single statements on `reviews`.
use skodun.Prelude.{
  Bool, true, false, not, ◌&&◌, Option, none, some, List, [], ◌∷◌, if◌then◌else◌, count_if, ◌==◌,
}
use skodun.Prelude.Text.{Text, codes, text_eq}
use skodun.Prelude.Int.{pos}
use skodun.Json.{Json, null, bool, int, str, Fields, get_or_null, get_default, truthy}
use skodun.Triage.Result.{Result, ok, value_error, ◌>>◌, require}
use skodun.Gate.Decide.{is_text}
use skodun.Reviews.Record.{set, running, prepush_mode, skodun_source}

-- One row of `reviews`: the columns that a query of this life reads, and the stored object.
pub record Row : Type 0 where
  pub id : Json
  pub reviewed_at : Json
  pub branch : Json
  pub head : Json
  pub base_ref : Json
  pub base_sha : Json
  pub diff_hash : Json
  pub mode : Json
  pub status : Json
  pub parse_ok : Bool
  pub degraded : Bool
  pub diff_truncated : Bool
  pub trustworthy : Bool
  pub source : Json
  pub worst_runtime_sec : Json
  pub pid : Json
  pub superseded_by : Json
  pub repo : Json
  pub artifact : Fields

-- `_opt_positive_int`
unfoldable pub opt_positive_int : Json → Json
opt_positive_int (int (pos n)) = if n == 0 then null else int (pos n)
opt_positive_int _ = null

-- `_review_values`, with the id that the statement binds beside them.
unfoldable pub review_values : Json → Fields → Row
unfolding get_or_null get_default opt_positive_int
review_values id rec = record {
  id = id;
  reviewed_at = get_or_null (codes "reviewed_at") rec;
  branch = get_or_null (codes "branch") rec;
  head = get_or_null (codes "head") rec;
  base_ref = get_or_null (codes "base_ref") rec;
  base_sha = get_or_null (codes "base_sha") rec;
  diff_hash = get_or_null (codes "diff_hash") rec;
  mode = get_or_null (codes "mode") rec;
  status = get_or_null (codes "status") rec;
  parse_ok = truthy (get_or_null (codes "parse_ok") rec);
  degraded = truthy (get_or_null (codes "degraded") rec);
  diff_truncated = truthy (get_or_null (codes "diff_truncated") rec);
  trustworthy = truthy (get_or_null (codes "trustworthy") rec);
  source = get_default (codes "source") (str skodun_source) rec;
  worst_runtime_sec = opt_positive_int (get_or_null (codes "worst_runtime_sec") rec);
  pid = opt_positive_int (get_or_null (codes "pid") rec);
  superseded_by = get_or_null (codes "superseded_by") rec;
  repo = get_or_null (codes "repo") rec;
  artifact = rec;
}

-- `UPDATE reviews SET … WHERE …`
unfoldable pub update_where : (Row → Bool) → (Row → Row) → List Row → List Row
update_where p f [] = []
update_where p f (r ∷ rows) =
    let rest = update_where p f rows in if p r then f r ∷ rest else r ∷ rest

-- `WHERE id=?`
abbrev pub has_id : Text → Row → Bool
has_id id r = is_text r.id id

abbrev pub is_running : Row → Bool
is_running r = is_text r.status running

-- `id=? AND status='running'`
abbrev pub is_running_at : Text → Row → Bool
is_running_at id r = has_id id r && is_running r

abbrev pub is_leased : Text → Text → Row → Bool
is_leased repo branch r =
    is_text r.repo repo && is_text r.branch branch && is_text r.mode prepush_mode && is_running r

-- The row that `SELECT … WHERE id=?` fetches.
unfoldable pub find_row : Text → List Row → Option Row
unfolding text_eq
find_row id [] = none
find_row id (r ∷ rows) = let rest = find_row id rows in if has_id id r then some r else rest

-- The conflict of the primary key: two texts that are equal.
abbrev pub same_id : Json → Row → Bool
same_id (str id) r = has_id id r
same_id _ r = false

-- `_INSERT_REVIEW`: a row of the same id is overwritten in its place.
unfoldable pub upsert : Row → List Row → List Row
upsert new [] = new ∷ []
upsert new (r ∷ rows) =
    let rest = upsert new rows in if same_id new.id r then new ∷ rows else r ∷ rest

-- `_FAIL_REVIEW`
unfoldable pub fail_row : Text → Row → Row
unfolding set
fail_row reason r = record r {
  status = str (codes "failed");
  parse_ok = false;
  trustworthy = false;
  artifact = set (codes "trustworthy") (bool false) (
      set (codes "parse_ok") (bool false) (
        set (codes "failure_reason") (str reason)
          (set (codes "status") (str (codes "failed")) r.artifact)));
}

-- `mark_failed`
unfoldable pub mark_failed : Text → Text → List Row → List Row × Bool
unfolding update_where fail_row
mark_failed id reason rows =
    (update_where (has_id id) (fail_row reason) rows, count_if (has_id id) rows == 1)

-- `fail_if_running`
unfoldable pub fail_if_running : Text → Text → List Row → List Row × Bool
unfolding update_where fail_row
fail_if_running id reason rows =
    (update_where (is_running_at id) (fail_row reason) rows, count_if (is_running_at id) rows == 1)

-- The row that `mark_cancelled` demotes.
unfoldable pub cancel_row : Text → Row → Row
unfolding set
cancel_row reason r = record r {
  status = str (codes "failed");
  degraded = true;
  trustworthy = false;
  artifact = set (codes "trustworthy") (bool false) (
      set (codes "failure_reason") (str reason) (
        set (codes "degraded_reason") (str reason) (
          set (codes "degraded") (bool true)
            (set (codes "status") (str (codes "failed")) r.artifact))));
}

-- `id=? AND trustworthy=1`
abbrev pub is_trusted_at : Text → Row → Bool
is_trusted_at id r = has_id id r && r.trustworthy

abbrev is_positive : Json → Bool
is_positive (int (pos n)) = not (n == 0)
is_positive _ = false

abbrev is_unset : Json → Bool
is_unset null = true
is_unset _ = false

-- `id=? AND status='running' AND pid IS NULL`
abbrev pub is_pidless_at : Text → Row → Bool
is_pidless_at id r = is_running_at id r && is_unset r.pid

unfoldable pub pid_row : Json → Row → Row
unfolding set
pid_row pid r = record r { pid = pid; artifact = set (codes "pid") pid r.artifact }

-- `attach_pid`
unfoldable pub attach_pid : Text → Json → List Row → Result (List Row × Bool)
unfolding update_where pid_row
attach_pid id pid rows = do
  require (is_positive pid) value_error
  ok (update_where (is_pidless_at id) (pid_row pid) rows, count_if (is_pidless_at id) rows == 1)

-- The retired row of a reservation.
unfoldable pub supersede_row : Text → Row → Row
unfolding set
supersede_row by r = record r {
  status = str (codes "superseded");
  superseded_by = str by;
  artifact =
      set (codes "superseded_by") (str by)
        (set (codes "status") (str (codes "superseded")) r.artifact);
}
