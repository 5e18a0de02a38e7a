-- ===== src/Reviews/Record.antt =====
-- `_normalize_record` of store.py: what every record passes before it is stored.
use skodun.Prelude.{Bool, true, false, not, ◌&&◌, Option, none, some, is_empty, if◌then◌else◌}
use skodun.Prelude.Text.{Text, codes, text_eq}
use skodun.Prelude.Int.{pos}
use skodun.Json.{
  Json, null, bool, int, str, Fields, end, field, get, get_or_null, get_default, truthy, is_bool,
}
use skodun.Textnorm.{Python, strip}
use skodun.Trust.{is_trustworthy}
use skodun.Triage.Result.{Result, ok, err, value_error, ◌>>◌, ◌>>=◌, require}
use skodun.Triage.Doors.{require_text, require_ts, is_canonical_ts}
use skodun.Gate.Decide.{is_text}

-- `d[key] = value`, and `json_set` of one key of the stored object.
unfoldable pub set : Text → Json → Fields → Fields
unfolding text_eq
set key v end = field key v end
set key v (field k w fs) =
    let rest = set key v fs in if text_eq k key then field k v fs else field k w rest

abbrev pub running : Text
running = codes "running"

abbrev pub prepush_mode : Text
prepush_mode = codes "prepush"

abbrev pub skodun_source : Text
skodun_source = codes "skodun"

abbrev pub is_null : Json → Bool
is_null null = true
is_null _ = false

-- `rec.get("status") != RUNNING`
abbrev pub is_over : Fields → Bool
is_over rec = not (is_text (get_or_null (codes "status") rec) running)

abbrev pub requires_usable_output : Fields → Bool
requires_usable_output rec =
    is_text (get_or_null (codes "source") rec) skodun_source
    && is_text (get_or_null (codes "mode") rec) prepush_mode

abbrev pub as_bool : Json → Result Bool
as_bool (bool b) = ok b
as_bool _ = err value_error

-- `_require_text` of a value of any type.
abbrev pub text_value : Json → Result Text
text_value (str s) = require_text s
text_value _ = err value_error

-- The three axes are exact Booleans, and the verdict is computed from them.
unfoldable pub normalize_axes : Fields → Result Fields
unfolding set get_default is_trustworthy
normalize_axes rec = do
  parse_ok ← as_bool (get_default (codes "parse_ok") (bool false) rec)
  degraded ← as_bool (get_default (codes "degraded") (bool false) rec)
  diff_truncated ← as_bool (get_default (codes "diff_truncated") (bool false) rec)
  ok (
      set (codes "trustworthy")
        (bool (is_trustworthy (bool parse_ok) (bool degraded) (bool diff_truncated)))
        (set (codes "diff_truncated") (bool diff_truncated)
          (set (codes "degraded") (bool degraded) (set (codes "parse_ok") (bool parse_ok) rec))))

abbrev pub usable_or : Bool → Option Json → Bool
usable_or required none = not required
usable_or required (some v) = is_bool v

unfoldable pub check_usable_output : Fields → Result Fields
unfolding get get_or_null text_eq
check_usable_output rec = do
  require (usable_or (requires_usable_output rec) (get (codes "usable_output") rec)) value_error
  ok rec

-- A key whose value, unless it is `None`, is a text that is no white space; it is stored stripped.
abbrev pub optional_text : Text → Fields → Json → Result Fields
optional_text key rec null = ok rec
optional_text key rec v = do s ← text_value v; ok (set key (str s) rec)

unfoldable pub normalize_text : Text → Fields → Result Fields
unfolding set get_or_null require_text
normalize_text key rec = optional_text key rec (get_or_null key rec)

unfoldable pub default_repo_id : Fields → Fields
unfolding set get_or_null
default_repo_id rec =
    if is_null (get_or_null (codes "repo_id") rec) && not (is_null (get_or_null (codes "repo") rec))
    then set (codes "repo_id") (get_or_null (codes "repo") rec) rec
    else rec

abbrev pub is_ordinal : Json → Bool
is_ordinal null = true
is_ordinal (int (pos n)) = true
is_ordinal _ = false

unfoldable pub check_ordinal : Fields → Result Fields
unfolding get_or_null
check_ordinal rec = do
  require (is_ordinal (get_or_null (codes "attempt_ordinal") rec)) value_error
  ok rec

-- `rec.get("failure_reason") or rec.get("stop_reason")`
abbrev pub reason_of : Fields → Json
reason_of rec =
    if truthy (get_or_null (codes "failure_reason") rec)
    then get_or_null (codes "failure_reason") rec
    else get_or_null (codes "stop_reason") rec

abbrev pub with_reason : Fields → Json → Fields
with_reason rec (str s) =
    if is_empty (strip s) then rec else set (codes "terminal_reason") (str (strip s)) rec
with_reason rec _ = rec

unfoldable pub default_reason : Fields → Fields
unfolding set get_or_null strip
default_reason rec =
    if is_null (get_or_null (codes "terminal_reason") rec) && is_over rec
    then with_reason rec (reason_of rec)
    else rec

abbrev pub with_outcome : Fields → Json → Fields
with_outcome rec (str s) = set (codes "outcome") (str s) rec
with_outcome rec _ = rec

unfoldable pub default_outcome : Fields → Fields
unfolding set get_or_null
default_outcome rec =
    if is_null (get_or_null (codes "outcome") rec) && is_over rec
    then with_outcome rec (get_or_null (codes "status") rec)
    else rec

-- `normalize_text` before the default: a text that is there is checked, and a missing one is derived.
unfoldable pub normalize_ending : Fields → Result Fields
unfolding normalize_text default_reason default_outcome
normalize_ending rec = do
  reasoned ← normalize_text (codes "terminal_reason") rec
  named ← normalize_text (codes "outcome") (default_reason reasoned)
  ok (default_outcome named)

module _ (py : Python) where
  abbrev pub timed : Text → Fields → Json → Result Fields
  timed key rec null = ok rec
  timed key rec v = do at ← require_ts py v; ok (set key at rec)

  unfoldable pub default_started : Fields → Fields
  unfolding set get_or_null is_canonical_ts
  default_started rec =
      if is_null (get_or_null (codes "review_started_at") rec)
        && is_canonical_ts py (get_or_null (codes "reviewed_at") rec)
      then set (codes "review_started_at") (get_or_null (codes "reviewed_at") rec) rec
      else rec

  unfoldable pub default_completed : Text → Fields → Fields
  unfolding set get_or_null
  default_completed now rec =
      if is_null (get_or_null (codes "review_completed_at") rec) && is_over rec
      then set (codes "review_completed_at") (str now) rec
      else rec

  unfoldable pub normalize_times : Text → Fields → Result Fields
  unfolding set get_or_null require_ts default_started default_completed
  normalize_times now rec = do
    started ← timed (codes "review_started_at") rec (get_or_null (codes "review_started_at") rec)
    completed ←
        timed (codes "review_completed_at") (default_started started)
          (get_or_null (codes "review_completed_at") (default_started started))
    ok (default_completed now completed)

  -- `_normalize_record`; `now` is `_iso_now()`.
  unfoldable pub normalize_record : Text → Fields → Result Fields
  unfolding normalize_axes check_usable_output normalize_times default_repo_id normalize_text
      check_ordinal normalize_ending
  normalize_record now rec = do
    judged ← normalize_axes rec
    checked ← check_usable_output judged
    dated ← normalize_times now checked
    repo_id ← normalize_text (codes "repo_id") (default_repo_id dated)
    worktree ← normalize_text (codes "worktree_root") repo_id
    orchestration ← normalize_text (codes "orchestration_id") worktree
    ordered ← check_ordinal orchestration
    normalize_ending ordered
