-- ===== src/Reviews/Agreement.antt =====
-- The columns of a row of `reviews` repeat its stored object, and its verdict is the one its axes imply.
use skodun.Prelude.{◌≡◌, refl, ◌∙◌, Bool, true, false, not, ◌&&◌, arith, if◌then◌else◌}
use skodun.Prelude.Text.{Text, codes, text_eq}
use skodun.Json.{Json, bool, str, Fields, get_or_null}
use skodun.Reviews.Table.{Row, review_values, fail_row, cancel_row, pid_row, supersede_row}
use skodun.Reviews.Keys.{get_or_null-set_if}

-- What a record holds once it is normalised.
pub record HasVerdict (rec : Fields) : Type 0 where
  pub parsed : Bool
  pub degrades : Bool
  pub truncates : Bool
  pub parse_ok : get_or_null (codes "parse_ok") rec ≡ bool parsed
  pub degraded : get_or_null (codes "degraded") rec ≡ bool degrades
  pub diff_truncated : get_or_null (codes "diff_truncated") rec ≡ bool truncates
  pub trustworthy :
      get_or_null (codes "trustworthy") rec ≡ bool (parsed && not degrades && not truncates)

-- A row against its own stored object.
pub record IsConsistent (r : Row) : Type 0 where
  pub id : get_or_null (codes "id") r.artifact ≡ r.id
  pub status : get_or_null (codes "status") r.artifact ≡ r.status
  pub branch : get_or_null (codes "branch") r.artifact ≡ r.branch
  pub base_sha : get_or_null (codes "base_sha") r.artifact ≡ r.base_sha
  pub diff_hash : get_or_null (codes "diff_hash") r.artifact ≡ r.diff_hash
  pub mode : get_or_null (codes "mode") r.artifact ≡ r.mode
  pub parse_ok : get_or_null (codes "parse_ok") r.artifact ≡ bool r.parse_ok
  pub degraded : get_or_null (codes "degraded") r.artifact ≡ bool r.degraded
  pub diff_truncated : get_or_null (codes "diff_truncated") r.artifact ≡ bool r.diff_truncated
  pub trustworthy : get_or_null (codes "trustworthy") r.artifact ≡ bool r.trustworthy
  pub verdict : r.trustworthy ≡ (r.parse_ok && not r.degraded && not r.diff_truncated)

pub review_values-IsConsistent :
    (id : Json) (rec : Fields)
    → get_or_null (codes "id") rec ≡ id
    → HasVerdict rec
    → IsConsistent (review_values id rec)
unfolding review_values
review_values-IsConsistent id rec same v =
    rw (v.parse_ok, v.degraded, v.diff_truncated, v.trustworthy)
      record {
        id = same;
        status = refl;
        branch = refl;
        base_sha = refl;
        diff_hash = refl;
        mode = refl;
        parse_ok = v.parse_ok;
        degraded = v.degraded;
        diff_truncated = v.diff_truncated;
        trustworthy = v.trustworthy;
        verdict = refl;
      }

-- What the object of a failed row reads as.
failed_value :
    (k reason : Text) (r : Row)
    → get_or_null k (fail_row reason r).artifact ≡ (
        if text_eq (codes "trustworthy") k
        then bool false
        else if text_eq (codes "parse_ok") k
        then bool false
        else if text_eq (codes "failure_reason") k
        then str reason
        else if text_eq (codes "status") k
        then str (codes "failed")
        else get_or_null k r.artifact)
unfolding fail_row
failed_value k reason r =
    rw
      (
        get_or_null-set_if (codes "trustworthy") k (bool false) _,
        get_or_null-set_if (codes "parse_ok") k (bool false) _,
        get_or_null-set_if (codes "failure_reason") k (str reason) _,
        get_or_null-set_if (codes "status") k (str (codes "failed")) r.artifact,
      )
      refl

pub fail_row-IsConsistent :
    (reason : Text) (r : Row) → IsConsistent r → IsConsistent (fail_row reason r)
unfolding text_eq
fail_row-IsConsistent reason r c =
    unfold fail_row in
    record {
      id = failed_value (codes "id") reason r ∙ c.id;
      status = failed_value (codes "status") reason r;
      branch = failed_value (codes "branch") reason r ∙ c.branch;
      base_sha = failed_value (codes "base_sha") reason r ∙ c.base_sha;
      diff_hash = failed_value (codes "diff_hash") reason r ∙ c.diff_hash;
      mode = failed_value (codes "mode") reason r ∙ c.mode;
      parse_ok = failed_value (codes "parse_ok") reason r;
      degraded = failed_value (codes "degraded") reason r ∙ c.degraded;
      diff_truncated = failed_value (codes "diff_truncated") reason r ∙ c.diff_truncated;
      trustworthy = failed_value (codes "trustworthy") reason r;
      verdict = refl;
    }

cancelled_value :
    (k reason : Text) (r : Row)
    → get_or_null k (cancel_row reason r).artifact ≡ (
        if text_eq (codes "trustworthy") k
        then bool false
        else if text_eq (codes "failure_reason") k
        then str reason
        else if text_eq (codes "degraded_reason") k
        then str reason
        else if text_eq (codes "degraded") k
        then bool true
        else if text_eq (codes "status") k
        then str (codes "failed")
        else get_or_null k r.artifact)
unfolding cancel_row
cancelled_value k reason r =
    rw
      (
        get_or_null-set_if (codes "trustworthy") k (bool false) _,
        get_or_null-set_if (codes "failure_reason") k (str reason) _,
        get_or_null-set_if (codes "degraded_reason") k (str reason) _,
        get_or_null-set_if (codes "degraded") k (bool true) _,
        get_or_null-set_if (codes "status") k (str (codes "failed")) r.artifact,
      )
      refl

never_degraded : (p t : Bool) → false ≡ (p && not true && not t)
never_degraded p t = ground arith

pub cancel_row-IsConsistent :
    (reason : Text) (r : Row) → IsConsistent r → IsConsistent (cancel_row reason r)
unfolding text_eq
cancel_row-IsConsistent reason r c =
    unfold cancel_row in
    record {
      id = cancelled_value (codes "id") reason r ∙ c.id;
      status = cancelled_value (codes "status") reason r;
      branch = cancelled_value (codes "branch") reason r ∙ c.branch;
      base_sha = cancelled_value (codes "base_sha") reason r ∙ c.base_sha;
      diff_hash = cancelled_value (codes "diff_hash") reason r ∙ c.diff_hash;
      mode = cancelled_value (codes "mode") reason r ∙ c.mode;
      parse_ok = cancelled_value (codes "parse_ok") reason r ∙ c.parse_ok;
      degraded = cancelled_value (codes "degraded") reason r;
      diff_truncated = cancelled_value (codes "diff_truncated") reason r ∙ c.diff_truncated;
      trustworthy = cancelled_value (codes "trustworthy") reason r;
      verdict = never_degraded r.parse_ok r.diff_truncated;
    }

superseded_value :
    (k by : Text) (r : Row)
    → get_or_null k (supersede_row by r).artifact ≡ (
        if text_eq (codes "superseded_by") k
        then str by
        else if text_eq (codes "status") k
        then str (codes "superseded")
        else get_or_null k r.artifact)
unfolding supersede_row
superseded_value k by r =
    rw
      (
        get_or_null-set_if (codes "superseded_by") k (str by) _,
        get_or_null-set_if (codes "status") k (str (codes "superseded")) r.artifact,
      )
      refl

pub supersede_row-IsConsistent :
    (by : Text) (r : Row) → IsConsistent r → IsConsistent (supersede_row by r)
unfolding text_eq
supersede_row-IsConsistent by r c =
    unfold supersede_row in
    record {
      id = superseded_value (codes "id") by r ∙ c.id;
      status = superseded_value (codes "status") by r;
      branch = superseded_value (codes "branch") by r ∙ c.branch;
      base_sha = superseded_value (codes "base_sha") by r ∙ c.base_sha;
      diff_hash = superseded_value (codes "diff_hash") by r ∙ c.diff_hash;
      mode = superseded_value (codes "mode") by r ∙ c.mode;
      parse_ok = superseded_value (codes "parse_ok") by r ∙ c.parse_ok;
      degraded = superseded_value (codes "degraded") by r ∙ c.degraded;
      diff_truncated = superseded_value (codes "diff_truncated") by r ∙ c.diff_truncated;
      trustworthy = superseded_value (codes "trustworthy") by r ∙ c.trustworthy;
      verdict = c.verdict;
    }

pub pid_row-IsConsistent : (pid : Json) (r : Row) → IsConsistent r → IsConsistent (pid_row pid r)
unfolding text_eq
pid_row-IsConsistent pid r c =
    unfold pid_row in
    record {
      id = get_or_null-set_if (codes "pid") (codes "id") pid r.artifact ∙ c.id;
      status = get_or_null-set_if (codes "pid") (codes "status") pid r.artifact ∙ c.status;
      branch = get_or_null-set_if (codes "pid") (codes "branch") pid r.artifact ∙ c.branch;
      base_sha = get_or_null-set_if (codes "pid") (codes "base_sha") pid r.artifact ∙ c.base_sha;
      diff_hash = get_or_null-set_if (codes "pid") (codes "diff_hash") pid r.artifact ∙ c.diff_hash;
      mode = get_or_null-set_if (codes "pid") (codes "mode") pid r.artifact ∙ c.mode;
      parse_ok = get_or_null-set_if (codes "pid") (codes "parse_ok") pid r.artifact ∙ c.parse_ok;
      degraded = get_or_null-set_if (codes "pid") (codes "degraded") pid r.artifact ∙ c.degraded;
      diff_truncated =
          get_or_null-set_if (codes "pid") (codes "diff_truncated") pid r.artifact
          ∙ c.diff_truncated;
      trustworthy =
          get_or_null-set_if (codes "pid") (codes "trustworthy") pid r.artifact ∙ c.trustworthy;
      verdict = c.verdict;
    }
