-- ===== src/Reviews/Fresh.antt =====
-- The row that a reservation of store.py writes.
use skodun.Prelude.{
  ℕ, ◌+◌, ◌≡◌, refl, ap, ◌∙◌, sym, inl, inr, Bool, true, false, not, ◌&&◌, Option, none, some, List,
  [], ◌∷◌, map, keep, arith, Bool-cases, Option-cases, if◌then◌else◌, All, Has, here, there,
  count_if,
}
use skodun.Prelude.Text.{Text, codes, text_eq}
use skodun.Json.{Json, null, bool, str, Fields, get, get_or_null, get_default, truthy}
use skodun.Textnorm.{Python}
use skodun.Triage.Result.{ok}
use skodun.Gate.Decide.{is_text}
use skodun.Reviews.Record.{normalize_record, running, prepush_mode}
use skodun.Reviews.Table.{Row, review_values}
use skodun.Reviews.Reserve.{Push, reserved_record, bind_prepush, unless_bound}
use skodun.Reviews.Keys.{get_or_null-set_other, get_or_null-get}
use skodun.Reviews.Untouched.{is_left}
use skodun.Reviews.Normal.{IsNormalOf, normalize_record-IsNormalOf, is_no_axis, verdict_of}
use skodun.Reviews.Agreement.{HasVerdict, IsConsistent, review_values-IsConsistent}

trust_of :
    (rec : Fields) (b : Bool)
    → get (codes "trustworthy") rec ≡ some (bool b)
    → get_or_null (codes "trustworthy") rec ≡ bool b
unfolding get_or_null
trust_of rec b e = rw e refl

-- A normalised record holds its verdict.
pub IsNormalOf-HasVerdict : (rec stored : Fields) → IsNormalOf rec stored → HasVerdict stored
unfolding get_or_null
IsNormalOf-HasVerdict rec stored n = record {
  parsed = n.axes.parse_ok;
  degrades = n.axes.degraded;
  truncates = n.axes.diff_truncated;
  parse_ok = rw n.parse_ok refl;
  degraded = rw n.degraded refl;
  diff_truncated = rw n.diff_truncated refl;
  trustworthy = rw n.trustworthy refl;
}

pub bind_prepush-get_or_null :
    (k : Text) (id : Json) (rec : Fields)
    → text_eq (codes "request_id") k ≡ false
    → get_or_null k (bind_prepush id rec) ≡ get_or_null k rec
unfolding bind_prepush
bind_prepush-get_or_null k id rec differ =
    go (is_text (get_or_null (codes "mode") rec) prepush_mode) (get (codes "request_id") rec)
  where
    go :
        (b : Bool) (o : Option Json)
        → get_or_null k (if b then unless_bound id rec o else rec) ≡ get_or_null k rec
    go true none = get_or_null-set_other (codes "request_id") k id rec differ
    go true (some v) = refl
    go false o = refl

pub bind_prepush-HasVerdict :
    (id : Json) (rec : Fields) → HasVerdict rec → HasVerdict (bind_prepush id rec)
unfolding text_eq
bind_prepush-HasVerdict id rec v = record {
  parsed = v.parsed;
  degrades = v.degrades;
  truncates = v.truncates;
  parse_ok = bind_prepush-get_or_null (codes "parse_ok") id rec refl ∙ v.parse_ok;
  degraded = bind_prepush-get_or_null (codes "degraded") id rec refl ∙ v.degraded;
  diff_truncated = bind_prepush-get_or_null (codes "diff_truncated") id rec refl ∙ v.diff_truncated;
  trustworthy = bind_prepush-get_or_null (codes "trustworthy") id rec refl ∙ v.trustworthy;
}

-- The row that a reservation writes.
pub record IsFresh (push : Push) (r : Row) : Type 0 where
  pub id : r.id ≡ str push.record_id
  pub branch : r.branch ≡ str push.branch
  pub head : r.head ≡ str push.head
  pub base_ref : r.base_ref ≡ str push.base_ref
  pub base_sha : r.base_sha ≡ str push.base_sha
  pub diff_hash : r.diff_hash ≡ str push.diff_hash
  pub repo : r.repo ≡ str push.repo
  pub mode : r.mode ≡ str prepush_mode
  pub status : r.status ≡ str running
  pub pid : r.pid ≡ null
  pub untrusted : r.trustworthy ≡ false
  pub consistent : IsConsistent r

module _ (py : Python) (now : Text) (at : Json) (push : Push) where
  -- A key of the reserved record, as the stored row reads it.
  fresh_key :
      (k : Text) (rec : Fields) (v : Json)
      → IsNormalOf (reserved_record at push) rec
      → is_left k ≡ true
      → is_no_axis k ≡ true
      → text_eq (codes "request_id") k ≡ false
      → get_or_null k (reserved_record at push) ≡ v
      → get_or_null k (bind_prepush (str push.record_id) rec) ≡ v
  fresh_key k rec v n left other differ e =
      bind_prepush-get_or_null k (str push.record_id) rec differ
      ∙ get_or_null-get k rec (reserved_record at push) (n.kept k left other)
      ∙ e

  fresh_untrusted :
      (rec : Fields) (n : IsNormalOf (reserved_record at push) rec) → verdict_of n.axes ≡ false
  fresh_untrusted rec n =
      unfold reserved_record get_default get text_eq in ground (arith, n.axes.gives_parse_ok)

  pub review_values-IsFresh :
      (rec : Fields)
      → normalize_record py now (reserved_record at push) ≡ ok rec
      → IsFresh push (review_values (str push.record_id) (bind_prepush (str push.record_id) rec))
  unfolding review_values text_eq skodun.Prelude.all
  review_values-IsFresh rec h =
      let n = normalize_record-IsNormalOf py now (reserved_record at push) rec h in
      let v = bind_prepush-HasVerdict (str push.record_id) rec (IsNormalOf-HasVerdict _ rec n) in
      record {
        id = refl;
        branch =
            fresh_key (codes "branch") rec (str push.branch) n refl refl refl
              (unfold reserved_record get_or_null get in refl);
        head =
            fresh_key (codes "head") rec (str push.head) n refl refl refl
              (unfold reserved_record get_or_null get in refl);
        base_ref =
            fresh_key (codes "base_ref") rec (str push.base_ref) n refl refl refl
              (unfold reserved_record get_or_null get in refl);
        base_sha =
            fresh_key (codes "base_sha") rec (str push.base_sha) n refl refl refl
              (unfold reserved_record get_or_null get in refl);
        diff_hash =
            fresh_key (codes "diff_hash") rec (str push.diff_hash) n refl refl refl
              (unfold reserved_record get_or_null get in refl);
        repo =
            fresh_key (codes "repo") rec (str push.repo) n refl refl refl
              (unfold reserved_record get_or_null get in refl);
        mode =
            fresh_key (codes "mode") rec (str prepush_mode) n refl refl refl
              (unfold reserved_record get_or_null get in refl);
        status =
            fresh_key (codes "status") rec (str running) n refl refl refl
              (unfold reserved_record get_or_null get in refl);
        pid =
            rw
              (fresh_key (codes "pid") rec null n refl refl refl
                (unfold reserved_record get_or_null get in refl))
              refl;
        untrusted =
            ap truthy (
              bind_prepush-get_or_null (codes "trustworthy") (str push.record_id) rec refl
              ∙ trust_of rec (verdict_of n.axes) n.trustworthy)
            ∙ fresh_untrusted rec n;
        consistent =
            review_values-IsConsistent (str push.record_id) _
              (fresh_key (codes "id") rec (str push.record_id) n refl refl refl
                (unfold reserved_record get_or_null get in refl))
              v;
      }
