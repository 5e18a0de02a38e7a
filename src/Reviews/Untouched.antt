-- ===== src/Reviews/Untouched.antt =====
-- Which keys the steps of `_normalize_record` of store.py leave alone.
use skodun.Prelude.{
  ◌≡◌, refl, ◌∙◌, inl, inr, Bool, true, false, not, ◌&&◌, List, [], ◌∷◌, arith, Bool-cases,
  if◌then◌else◌, all, is_empty,
}
use mathlib.Core.Path.{subst}
use skodun.Prelude.Text.{Text, codes, text_eq}
use skodun.Json.{Json, null, bool, int, str, float, arr, obj, Fields, get, get_or_null}
use skodun.Textnorm.{Python, strip}
use skodun.Triage.Result.{ok, value_error, >>=-eq-ok, require-ok, ok-injective, ◌>>=◌}
use skodun.Triage.Doors.{require_ts}
use skodun.Reviews.Record.{
  set, is_null, is_over, text_value, normalize_text, default_repo_id, check_ordinal, default_reason,
  default_outcome, normalize_ending, default_started, default_completed, normalize_times,
  optional_text, reason_of, with_reason, with_outcome, timed,
}
use skodun.Reviews.Keys.{get-set_other}

-- The keys, beside the trust axes, that the normalisation writes.
abbrev pub normalized_keys : List Text
normalized_keys =
    codes "review_started_at"
    ∷ codes "review_completed_at"
    ∷ codes "repo_id"
    ∷ codes "worktree_root"
    ∷ codes "orchestration_id"
    ∷ codes "terminal_reason"
    ∷ codes "outcome"
    ∷ []

abbrev pub is_other_than : Text → Text → Bool
is_other_than k key = not (text_eq key k)

-- The key is none of those.
abbrev pub is_left : Text → Bool
is_left k = all (is_other_than k) normalized_keys

-- The second dictionary reads as the first at `k`.
abbrev pub Keeps : Text → Fields → Fields → Type 0
Keeps k fs gs = get k gs ≡ get k fs

not-true : (b : Bool) → not b ≡ true → b ≡ false
not-true b h = ground arith

pub set-Keeps :
    (key k : Text) (v : Json) (fs : Fields) → is_other_than k key ≡ true → Keeps k fs (set key v fs)
set-Keeps key k v fs o = get-set_other key k v fs (not-true (text_eq key k) o)

if-Keeps :
    (b : Bool) (key k : Text) (v : Json) (fs : Fields)
    → is_other_than k key ≡ true
    → Keeps k fs (if b then set key v fs else fs)
if-Keeps true key k v fs o = set-Keeps key k v fs o
if-Keeps false key k v fs o = refl

pub normalize_text-Keeps :
    (key k : Text) (fs gs : Fields)
    → is_other_than k key ≡ true
    → normalize_text key fs ≡ ok gs
    → Keeps k fs gs
unfolding normalize_text
normalize_text-Keeps key k fs gs o h = go (get_or_null key fs) h
  where
    stored : (v : Json) → (text_value v >>= λ s. ok (set key (str s) fs)) ≡ ok gs → Keeps k fs gs
    stored v e =
        let r = >>=-eq-ok (text_value v) (λ s. ok (set key (str s) fs)) e in
        subst (Keeps k fs) (ok-injective r.2) (set-Keeps key k (str r.0) fs o)

    go : (v : Json) → optional_text key fs v ≡ ok gs → Keeps k fs gs
    go null e = subst (Keeps k fs) (ok-injective e) refl
    go (bool b) e = stored (bool b) e
    go (int n) e = stored (int n) e
    go (float z r) e = stored (float z r) e
    go (str s) e = stored (str s) e
    go (arr vs) e = stored (arr vs) e
    go (obj f) e = stored (obj f) e

pub default_repo_id-Keeps :
    (k : Text) (fs : Fields)
    → is_other_than k (codes "repo_id") ≡ true
    → Keeps k fs (default_repo_id fs)
unfolding default_repo_id
default_repo_id-Keeps k fs o = if-Keeps _ (codes "repo_id") k (get_or_null (codes "repo") fs) fs o

pub check_ordinal-same : (fs gs : Fields) → check_ordinal fs ≡ ok gs → fs ≡ gs
unfolding check_ordinal
check_ordinal-same fs gs h = ok-injective (require-ok _ value_error (ok fs) h).1

default_reason-Keeps :
    (k : Text) (fs : Fields)
    → is_other_than k (codes "terminal_reason") ≡ true
    → Keeps k fs (default_reason fs)
unfolding default_reason
default_reason-Keeps k fs o =
    go (is_null (get_or_null (codes "terminal_reason") fs) && is_over fs) (reason_of fs)
  where
    go : (b : Bool) (v : Json) → Keeps k fs (if b then with_reason fs v else fs)
    go true (str s) = elim (Bool-cases (is_empty (strip s))) [
      | inl e ↦ rw e refl
      | inr e ↦ rw e (set-Keeps (codes "terminal_reason") k (str (strip s)) fs o)
    ]
    go true _ = refl
    go false v = refl

default_outcome-Keeps :
    (k : Text) (fs : Fields)
    → is_other_than k (codes "outcome") ≡ true
    → Keeps k fs (default_outcome fs)
unfolding default_outcome
default_outcome-Keeps k fs o =
    go (is_null (get_or_null (codes "outcome") fs) && is_over fs) (get_or_null (codes "status") fs)
  where
    go : (b : Bool) (v : Json) → Keeps k fs (if b then with_outcome fs v else fs)
    go true (str s) = set-Keeps (codes "outcome") k (str s) fs o
    go true _ = refl
    go false v = refl

pub normalize_ending-Keeps :
    (k : Text) (fs gs : Fields)
    → is_other_than k (codes "terminal_reason") ≡ true
    → is_other_than k (codes "outcome") ≡ true
    → normalize_ending fs ≡ ok gs
    → Keeps k fs gs
unfolding normalize_ending
normalize_ending-Keeps k fs gs o p h =
    let r1 = >>=-eq-ok (normalize_text (codes "terminal_reason") fs) _ h in
    let r2 = >>=-eq-ok (normalize_text (codes "outcome") (default_reason r1.0)) _ r1.2 in
    subst (Keeps k fs) (ok-injective r2.2) (
      default_outcome-Keeps k r2.0 p
      ∙ normalize_text-Keeps (codes "outcome") k (default_reason r1.0) r2.0 p r2.1
      ∙ default_reason-Keeps k r1.0 o
      ∙ normalize_text-Keeps (codes "terminal_reason") k fs r1.0 o r1.1)

module _ (py : Python) where
  timed-Keeps :
      (key k : Text) (fs gs : Fields) (v : Json)
      → is_other_than k key ≡ true
      → timed py key fs v ≡ ok gs
      → Keeps k fs gs
  timed-Keeps key k fs gs v o h = go v h
    where
      stored : (v : Json) → (require_ts py v >>= λ at. ok (set key at fs)) ≡ ok gs → Keeps k fs gs
      stored v e =
          let r = >>=-eq-ok (require_ts py v) (λ at. ok (set key at fs)) e in
          subst (Keeps k fs) (ok-injective r.2) (set-Keeps key k r.0 fs o)

      go : (v : Json) → timed py key fs v ≡ ok gs → Keeps k fs gs
      go null e = subst (Keeps k fs) (ok-injective e) refl
      go (bool b) e = stored (bool b) e
      go (int n) e = stored (int n) e
      go (float z r) e = stored (float z r) e
      go (str s) e = stored (str s) e
      go (arr vs) e = stored (arr vs) e
      go (obj f) e = stored (obj f) e

  pub normalize_times-Keeps :
      (now k : Text) (fs gs : Fields)
      → is_other_than k (codes "review_started_at") ≡ true
      → is_other_than k (codes "review_completed_at") ≡ true
      → normalize_times py now fs ≡ ok gs
      → Keeps k fs gs
  unfolding normalize_times default_started default_completed
  normalize_times-Keeps now k fs gs o p h =
      let r1 =
        >>=-eq-ok
          (timed py (codes "review_started_at") fs (get_or_null (codes "review_started_at") fs)) _
          h in
      let r2 =
        >>=-eq-ok
          (timed py (codes "review_completed_at") (default_started py r1.0)
            (get_or_null (codes "review_completed_at") (default_started py r1.0)))
          _ r1.2 in
      subst (Keeps k fs) (ok-injective r2.2) (
        if-Keeps _ (codes "review_completed_at") k (str now) r2.0 p
        ∙ timed-Keeps (codes "review_completed_at") k (default_started py r1.0) r2.0
            (get_or_null (codes "review_completed_at") (default_started py r1.0)) p r2.1
        ∙ if-Keeps _ (codes "review_started_at") k (get_or_null (codes "reviewed_at") r1.0) r1.0 o
        ∙ timed-Keeps (codes "review_started_at") k fs r1.0
            (get_or_null (codes "review_started_at") fs) o r1.1)
