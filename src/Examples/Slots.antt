-- ===== src/Examples/Slots.antt =====
-- A history of the capacity table: two reviews queue up, and the first is admitted.
use skodun.Prelude.{
  ℕ, ◌≡◌, refl, ◌≤◌, ◌<◌, Bool, true, false, Option, none, some, List, [], ◌∷◌, arith, count_if,
}
use skodun.Prelude.Text.{Text, codes, text_eq}
use skodun.Prelude.Int.{pos}
use skodun.Capacity.Views.{queued, admitted, released, is_active}
use skodun.Capacity.Rows.{
  Row, new_row, admit, is_limited, resource_review_fg, ok, capacity_get, capacity_enqueue,
  capacity_try_admit, capacity_holder_count,
}
use skodun.Capacity.Moves.{capacity_finish, finish}
use skodun.Capacity.Bounds.{IsBounded}
use skodun.Capacity.Steps.{Reach, enqueue, try_admit, empty, next}
use skodun.Capacity.Reachable.{Reach-IsBounded}
use skodun.Capacity.Limit.{holder_count-le_limit}
use skodun.Capacity.Terminal.{Step-settled}

abbrev no_tokens : ℕ → Option Text
no_tokens pid = none

abbrev scope : Text
scope = codes "repo"

abbrev first : Row
first = new_row 1 (codes "a") resource_review_fg scope (some 11) none 100

abbrev second : Row
second = new_row 2 (codes "b") resource_review_fg scope (some 12) none 105

abbrev waiting : List Row
waiting = first ∷ second ∷ []

abbrev served : List Row
served = admit 110 1 first ∷ second ∷ []

abbrev ended : List Row
ended = finish 120 released none (admit 110 1 first) ∷ second ∷ []

enqueue_first :
    capacity_enqueue no_tokens 100 (codes "a") resource_review_fg scope (some 11) []
    ≡ some (first ∷ [], first)
unfolding capacity_enqueue text_eq
enqueue_first = refl

enqueue_second :
    capacity_enqueue no_tokens 105 (codes "b") resource_review_fg scope (some 12) (first ∷ [])
    ≡ some (waiting, second)
unfolding capacity_enqueue text_eq
enqueue_second = refl

admit_first :
    capacity_try_admit 110 (codes "a") (pos 1) waiting ≡ ok (served, some (admit 110 1 first))
unfolding capacity_try_admit text_eq new_row skodun.Capacity.Views.decide_admit skodun.Prelude.keep
    skodun.Capacity.Rows.is_holder_of skodun.Capacity.Rows.in_queue
    skodun.Capacity.Views.holders_among count_if skodun.Capacity.Rows.is_peer
    skodun.Capacity.Views.sort_views skodun.Capacity.Views.insert_view skodun.Capacity.Views.key_lt
admit_first = refl

-- The slot is taken: the second waits.
deny_second : capacity_try_admit 111 (codes "b") (pos 1) served ≡ ok (served, none)
unfolding capacity_try_admit text_eq new_row skodun.Capacity.Views.decide_admit skodun.Prelude.keep
    skodun.Capacity.Rows.is_holder_of skodun.Capacity.Rows.in_queue
    skodun.Capacity.Views.holders_among count_if skodun.Capacity.Rows.is_peer
deny_second = refl

end_first : capacity_finish 120 (codes "a") released none served ≡ ok ended
unfolding capacity_finish capacity_get text_eq admit new_row
end_first = refl

history : Reach 1 served
history =
    next
      (next
        (next empty (
          enqueue no_tokens 100 (codes "a") resource_review_fg scope (some 11) first enqueue_first))
        (enqueue no_tokens 105 (codes "b") resource_review_fg scope (some 12) second
          enqueue_second))
      (try_admit 110 1 (codes "a") (some (admit 110 1 first)) (omega arith) admit_first)

foreground_is_limited : is_limited resource_review_fg ≡ true
unfolding is_limited text_eq
foreground_is_limited = refl

Reach-IsBounded_example : IsBounded resource_review_fg scope served
Reach-IsBounded_example = Reach-IsBounded 1 resource_review_fg scope foreground_is_limited history

holder_count-le_limit_example : capacity_holder_count resource_review_fg scope served ≤ 1
holder_count-le_limit_example =
    holder_count-le_limit 1 resource_review_fg scope (omega arith) history

settled_first : capacity_get (codes "a") ended ≡ some (finish 120 released none (admit 110 1 first))
unfolding capacity_get text_eq finish admit new_row
settled_first = refl

-- What is over stays as it ended, while the second is admitted.
admit-second :
    capacity_try_admit 130 (codes "b") (pos 1) ended
    ≡ ok (
      finish 120 released none (admit 110 1 first) ∷ admit 130 1 second ∷ [],
      some (admit 130 1 second),
    )
unfolding capacity_try_admit finish text_eq new_row skodun.Capacity.Views.decide_admit
    skodun.Prelude.keep skodun.Capacity.Rows.is_holder_of skodun.Capacity.Rows.in_queue
    skodun.Capacity.Views.holders_among count_if skodun.Capacity.Rows.is_peer
    skodun.Capacity.Views.sort_views skodun.Capacity.Views.insert_view
admit-second = refl

released_is_over : is_active (finish 120 released none (admit 110 1 first)).status ≡ false
unfolding finish
released_is_over = refl

Step-settled_example :
    capacity_get
      (codes "a")
      (finish 120 released none (admit 110 1 first) ∷ admit 130 1 second ∷ [])
    ≡ some (finish 120 released none (admit 110 1 first))
Step-settled_example =
    Step-settled 1 (codes "a")
      (try_admit 130 1 (codes "b") (some (admit 130 1 second)) (omega arith) admit-second)
      settled_first released_is_over
