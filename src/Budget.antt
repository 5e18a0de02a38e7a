-- ===== src/Budget.antt =====
-- budget.py: how long a review, a record and a lock may live before somebody acts on them.
pub mod Ordering
use skodun.Prelude.{ℕ, zero, suc, ◌+◌, ◌*◌, ◌≤◌, max, ◌≡◌, refl, arith}
use skodun.Prelude.Int.{ℤ, pos, negsuc}

-- The three fields of `config.Defaults` that the budgets read. The loader refuses negative numbers.
pub record Defaults : Type 0 where
  pub timeout_sec : ℕ
  pub timeout_retries : ℕ
  pub degraded_retries : ℕ

abbrev pub grace_sec : ℕ
grace_sec = 60

abbrev pub max_passes_under_lock : ℕ
max_passes_under_lock = 3

unfoldable pub attempt_budget : Defaults → ℕ
attempt_budget d = 2 * d.timeout_sec * (1 + d.timeout_retries + d.degraded_retries)

-- `max(least, int(n))`, for a bound that is not negative.
abbrev pub at_least : ℕ → ℤ → ℕ
at_least least (pos n) = max least n
at_least least (negsuc n) = least

unfoldable pub calls : ℤ → ℤ → ℕ
calls chain_width batch_count = at_least 1 chain_width * (at_least 0 batch_count + 1)

unfoldable pub worst_runtime : Defaults → ℤ → ℤ → ℕ
unfolding calls attempt_budget
worst_runtime d chain_width batch_count =
    calls chain_width batch_count * (attempt_budget d + grace_sec)

unfoldable pub lock_stale_ceiling : Defaults → ℤ → ℤ → ℕ
unfolding calls attempt_budget
lock_stale_ceiling d chain_width batch_count =
    calls chain_width batch_count * (max_passes_under_lock * attempt_budget d + grace_sec)
