-- ===== src/Budget/Ordering.antt =====
-- How the two ceilings of budget.py compare, and how many calls they are for.
use skodun.Prelude.{ℕ, ◌+◌, ◌*◌, ◌≤◌, max, ◌≡◌, refl, arith}
use skodun.Prelude.Int.{ℤ, pos, negsuc, ◌≤ℤ◌}
use skodun.Budget.{Defaults, at_least, calls, worst_runtime, lock_stale_ceiling}
use native.Mathlib.Nat.{
  mul-le-mul_left, mul-le-mul_right, mul-le-mul, max-eq_right, add-le-add, le_refl,
}

-- The ceiling of a lock is at least that of a record of the same shape.
pub worst_runtime-le-lock_stale_ceiling :
    (d : Defaults) (chain_width batch_count : ℤ)
    → worst_runtime d chain_width batch_count ≤ lock_stale_ceiling d chain_width batch_count
unfolding worst_runtime lock_stale_ceiling
worst_runtime-le-lock_stale_ceiling d w b = mul-le-mul_left (calls w b) (omega arith)

pub calls_pos :
    (width batches : ℕ) → 1 ≤ width → calls (pos width) (pos batches) ≡ width * (batches + 1)
unfolding calls
calls_pos width batches h =
    let least : max 0 batches ≡ batches = omega arith in rw (max-eq_right h, least) refl

pub one-le-calls : (width batches : ℕ) → 1 ≤ width → 1 ≤ width * (batches + 1)
one-le-calls width batches h = let more : 1 ≤ batches + 1 = omega arith in mul-le-mul h more

at_least_mono : (least : ℕ) (a b : ℤ) → a ≤ℤ b → at_least least a ≤ at_least least b
at_least_mono least (pos m) (pos n) h = omega arith
at_least_mono least (pos m) (negsuc n) h = omega arith
at_least_mono least (negsuc m) (pos n) h = omega arith
at_least_mono least (negsuc m) (negsuc n) h = omega arith

-- A wider chain or more batches never shortens a ceiling, zero and negative numbers included.
pub ceilings_mono :
    (d : Defaults) (w w' b b' : ℤ)
    → w ≤ℤ w'
    → b ≤ℤ b'
    → (worst_runtime d w b ≤ worst_runtime d w' b')
      × (lock_stale_ceiling d w b ≤ lock_stale_ceiling d w' b')
unfolding worst_runtime lock_stale_ceiling calls
ceilings_mono d w w' b b' h k =
    let more =
      mul-le-mul (at_least_mono 1 w w' h) (add-le-add (at_least_mono 0 b b' k) (le_refl 1)) in
    (mul-le-mul_right _ more, mul-le-mul_right _ more)
