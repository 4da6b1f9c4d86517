-- ===== src/Processor/Directory.antt =====
-- The first-level directories when they differ.
use wattwatcher.Prelude.{ℕ, zero, suc, ◌+◌}
use wattwatcher.Double.{Double}
use wattwatcher.Total.{Total, Part, no_total, add_total}
use wattwatcher.Processor.{bare}

module _ {F : Type 0} ⦃d : Double F⦄ where
  -- The sum of the next units with their powers as they are, per cycle.
  pub sum_bare : ℕ → ℕ → (ℕ → Part F) → Total F
  sum_bare zero i parts = no_total
  sum_bare (suc count) i parts = add_total (bare (parts i)) (sum_bare count (i + 1) parts)
