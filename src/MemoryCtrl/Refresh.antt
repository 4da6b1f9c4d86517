-- ===== src/MemoryCtrl/Refresh.antt =====
-- The run-time energy of the parts of a memory controller without accesses, in exact arithmetic.
use wattwatcher.Prelude.{ℕ, suc, ◌≡◌, true, false}
use wattwatcher.Double.{Double, IsExact, ◌⊕◌, ◌⊗◌, ◌⊘◌}
use wattwatcher.Power.{no_power, add_power, scale_power}
use wattwatcher.Power.Algebra.{add-mul, zero-add, zero-mul}
use wattwatcher.MemoryCtrl.{McParam}
use wattwatcher.MemoryCtrl.FrontEnd
use wattwatcher.MemoryCtrl.FrontEnd.{
  FrontEnd, Arrays, new_buffer, reorder_interface, read_interface, write_interface,
}
use wattwatcher.MemoryCtrl.Backend
use wattwatcher.MemoryCtrl.Backend.{Backend}
use wattwatcher.MemoryCtrl.Phy
use wattwatcher.MemoryCtrl.Phy.{Phy}

module _ {F : Type 0} ⦃d : Double F⦄ where
  -- A tenth of the peak power of all controllers over the run.
  abbrev pub refresh : McParam F → F → F
  refresh p x = x ⊗ d.lit 1 1 ⊗ p.clock_rate ⊗ d.nat p.num_mcs ⊗ p.execution_time

  abbrev pub IsIdle : McParam F → Type 0
  IsIdle p =
      (p.reads ≡ d.nat 0)
      × (p.writes ≡ d.nat 0)
      × (d.lt (d.nat 0) (d.nat p.data_bus_width) ≡ true)
      × (d.lt (d.nat 0) p.execution_time ≡ true)

  module _ (exact : IsExact F) where
    zero-nat : (n : ℕ) → d.nat 0 ⊘ d.nat (suc n) ≡ d.nat 0
    zero-nat n = exact.zero-div (d.nat (suc n)) (exact.nat-pos n)

    pub refresh-add : (p : McParam F) (x y : F) → refresh p (x ⊕ y) ≡ refresh p x ⊕ refresh p y
    refresh-add p x y = simp (add-mul exact)

    pub backend_idle :
        (c : Backend F)
        → IsIdle c.mcp
        → (Backend.compute_energy false c).rt_power.read_op.dynamic
          ≡ refresh c.mcp c.power.read_op.dynamic
    unfolding Backend.compute_energy add_power scale_power
    backend_idle c (reads, writes, bus, time) =
        rw (reads, writes)
          (simp (
            zero-add exact,
            zero-mul exact,
            exact.mul-zero,
            exact.zero-div (d.nat c.mcp.data_bus_width) bus,
          ))

    pub phy_idle :
        (c : Phy F)
        → IsIdle c.mcp
        → (Phy.compute_energy false c).rt_power.read_op.dynamic
          ≡ refresh c.mcp c.power.read_op.dynamic
    unfolding Phy.compute_energy
    phy_idle c (reads, writes, bus, time) =
        rw (reads, writes)
          (simp (
            zero-add exact,
            zero-mul exact,
            exact.mul-zero,
            zero-nat 999_999_999,
            exact.zero-div c.mcp.execution_time time,
          ))

    pub frontend_idle :
        (c : FrontEnd F)
        → IsIdle c.mcp
        → c.memory_reads ≡ d.nat 0
        → c.memory_writes ≡ d.nat 0
        → c.rt_power ≡ no_power
        → (FrontEnd.compute_energy false c).rt_power.read_op.dynamic
          ≡ refresh c.mcp c.power.read_op.dynamic
    unfolding FrontEnd.compute_energy add_power scale_power
    frontend_idle c (reads, writes, bus, time) r w fresh =
        rw (r, w, fresh)
          (simp (
            zero-add exact,
            zero-mul exact,
            exact.mul-zero,
            zero-nat 71,
            exact.zero-div (d.nat c.mcp.data_bus_width) bus,
          ))
