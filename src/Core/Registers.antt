-- ===== src/Core/Registers.antt =====
-- The refusals of Core::set_core_param and the tags of the registers (fast_mcpat/core.cc).
use wattwatcher.Prelude.{
  zero, suc, ℕ, ◌≤◌, ◌≡◌, refl, ◌∙◌, ap₂, ◌&&◌, Option, none, some, ltb, arith, ◌>>=◌, is_some,
  Ensures,
}
use Prim.Native.Nat.{◌^◌}
use wattwatcher.Double.{Double}
use wattwatcher.Basic.{CoreType}
use wattwatcher.Core.{RenamingType, SchedulerType, CoreSystem, Machine, CoreDynParam, Core}
use wattwatcher.Core.Param.{
  to_core_type, to_scheduler_type, to_renaming_type, width_of, settle, set_core_param,
}

core_type-is_some : (n : ℕ) → is_some (to_core_type n) ≡ ltb n 2
core_type-is_some zero = refl
core_type-is_some (suc zero) = refl
core_type-is_some (suc (suc n)) = ground arith

scheduler_type-is_some : (n : ℕ) → is_some (to_scheduler_type n) ≡ ltb n 2
scheduler_type-is_some zero = refl
scheduler_type-is_some (suc zero) = refl
scheduler_type-is_some (suc (suc n)) = ground arith

renaming_type-is_some : (n : ℕ) → is_some (to_renaming_type n) ≡ ltb n 2
renaming_type-is_some zero = refl
renaming_type-is_some (suc zero) = refl
renaming_type-is_some (suc (suc n)) = ground arith

bind-is_some :
    {A B C D : Type 0} (o : Option A) (p : Option B) (q : Option C) (f : A → B → C → D)
    → is_some (o >>= λ a. p >>= λ b. q >>= λ c. some (f a b c))
      ≡ is_some o && (is_some p && is_some q)
bind-is_some none p q f = refl
bind-is_some (some a) none q f = refl
bind-is_some (some a) (some b) none f = refl
bind-is_some (some a) (some b) (some c) f = refl

bind-Ensures :
    {A B C D : Type 0} (P : D → Type 0) (o : Option A) (p : Option B) (q : Option C)
    (f : A → B → C → D)
    → ((a : A) (b : B) (c : C) → P (f a b c))
    → Ensures P (o >>= λ a. p >>= λ b. q >>= λ c. some (f a b c))
bind-Ensures P none p q f h = tt
bind-Ensures P (some a) none q f h = tt
bind-Ensures P (some a) (some b) none f h = tt
bind-Ensures P (some a) (some b) (some c) f h = h a b c

-- n registers have different tags of so many bits.
abbrev pub Tags : ℕ → ℕ → Type 0
Tags n width = n ≤ 2 ^ width

module _ {F : Type 0} ⦃d : Double F⦄ where
  -- A core is refused exactly if the numbers of its type, of its scheduler or of its renaming are
  -- not 0 or 1.
  pub set_core_param-is_some :
      (sys : Machine) (e : CoreSystem F) (c : Core F)
      → is_some (set_core_param sys e c)
        ≡ ltb e.machine_type 2 && (ltb e.instruction_window_scheme 2 && ltb e.rename_scheme 2)
  unfolding set_core_param
  set_core_param-is_some sys e c =
      bind-is_some (to_core_type e.machine_type) (to_scheduler_type e.instruction_window_scheme)
        (to_renaming_type e.rename_scheme) (settle sys e c)
      ∙ ap₂ ◌&&◌ (core_type-is_some e.machine_type) (
          ap₂ ◌&&◌ (scheduler_type-is_some e.instruction_window_scheme)
            (renaming_type-is_some e.rename_scheme))

  -- The tags that a core of each kind needs: in an out-of-order core for the entries of the free
  -- lists, and in any core for its registers, among the physical ones if they are in one file.
  abbrev pub TagsFor : CoreType → SchedulerType → CoreDynParam F → Type 0
  TagsFor CoreType.inorder scheu_ty p =
      Tags p.num_irf_entry p.arch_ireg_width × Tags p.num_frf_entry p.arch_freg_width
  TagsFor CoreType.ooo SchedulerType.physical_reg_file p =
      Tags p.num_ifreelist_entries p.phy_ireg_width
      × Tags p.num_ffreelist_entries p.phy_freg_width
      × Tags p.num_irf_entry p.phy_ireg_width
      × Tags p.num_frf_entry p.phy_freg_width
  TagsFor CoreType.ooo SchedulerType.reservation_station p =
      Tags p.num_ifreelist_entries p.phy_ireg_width
      × Tags p.num_ffreelist_entries p.phy_freg_width
      × Tags p.num_irf_entry p.arch_ireg_width
      × Tags p.num_frf_entry p.arch_freg_width

  abbrev pub IsTagged : Core F → Type 0
  IsTagged c = TagsFor c.coredynp.core_ty c.coredynp.scheu_ty c.coredynp

  module _ (fits : (n : ℕ) → n ≤ 2 ^ width_of d n) where
    settle-IsTagged :
        (sys : Machine) (e : CoreSystem F) (c : Core F) (core_ty : CoreType)
        (scheu_ty : SchedulerType) (rm_ty : RenamingType)
        → IsTagged (settle sys e c core_ty scheu_ty rm_ty)
    settle-IsTagged sys e c CoreType.inorder scheu_ty rm_ty =
        (fits e.archi_regs_irf_size, fits e.archi_regs_frf_size)
    settle-IsTagged sys e c CoreType.ooo SchedulerType.physical_reg_file rm_ty = (
      fits e.phy_regs_irf_size,
      fits e.phy_regs_frf_size,
      fits e.phy_regs_irf_size,
      fits e.phy_regs_frf_size,
    )
    settle-IsTagged sys e c CoreType.ooo SchedulerType.reservation_station rm_ty =
        (fits e.rob_size, fits e.rob_size, fits e.archi_regs_irf_size, fits e.archi_regs_frf_size)

    -- If ceil(log2(n)) bits are enough for n values, then in an in-order core the widths of the
    -- architecture's registers are enough for all entries of the register files; in an out-of-order
    -- core those of the physical registers are enough for the free lists and, if the scheduler works on
    -- one physical file, for the register files, which else the architecture's are enough for.
    pub set_core_param-IsTagged :
        (sys : Machine) (e : CoreSystem F) (c : Core F) → Ensures IsTagged (set_core_param sys e c)
    unfolding set_core_param
    set_core_param-IsTagged sys e c =
        bind-Ensures IsTagged (to_core_type e.machine_type)
          (to_scheduler_type e.instruction_window_scheme) (to_renaming_type e.rename_scheme)
          (settle sys e c) (settle-IsTagged sys e c)
