-- ===== src/Description/Controllers.antt =====
-- The controllers and the memory (system_mem, system_mc, system_niu and system_pcie of fast_mcpat/XML_Parse.h).
use wattwatcher.Prelude.{Bool}
use wattwatcher.Text.{ℤ}

pub record SystemMem (F : Type 0) : Type 0 where
  pub mem_tech_node : ℤ
  pub device_clock : ℤ
  pub peak_transfer_rate : ℤ
  pub internal_prefetch_of_dram_chip : ℤ
  pub capacity_per_channel : ℤ
  pub number_ranks : ℤ
  pub num_banks_of_dram_chip : ℤ
  pub block_width_of_dram_chip : ℤ
  pub output_width_of_dram_chip : ℤ
  pub page_size_of_dram_chip : ℤ
  pub burstlength_of_dram_chip : ℤ
  pub memory_accesses : F
  pub memory_reads : F
  pub memory_writes : F

pub record SystemMc (F : Type 0) : Type 0 where
  pub peak_transfer_rate : F
  pub number_mcs : ℤ
  pub with_phy : Bool
  pub type : ℤ
  pub duty_cycle : F
  pub total_load_perc : F
  pub mc_clock : ℤ
  pub llc_line_length : ℤ
  pub memory_channels_per_mc : ℤ
  pub number_ranks : ℤ
  pub req_window_size_per_channel : ℤ
  pub io_buffer_size_per_channel : ℤ
  pub databus_width : ℤ
  pub addressbus_width : ℤ
  pub lvds : Bool
  pub vdd : F
  pub power_gating_vcc : F
  pub memory_accesses : F
  pub memory_reads : F
  pub memory_writes : F

pub record SystemNiu (F : Type 0) : Type 0 where
  pub clockrate : ℤ
  pub number_units : ℤ
  pub type : ℤ
  pub vdd : F
  pub power_gating_vcc : F
  pub duty_cycle : F
  pub total_load_perc : F

pub record SystemPcie (F : Type 0) : Type 0 where
  pub clockrate : ℤ
  pub number_units : ℤ
  pub num_channels : ℤ
  pub type : ℤ
  pub with_phy : Bool
  pub vdd : F
  pub power_gating_vcc : F
  pub duty_cycle : F
  pub total_load_perc : F
