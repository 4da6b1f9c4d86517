-- ===== src/MemoryCtrl/FrontEnd.antt =====
-- MCFrontEnd, the buffers of the memory controller (fast_mcpat/memoryctrl.cc). The arbiter that the
-- source builds beside them is not read again.
use wattwatcher.Prelude.{◌+◌, ◌*◌, Bool, true, false, Option, some, String, if◌then◌else◌, ◌>>=◌}
use wattwatcher.Double.{Double, ◌⊕◌, ◌⊗◌, ◌⊘◌}
use wattwatcher.Power.{PowerDef, no_power, add_power, scale_power, pppm_lkg}
use wattwatcher.Basic.{DeviceTy, CoreType, Technology}
use wattwatcher.Cacti.{InputParameter, UcaOrg}
use wattwatcher.Array
use wattwatcher.Array.{ArraySt}
use wattwatcher.MemoryCtrl.{SystemMc, McParam, Accesses, eighth, with_dynamic, with_refresh}

pub record FrontEnd (F : Type 0) : Type 0 where
  pub mcp : McParam F
  pub memory_reads : F
  pub memory_writes : F
  pub frontend_buffer : ArraySt F
  pub read_buffer : ArraySt F
  pub write_buffer : ArraySt F
  pub area : F
  pub power : PowerDef F
  pub rt_power : PowerDef F

-- What a constructor of ArrayST needs of its surroundings: CACTI, the g_tp that it leaves, the option
-- -opt_for_clk and error_checking().
pub record Arrays (F : Type 0) : Type 0 where
  pub cacti_interface : InputParameter F → UcaOrg F
  pub g_tp : InputParameter F → Technology F
  pub opt_for_clk : Bool
  pub error_checking : InputParameter F → InputParameter F

module _ {F : Type 0} ⦃d : Double F⦄ where
  -- EXTRA_TAG_BITS is 5.
  abbrev pub reorder_interface : SystemMc F → McParam F → InputParameter F → InputParameter F
  reorder_interface s p ip =
      let bytes = eighth d (s.physical_address_width + p.opcode_w) in
      record ip {
        cache_sz = bytes * s.req_window_size_per_channel;
        line_sz = bytes;
        assoc = 0;
        nbanks = 1;
        out_w = bytes * 8;
        specific_tag = true;
        tag_w = p.address_bus_width + 5 + p.opcode_w;
        access_mode = 0;
        throughput = d.lit 10 1 ⊘ p.clock_rate;
        latency = d.lit 10 1 ⊘ p.clock_rate;
        is_cache = true;
        pure_cam = false;
        pure_ram = false;
        obj_func_dyn_energy = 0;
        obj_func_dyn_power = 0;
        obj_func_leak_power = 0;
        obj_func_cycle_t = 1;
        num_rw_ports = 0;
        num_rd_ports = s.memory_channels_per_mc;
        num_wr_ports = s.memory_channels_per_mc;
        num_se_rd_ports = 0;
        num_search_ports = s.memory_channels_per_mc;
      }

  abbrev pub read_interface : SystemMc F → McParam F → InputParameter F → InputParameter F
  read_interface s p ip =
      let bytes = eighth d p.data_bus_width in
      record ip {
        cache_sz = bytes * s.io_buffer_size_per_channel;
        line_sz = bytes;
        assoc = 1;
        nbanks = 1;
        out_w = bytes * 8;
        access_mode = 1;
        throughput = d.lit 10 1 ⊘ p.clock_rate;
        latency = d.lit 10 1 ⊘ p.clock_rate;
        is_cache = false;
        pure_cam = false;
        pure_ram = true;
        obj_func_dyn_energy = 0;
        obj_func_dyn_power = 0;
        obj_func_leak_power = 0;
        obj_func_cycle_t = 1;
        num_rw_ports = 0;
        num_rd_ports = s.memory_channels_per_mc;
        num_wr_ports = s.memory_channels_per_mc;
        num_se_rd_ports = 0;
      }

  -- The fields that the source sets again are those of the read buffer, but for the access mode.
  abbrev pub write_interface : SystemMc F → McParam F → InputParameter F → InputParameter F
  write_interface s p ip = record (read_interface s p ip) { access_mode = 0 }

  -- local_result is overwritten before it is read.
  abbrev pub new_buffer : Arrays F → String → InputParameter F → Option (ArraySt F)
  new_buffer arrays name ip = do
    (a, warned) ←
        Array.construct arrays.cacti_interface (arrays.g_tp ip) arrays.opt_for_clk
          arrays.error_checking
          (record {
            l_ip = ip;
            name = name;
            device_ty = DeviceTy.uncore_device;
            opt_local = true;
            core_ty = CoreType.inorder;
            is_default = true;
            local_result = arrays.cacti_interface ip;
          })
    some a

  unfoldable pub construct :
      Arrays F → SystemMc F → InputParameter F → McParam F → Option (FrontEnd F)
  construct arrays s ip p = do
    let ip1 = reorder_interface s p ip
    let ip2 = read_interface s p ip1
    let ip3 = write_interface s p ip2
    reorder ← new_buffer arrays "MC ReorderBuffer" ip1
    read ← new_buffer arrays "MC ReadBuffer" ip2
    write ← new_buffer arrays "MC writeBuffer" ip3
    let channels = d.nat s.memory_channels_per_mc
    some (record {
      mcp = p;
      memory_reads = s.memory_reads;
      memory_writes = s.memory_writes;
      frontend_buffer = reorder;
      read_buffer = read;
      write_buffer = write;
      area =
          d.nat 0
          ⊕ reorder.local_result.area ⊗ channels
          ⊕ read.local_result.area ⊗ channels
          ⊕ write.local_result.area ⊗ channels;
      power = no_power;
      rt_power = no_power;
    })

  -- Words on the bus: accesses * llcBlockSize * 8.0 / dataBusWidth
  abbrev pub words : McParam F → F → F
  words p accesses = accesses ⊗ d.nat p.llc_block_size ⊗ d.lit 80 1 ⊘ d.nat p.data_bus_width

  -- Each word is checked on every DIMM.
  abbrev pub checks : McParam F → F → F
  checks p accesses = words p accesses ⊗ d.nat p.data_bus_width ⊘ d.nat 72

  abbrev pub reorder_accesses : Bool → FrontEnd F → Accesses F
  reorder_accesses true c = record {
    read = d.nat c.frontend_buffer.l_ip.num_search_ports;
    write = d.nat c.frontend_buffer.l_ip.num_wr_ports;
  }
  reorder_accesses false c = record {
    read = checks c.mcp c.memory_reads;
    write = checks c.mcp c.memory_writes;
  }

  abbrev pub shared_ports : McParam F → ArraySt F → Accesses F
  shared_ports p a = record {
    read = d.nat a.l_ip.num_rd_ports ⊗ p.frontend_duty_cycle;
    write = d.nat a.l_ip.num_wr_ports ⊗ p.frontend_duty_cycle;
  }

  -- Every word that is read goes into the read buffer and out of it.
  abbrev pub read_accesses : Bool → FrontEnd F → Accesses F
  read_accesses true c = shared_ports c.mcp c.read_buffer
  read_accesses false c = record {
    read = words c.mcp c.memory_reads;
    write = words c.mcp c.memory_reads;
  }

  abbrev pub write_accesses : Bool → FrontEnd F → Accesses F
  write_accesses true c = shared_ports c.mcp c.write_buffer
  write_accesses false c = record {
    read = words c.mcp c.memory_writes;
    write = words c.mcp c.memory_writes;
  }

  -- power_t of a buffer, from reset
  abbrev pub buffer_power : Accesses F → ArraySt F → PowerDef F
  buffer_power s a =
      let p = a.local_result.power in
      with_dynamic (d.nat 0 ⊕ (s.read ⊗ p.read_op.dynamic ⊕ s.write ⊗ p.write_op.dynamic)) no_power

  -- A reorder buffer is searched at each access.
  abbrev pub reorder_power : Accesses F → ArraySt F → PowerDef F
  reorder_power s a =
      let p = a.local_result.power in
      with_dynamic
        (d.nat 0
          ⊕ ((s.read ⊕ s.write) ⊗ p.search_op.dynamic
              ⊕ s.read ⊗ p.read_op.dynamic
              ⊕ s.write ⊗ p.write_op.dynamic))
        no_power

  -- What an evaluation adds to power or to rt_power.
  abbrev pub add_buffers : Bool → FrontEnd F → PowerDef F → PowerDef F
  add_buffers is_tdp c p =
      add_power
        (add_power
          (add_power (add_power p (reorder_power (reorder_accesses is_tdp c) c.frontend_buffer))
            (buffer_power (read_accesses is_tdp c) c.read_buffer))
          (buffer_power (write_accesses is_tdp c) c.write_buffer))
        (scale_power
          (add_power
            (add_power c.frontend_buffer.local_result.power c.read_buffer.local_result.power)
            c.write_buffer.local_result.power)
          pppm_lkg)

  unfoldable pub compute_energy : Bool → FrontEnd F → FrontEnd F
  compute_energy is_tdp c =
      if is_tdp
      then record c { power = add_buffers true c c.power }
      else record c { rt_power = with_refresh c.mcp c.power (add_buffers false c c.rt_power) }
