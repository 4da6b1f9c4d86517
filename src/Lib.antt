-- ===== src/Lib.antt =====
-- McPAT, the power, area and timing model that WattWatcher runs on the counters it has collected.
--
-- The program reads a description of a chip, lets CACTI organise its arrays, wires and routers, and
-- adds up area, peak power and run-time power. The parts and the files that model them:
--
--   Main           main of fast_mcpat/main.cc: the command line. `scan` is the for loop, `body` one
--                  round of it; the end of argv is a fault, and so is a number that an int does not
--                  hold.
--   Description    ParseXML of fast_mcpat/XML_Parse.cc: `parse` in Parse, with `read_cores`, `read_kind`,
--                  `read_networks` and `read_controllers` for its loops, `initialize` in Initialize, and
--                  what is done with one component in Components. Each loop over params or stats is a
--                  table of names in the file of its struct, which `read_items` goes through. Taking is
--                  a simpler reader of the same components, to compare with.
--   Processor      Processor::Processor of fast_mcpat/processor.cc: `construct` with `add_caches` for
--                  cores, caches and directories and `add_controllers` for the controllers. What
--                  set_proc_param does is System.proc_param and System.proc_interface.
--   Total          what the loops of that constructor do with equal and with different units.
--   Network        the three loops of that constructor over the networks on chip.
--   Noc            class NoC of fast_mcpat/noc.cc: set_noc_param, the constructor, init_router,
--                  init_link_bus and computeEnergy (`compute_energy`).
--   Interconnect   class interconnect of fast_mcpat/interconnect.cc: `construct`, `compute` and
--                  `leakage_feedback`.
--   Array          class ArrayST of fast_mcpat/array.cc: `compute_base_power`, `optimize_array` with
--                  its loop (`search`, one round of it `round`), `construct` and `leakage_feedback`.
--   Overhead       the second half of optimize_array and of leakage_feedback: one bank's power
--                  becomes that of the array.
--   IoControllers  the three classes of fast_mcpat/iocontrollers.cc, in Niu, Pcie and Flash.
--   MemoryCtrl     the classes of fast_mcpat/memoryctrl.cc: MCFrontEnd in FrontEnd, MCBackend in
--                  Backend, MCPHY in Phy and MemoryController in Controller.
--   Core           Core::set_core_param of fast_mcpat/core.cc: what a core reads of the description, in
--                  Param.
--   SharedCache    class SharedCache of fast_mcpat/sharedcache.cc: set_cache_param, which is what a shared
--                  cache or a directory reads of the description, and computeEnergy (`compute_energy` in
--                  Evaluate), with its counts in Energy.
--   Text           the functions of C's library on texts: atoi, with the range of an int, atof and strstr.
--   Devices        the device functions of CACTI that the controllers call.
--   Basic          the reduction factors of fast_mcpat/basic_components.cc.
--   Power, Cacti   the data that all parts exchange, of fast_mcpat/cacti/cacti_interface.h, and the
--                  operators on powers of fast_mcpat/cacti/io.cc.
--   System         the fields of fast_mcpat/XML_Parse.h that the modelled parts read.
--   Double         the numbers; Prelude the shared names and rules; Samples the data of the tests.
--
-- Processor uses Network, which uses Noc, which uses Interconnect. A core, a cache or a
-- controller enters the processor as a Part, its figures after computeEnergy; the modelled controllers
-- have a function `part` that gives theirs. The constructors of cores and caches run inside that of the
-- processor, and what `construct` takes are parts whose constructors have returned: a run that exits in
-- one of them, as set_core_param may, does not reach the rest, and is not a `none` of `construct`. The buffers of a memory controller are arrays of Array.
--
-- Numbers. A double is an element of a type F with the operations of the record Double, so that the
-- definitions fix the order of every operation; rounding is not modelled. Where a theorem needs more of
-- the numbers, the laws of exact arithmetic (IsExact) or of the order (IsOrdered) are its hypothesis.
-- Counts that the program keeps in an int are natural numbers; those that it divides as ints are
-- divided as natural numbers. global_linked_ports may be negative and is an F.
--
-- CACTI is not modelled: its cacti_interface, reconfigure, Wire, Router and device functions are
-- arguments of the definitions, and so is what they leave in the global g_tp. A run that an assert or an
-- exit stops is `none`.
--
-- Loops. The search of an array has fuel for eight evaluations, since its deviation falls from 100 by
-- tens and the loop goes on only above 20. A wire has fuel for two widenings, since it starts at a
-- scaling of 1, doubles, and goes on only below 3. The loop over the command line has fuel for as many
-- rounds as there are words, since each round takes at least one. All other loops are structural.
--
-- The document that `parse` reads is a tree of components with their params and stats, as the XML library
-- of the repository gives it; an attribute may be missing. A null pointer for a text, a text or a list
-- that does not fit its array, an index of a component behind its array and atoi of a number that an int
-- does not hold are faults, an exit is `stopped`. The order of the components is an unsigned int and wraps
-- at 2 ^ 32. `initialize`, which `parse` calls first on every run, writes behind three arrays
-- (fast_mcpat/XML_Parse.cc:1674, 1690 and 1809), which C++ does not define: in the model these writes hit
-- the field that is declared next, and `write_low` is what the third makes of a double. `read_document` is
-- all of `parse` after `initialize`, from any state that it may leave.
--
-- Not modelled: logic blocks, the parts of the cores and their energy, and the constructor of the shared
-- caches, so that the figures of cores and caches are Parts; the XML library; the step from the
-- description to the records of System, which hold the same fields; the reports, which print; freeing
-- memory; and the scripts around the program.
pub mod Prelude
pub mod Double
pub mod Text
pub mod Description
pub mod Power
pub mod Basic
pub mod Cacti
pub mod Overhead
pub mod Array
pub mod Interconnect
pub mod Total
pub mod System
pub mod Noc
pub mod Network
pub mod Devices
pub mod IoControllers
pub mod MemoryCtrl
pub mod Processor
pub mod Main
pub mod SharedCache
pub mod Core
pub mod Samples
