-- ===== src/Description/L2Directory.antt =====
-- system_L2Directory of fast_mcpat/XML_Parse.h, and what fast_mcpat/XML_Parse.cc reads of it.
use wattwatcher.Prelude.{ℕ, List, [], ◌∷◌, String}
use wattwatcher.Double.{Double}
use wattwatcher.Text.{ℤ}
use wattwatcher.Description.{Entry, int, double, text, ints, doubles}

pub record SystemL2Directory (F : Type 0) : Type 0 where
  pub directory_type : ℤ
  pub dir_config : ℕ → F
  pub buffer_sizes : ℕ → ℤ
  pub clockrate : ℤ
  pub ports : ℕ → ℤ
  pub device_type : ℤ
  pub cache_policy : ℤ
  pub three_d_stack : String
  pub vdd : F
  pub power_gating_vcc : F
  pub total_accesses : F
  pub read_accesses : F
  pub write_accesses : F
  pub read_misses : F
  pub write_misses : F
  pub conflicts : F
  pub duty_cycle : F

module _ {F : Type 0} ⦃d : Double F⦄ where
  unfoldable pub l2_directory_params : List (Entry F (SystemL2Directory F))
  l2_directory_params =
      doubles "Dir_config" (λ r. r.dir_config) (λ v r. record r { dir_config = v })
      ∷ ints "buffer_sizes" (λ r. r.buffer_sizes) (λ v r. record r { buffer_sizes = v })
      ∷ int "clockrate" (λ v r. record r { clockrate = v })
      ∷ double "vdd" (λ v r. record r { vdd = v })
      ∷ double "power_gating_vcc" (λ v r. record r { power_gating_vcc = v })
      ∷ int "Directory_type" (λ v r. record r { directory_type = v })
      ∷ ints "ports" (λ r. r.ports) (λ v r. record r { ports = v })
      ∷ int "device_type" (λ v r. record r { device_type = v })
      ∷ text "3D_stack" (λ v r. record r { three_d_stack = v })
      ∷ []

  unfoldable pub l2_directory_stats : List (Entry F (SystemL2Directory F))
  l2_directory_stats =
      double "total_accesses" (λ v r. record r { total_accesses = v })
      ∷ double "read_accesses" (λ v r. record r { read_accesses = v })
      ∷ double "write_accesses" (λ v r. record r { write_accesses = v })
      ∷ double "read_misses" (λ v r. record r { read_misses = v })
      ∷ double "write_misses" (λ v r. record r { write_misses = v })
      ∷ double "conflicts" (λ v r. record r { conflicts = v })
      ∷ double "duty_cycle" (λ v r. record r { duty_cycle = v })
      ∷ []

  -- ports[20] = 1, where device_type lies behind ports.
  abbrev pub write_behind_ports : SystemL2Directory F → SystemL2Directory F
  write_behind_ports r = record r { device_type = ℤ.pos 1 }

  unfoldable pub initialize_l2_directory : SystemL2Directory F → SystemL2Directory F
  initialize_l2_directory r = record (write_behind_ports r) {
    dir_config = λ j. d.nat 1;
    buffer_sizes = λ j. ℤ.pos 1;
    clockrate = ℤ.pos 1;
    device_type = ℤ.pos 1;
    vdd = d.nat 0;
    power_gating_vcc = d.neg (d.nat 1);
    three_d_stack = "default";
    total_accesses = d.nat 1;
    read_accesses = d.nat 1;
    write_accesses = d.nat 1;
    duty_cycle = d.nat 1;
  }
