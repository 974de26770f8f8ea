-- ===== src/Info/Examples.antt =====
-- Runs of the readers, and their theorem at a concrete input.
use kvadra_top.Base.{◌≢◌, ◌≡◌, refl, some, none, [], ◌∷◌, arith}
use kvadra_top.Text.{pos, negsuc, Bytes, codes, lines, starts_with}
use kvadra_top.Info.Release.{os_name}
use kvadra_top.Info.Kernel.{kernel}
use kvadra_top.Info.Gather.{Machine, cpu_count, collect}
use kvadra_top.Info.Counts.{AtLeast, collect_defaults}
use kvadra_top.Real.Fixed.{fixed}
use kvadra_top.Info.Names.{os_name_lem}

abbrev text : Bytes
text = codes "ID=arch\nPRETTY_NAME=\"Arch Linux\"\nPRETTY_NAME=\"Other\"\n"

os_name_lem_example : os_name (some text) ≡ codes "Arch Linux"
unfolding lines starts_with
os_name_lem_example =
    os_name_lem text (codes "Arch Linux") (codes "ID=arch" ∷ [])
      (codes "PRETTY_NAME=\"Other\"" ∷ []) refl (refl, tt) (ground arith)

os_name_default : os_name none ≡ codes "Linux"
unfolding os_name
os_name_default = refl

kernel_run :
    kernel (some (codes "Linux version 6.9.1-arch1 (gcc) #1 SMP\n"))
    ≡ codes "Linux version 6.9.1-arch1"
unfolding kernel
kernel_run = refl

-- A machine that tells nothing.
abbrev bare : Machine
bare = record {
  host = none;
  host_file = none;
  version = none;
  os_release = none;
  uptime = none;
  cpuinfo = some (codes "model name: x\n");
  online = negsuc 0;
}

abbrev cpuinfo : Bytes
cpuinfo = codes "processor: 0\nbogomips\nprocessor: 1\n"

collect_defaults_example :
    ((collect fixed (record bare { cpuinfo = some cpuinfo })).os_name ≢ [])
    × ((collect fixed (record bare { cpuinfo = some cpuinfo })).cpu_count ≡ pos 2)
    × AtLeast 1 (collect fixed (record bare { cpuinfo = some cpuinfo })).cpu_count
unfolding lines starts_with
collect_defaults_example =
    collect_defaults fixed (record bare { cpuinfo = some cpuinfo }) (omega arith) tt

two_processors : cpu_count (some cpuinfo) (pos 8) ≡ pos 2
unfolding cpu_count
two_processors = refl

falls_back : cpu_count none (pos 8) ≡ pos 8
unfolding cpu_count
falls_back = refl
