-- ===== src/Serializer/RoundTrip.antt =====
-- A message holds the whole snapshot.
use kvadra_top.Base.{◌≡◌, refl, Option, some, List, [], ◌∷◌, map}
use kvadra_top.Real.{Double}
use kvadra_top.Snapshot.{
  CpuCore, CpuSnapshot, MemorySnapshot, NetworkInterface, DiskDevice, ProcessEntry, SystemInfo,
  Snapshot,
}
use kvadra_top.Serializer.Json.{Json, items_of}
use kvadra_top.Serializer.Build.{
  core_tree, cpu_tree, memory_tree, interface_tree, device_tree, process_tree, system_tree,
  snapshot_tree,
}
use kvadra_top.Serializer.Decode.{
  read_items, read_core, read_cpu, read_memory, read_interface, read_device, read_process,
  read_system, read_snapshot,
}

read_items-map :
    {R A : Type 0} (write : A → Json R) (read : Json R → Option A)
    → ((a : A) → read (write a) ≡ some a)
    → (as' : List A) → read_items read (items_of (map write as')) ≡ some as'
unfolding read_items items_of
read_items-map write read h [] = refl
read_items-map write read h (a ∷ as') = rw (h a) (rw (read_items-map write read h as'))

module _ (d : Double) where
  read-core_tree : (c : CpuCore d) → read_core d (core_tree d c) ≡ some c
  unfolding read_core core_tree
  read-core_tree c = refl

  read-memory_tree : (m : MemorySnapshot d) → read_memory d (memory_tree d m) ≡ some m
  unfolding read_memory memory_tree
  read-memory_tree m = refl

  read-interface_tree : (n : NetworkInterface d) → read_interface d (interface_tree d n) ≡ some n
  unfolding read_interface interface_tree
  read-interface_tree n = refl

  read-device_tree : (x : DiskDevice d) → read_device d (device_tree d x) ≡ some x
  unfolding read_device device_tree
  read-device_tree x = refl

  read-process_tree : (p : ProcessEntry d) → read_process d (process_tree d p) ≡ some p
  unfolding read_process process_tree
  read-process_tree p = refl

  read-system_tree : (s : SystemInfo d) → read_system d (system_tree d s) ≡ some s
  unfolding read_system system_tree
  read-system_tree s = refl

  read-cpu_tree : (c : CpuSnapshot d) → read_cpu d (cpu_tree d c) ≡ some c
  unfolding read_cpu cpu_tree
  read-cpu_tree c = rw (read_items-map (core_tree d) (read_core d) read-core_tree c.cores) refl

  -- Every part of a snapshot can be read back from the tree that is printed: field by field, under the
  -- names and with the kinds of value that the reader expects, and lists in their order.
  pub read-snapshot_tree : (s : Snapshot d) → read_snapshot d (snapshot_tree d s) ≡ some s
  unfolding read_snapshot snapshot_tree
  read-snapshot_tree s =
      rw (read_items-map (core_tree d) (read_core d) read-core_tree s.cpu.cores) (
        rw (read_items-map (interface_tree d) (read_interface d) read-interface_tree s.network) (
          rw (read_items-map (device_tree d) (read_device d) read-device_tree s.disk) (
            rw (read_items-map (process_tree d) (read_process d) read-process_tree s.processes)
              refl)))
