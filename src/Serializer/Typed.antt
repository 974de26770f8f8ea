-- ===== src/Serializer/Typed.antt =====
-- Messages have the types that the browser declares.
use kvadra_top.Base.{◌≡◌, refl, true, ◌∷◌, [], List, map, Bool}
use kvadra_top.Real.{Double}
use kvadra_top.Snapshot.{CpuCore, NetworkInterface, DiskDevice, ProcessEntry, Snapshot}
use kvadra_top.Serializer.Json.{Json, items_of}
use kvadra_top.Serializer.Build.{
  core_tree, interface_tree, device_tree, process_tree, snapshot_tree,
}
use kvadra_top.Serializer.Shape.{
  has_shape, all_items, cpu_core, network_interface, disk_device, process_entry, snapshot,
}

all_items-map :
    {R A : Type 0} (write : A → Json R) (p : Json R → Bool)
    → ((a : A) → p (write a) ≡ true)
    → (xs : List A) → all_items p (items_of (map write xs)) ≡ true
unfolding all_items items_of
all_items-map write p h [] = refl
all_items-map write p h (x ∷ xs) = rw (h x) (all_items-map write p h xs)

module _ (d : Double) where
  core_tree-shape : (c : CpuCore d) → has_shape cpu_core (core_tree d c) ≡ true
  unfolding has_shape core_tree
  core_tree-shape c = refl

  interface_tree-shape :
      (n : NetworkInterface d) → has_shape network_interface (interface_tree d n) ≡ true
  unfolding has_shape interface_tree
  interface_tree-shape n = refl

  device_tree-shape : (x : DiskDevice d) → has_shape disk_device (device_tree d x) ≡ true
  unfolding has_shape device_tree
  device_tree-shape x = refl

  process_tree-shape : (p : ProcessEntry d) → has_shape process_entry (process_tree d p) ≡ true
  unfolding has_shape process_tree
  process_tree-shape p = refl

  -- Every message has exactly the members that the browser's interfaces declare, at every level, each
  -- with a number, a string, a list or a triple of numbers as declared.
  pub snapshot_tree-shape : (s : Snapshot d) → has_shape snapshot (snapshot_tree d s) ≡ true
  unfolding has_shape snapshot_tree
  snapshot_tree-shape s =
      rw (all_items-map (core_tree d) (has_shape cpu_core) core_tree-shape s.cpu.cores) (
        rw
          (all_items-map (interface_tree d) (has_shape network_interface) interface_tree-shape
            s.network)
          (rw (all_items-map (device_tree d) (has_shape disk_device) device_tree-shape s.disk) (
            rw
              (all_items-map (process_tree d) (has_shape process_entry) process_tree-shape
                s.processes)
              refl)))
