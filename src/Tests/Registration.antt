-- ===== src/Tests/Registration.antt =====
-- Registration and deletion at concrete NISDs.
use niova_mdsvc.Prelude.{◌≡◌, refl, sym, ok, length, add64, sub64, ◌*◌}
use niova_mdsvc.BTree.Lists.{lists}
use niova_mdsvc.CpLib.{Nisd, fd_max, chunk_size}
use niova_mdsvc.Hierarchy.{write, Hierarchy, init, add_nisd, delete_nisd, remove_nisd_from_device}
use niova_mdsvc.Hierarchy.Devices.{sum_sizes, has_nisd, IsCounted}
use niova_mdsvc.Hierarchy.Devices.Resize.{points, remove_nisd_from_device-stale}
use niova_mdsvc.Hierarchy.Register.{Levelwise, Gains, Loses, init-IsSound, IsSound-Gains}
use niova_mdsvc.Hierarchy.Register.Rounds.{add_nisd-Gains, delete_nisd-Loses}
use niova_mdsvc.Tests.{nisd_a, heap, device_a}

add_nisd-Gains_example :
    (gs : Hierarchy lists) × (add_nisd lists heap 0 (init lists) ≡ ok gs)
    × Levelwise lists
        (Gains lists heap "dev-1" "nisd-a")
        nisd_a.failure_domain
        (init lists).fd
        gs.fd
    × (length gs.fd ≡ fd_max)
add_nisd-Gains_example =
    add_nisd-Gains lists heap 0 (init lists) refl (init-IsSound lists heap).0
      (init-IsSound lists heap).1

abbrev registered :
    (gs : Hierarchy lists) × (add_nisd lists heap 0 (init lists) ≡ ok gs)
    × Levelwise lists
        (Gains lists heap "dev-1" "nisd-a")
        nisd_a.failure_domain
        (init lists).fd
        gs.fd
    × (length gs.fd ≡ fd_max)
registered =
    add_nisd-Gains lists heap 0 (init lists) refl (init-IsSound lists heap).0
      (init-IsSound lists heap).1

delete_nisd-Loses_example :
    (gs : Hierarchy lists) × (delete_nisd lists heap 0 registered.0 ≡ ok gs)
    × Levelwise lists
        (Loses lists heap "dev-1" "nisd-a")
        nisd_a.failure_domain
        registered.0.fd
        gs.fd
    × (length gs.fd ≡ fd_max)
delete_nisd-Loses_example = delete_nisd-Loses lists heap 0 registered.0 refl registered.3 (
    IsSound-Gains lists heap "dev-1" "nisd-a" nisd_a.failure_domain (init lists).fd registered.0.fd
      (sym (init-IsSound lists heap).0) registered.2)

device_a-IsCounted : IsCounted heap device_a
device_a-IsCounted = record {
  counted = unfold sum_sizes in refl;
  distinct = (unfold has_nisd in refl, tt);
}

-- The NISD 0 after a chunk was taken from it.
abbrev with_two_chunks : Nisd
with_two_chunks = record nisd_a { available_size = 2 * chunk_size }

abbrev full : Nisd
full = record nisd_a { available_size = 0 }

remove_nisd_from_device-stale_example :
    let dn' = (remove_nisd_from_device (write heap 0 full) device_a "nisd-a").0 in
    dn'.available_size ≡ add64 (sum_sizes (write heap 0 full) dn'.nisds) (sub64 (3 * chunk_size) 0)
remove_nisd_from_device-stale_example =
    remove_nisd_from_device-stale heap 0 full device_a refl (unfold points in refl)
      device_a-IsCounted
