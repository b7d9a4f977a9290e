-- ===== src/Vm/Tests/Machines.antt =====
-- Examples: the theorems on machines, at a small host.
use cocoon_macos.Base.{
  pos, map, true, false, List, [], ◌∷◌, ◌++◌, some, ◌≡◌, refl, ◌⊎◌, ◌≤◌, length, any, ◌==◌,
}
use cocoon_macos.Text.{Bytes, codes, contains, split, has_substring, text_eq}
use cocoon_macos.Fault.{Error, ok, fault}
use cocoon_macos.Io.{pure}
use cocoon_macos.Vm.Create.{create, checked_flags}
use cocoon_macos.Vm.Create.FailFast.{create-fails_fast}
use cocoon_macos.Vm.Record.{VmRecord, qemu_binary}
use cocoon_macos.Vm.Host.{Host, Flags, Read}
use cocoon_macos.Vm.Store.{load_rec, record_path, with_vm_locks, vm_lock_path}
use cocoon_macos.Vm.Vnc.{validate_vnc_password}
use cocoon_macos.Vm.Vnc.Token.{IsSent, set_vnc_password-sends}
use cocoon_macos.Vm.Monitor.{trim_all, hmp_replied, read_until, set_vnc_password}
use cocoon_macos.Vm.Monitor.Replies.{
  is_nonempty, without_echo, significant, chunks, hmp_replied_lem, read_until-chunks,
}
use cocoon_macos.Vm.Process.{
  qemu_pid_path, vm_dir_prefix, is_running, reconcile_running_qemu, reset_incomplete_vm_dir,
}
use cocoon_macos.Vm.Process.Incomplete.{IsMissing, reset_incomplete_vm_dir-guard}
use cocoon_macos.Vm.Process.Adopt.{IsAdopted, reconcile_running_qemu-IsAdopted}
use cocoon_macos.Vm.Lifecycle.{rm_vm, stop_vm}
use cocoon_macos.Vm.Lifecycle.Removal.{HasReaped, HasTornDown, rm_vm-guard}
use cocoon_macos.Vm.Lifecycle.Halt.{IsHalted, stop_vm-IsHalted}
use cocoon_macos.Vm.DataDisk.Fresh.{IsFresh}
use cocoon_macos.Vm.Snapshot.{snapshot_all_or_nothing, snapshot_vm}
use cocoon_macos.Vm.Snapshot.Guard.{IsReady, snapshot_vm-guard}
use cocoon_macos.Vm.Gc.{try_lock_vm_dirs}
use cocoon_macos.Vm.Gc.LockAll.{AllOrNone, try_lock_vm_dirs-AllOrNone}
use cocoon_macos.Vm.Snapshot.AllOrNothing.{Outcome, snapshot_all_or_nothing-Outcome}
use cocoon_macos.Vm.Tests.Toy.{Desk, toy, toy_flags, toy_record, desk}
use cocoon_macos.Vm.Tests.Toy.Laws.{toy-Frame, toy-Records, toy_images, toy_locks}

abbrev images : List Bytes
images = codes "/vms/m/disk.qcow2" ∷ codes "/vms/m/data-x.qcow2" ∷ []

not_tagged : (j : Bytes) → contains (desk.tags j) (codes "t") ≡ false
unfolding contains
not_tagged j = refl

distinct : IsFresh [] images
unfolding contains
distinct = (refl, (refl, tt))

snapshot_all_or_nothing-Outcome_example :
    Outcome toy toy_images
      (codes "t")
      desk
      not_tagged
      images
      (snapshot_all_or_nothing toy images (codes "t") desk)
snapshot_all_or_nothing-Outcome_example =
    snapshot_all_or_nothing-Outcome toy toy_images (codes "t") desk not_tagged images distinct

reset_incomplete_vm_dir-guard_example :
    ((reset_incomplete_vm_dir toy (codes "/vms/n") desk).1.paths ≡ desk.paths)
    ⊎ (IsMissing (toy.stat (record_path (codes "/vms/n")) (toy.stat (codes "/vms/n") desk).1).0
        × ((toy.find_vmm qemu_binary
              (vm_dir_prefix (codes "/vms/n"))
              (toy.stat (record_path (codes "/vms/n")) (toy.stat (codes "/vms/n") desk).1).1).0
            ≡ ok []))
reset_incomplete_vm_dir-guard_example =
    reset_incomplete_vm_dir-guard toy (λ w. w.paths) toy-Frame (codes "/vms/n") desk

abbrev with_record : Desk
with_record = record desk { kept = some toy_record }

rm_vm-guard_example :
    ((rm_vm toy toy_flags (codes "m") (codes "/vms/m") with_record).1.paths ≡ with_record.paths)
    ⊎ (HasReaped toy (codes "/vms/m") (toy.stat (codes "/vms/m") with_record).1
        ⊎ HasTornDown toy toy_flags (codes "/vms/m") (toy.stat (codes "/vms/m") with_record).1)
rm_vm-guard_example =
    rm_vm-guard toy toy_flags (λ w. w.paths) toy-Frame (codes "m") (codes "/vms/m") with_record

reconcile_running_qemu-IsAdopted_example :
    ((is_running toy toy_record with_record ≡ true) × (false ≡ true) × (toy_record ≡ toy_record))
    ⊎ ((is_running toy toy_record with_record ≡ false)
        × IsAdopted toy_record
            (toy.find_vmm qemu_binary (qemu_pid_path toy_record.disk) with_record).0
            false
            toy_record)
unfolding reconcile_running_qemu is_running cocoon_macos.Vm.Process.adopt
reconcile_running_qemu-IsAdopted_example =
    reconcile_running_qemu-IsAdopted toy (codes "/vms/m") toy_record with_record refl

stop_vm-IsHalted_example :
    (r : VmRecord) × ((load_rec toy
        (codes "/vms/m")
        (stop_vm toy toy_flags (codes "m") (codes "/vms/m") with_record).1).0
      ≡ ok r)
    × IsHalted r
unfolding stop_vm load_rec reconcile_running_qemu is_running cocoon_macos.Vm.Process.adopt
    cocoon_macos.Vm.Process.stop_instance cocoon_macos.Vm.Lifecycle.grace_from_flags
    cocoon_macos.Vm.VncProxy.stop_vnc_proxy cocoon_macos.Vm.Process.terminate
    cocoon_macos.Vm.Net.toggle_net cocoon_macos.Vm.Store.save_rec
stop_vm-IsHalted_example =
    stop_vm-IsHalted toy toy_flags toy-Records (codes "m") (codes "/vms/m") with_record refl

-- a monitor that answers each line, on a host whose paths are the lines that it was sent
abbrev talking : Host
talking = record toy {
  dial_monitor = λ sock. pure ((codes "(qemu) ", false) ∷ []);
  send_line = λ sock line w.
      (ok ((codes "(qemu) ", false) ∷ []), record w { paths = w.paths ++ line ∷ [] });
}

accepts_secret : validate_vnc_password (codes "secret") ≡ ok tt
unfolding validate_vnc_password cocoon_macos.Text.Space.has_unsafe_rune
    cocoon_macos.Text.Space.space_width
accepts_secret = refl

set_vnc_password-sends_example :
    (length (codes "secret") ≤ 8)
    × (any (λ c. c == b'"') (codes "secret") ≡ false)
    × ((line : Bytes) × (split b'\n' (line ++ b'\n' ∷ []) ≡ line ∷ [] ∷ [])
        × (split b' ' line ≡ codes "set_password" ∷ codes "vnc" ∷ codes "secret" ∷ [])
        × IsSent talking
            (λ w. w.paths)
            (λ sock line w. refl)
            (λ sock. record { at = λ w. refl })
            (λ sock. record { at = λ w. refl })
            line
            desk
            (set_vnc_password talking (codes "/vms/m/monitor.sock") (codes "secret") desk))
set_vnc_password-sends_example =
    set_vnc_password-sends talking (λ w. w.paths) (λ sock line w. refl)
      (λ sock. record { at = λ w. refl }) (λ sock. record { at = λ w. refl })
      (codes "/vms/m/monitor.sock") (codes "secret") desk accepts_secret

abbrev answer : Bytes
answer = codes "system_powerdown" ++ (b'\r' ∷ b'\n' ∷ codes "error") ++ (b'\n' ∷ codes "(qemu) ")

hmp_replied_lem_example :
    hmp_replied answer (codes "system_powerdown")
    ≡ is_nonempty
        (without_echo (codes "system_powerdown") (significant (trim_all (split b'\n' answer))))
hmp_replied_lem_example = hmp_replied_lem answer (codes "system_powerdown")

abbrev two_reads : List Read
two_reads = (codes "QEMU (qe", false) ∷ (codes "mu) ", false) ∷ []

read_until-chunks_example :
    (has_substring (read_until (codes "(qemu) ") [] two_reads).0 (codes "(qemu) ") ≡ true)
    × ((read_until (codes "(qemu) ") [] two_reads).0
          ++ chunks (read_until (codes "(qemu) ") [] two_reads).2
        ≡ [] ++ chunks two_reads)
unfolding read_until has_substring
read_until-chunks_example = read_until-chunks (codes "(qemu) ") [] two_reads refl

try_lock_vm_dirs-AllOrNone_example :
    AllOrNone toy toy_locks desk
      (map vm_lock_path (codes "/vms/m" ∷ codes "/vms/busy" ∷ []))
      (try_lock_vm_dirs toy (codes "/vms/m" ∷ codes "/vms/busy" ∷ []) desk)
try_lock_vm_dirs-AllOrNone_example =
    try_lock_vm_dirs-AllOrNone toy toy_locks desk (codes "/vms/m" ∷ codes "/vms/busy" ∷ [])

snapshot_vm-guard_example :
    ((snapshot_vm toy (codes "/vms/m") (codes "t") with_record).1.paths ≡ with_record.paths)
    ⊎ IsReady toy (codes "/vms/m") (codes "t") with_record
snapshot_vm-guard_example =
    snapshot_vm-guard toy (λ w. w.paths) toy-Frame (codes "/vms/m") (codes "t") with_record

abbrev odd_cpus : Flags
odd_cpus = record toy_flags { cpus = pos 3 }

abbrev odd : Error
odd = fault "--cpus must be a positive even number, got %d"

create-fails_fast_example : (create toy odd_cpus (codes "sonoma") (codes "m") desk).1 ≡ desk
unfolding checked_flags cocoon_macos.Vm.DataDisk.parse_data_disks
    cocoon_macos.Vm.DataDisk.parse_specs cocoon_macos.Vm.DataDisk.claim_names
    cocoon_macos.Vm.DataDisk.auto_names cocoon_macos.Vm.Provision.validate_macos_cpus
create-fails_fast_example =
    create-fails_fast toy odd_cpus (codes "sonoma") (codes "m") desk odd refl
