-- ===== src/Vm/Process.antt =====
-- cmd/vm/utils.go, cmd/vm/lifecycle.go and internal/procutil: a machine's qemu process.
pub mod Keeps
pub mod Incomplete
pub mod Reset
pub mod Adopt
use cocoon_macos.Base.{
  ℕ, zero, suc, Bool, true, false, not, ◌&&◌, ◌||◌, List, [], ◌∷◌, ◌++◌, if◌then◌else◌, ℤ, pos,
  negsuc, ltb, ltb_ℤ,
}
use cocoon_macos.Text.{Bytes, codes}
use cocoon_macos.Fault.{Error, Result, ok, err, fault, wrap, wrapped, is_not_exist}
use cocoon_macos.FilePath.{join_path, parent}
use cocoon_macos.Io.{Io, pure, throw, lift, rewrap, reject, ignore, attempt, ask, both, ◌>>=◌, ◌>>◌}
use cocoon_macos.Procutil.{terminate_by_cmdline}
use cocoon_macos.Vm.Record.{VmRecord, qemu_binary}
use cocoon_macos.Vm.Host.{Host}
use cocoon_macos.Vm.Store.{save_rec, record_path, mark_provisioned}
use cocoon_macos.Vm.Monitor.{hmp_command, hmp_replied}
use cocoon_macos.Vm.VncProxy.{stop_vnc_proxy}

-- `qemuPIDPath`
unfoldable pub qemu_pid_path : Bytes → Bytes
qemu_pid_path disk = join_path (parent disk) (codes "qemu.pid")

-- `vmDirPrefix`
unfoldable pub vm_dir_prefix : Bytes → Bytes
vm_dir_prefix dir = dir ++ codes "/"

abbrev pub mon_sock_path : Bytes → Bytes
mon_sock_path dir = join_path dir (codes "monitor.sock")

module _ (host : Host) where
  open host use {World, verify_process, find_vmm, terminate_process, wait_for, stat, remove_all}

  -- `isRunning`
  unfoldable pub is_running : VmRecord → World → Bool
  is_running r = verify_process r.pid qemu_binary (qemu_pid_path r.disk)

  -- the processes that use a machine's disk, when its own is not known
  unfoldable pub adopt : Bytes → VmRecord → List ℤ → Io World (Bool × VmRecord)
  adopt dir r [] = pure (false, r)
  adopt dir r (pid ∷ []) = do
    save_rec host dir (record r { pid = pid })
    pure (true, record r { pid = pid })
  adopt dir r (pid ∷ other ∷ pids) = throw (fault "multiple qemu processes use disk %s: %v")

  -- `reconcileRunningQEMU`: whether the machine runs, and its record, which may have a new pid
  unfoldable pub reconcile_running_qemu : Bytes → VmRecord → Io World (Bool × VmRecord)
  reconcile_running_qemu dir r = do
    running ← ask (is_running r)
    if running then pure (true, r) else do
      pids ← rewrap "scan qemu process for %s: %w" (find_vmm qemu_binary (qemu_pid_path r.disk))
      adopt dir r pids

  -- `terminate`
  unfoldable pub terminate : VmRecord → ℕ → Io World (Unit {0})
  terminate r grace =
      if ltb_ℤ (pos 0) r.pid
      then rewrap "terminate qemu pid %d: %w"
          (terminate_process r.pid qemu_binary (qemu_pid_path r.disk) grace)
      else pure tt

  -- the rest of `powerDown` behind the monitor's answer
  unfoldable pub await_halt : VmRecord → ℕ → Result Bytes → Io World Bool
  await_halt r grace (err e) = pure false
  await_halt r grace (ok out) =
      if hmp_replied out (codes "system_powerdown")
      then pure false
      else do ignore (wait_for grace (λ w. not (is_running r w))); pure true

  -- `powerDown`
  unfoldable pub power_down : Bytes → VmRecord → ℕ → Io World Bool
  power_down mon_sock r grace = do
    out ← attempt (hmp_command host mon_sock (codes "system_powerdown"))
    await_halt r grace out

  -- `stopInstance`
  unfoldable pub stop_instance : Bytes → VmRecord → ℕ → Io World (Unit {0})
  stop_instance dir r grace = do
    running ← ask (is_running r)
    down ← if ltb 0 grace && running then power_down (mon_sock_path dir) r grace else pure false
    stopped ← attempt (terminate r (if down then 0 else grace))
    stop_vnc_proxy host dir
    lift stopped

  -- `reapStrayHelpers`
  unfoldable pub reap_stray_helpers : Bytes → Io World (Unit {0})
  reap_stray_helpers dir = do
    qemu ←
        attempt (terminate_by_cmdline find_vmm terminate_process qemu_binary (vm_dir_prefix dir) 0)
    nbd ← attempt (
        terminate_by_cmdline find_vmm terminate_process (codes "qemu-nbd") (vm_dir_prefix dir) 1000)
    lift (both qemu nbd)

  abbrev is_empty : List ℤ → Bool
  is_empty [] = true
  is_empty (p ∷ ps) = false

  -- the rest of `resetIncompleteVMDir` for a directory with no record
  unfoldable pub clear_incomplete : Bytes → Io World (Unit {0})
  clear_incomplete dir = do
    pids ← rewrap "scan qemu processes for %s: %w" (find_vmm qemu_binary (vm_dir_prefix dir))
    reject (not (is_empty pids)) "refuse to replace incomplete vm dir %s: live qemu pids %v"
    rewrap "cleanup stale qemu-nbd for %s: %w" (
        terminate_by_cmdline find_vmm terminate_process (codes "qemu-nbd") (vm_dir_prefix dir) 1000)
    mark_provisioned host (parent dir)
    rewrap "remove incomplete vm dir %s: %w" (remove_all dir)

  unfoldable pub reset_uncommitted : Bytes → Result (Unit {0}) → Io World (Unit {0})
  reset_uncommitted dir (ok u) = throw (fault "refuse to remove committed vm dir %s")
  reset_uncommitted dir (err e) =
      if is_not_exist e then clear_incomplete dir else throw (wrap "stat vm record: %w" e)

  unfoldable pub reset_existing : Bytes → Result (Unit {0}) → Io World (Unit {0})
  reset_existing dir (err e) =
      if is_not_exist e then pure tt else throw (wrap "stat incomplete vm dir: %w" e)
  reset_existing dir (ok u) = do
    committed ← attempt (stat (record_path dir))
    reset_uncommitted dir committed

  -- `resetIncompleteVMDir`
  unfoldable pub reset_incomplete_vm_dir : Bytes → Io World (Unit {0})
  reset_incomplete_vm_dir dir = do there ← attempt (stat dir); reset_existing dir there
