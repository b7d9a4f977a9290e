-- ===== src/Vm/Process/Keeps.antt =====
-- The process operations leave a framed view of the host alone.
use cocoon_macos.Base.{ℕ, List, [], ◌∷◌, ℤ}
use cocoon_macos.Text.{Bytes}
use cocoon_macos.Fault.{Result, ok, err}
use cocoon_macos.Io.Keeps.{Keeps, keeps_rules}
use cocoon_macos.Procutil.Keeps.{Keeps-terminate_by_cmdline}
use cocoon_macos.Vm.Record.{VmRecord}
use cocoon_macos.Vm.Host.{Host, Read}
use cocoon_macos.Vm.Host.Frame.{Frame}
use cocoon_macos.Vm.Store.{load_rec, save_rec, mark_provisioned}
use cocoon_macos.Vm.Monitor.{converse, hmp_command}
use cocoon_macos.Vm.VncProxy.{stop_vnc_proxy, kill_proxy}
use cocoon_macos.Vm.Process.{
  adopt, reconcile_running_qemu, terminate, await_halt, power_down, stop_instance,
  reap_stray_helpers,
}

module _ (host : Host) {V : Type 0} (view : host.World → V) (frame : Frame host V view) where
  open frame use {
    keeps_read_json, keeps_write_json, keeps_remove, keeps_ensure_dirs, keeps_touch, keeps_find_vmm,
    keeps_terminate_process, keeps_read_pid_file, keeps_wait_for, keeps_dial_monitor,
    keeps_send_line, keeps_close_monitor,
  }

  pub Keeps-load_rec : (dir : Bytes) → Keeps view (load_rec host dir)
  unfolding load_rec
  Keeps-load_rec dir = search (keeps_rules, keeps_read_json)

  pub Keeps-save_rec : (dir : Bytes) (r : VmRecord) → Keeps view (save_rec host dir r)
  unfolding save_rec
  Keeps-save_rec dir r = search (keeps_rules, keeps_write_json)

  pub Keeps-mark_provisioned : (dir : Bytes) → Keeps view (mark_provisioned host dir)
  unfolding mark_provisioned
  Keeps-mark_provisioned dir = search (keeps_rules, keeps_ensure_dirs, keeps_touch)

  Keeps-adopt : (dir : Bytes) (r : VmRecord) (pids : List ℤ) → Keeps view (adopt host dir r pids)
  unfolding adopt
  Keeps-adopt dir r [] = search keeps_rules
  Keeps-adopt dir r (pid ∷ []) = search (keeps_rules, Keeps-save_rec)
  Keeps-adopt dir r (pid ∷ other ∷ pids) = search keeps_rules

  pub Keeps-reconcile :
      (dir : Bytes) (r : VmRecord) → Keeps view (reconcile_running_qemu host dir r)
  unfolding reconcile_running_qemu
  Keeps-reconcile dir r = search (keeps_rules, keeps_find_vmm, Keeps-adopt)

  Keeps-terminate : (r : VmRecord) (grace : ℕ) → Keeps view (terminate host r grace)
  unfolding terminate
  Keeps-terminate r grace = search (keeps_rules, keeps_terminate_process)

  Keeps-converse :
      (sock line : Bytes) (reads : List Read) → Keeps view (converse host sock line reads)
  unfolding converse
  Keeps-converse sock line reads = search (keeps_rules, keeps_send_line)

  Keeps-hmp_command : (sock line : Bytes) → Keeps view (hmp_command host sock line)
  unfolding hmp_command
  Keeps-hmp_command sock line =
      search (keeps_rules, keeps_dial_monitor, keeps_close_monitor, Keeps-converse)

  Keeps-await_halt :
      (r : VmRecord) (grace : ℕ) (out : Result Bytes) → Keeps view (await_halt host r grace out)
  unfolding await_halt
  Keeps-await_halt r grace (ok out) = search (keeps_rules, keeps_wait_for)
  Keeps-await_halt r grace (err e) = search keeps_rules

  Keeps-power_down :
      (sock : Bytes) (r : VmRecord) (grace : ℕ) → Keeps view (power_down host sock r grace)
  unfolding power_down
  Keeps-power_down sock r grace = search (keeps_rules, Keeps-hmp_command, Keeps-await_halt)

  Keeps-kill_proxy : (dir : Bytes) (pid : Result ℤ) → Keeps view (kill_proxy host dir pid)
  unfolding kill_proxy
  Keeps-kill_proxy dir (ok pid) = search (keeps_rules, keeps_terminate_process)
  Keeps-kill_proxy dir (err e) = search keeps_rules

  Keeps-stop_vnc_proxy : (dir : Bytes) → Keeps view (stop_vnc_proxy host dir)
  unfolding stop_vnc_proxy
  Keeps-stop_vnc_proxy dir =
      search (keeps_rules, keeps_read_pid_file, keeps_remove, Keeps-kill_proxy)

  pub Keeps-stop_instance :
      (dir : Bytes) (r : VmRecord) (grace : ℕ) → Keeps view (stop_instance host dir r grace)
  unfolding stop_instance
  Keeps-stop_instance dir r grace =
      search (keeps_rules, Keeps-power_down, Keeps-terminate, Keeps-stop_vnc_proxy) depth 9

  pub Keeps-reap_stray_helpers : (dir : Bytes) → Keeps view (reap_stray_helpers host dir)
  unfolding reap_stray_helpers
  Keeps-reap_stray_helpers dir = search (
    keeps_rules,
    Keeps-terminate_by_cmdline view host.find_vmm host.terminate_process keeps_find_vmm
        keeps_terminate_process,
  )
