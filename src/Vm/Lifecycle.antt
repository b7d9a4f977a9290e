-- ===== src/Vm/Lifecycle.antt =====
-- cmd/vm/lifecycle.go: launching, starting, stopping and removing a machine.
pub mod Removal
pub mod Halt
use cocoon_macos.Base.{
  ℕ, Bool, true, false, not, ◌&&◌, ◌||◌, List, [], ◌∷◌, ◌++◌, Option, none, some, if◌then◌else◌, ℤ,
  pos, negsuc, ltb_ℤ,
}
use cocoon_macos.Text.{Bytes, codes, is_set}
use cocoon_macos.Fault.{Error, Result, ok, err, fault, wrap, panic, is_not_exist}
use cocoon_macos.FilePath.{join_path, parent}
use cocoon_macos.Io.{
  Io, pure, throw, lift, rewrap, reject, ignore, attempt, ask, when, both, inner, get, put, ◌>>=◌,
  ◌>>◌,
}
use cocoon_macos.Qemu.Launch.{Spec, args}
use cocoon_macos.Vm.Record.{VmRecord, stop_grace_period}
use cocoon_macos.Vm.Host.{Host, Flags}
use cocoon_macos.Vm.Store.{load_rec, save_rec, mark_provisioned, for_each_vm_dir}
use cocoon_macos.Vm.Monitor.{set_vnc_password}
use cocoon_macos.Vm.Vnc.{require_cni_vnc_password}
use cocoon_macos.Vm.VncProxy.{stop_vnc_proxy, start_vnc_proxy, vnc_proxy_running, vnc_sock_path}
use cocoon_macos.Vm.Process.{
  qemu_pid_path, mon_sock_path, is_running, reconcile_running_qemu, terminate, stop_instance,
  reap_stray_helpers,
}
use cocoon_macos.Vm.Net.{recover_net, teardown_net, toggle_net, ensure_netns_loopback, launch_cmd}

-- a CNI machine with a display, which a proxy serves
unfoldable pub has_vnc_sock : VmRecord → Bool
has_vnc_sock r = is_set r.netns && not (ltb_ℤ r.vnc_disp (pos 0))

-- the command line's input that `launch` makes of a record
unfoldable pub launch_spec : Bytes → VmRecord → Spec
unfolding has_vnc_sock
launch_spec dir r = record {
  cpus = r.cpus;
  memory = r.memory;
  vnc_disp = r.vnc_disp;
  vnc_sock = if has_vnc_sock r then vnc_sock_path dir else [];
  vnc_pass = r.vnc_pass;
  ssh_port = r.ssh_port;
  hugepages = r.hugepages;
  exit_on_reboot = r.exit_on_reboot;
  data_disks = r.data_disks;
  disk = r.disk;
  open_core = r.open_core;
  ovmf_code = r.ovmf_code;
  ovmf_vars = r.ovmf_vars;
  mac = r.mac;
  tap = r.tap;
  mon_sock = mon_sock_path dir;
  qmp_sock = join_path dir (codes "qmp.sock");
}

-- an index out of range ends the command
abbrev or_panic {ℓ} : {W : Type ℓ} → Option (List Bytes) → Io W (List Bytes)
or_panic none = throw panic
or_panic (some a) = pure a

-- `graceFromFlags`
unfoldable pub grace_from_flags : Flags → ℕ
grace_from_flags flags = if flags.force then 0 else stop_grace_period

-- the record of a machine whose qemu is gone: its display goes with it
unfoldable pub halted : VmRecord → VmRecord
halted r = record r { pid = pos 0; vnc_disp = negsuc 0; vnc_pass = []; vnc_pass_set = false }

module _ (host : Host) (flags : Flags) where
  open host use {World, cpu_is_amd, write_file, run_command, read_pid_file, stat, remove_all}

  -- a step behind the launch: if it fails, qemu is terminated and both errors are returned
  or_terminate : VmRecord → Result (Unit {0}) → Io World (Unit {0})
  or_terminate r (ok u) = pure tt
  or_terminate r (err e) = do t ← attempt (terminate host r 0); lift (both (err e) t)

  apply_password : Bytes → VmRecord → Io World (Unit {0})
  unfolding or_terminate
  apply_password dir r = if not (is_set r.vnc_pass) then pure tt else do
    done ←
        attempt
          (rewrap "set vnc password: %w" (set_vnc_password host (mon_sock_path dir) r.vnc_pass))
    or_terminate r done

  apply_proxy : Bytes → VmRecord → Io World (Unit {0})
  unfolding or_terminate
  apply_proxy dir r = if not (has_vnc_sock r) then pure tt else do
    done ← attempt (rewrap "start vnc proxy: %w" (start_vnc_proxy host dir r.vnc_disp))
    or_terminate r done

  -- `launch`; the first part of the state is the record that it changes
  unfoldable pub launch : Bytes → Io (VmRecord × World) (Unit {0})
  unfolding apply_password apply_proxy
  launch dir = do
    r0 ← get
    lift (require_cni_vnc_password (is_set r0.netns) r0.vnc_disp r0.vnc_pass)
    r ← inner (rewrap "recover network: %w" (recover_net host flags r0))
    put r
    amd ← inner (ask cpu_is_amd)
    when amd
        (inner (ignore (write_file (codes "/sys/module/kvm/parameters/ignore_msrs") (codes "1\n"))))
    let pidfile = qemu_pid_path r.disk
    a ← or_panic (args (launch_spec dir r))
    let command = launch_cmd r (a ++ (codes "-daemonize" ∷ codes "-pidfile" ∷ pidfile ∷ []))
    inner (stop_vnc_proxy host dir)
    inner (ensure_netns_loopback host flags r)
    let gated = record r { vnc_pass_set = is_set r.vnc_pass }
    put gated
    inner (save_rec host dir gated)
    inner (rewrap "launch qemu: %w" (run_command command.0 command.1))
    pid ← inner (rewrap "read qemu pid file: %w" (read_pid_file pidfile))
    let live = record gated { pid = pid }
    put live
    running ← inner (ask (is_running host live))
    reject (not running) "qemu pid %d is not running for disk %s"
    inner (apply_password dir live)
    inner (apply_proxy dir live)
    inner (save_rec host dir live)

  -- `launch` for a caller that drops the record when it fails
  unfoldable pub launch_record : Bytes → VmRecord → Io World VmRecord
  unfolding launch
  launch_record dir r w =
      let (result, (r', w')) = launch dir (r, w) in
      (elim result [ ok u ↦ ok r' | err e ↦ err e ], w')

  repair_proxy : Bytes → VmRecord → Io World (Unit {0})
  repair_proxy dir r = if not (has_vnc_sock r) then pure tt else do
    up ← vnc_proxy_running host dir
    if up then pure tt else rewrap "repair vnc proxy: %w" (start_vnc_proxy host dir r.vnc_disp)

  -- what `Start` does under the lock of one machine
  unfoldable pub start_vm : Bytes → Bytes → Io World (Unit {0})
  unfolding repair_proxy launch_record
  start_vm n dir = do
    r ← load_rec host dir
    (running, r') ← reconcile_running_qemu host dir r
    if running then (do repair_proxy dir r'; ignore (toggle_net host flags r' true)) else do
      launched ←
          launch_record dir (record r' { vnc_disp = flags.vnc; vnc_pass = flags.vnc_password })
      ignore (toggle_net host flags launched true)

  -- `Start`
  unfoldable pub start : List Bytes → Io World (Unit {0})
  start names = for_each_vm_dir host flags names start_vm

  -- what `Stop` does under the lock of one machine
  unfoldable pub stop_vm : Bytes → Bytes → Io World (Unit {0})
  unfolding halted
  stop_vm n dir = do
    r ← load_rec host dir
    (running, r') ← reconcile_running_qemu host dir r
    stop_instance host dir r' (grace_from_flags flags)
    toggled ← toggle_net host flags r' false
    save_rec host dir (halted toggled)

  -- `Stop`
  unfoldable pub stop : List Bytes → Io World (Unit {0})
  stop names = for_each_vm_dir host flags names stop_vm

  -- the processes and the network of a machine that goes, by whether its record was read
  unfoldable pub rm_instance : Bytes → Result VmRecord → Io World (Unit {0})
  rm_instance dir (err e) = reap_stray_helpers host dir
  rm_instance dir (ok r) = do
    (running, r') ← reconcile_running_qemu host dir r
    stop_instance host dir r' (grace_from_flags flags)
    teardown_net host flags r'

  unfoldable pub rm_existing : Bytes → Result (Unit {0}) → Io World (Unit {0})
  unfolding rm_instance
  rm_existing dir (err e) = if is_not_exist e then pure tt else throw (wrap "stat vm dir: %w" e)
  rm_existing dir (ok u) = do
    r ← attempt (load_rec host dir)
    rm_instance dir r
    mark_provisioned host (parent dir)
    rewrap "remove vm dir: %w" (remove_all dir)

  -- what `RM` does under the lock of one machine
  unfoldable pub rm_vm : Bytes → Bytes → Io World (Unit {0})
  unfolding rm_existing
  rm_vm n dir = do there ← attempt (stat dir); rm_existing dir there

  -- `RM`
  unfoldable pub rm : List Bytes → Io World (Unit {0})
  rm names = for_each_vm_dir host flags names rm_vm
