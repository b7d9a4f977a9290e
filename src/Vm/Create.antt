-- ===== src/Vm/Create.antt =====
-- cmd/vm/lifecycle.go, cmd/vm/utils.go and cmd/vm/gc.go: creating a machine.
pub mod FailFast
pub mod Undone
use cocoon_macos.Base.{
  Bool, false, not, List, [], ◌++◌, Option, none, some, if◌then◌else◌, ℤ, pos, ltb, length,
}
use cocoon_macos.Text.{Bytes, codes, text_eq}
use cocoon_macos.Fault.{Error, Result, ok, err, fault, wrap, join, wrapped, is_not_exist}
use cocoon_macos.FilePath.{join_path, base}
use cocoon_macos.Io.{
  Io, pure, throw, lift, rewrap, reject, ignore, attempt, finally, ask, both, ◌>>=◌, ◌>>◌,
}
use cocoon_macos.Qemu.Inject.Config.{inject_config}
use cocoon_macos.Qemu.Smbios.{random_smbios, mac}
use cocoon_macos.Vm.DataDisk.{DataDiskSpec, parse_data_disks}
use cocoon_macos.Vm.Record.{VmRecord, net_cni}
use cocoon_macos.Vm.Host.{Host, Flags}
use cocoon_macos.Vm.Store.{vm_dir, record_path, locks_dir, save_rec, with_vm_lock}
use cocoon_macos.Vm.Process.{
  mon_sock_path, stop_instance, reap_stray_helpers, reset_incomplete_vm_dir,
}
use cocoon_macos.Vm.Vnc.{require_cni_vnc_password}
use cocoon_macos.Vm.Net.{teardown_net, apply_net, validate_tap_flag}
use cocoon_macos.Vm.Lifecycle.{launch}
use cocoon_macos.Vm.Provision.{
  requested_vm_name, validate_macos_cpus, validate_memory, storage_from_flag, bake_overlay,
  resize_system_disk, create_data_disks, resolve_base, resolve_firmware,
}

-- what `scaffoldVM` returns
pub record Scaffold : Type 0 where
  pub dir : Bytes
  pub overlay : Bytes
  pub ovmf_vars : Bytes
  pub digest : Bytes

-- `errors.Join` of an error and one that may be nil
abbrev pub joined : Error → Result (Unit {0}) → Error
joined e (ok u) = e
joined e (err f) = join e f

abbrev pub gc_lock_path : Bytes → Bytes
gc_lock_path vms_dir = join_path (join_path vms_dir locks_dir) (codes ".gc.lock")

module _ (host : Host) (flags : Flags) where
  open host use {
    World, file_exists, reflink_copy, stat, remove_all, ensure_dirs, read_lock, unlock, generate_id,
    now, rand_bytes, new_uuid, nbd, absolute, parse_data_disk, parse_size,
  }

  -- `withProvisionLock`
  unfoldable pub with_provision_lock : {A : Type 0} → Io World A → Io World A
  with_provision_lock fn = do
    rewrap "create vm lock dir: %w" (ensure_dirs (join_path flags.vms_dir locks_dir))
    rewrap "wait for gc to finish: %w" (read_lock (gc_lock_path flags.vms_dir))
    finally fn (unlock (gc_lock_path flags.vms_dir))

  release_instance : Bytes → Option VmRecord → Io World (Result (Unit {0}))
  release_instance dir none = pure (ok tt)
  release_instance dir (some r) = do
    stopped ← attempt (stop_instance host dir r 0)
    torn ← attempt (teardown_net host flags r)
    pure (both stopped torn)

  -- `cleanupFailedVM`: every step is taken, whatever the others return
  unfoldable pub cleanup_failed_vm : Bytes → Option VmRecord → Io World (Unit {0})
  unfolding release_instance
  cleanup_failed_vm dir r = do
    released ← release_instance dir r
    reaped ← attempt (reap_stray_helpers host dir)
    removed ← attempt (rewrap "remove failed vm dir: %w" (remove_all dir))
    lift (both (both released reaped) removed)

  -- the deferred clean-up of `create` and `clone`
  cleaned_up : {A : Type 0} → Bytes → Option VmRecord → Result A → Io World A
  cleaned_up dir r (ok a) = pure a
  cleaned_up dir r (err e) = do c ← attempt (cleanup_failed_vm dir r); throw (joined e c)

  unfoldable pub or_cleaned_up : {A : Type 0} → Bytes → Option VmRecord → Io World A → Io World A
  unfolding cleaned_up
  or_cleaned_up dir r m = do done ← attempt m; cleaned_up dir r done

  unfoldable pub absent_record : Result (Unit {0}) → Io World (Unit {0})
  absent_record (ok u) = throw (fault "vm %q already exists; rm it first or pick another --name")
  absent_record (err e) = if is_not_exist e then pure tt else throw (wrap "stat vm record: %w" e)

  -- the overlay of an image's file, and the copy of the template of the variables
  unfoldable pub overlaid : Bytes → Bytes → Bytes → Io World (Unit {0})
  overlaid image_file dir vars_src = do
    bake_overlay host image_file (join_path dir (codes "disk.qcow2"))
    rewrap "copy OVMF_VARS: %w" (reflink_copy (join_path dir (base vars_src)) vars_src)

  -- The deferred removal reads the named result `dir`, which the return of an error has made empty.
  or_removed : Result (Unit {0}) → Io World (Unit {0})
  or_removed (ok u) = pure tt
  or_removed (err e) = do ignore (remove_all []); throw e

  -- `scaffoldVM`, of the name, the image and the template of the variables
  unfoldable pub scaffold_vm : Bytes → Bytes → Bytes → Io World Scaffold
  unfolding absent_record or_removed
  scaffold_vm name image vars_src = do
    dir ← lift (vm_dir flags.vms_dir name)
    reject (ltb 107 (length (mon_sock_path dir)))
        "monitor socket path is %d bytes; shorten --state-dir or --name to fit Linux's 107-byte limit"
    there ← attempt (stat (record_path dir))
    absent_record there
    reset_incomplete_vm_dir host dir
    (image_file, digest) ← resolve_base host image
    ensure_dirs dir
    laid ← attempt (overlaid image_file dir vars_src)
    or_removed laid
    pure (record {
      dir = dir;
      overlay = join_path dir (codes "disk.qcow2");
      ovmf_vars = join_path dir (base vars_src);
      digest = digest;
    })

  -- `prepareOpenCore`, of the directory, the loader and whether the identity is random
  unfoldable pub prepare_open_core : Bytes → Bytes → Bool → VmRecord → Io World VmRecord
  prepare_open_core dir oc_base random r =
      if not random then pure (record r { open_core = oc_base; open_core_base = [] }) else do
        sm ← random_smbios rand_bytes new_uuid
        let oc_overlay = join_path dir (codes "OpenCore.qcow2")
        bake_overlay host oc_base oc_overlay
        rewrap "inject opencore config: %w" (inject_config nbd oc_overlay sm)
        pure (record r {
          open_core = oc_overlay;
          open_core_base = oc_base;
          smbios = some sm;
          mac = mac sm;
        })

  -- the image of a command line: the path of a file is made absolute
  unfoldable pub image_path : Bytes → Io World Bytes
  image_path image = do
    is_file ← ask (file_exists image)
    if is_file then lift (wrapped "resolve image path: %w" (absolute image)) else pure image

  -- the rest of `create` behind the scaffold, but for the record's file
  unfoldable pub new_machine :
      Bytes → Bytes → ℤ → List DataDiskSpec → Bytes → Bytes → Scaffold → Io World VmRecord
  new_machine name image target specs oc code s = do
    storage ← resize_system_disk host s.overlay target
    vmid ← generate_id
    created ← now
    disks ← create_data_disks host s.dir specs
    prepared ← prepare_open_core s.dir oc flags.random_smbios (record {
      name = name;
      vmid = vmid;
      image = image;
      image_digest = s.digest;
      cpus = flags.cpus;
      memory = flags.memory;
      storage = storage;
      vnc_disp = flags.vnc;
      vnc_pass = flags.vnc_password;
      vnc_pass_set = false;
      ssh_port = flags.ssh_port;
      net_mode = flags.net;
      hugepages = flags.hugepages;
      exit_on_reboot = flags.exit_on_reboot;
      data_disks = disks;
      disk = s.overlay;
      open_core = [];
      open_core_base = [];
      ovmf_code = code;
      ovmf_vars = s.ovmf_vars;
      mac = [];
      smbios = none;
      tap = flags.tap;
      tap_owned = false;
      bridge_dev = [];
      netns = [];
      cni_conf_dir = flags.cni_conf_dir;
      cni_bin_dir = flags.cni_bin_dir;
      pid = pos 0;
      snapshots = [];
      created = created;
    })
    apply_net host flags prepared

  -- the checks of `create` before the scaffold: the data disks, and the size of the system disk
  unfoldable pub checked_flags : Io World (List DataDiskSpec × ℤ)
  checked_flags = do
    specs ← lift (parse_data_disks parse_data_disk flags.data_disk [])
    lift (validate_macos_cpus flags.cpus)
    lift (validate_memory flags.memory)
    lift (require_cni_vnc_password (text_eq flags.net net_cni) flags.vnc flags.vnc_password)
    lift (validate_tap_flag flags.net flags.tap)
    target ← lift (storage_from_flag parse_size flags.storage)
    pure (specs, target)

  -- `create`. A failure before the record is complete is cleaned up without it.
  unfoldable pub create : Bytes → Bytes → Io World VmRecord
  unfolding image_path
  create image name = do
    path ← image_path image
    (specs, target) ← checked_flags
    (oc, code, vars_tmpl) ← resolve_firmware host flags
    s ← scaffold_vm name path vars_tmpl
    r ← or_cleaned_up s.dir none (new_machine name path target specs oc code s)
    or_cleaned_up s.dir (some r) (save_rec host s.dir r)
    pure r

  launched_or_cleaned_up : Bytes → VmRecord → Result (Unit {0}) → Io World (Unit {0})
  launched_or_cleaned_up dir r done = or_cleaned_up dir (some r) (lift done)

  -- `launch` of a new machine, which a failure removes with what `launch` made of its record
  launch_new : Bytes → VmRecord → Io World (Unit {0})
  unfolding launched_or_cleaned_up
  launch_new dir r w =
      let (done, (r', w')) = launch host flags dir (r, w) in launched_or_cleaned_up dir r' done w'

  -- `createVM`, of the image and whether to start it
  unfoldable pub create_vm : Bytes → Bool → Io World (Unit {0})
  unfolding launch_new
  create_vm image starting = do
    time ← now
    name ← lift (requested_vm_name flags.name (codes "macos-" ++ time))
    dir ← lift (vm_dir flags.vms_dir name)
    with_vm_lock host dir (do
      r ← with_provision_lock (create image name)
      if starting then launch_new dir r else pure tt)
