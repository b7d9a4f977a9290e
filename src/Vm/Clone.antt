-- ===== src/Vm/Clone.antt =====
-- cmd/vm/clone.go: cloning a stopped machine.
pub mod FailFast
pub mod Undone
use cocoon_macos.Base.{
  Bool, true, false, not, ◌||◌, List, [], ◌++◌, Option, none, some, map, if◌then◌else◌, ℤ, pos,
}
use cocoon_macos.Text.{Bytes, codes, is_set, text_eq, first_set, cut_prefix}
use cocoon_macos.Io.{Io, pure, lift, reject, ask, ◌>>=◌, ◌>>◌}
use cocoon_macos.Qemu.Smbios.{Smbios}
use cocoon_macos.Vm.DataDisk.{DataDiskSpec, parse_data_disks, data_disk_name}
use cocoon_macos.Vm.Record.{VmRecord, net_cni}
use cocoon_macos.Vm.Host.{Host, Flags}
use cocoon_macos.Vm.Store.{vm_dir, load_rec, save_rec, with_vm_locks}
use cocoon_macos.Vm.Process.{reconcile_running_qemu}
use cocoon_macos.Vm.Vnc.{require_cni_vnc_password}
use cocoon_macos.Vm.Net.{apply_net, validate_tap_flag}
use cocoon_macos.Vm.Provision.{
  requested_vm_name, validate_macos_cpus, validate_memory, storage_from_flag, resize_system_disk,
  create_data_disks, copy_data_disks, resolve_firmware,
}
use cocoon_macos.Vm.Create.{
  Scaffold, scaffold_vm, or_cleaned_up, prepare_open_core, with_provision_lock,
}

is_some : Option Smbios → Bool
is_some none = false
is_some (some s) = true

module _ (host : Host) (flags : Flags) where
  open host use {World, file_exists, blob_path, generate_id, now, parse_data_disk, parse_size}

  -- `inherit`: the flag's value if the flag was given, else that of the source
  unfoldable pub inherit : {A : Type 0} → Bytes → A → A → A
  inherit flag given old = if flags.changed flag then given else old

  in_store : Bytes → Option Bytes → World → Bytes
  in_store image none w = image
  in_store image (some hex) w = if file_exists (blob_path hex) w then blob_path hex else image

  -- `cloneImageBase`
  unfoldable pub clone_image_base : VmRecord → World → Bytes
  unfolding in_store
  clone_image_base src = in_store src.image (cut_prefix (codes "sha256:") src.image_digest)

  -- `cloneOpenCoreBase`: never the overlay of the source
  unfoldable pub clone_open_core_base : VmRecord → Io World Bytes
  unfolding is_some
  clone_open_core_base src =
      if is_set src.open_core_base
      then pure src.open_core_base
      else if not (is_some src.smbios)
      then pure src.open_core
      else do (oc, code, vars) ← resolve_firmware host flags; pure oc

  -- what the checks of `clone` before the scaffold give: the data disks, and the size of the disk
  unfoldable pub clone_checks : VmRecord → Io World (List DataDiskSpec × ℤ)
  unfolding inherit
  clone_checks src = do
    let net_mode = inherit (codes "net") flags.net src.net_mode
    lift (require_cni_vnc_password (text_eq net_mode net_cni) flags.vnc flags.vnc_password)
    lift (validate_tap_flag net_mode flags.tap)
    lift (validate_macos_cpus (inherit (codes "cpus") flags.cpus src.cpus))
    lift (validate_memory (inherit (codes "memory") flags.memory src.memory))
    specs ←
        lift (parse_data_disks parse_data_disk flags.data_disk (map data_disk_name src.data_disks))
    target ←
        if flags.changed (codes "storage")
        then lift (storage_from_flag parse_size flags.storage)
        else pure src.storage
    pure (specs, target)

  -- the disks of a clone: the size of its system disk, the source's copies and the new ones
  cloned_disks : VmRecord → List DataDiskSpec → ℤ → Scaffold → Io World (ℤ × List Bytes)
  cloned_disks src specs target s = do
    storage ← resize_system_disk host s.overlay target
    copied ← copy_data_disks host s.dir src.data_disks
    created ← create_data_disks host s.dir specs
    pure (storage, copied ++ created)

  -- the bridge of a clone: the flag's, or the source's unless the network is another
  unfoldable pub clone_bridge : VmRecord → Bytes → Bytes
  clone_bridge src fresh =
      if is_set flags.bridge_dev
      then flags.bridge_dev
      else if not (flags.changed (codes "net"))
      then src.bridge_dev
      else fresh

  -- the record of a clone before its identity and its network
  clone_record : VmRecord → Bytes → Bytes → Bytes → Scaffold → ℤ × List Bytes → VmRecord
  unfolding inherit
  clone_record src name vmid created s disks = record {
    name = name;
    vmid = vmid;
    image = src.image;
    image_digest = first_set s.digest src.image_digest;
    cpus = inherit (codes "cpus") flags.cpus src.cpus;
    memory = inherit (codes "memory") flags.memory src.memory;
    storage = disks.0;
    vnc_disp = flags.vnc;
    vnc_pass = flags.vnc_password;
    vnc_pass_set = false;
    ssh_port = flags.ssh_port;
    net_mode = [];
    hugepages = inherit (codes "hugepages") flags.hugepages src.hugepages;
    exit_on_reboot = inherit (codes "exit-on-reboot") flags.exit_on_reboot src.exit_on_reboot;
    data_disks = disks.1;
    disk = s.overlay;
    open_core = [];
    open_core_base = [];
    ovmf_code = src.ovmf_code;
    ovmf_vars = s.ovmf_vars;
    mac = [];
    smbios = none;
    tap = [];
    tap_owned = false;
    bridge_dev = [];
    netns = [];
    cni_conf_dir = [];
    cni_bin_dir = [];
    pid = pos 0;
    snapshots = [];
    created = created;
  }

  -- the identity of a clone: a fresh one if the source has one
  identified : VmRecord → Scaffold → VmRecord → Io World VmRecord
  unfolding is_some
  identified src s r = do
    oc_base ← clone_open_core_base src
    prepare_open_core host flags s.dir oc_base (flags.random_smbios || is_some src.smbios) r

  -- `clone`
  unfoldable pub clone : VmRecord → Bytes → Io World (Unit {0})
  unfolding cloned_disks clone_record identified inherit
  clone src name = do
    (specs, target) ← clone_checks src
    image ← ask (clone_image_base src)
    s ← scaffold_vm host flags name image src.ovmf_vars
    disks ← or_cleaned_up host flags s.dir none (cloned_disks src specs target s)
    vmid ← generate_id
    created ← now
    let r0 = clone_record src name vmid created s disks
    r1 ← or_cleaned_up host flags s.dir (some r0) (identified src s r0)
    let r2 = record r1 {
      net_mode = inherit (codes "net") flags.net src.net_mode;
      bridge_dev = clone_bridge src r1.bridge_dev;
      tap = flags.tap;
      cni_conf_dir = first_set flags.cni_conf_dir src.cni_conf_dir;
      cni_bin_dir = first_set flags.cni_bin_dir src.cni_bin_dir;
    }
    r3 ← or_cleaned_up host flags s.dir (some r2) (apply_net host flags r2)
    or_cleaned_up host flags s.dir (some r3) (save_rec host s.dir r3)

  -- what `Clone` does under both locks
  unfoldable pub clone_stopped : Bytes → Bytes → Io World (Unit {0})
  clone_stopped src_dir name = do
    src ← load_rec host src_dir
    (running, src') ← reconcile_running_qemu host src_dir src
    reject running "vm %q is running; stop it before cloning"
    with_provision_lock host flags (clone src' name)

  -- `Clone`, of the source's name
  unfoldable pub clone_vm : Bytes → Io World (Unit {0})
  clone_vm src = do
    src_dir ← lift (vm_dir flags.vms_dir src)
    time ← now
    name ← lift (requested_vm_name flags.name (src ++ (codes "-clone-" ++ time)))
    dir ← lift (vm_dir flags.vms_dir name)
    with_vm_locks host src_dir dir (clone_stopped src_dir name)
