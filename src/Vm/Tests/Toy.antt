-- ===== src/Vm/Tests/Toy.antt =====
-- A small host, and values that the examples run on.
pub mod Laws
use cocoon_macos.Base.{
  Bool, true, false, not, ◌&&◌, ◌||◌, List, [], ◌∷◌, ◌++◌, Option, none, some, ◌≡◌, refl, sym, ap,
  ◌∙◌, pos, negsuc, if◌then◌else◌, subst,
}
use cocoon_macos.Text.{Bytes, codes, text_eq, contains, before}
use cocoon_macos.Fault.{Error, Result, ok, err, not_exist, outside, wrapped}
use cocoon_macos.Io.{Io, pure}
use cocoon_macos.Qemu.Snapshot
use cocoon_macos.Qemu.Inject.{NbdHost}
use cocoon_macos.Qemu.Plist.{end}
use cocoon_macos.Vm.DataDisk.{DataDiskSpec}
use cocoon_macos.Vm.Record.{VmRecord}
use cocoon_macos.Vm.Host.{Host, Flags}
use cocoon_macos.Vm.Host.Frame.{Frame}
use cocoon_macos.Vm.Snapshot.{snap_create, snap_delete}
use cocoon_macos.Vm.Snapshot.Images.{Images, without}
use cocoon_macos.Vm.Lifecycle.Halt.{Records}
use cocoon_macos.Vm.Gc.{try_one}
use cocoon_macos.Vm.Gc.Locks.{Locks}

-- The snapshots of each image, the paths that are there, the record that was written last, and the
-- locks that are held.
pub record Desk : Type 0 where
  pub tags : Bytes → List Bytes
  pub paths : List Bytes
  pub kept : Option VmRecord
  pub locked : Bytes → Bool

abbrev read_json : Bytes → Io Desk VmRecord
read_json p w = (elim w.kept [ some r ↦ ok r | none ↦ err not_exist ], w)

abbrev write_json : Bytes → VmRecord → Io Desk (Unit {0})
write_json p r w = (ok tt, record w { kept = some r })

abbrev stat : Bytes → Io Desk (Unit {0})
stat p w = (if contains w.paths p then ok tt else err not_exist, w)

abbrev dropped : Bytes → List Bytes → List Bytes
dropped p [] = []
dropped p (q ∷ ps) = if text_eq p q then dropped p ps else q ∷ dropped p ps

abbrev remove_all : Bytes → Io Desk (Unit {0})
remove_all [] w = (ok tt, w)
remove_all (c ∷ p) w = (ok tt, record w { paths = dropped (c ∷ p) w.paths })

-- a creation of a tag that an image has is refused
abbrev created : Bool → Bytes → Bytes → Io Desk (Unit {0})
created true img tag w = (err (outside 1), w)
created false img tag w =
    (ok tt, record w { tags = λ j. if text_eq j img then w.tags j ++ tag ∷ [] else w.tags j })

-- an image from which no deletion succeeds
abbrev pub stuck_image : Bytes
stuck_image = codes "/vms/stuck.qcow2"

abbrev deleted : Bool → Bytes → Bytes → Io Desk (Unit {0})
deleted true img tag w = (err (outside 2), w)
deleted false img tag w =
    (ok tt, record w { tags = λ j. if text_eq j img then without tag (w.tags j) else w.tags j })

abbrev run_qemu_img : List Bytes → Io Desk (Unit {0})
run_qemu_img (verb ∷ flag ∷ tag ∷ img ∷ []) w =
    if text_eq flag (codes "-c")
    then created (contains (w.tags img) tag) img tag w
    else if text_eq flag (codes "-d")
    then deleted (text_eq img stuck_image) img tag w
    else (ok tt, w)
run_qemu_img args w = (ok tt, w)

abbrev image_snapshots : Bytes → Io Desk (List Bytes)
image_snapshots img w = (ok (w.tags img), w)

-- `name,...`, of one size
abbrev pub toy_parse : Bytes → Result DataDiskSpec
toy_parse s = ok (record { name = before b',' s; size = pos 4096 })

abbrev pub tried : Bool → Bytes → Io Desk Bool
tried true p w = (ok false, w)
tried false p w = (ok true, record w { locked = λ j. text_eq j p || w.locked j })

abbrev unlock : Bytes → Io Desk (Unit {0})
unlock p w = (ok tt, record w { locked = λ j. not (text_eq j p) && w.locked j })

abbrev toy_nbd : NbdHost Desk
toy_nbd = record {
  lock = λ x0. pure tt;
  unlock = λ x0. pure tt;
  run_command = λ x0 x1. pure tt;
  stat = stat;
  remove = λ x0. pure tt;
  make_temp_dir = λ x0. pure [];
  read_dir = λ x0. pure [];
  read_file = λ x0. pure [];
  write_file = λ x0 x1. pure tt;
  wait_for = λ x0 x1. pure tt;
  find_vmm = λ b p. pure [];
  terminate_process = λ x0 x1 x2 x3. pure tt;
  read_pid_file = λ x0. pure (pos 1);
  cancelled = λ w. none;
  unmarshal = λ b. ok end;
  marshal = λ cfg. ok [];
}

abbrev pub toy : Host
toy = record {
  World = Desk;
  read_json = read_json;
  write_json = write_json;
  stat = stat;
  remove_all = remove_all;
  remove = λ x0. pure tt;
  ensure_dirs = λ x0. pure tt;
  touch = λ x0. pure tt;
  file_exists = λ p w. text_eq p (codes "/img/sonoma");
  valid_file = λ p w. true;
  cpu_is_amd = λ x0. false;
  write_file = λ x0 x1. pure tt;
  lock = λ x0. pure tt;
  unlock = unlock;
  read_lock = λ x0. pure tt;
  try_lock = λ p w. tried (w.locked p) p w;
  scan_subdirs = λ x0. pure [];
  run_qemu_img = run_qemu_img;
  virtual_size = λ p. pure (pos 4096);
  image_snapshots = image_snapshots;
  reflink_copy = λ x0 x1. pure tt;
  verify_process = λ x0 x1 x2 x3. false;
  find_vmm = λ b p. pure [];
  terminate_process = λ x0 x1 x2 x3. pure tt;
  read_pid_file = λ x0. pure (pos 1);
  write_pid_file = λ x0 x1. pure tt;
  wait_for = λ x0 x1. pure tt;
  run_command = λ x0 x1. pure tt;
  dial_monitor = λ x0. pure [];
  send_line = λ x0 x1. pure [];
  close_monitor = λ x0. pure tt;
  is_socket = λ x0 x1. false;
  listen = λ x0. pure tt;
  close_listener = λ x0. pure tt;
  start_proxy = λ x0. pure (pos 1);
  kill = λ x0. pure tt;
  proxy_binary_name = [];
  open_provider = λ x0. pure tt;
  prepare = λ x0 x1. pure [];
  add = λ x0 x1. pure ([], []);
  add_recover = λ x0 x1 x2 x3. pure ([], []);
  verify = λ x0 x1 x2 x3. pure tt;
  delete = λ x0 x1. pure tt;
  quiesce = λ x0 x1. pure tt;
  unquiesce = λ x0 x1. pure tt;
  cleanup_taps = λ x0. pure tt;
  open_store = pure tt;
  inspect_image = λ x0. pure none;
  blob_path = λ x0. [];
  parse_size = λ s. ok (pos 8192);
  parse_data_disk = toy_parse;
  absolute = λ p. ok p;
  generate_id = pure [];
  now = pure [];
  clock = pure 0;
  remove_matching = λ x0 x1. pure [];
  rand_bytes = λ x0. pure [];
  new_uuid = pure [];
  nbd = toy_nbd;
}

abbrev pub desk : Desk
desk = record {
  tags = λ j. codes "base" ∷ [];
  paths = codes "/vms/m" ∷ codes "/vms/m/vm.json" ∷ codes "/vms/n" ∷ [];
  kept = none;
  locked = λ j. text_eq j (codes "/vms/.locks/busy.lock");
}

abbrev pub toy_record : VmRecord
toy_record = record {
  name = codes "m";
  vmid = codes "id";
  image = codes "sonoma";
  image_digest = [];
  cpus = pos 4;
  memory = codes "8192";
  storage = pos 4096;
  vnc_disp = pos 1;
  vnc_pass = codes "secret";
  vnc_pass_set = true;
  ssh_port = pos 2222;
  net_mode = codes "user";
  hugepages = false;
  exit_on_reboot = false;
  data_disks = codes "/vms/m/data-x.qcow2" ∷ [];
  disk = codes "/vms/m/disk.qcow2";
  open_core = codes "/fw/oc.qcow2";
  open_core_base = [];
  ovmf_code = codes "/fw/code.fd";
  ovmf_vars = codes "/vms/m/vars.fd";
  mac = [];
  smbios = none;
  tap = [];
  tap_owned = false;
  bridge_dev = [];
  netns = [];
  cni_conf_dir = [];
  cni_bin_dir = [];
  pid = pos 7;
  snapshots = [];
  created = [];
}

abbrev pub toy_flags : Flags
toy_flags = record {
  vms_dir = codes "/vms";
  firmware_dir = codes "/fw";
  name = [];
  cpus = pos 4;
  memory = codes "8192";
  storage = [];
  hugepages = false;
  exit_on_reboot = false;
  data_disk = [];
  vnc = negsuc 0;
  vnc_password = [];
  ssh_port = pos 0;
  open_core = [];
  ovmf_code = [];
  ovmf_vars = [];
  random_smbios = false;
  net = codes "user";
  tap = [];
  bridge_dev = [];
  cni_conf_dir = [];
  cni_bin_dir = [];
  force = true;
  tag = codes "t";
  changed = λ flag. false;
}
