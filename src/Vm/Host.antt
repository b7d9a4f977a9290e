-- ===== src/Vm/Host.antt =====
-- What the commands call outside the repository: the operating system, qemu and its tools, and
-- cocoon's libraries. Times are in milliseconds.
pub mod Frame
use cocoon_macos.Base.{ℕ, Bool, List, Option, ℤ}
use cocoon_macos.Text.{Bytes}
use cocoon_macos.Fault.{Error, Result}
use cocoon_macos.Io.{Io}
use cocoon_macos.Qemu.Inject.{NbdHost}
use cocoon_macos.Vm.DataDisk.{DataDiskSpec}
use cocoon_macos.Vm.Record.{VmRecord}

-- The backend that `newProvider` opens: cocoon's `cni` with its two directories, or its `bridge` on
-- a device.
pub data Provider : Type 0 where
  cni : Bytes → Bytes → Provider
  bridge : Bytes → Provider

-- One read of a monitor's connection: the bytes, and whether the read failed.
abbrev pub Read : Type 0
Read = Bytes × Bool

-- What `Collect` of cmd/vm/gc.go reads of an entry of a directory; its time is none if it cannot be read.
pub record TempEntry : Type 0 where
  pub name : Bytes
  pub is_dir : Bool
  pub mod_time : Option ℕ

pub record Host : Type 1 where
  pub World : Type 0
  -- `utils.ReadJSONFile`, `utils.AtomicWriteJSON`
  pub read_json : Bytes → Io World VmRecord
  pub write_json : Bytes → VmRecord → Io World (Unit {0})
  -- `os.Stat`, `os.RemoveAll`, `utils.EnsureDirs`, and `os.OpenFile` with `O_CREATE`, then `Close`
  pub stat : Bytes → Io World (Unit {0})
  pub remove_all : Bytes → Io World (Unit {0})
  pub remove : Bytes → Io World (Unit {0})
  pub ensure_dirs : Bytes → Io World (Unit {0})
  pub touch : Bytes → Io World (Unit {0})
  -- `utils.FileExists`, `utils.ValidFile`, and whether `/proc/cpuinfo` names an AMD host
  pub file_exists : Bytes → World → Bool
  pub valid_file : Bytes → World → Bool
  pub cpu_is_amd : World → Bool
  pub write_file : Bytes → Bytes → Io World (Unit {0})
  -- `flock`
  pub lock : Bytes → Io World (Unit {0})
  pub unlock : Bytes → Io World (Unit {0})
  -- a shared lock, and a lock that is not waited for
  pub read_lock : Bytes → Io World (Unit {0})
  pub try_lock : Bytes → Io World Bool
  -- `utils.ScanSubdirs`
  pub scan_subdirs : Bytes → Io World (List Bytes)
  -- `utils.RemoveMatching`: the entries of a directory that a test picks go, and the errors are returned
  pub remove_matching : Bytes → (TempEntry → Bool) → Io World (List Error)
  -- `utils.RunQemuImg`, `utils.ReadQcow2Header`, and the snapshots in `qemu-img info`
  pub run_qemu_img : List Bytes → Io World (Unit {0})
  pub virtual_size : Bytes → Io World ℤ
  pub image_snapshots : Bytes → Io World (List Bytes)
  -- `utils.ReflinkCopy`, destination first
  pub reflink_copy : Bytes → Bytes → Io World (Unit {0})
  -- `utils.VerifyProcessCmdline`, `utils.FindVMMByCmdline`, `utils.TerminateProcess`
  pub verify_process : ℤ → Bytes → Bytes → World → Bool
  pub find_vmm : Bytes → Bytes → Io World (List ℤ)
  pub terminate_process : ℤ → Bytes → Bytes → ℕ → Io World (Unit {0})
  pub read_pid_file : Bytes → Io World ℤ
  pub write_pid_file : Bytes → ℤ → Io World (Unit {0})
  -- `utils.WaitFor` on a condition, with its limit
  pub wait_for : ℕ → (World → Bool) → Io World (Unit {0})
  -- `exec.Command(...).Run`, by the program and its arguments
  pub run_command : Bytes → List Bytes → Io World (Unit {0})
  -- the qemu monitor: `net.Dial` with its retries, sending a line, and closing. The first and the
  -- second give the reads that the connection delivers up to the next deadline.
  pub dial_monitor : Bytes → Io World (List Read)
  pub send_line : Bytes → Bytes → Io World (List Read)
  pub close_monitor : Bytes → Io World (Unit {0})
  -- the VNC proxy: its socket is there, its port is bound, the detached child
  -- `vm _vnc-proxy SOCKET` runs with the port's file
  pub is_socket : Bytes → World → Bool
  pub listen : ℤ → Io World (Unit {0})
  pub close_listener : ℤ → Io World (Unit {0})
  pub start_proxy : Bytes → Io World ℤ
  pub kill : ℤ → Io World (Unit {0})
  pub proxy_binary_name : Bytes
  -- cocoon's network providers, by the id of the machine
  pub open_provider : Provider → Io World (Unit {0})
  pub prepare : Provider → Bytes → Io World Bytes
  pub add : Provider → Bytes → Io World (Bytes × Bytes)
  pub add_recover : Provider → Bytes → Bytes → Bytes → Io World (Bytes × Bytes)
  pub verify : Provider → Bytes → Bytes → Bytes → Io World (Unit {0})
  pub delete : Provider → Bytes → Io World (Unit {0})
  pub quiesce : Provider → Bytes → Io World (Unit {0})
  pub unquiesce : Provider → Bytes → Io World (Unit {0})
  pub cleanup_taps : Bytes → Io World (Unit {0})
  -- cocoon's image store: `Inspect` gives the id of an image, and `BlobPath` the path of a blob
  pub open_store : Io World (Unit {0})
  pub inspect_image : Bytes → Io World (Option Bytes)
  pub blob_path : Bytes → Bytes
  -- `types.ParseSize`, `types.ParseDataDiskSpec`, `filepath.Abs`
  pub parse_size : Bytes → Result ℤ
  pub parse_data_disk : Bytes → Result DataDiskSpec
  pub absolute : Bytes → Result Bytes
  -- `utils.GenerateID`, `time.Now`, `rand.Read`, `uuid.NewV4`
  pub generate_id : Io World Bytes
  pub now : Io World Bytes
  -- `time.Now`, in seconds
  pub clock : Io World ℕ
  pub rand_bytes : ℕ → Io World Bytes
  pub new_uuid : Io World Bytes
  -- what `qemu.InjectConfig` calls
  pub nbd : NbdHost World

-- The flags of a command line, with the defaults that a command without the flag reads.
pub record Flags : Type 0 where
  pub vms_dir : Bytes
  pub firmware_dir : Bytes
  pub name : Bytes
  pub cpus : ℤ
  pub memory : Bytes
  pub storage : Bytes
  pub hugepages : Bool
  pub exit_on_reboot : Bool
  pub data_disk : List Bytes
  pub vnc : ℤ
  pub vnc_password : Bytes
  pub ssh_port : ℤ
  pub open_core : Bytes
  pub ovmf_code : Bytes
  pub ovmf_vars : Bytes
  pub random_smbios : Bool
  pub net : Bytes
  pub tap : Bytes
  pub bridge_dev : Bytes
  pub cni_conf_dir : Bytes
  pub cni_bin_dir : Bytes
  pub force : Bool
  pub tag : Bytes
  -- `Changed`, by the name of a flag
  pub changed : Bytes → Bool
