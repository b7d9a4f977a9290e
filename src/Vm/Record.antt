-- ===== src/Vm/Record.antt =====
-- cmd/vm/handler.go: the record of a virtual machine, as `vm.json` keeps it.
use cocoon_macos.Base.{ℕ, Bool, List, [], Option, ℤ}
use cocoon_macos.Text.{Bytes, codes}
use cocoon_macos.Qemu.Smbios.{Smbios}

-- `record`
pub record VmRecord : Type 0 where
  pub name : Bytes
  pub vmid : Bytes
  pub image : Bytes
  pub image_digest : Bytes
  pub cpus : ℤ
  pub memory : Bytes
  pub storage : ℤ
  pub vnc_disp : ℤ
  pub vnc_pass : Bytes
  pub vnc_pass_set : Bool
  pub ssh_port : ℤ
  pub net_mode : Bytes
  pub hugepages : Bool
  pub exit_on_reboot : Bool
  pub data_disks : List Bytes
  pub disk : Bytes
  pub open_core : Bytes
  pub open_core_base : Bytes
  pub ovmf_code : Bytes
  pub ovmf_vars : Bytes
  pub mac : Bytes
  pub smbios : Option Smbios
  pub tap : Bytes
  pub tap_owned : Bool
  pub bridge_dev : Bytes
  pub netns : Bytes
  pub cni_conf_dir : Bytes
  pub cni_bin_dir : Bytes
  pub pid : ℤ
  pub snapshots : List Bytes
  pub created : Bytes

-- what the JSON of a record keeps: all but the password, whose tag is "-"
unfoldable pub stored : VmRecord → VmRecord
stored r = record r { vnc_pass = [] }

abbrev pub qemu_binary : Bytes
qemu_binary = codes "qemu-system-x86_64"

-- ten seconds, in milliseconds
abbrev pub stop_grace_period : ℕ
stop_grace_period = 10000

abbrev pub net_user : Bytes
net_user = codes "user"

abbrev pub net_tap : Bytes
net_tap = codes "tap"

abbrev pub net_bridge : Bytes
net_bridge = codes "bridge"

abbrev pub net_cni : Bytes
net_cni = codes "cni"
