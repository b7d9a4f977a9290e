-- ===== src/Vm/Commands/Defaults.antt =====
-- cmd/vm/commands.go: the defaults of the flags that create and run declare pass the checks of
-- cmd/vm/lifecycle.go.
use cocoon_macos.Base.{true, false, List, [], ◌∷◌, ◌≡◌, refl, pos, negsuc}
use cocoon_macos.Text.{Bytes, codes, first_set, text_eq, contains}
use cocoon_macos.Fault.{ok}
use cocoon_macos.FilePath.{join_path}
use cocoon_macos.Home.{state_dir_flag, default_dir}
use cocoon_macos.Cli.{with_persistent, FlagSpec, FlagSet, declared}
use cocoon_macos.Vm.Host.{Host, Flags}
use cocoon_macos.Vm.DataDisk.{parse_data_disks}
use cocoon_macos.Vm.Create.{checked_flags}
use cocoon_macos.Vm.Commands.{add_vm_flags}

-- What the handlers read of a command line, of $COCOON_MACOS_HOME.
module _ {flags : List FlagSpec} (env : Bytes) (line : FlagSet flags) where
  open line use {get_int, get_text, get_bool, get_texts, changed}

  state_dir : Bytes
  state_dir = first_set (get_text state_dir_flag) (first_set env default_dir)

  unfoldable pub flags_of : Flags
  unfolding state_dir
  flags_of = record {
    vms_dir = join_path state_dir (codes "vms");
    firmware_dir = join_path state_dir (codes "firmware");
    name = get_text (codes "name");
    cpus = get_int (codes "cpus");
    memory = get_text (codes "memory");
    storage = get_text (codes "storage");
    hugepages = get_bool (codes "hugepages");
    exit_on_reboot = get_bool (codes "exit-on-reboot");
    data_disk = get_texts (codes "data-disk");
    vnc = get_int (codes "vnc");
    vnc_password = get_text (codes "vnc-password");
    ssh_port = get_int (codes "ssh-port");
    open_core = get_text (codes "opencore");
    ovmf_code = get_text (codes "ovmf-code");
    ovmf_vars = get_text (codes "ovmf-vars");
    random_smbios = get_bool (codes "random-smbios");
    net = get_text (codes "net");
    tap = get_text (codes "tap");
    bridge_dev = get_text (codes "bridge");
    cni_conf_dir = get_text (codes "cni-conf-dir");
    cni_bin_dir = get_text (codes "cni-bin-dir");
    force = get_bool (codes "force");
    tag = get_text (codes "tag");
    changed = changed;
  }

-- the flags that `create` checks
abbrev pub checked : List Bytes
checked =
    codes "data-disk"
    ∷ codes "cpus"
    ∷ codes "memory"
    ∷ codes "net"
    ∷ codes "vnc"
    ∷ codes "vnc-password"
    ∷ codes "tap"
    ∷ codes "storage"
    ∷ []

-- flags of which those that are checked have their defaults
abbrev all_default : Flags → Flags
all_default flags = record flags {
  data_disk = [];
  cpus = pos 4;
  memory = codes "8192";
  net = codes "user";
  vnc = negsuc 0;
  vnc_password = [];
  tap = [];
  storage = [];
}

passed :
    (host : Host) (flags : Flags) (w : host.World)
    → checked_flags host (all_default flags) w ≡ (ok ([], pos 0), w)
unfolding checked_flags parse_data_disks cocoon_macos.Vm.DataDisk.parse_specs
    cocoon_macos.Vm.DataDisk.claim_names cocoon_macos.Vm.DataDisk.auto_names
    cocoon_macos.Vm.Provision.validate_macos_cpus cocoon_macos.Vm.Provision.validate_memory
    cocoon_macos.Text.Decimal.atoi cocoon_macos.Vm.Vnc.require_cni_vnc_password text_eq
    cocoon_macos.Text.Space.has_unsafe_rune cocoon_macos.Vm.Net.validate_tap_flag
    cocoon_macos.Vm.Provision.storage_from_flag cocoon_macos.Text.Space.trim_space
passed host flags w = refl

passes :
    (host : Host) (flags : Flags) (w : host.World)
    → flags.data_disk ≡ []
    → flags.cpus ≡ pos 4
    → flags.memory ≡ codes "8192"
    → flags.net ≡ codes "user"
    → flags.vnc ≡ negsuc 0
    → flags.vnc_password ≡ []
    → flags.tap ≡ []
    → flags.storage ≡ []
    → checked_flags host flags w ≡ (ok ([], pos 0), w)
unfolding checked_flags
passes host flags w d c m n v p t s = rw (d, c, m, n, v, p, t, s) (passed host flags w)

module _ (host : Host) (env : Bytes) (line : FlagSet (with_persistent add_vm_flags)) where
  open line use {changed, int_default, text_default, texts_default}

  -- A `create` or a `run` that gives none of the flags that are checked passes the checks, whatever else it
  -- gives, with no data disk and the size of the image for its system disk, and the host stays as it is.
  pub checked_flags-defaults :
      ((name : Bytes) → contains checked name ≡ true → changed name ≡ false)
      → (w : host.World) → checked_flags host (flags_of env line) w ≡ (ok ([], pos 0), w)
  unfolding flags_of add_vm_flags contains text_eq declared
  checked_flags-defaults untouched w =
      passes host (flags_of env line) w
        (texts_default (codes "data-disk") refl (untouched (codes "data-disk") refl))
        (int_default (codes "cpus") (pos 4) refl (untouched (codes "cpus") refl))
        (text_default (codes "memory") (codes "8192") refl (untouched (codes "memory") refl))
        (text_default (codes "net") (codes "user") refl (untouched (codes "net") refl))
        (int_default (codes "vnc") (negsuc 0) refl (untouched (codes "vnc") refl))
        (text_default (codes "vnc-password") [] refl (untouched (codes "vnc-password") refl))
        (text_default (codes "tap") [] refl (untouched (codes "tap") refl))
        (text_default (codes "storage") [] refl (untouched (codes "storage") refl))
