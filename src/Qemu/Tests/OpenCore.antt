-- ===== src/Qemu/Tests/OpenCore.antt =====
-- Examples of the identity that is written into OpenCore's configuration.
use cocoon_macos.Base.{
  Bool, true, false, ◌||◌, [], ◌∷◌, ◌++◌, ◌≡◌, refl, pos, if◌then◌else◌, none, some, All,
}
use cocoon_macos.Text.{Bytes, codes, text_eq}
use cocoon_macos.Fault.{Result, ok, err, not_exist}
use cocoon_macos.Io.{pure, lift}
use cocoon_macos.Io.Keeps.{Keeps}
use cocoon_macos.Qemu.Smbios.{Smbios}
use cocoon_macos.Qemu.Plist.{Entries, end, entry, dict, boolean, patch_config}
use cocoon_macos.Qemu.Plist.Paths.{at}
use cocoon_macos.Qemu.Plist.Settings.{
  path, apply, settings, patch_config-settings, patch_config-sets_only,
}
use cocoon_macos.Qemu.Inject.{NbdHost, DirEntry, NbdConnection}
use cocoon_macos.Qemu.Inject.Connect.{connect_free_nbd}
use cocoon_macos.Qemu.Inject.Config.{inject_config}
use cocoon_macos.Qemu.Inject.Free.{TakenFree, connect_free_nbd-takes_free}
use cocoon_macos.Qemu.Inject.Lease.{GivenBack, inject_config-gives_back}
use cocoon_macos.Qemu.Inject.Patched.{PatchedRun, inject_config-patches}

abbrev is_there : Bytes → Bool
is_there p = text_eq p (codes "/dev/nbd1") || text_eq p (codes "/dev/nbd1p1")

-- A host whose only device is the second, and whose state is whether the lease is held.
abbrev bench : NbdHost Bool
bench = record {
  lock = λ x0 w. (ok tt, true);
  unlock = λ x0 w. (ok tt, false);
  run_command = λ x0 x1. pure tt;
  stat = λ p w. (if is_there p then ok tt else err not_exist, w);
  remove = λ x0. pure tt;
  make_temp_dir = λ x0. pure (codes "/tmp/oc-efi-1");
  read_dir = λ x0. pure (
      record { name = codes "1"; is_dir = true }
      ∷ record { name = codes "self"; is_dir = true }
      ∷ []);
  read_file = λ x0. pure (codes "/sbin/init");
  write_file = λ x0 x1. pure tt;
  wait_for = λ x0 x1. pure tt;
  find_vmm = λ b p. pure [];
  terminate_process = λ x0 x1 x2 x3. pure tt;
  read_pid_file = λ x0. pure (pos 7);
  cancelled = λ w. none;
  unmarshal = λ b. ok end;
  marshal = λ cfg. ok [];
}

abbrev image_file : Bytes
image_file = codes "/vms/m/OpenCore.qcow2"

abbrev identity : Smbios
identity = record {
  model = codes "iMac19,1";
  serial = codes "C02ZW1WTJWWF";
  mlb = codes "C02945502CDHNDLA1";
  uuid = codes "AB-1";
  rom = codes "cac8";
}

abbrev connection : NbdConnection
connection = record {
  device = codes "/dev/nbd1";
  pid = pos 7;
  pid_file = image_file ++ codes ".nbd.pid";
  oc_path = image_file;
}

runs : (inject_config bench image_file identity false).0 ≡ ok tt
unfolding inject_config connect_free_nbd cocoon_macos.Qemu.Inject.Connect.read_proc_cmdlines
    cocoon_macos.Qemu.Inject.Connect.proc_cmdlines cocoon_macos.Qemu.Inject.Connect.cmdline_of
    cocoon_macos.Qemu.Inject.Connect.connect_from cocoon_macos.Qemu.Inject.Connect.is_free_device
    cocoon_macos.Qemu.Inject.Connect.unowned cocoon_macos.Qemu.Inject.Connect.nbd_device
    cocoon_macos.Qemu.Inject.Connect.nbd_owner_path cocoon_macos.Qemu.Inject.Connect.after_attempt
    cocoon_macos.Qemu.Inject.Connect.connect_device cocoon_macos.Qemu.Inject.Connect.with_pid
    cocoon_macos.Qemu.Inject.Connect.with_server cocoon_macos.Qemu.Nbd.is_number
    cocoon_macos.Text.Decimal.atoi text_eq cocoon_macos.Text.Decimal.decimal
    cocoon_macos.Fault.is_not_exist cocoon_macos.Qemu.Nbd.process_references_block_device
    cocoon_macos.Text.split cocoon_macos.Qemu.Nbd.nbd_arg_references_device
    cocoon_macos.FilePath.join_path cocoon_macos.Qemu.Nbd.qemu_nbd_connect_args
    cocoon_macos.Text.cut_prefix cocoon_macos.Qemu.Inject.Config.inject_leased
    cocoon_macos.Qemu.Inject.Config.wait_for_part cocoon_macos.Qemu.Inject.Config.mount_first
    cocoon_macos.Qemu.Inject.Config.patch_plist cocoon_macos.Qemu.Inject.Config.patch_mounted
    cocoon_macos.Qemu.Inject.Config.patch_connected
    cocoon_macos.Qemu.Inject.Config.cleanup_nbd_mount cocoon_macos.Qemu.Inject.with_nbd_lease
    cocoon_macos.Qemu.Inject.and_finally cocoon_macos.Qemu.Inject.disconnect
    cocoon_macos.Qemu.Inject.released cocoon_macos.Qemu.Inject.killed_unless
    cocoon_macos.Qemu.Inject.is_file_held cocoon_macos.Text.Hex.decode
    cocoon_macos.Qemu.Plist.patch_config
runs = refl

connects : (connect_free_nbd bench image_file true).0 ≡ ok connection
unfolding connect_free_nbd cocoon_macos.Qemu.Inject.Connect.read_proc_cmdlines
    cocoon_macos.Qemu.Inject.Connect.proc_cmdlines cocoon_macos.Qemu.Inject.Connect.cmdline_of
    cocoon_macos.Qemu.Inject.Connect.connect_from cocoon_macos.Qemu.Inject.Connect.is_free_device
    cocoon_macos.Qemu.Inject.Connect.unowned cocoon_macos.Qemu.Inject.Connect.nbd_device
    cocoon_macos.Qemu.Inject.Connect.nbd_owner_path cocoon_macos.Qemu.Inject.Connect.after_attempt
    cocoon_macos.Qemu.Inject.Connect.connect_device cocoon_macos.Qemu.Inject.Connect.with_pid
    cocoon_macos.Qemu.Inject.Connect.with_server cocoon_macos.Qemu.Nbd.is_number
    cocoon_macos.Text.Decimal.atoi text_eq cocoon_macos.Text.Decimal.decimal
    cocoon_macos.Fault.is_not_exist cocoon_macos.Qemu.Nbd.process_references_block_device
    cocoon_macos.Text.split cocoon_macos.Qemu.Nbd.nbd_arg_references_device
    cocoon_macos.FilePath.join_path cocoon_macos.Qemu.Nbd.qemu_nbd_connect_args
    cocoon_macos.Text.cut_prefix
connects = refl

connect_free_nbd-takes_free_example : TakenFree bench image_file true connection
connect_free_nbd-takes_free_example =
    connect_free_nbd-takes_free bench image_file true {c = connection} connects

inject_config-patches_example : PatchedRun bench image_file identity false
inject_config-patches_example = inject_config-patches bench image_file identity false runs

still : {A : Type 0} (r : Result A) → Keeps (λ (b : Bool). b) (lift r)
still r = record { at = λ w. refl }

inject_config-gives_back_example :
    GivenBack bench
      (λ b. b)
      image_file
      identity
      false
      (inject_config bench image_file identity false)
inject_config-gives_back_example =
    inject_config-gives_back bench (λ b. b) (λ x0 x1. still _) (λ x0. record { at = λ w. refl })
      (λ x0. still _) (λ x0. still _) (λ x0. still _) (λ x0. still _) (λ x0 x1. still _)
      (λ x0 x1 k. still _) (λ x0 x1. still _) (λ x0 x1 x2 x3. still _) (λ x0. still _) (λ w h. refl)
      (λ w. refl) image_file identity false refl

abbrev first_config : Entries
first_config = entry (codes "Misc") (dict (entry (codes "Security") (boolean true) end)) end

patch_config-settings_example :
    patch_config identity [] first_config ≡ apply (settings identity []) first_config
patch_config-settings_example = patch_config-settings identity [] first_config

patch_config-sets_only_example :
    All
      (λ s. at (path s) (patch_config identity [] first_config) ≡ some s.value)
      (settings identity [])
    × (at (codes "Misc" ∷ codes "Security" ∷ []) (patch_config identity [] first_config)
        ≡ at (codes "Misc" ∷ codes "Security" ∷ []) first_config)
unfolding text_eq
patch_config-sets_only_example =
    patch_config-sets_only identity [] first_config (codes "Misc" ∷ codes "Security" ∷ []) refl
