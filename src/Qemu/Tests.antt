-- ===== src/Qemu/Tests.antt =====
-- Examples: the theorems on the command line and the identity, at a guest with two data disks.
mod OpenCore
use cocoon_macos.Base.{
  ℕ, zero, suc, length, ap, arith, true, false, List, [], ◌∷◌, Option, none, some, ◌≡◌, refl, pos,
  map, take, ◌<◌, ◌≤◌, ◌⊎◌, ◌++◌,
}
use cocoon_macos.Text.{Bytes, codes}
use cocoon_macos.Fault.{ok}
use cocoon_macos.Io.{Io, pure}
use cocoon_macos.Qemu.Smbios.{Smbios}
use cocoon_macos.Qemu.Smbios.Identity.{AreBytes, IsIdentity, random_smbios-IsIdentity}
use cocoon_macos.Qemu.Nbd.{process_references_block_device, qemu_nbd_connect_args}
use cocoon_macos.Qemu.Nbd.Held.{proc_cmdline, process_references_block_device-connect}
use cocoon_macos.Qemu.Options.{fields}
use cocoon_macos.Qemu.Launch.{Spec, args, data_disk_args, escape_opt_value}
use cocoon_macos.Qemu.Launch.Escape.{fields-escape_opt_value}
use cocoon_macos.Qemu.Launch.Disks.{drive_files, drive_files-args}
use cocoon_macos.Qemu.Launch.Ports.{sata_ports, six_ports, args-ports}

abbrev guest : Spec
guest = record {
  cpus = pos 4;
  memory = codes "8192";
  vnc_disp = pos 1;
  vnc_sock = [];
  vnc_pass = codes "secret";
  ssh_port = pos 2222;
  hugepages = true;
  exit_on_reboot = true;
  data_disks = codes "/vms/m/data-a,b.qcow2" ∷ codes "/vms/m/data-x.qcow2" ∷ [];
  disk = codes "/vms/m/disk.qcow2";
  open_core = codes "/fw/oc.qcow2";
  ovmf_code = codes "/fw/code.fd";
  ovmf_vars = codes "/vms/m/vars.fd";
  mac = [];
  tap = [];
  mon_sock = codes "/vms/m/monitor.sock";
  qmp_sock = codes "/vms/m/qmp.sock";
}

abbrev some_or_none : Option (List Bytes) → List Bytes
some_or_none none = []
some_or_none (some a) = a

drive_files-args_example :
    drive_files (some_or_none (args guest))
    ≡ map some (
        codes "/fw/code.fd"
        ∷ codes "/vms/m/vars.fd"
        ∷ codes "/fw/oc.qcow2"
        ∷ codes "/vms/m/disk.qcow2"
        ∷ codes "/vms/m/data-a,b.qcow2"
        ∷ codes "/vms/m/data-x.qcow2"
        ∷ [])
unfolding args data_disk_args
drive_files-args_example = drive_files-args guest refl

args-ports_example :
    ((args guest ≡ none) × (4 < 2))
    ⊎ ((a : List Bytes) × (args guest ≡ some a) × (2 ≤ 4) × (sata_ports a ≡ take 4 six_ports))
args-ports_example = args-ports guest

-- a random source that gives one byte
abbrev repeated : ℕ → Bytes
repeated zero = []
repeated (suc n) = 200 ∷ repeated n

abbrev toy_rand : ℕ → Io Bytes Bytes
toy_rand n w = (ok (repeated n), w)

length-repeated : (n : ℕ) → length (repeated n) ≡ n
length-repeated zero = refl
length-repeated (suc n) = ap suc (length-repeated n)

repeated-AreBytes : (n : ℕ) → AreBytes (repeated n)
repeated-AreBytes zero = tt
repeated-AreBytes (suc n) = (omega arith, repeated-AreBytes n)

toy_rand_gives : (n : ℕ) (w b : Bytes) → (toy_rand n w).0 ≡ ok b → (length b ≡ n) × AreBytes b
toy_rand_gives n w b h =
    let same : repeated n ≡ b = cc in rw (← same) (length-repeated n, repeated-AreBytes n)

abbrev identity : Smbios
identity = record {
  model = codes "iMac19,1";
  serial = codes "000000000000";
  mlb = codes "00000000000000000";
  uuid = codes "AB-1";
  rom = codes "cac8c8c8c8c8";
}

random_smbios-IsIdentity_example : IsIdentity identity
unfolding cocoon_macos.Qemu.Smbios.random_smbios cocoon_macos.Qemu.Smbios.serial_letter
    cocoon_macos.Text.Hex.encode cocoon_macos.Qemu.Smbios.rom_bytes
    cocoon_macos.Qemu.Smbios.local_unicast
random_smbios-IsIdentity_example =
    random_smbios-IsIdentity toy_rand (pure (codes "ab-1")) toy_rand_gives [] {s = identity} refl

abbrev device : Bytes
device = codes "/dev/nbd0"

process_references_block_device-connect_example :
    process_references_block_device
      ((codes "/sbin/init" ∷ [])
        ++ (proc_cmdline (
              codes "qemu-nbd"
              ∷ qemu_nbd_connect_args device (codes "/run/p") (codes "/vms/m/OpenCore.qcow2"))
            ∷ []))
      device
    ≡ true
process_references_block_device-connect_example =
    process_references_block_device-connect (codes "/sbin/init" ∷ []) [] device (codes "/run/p")
      (codes "/vms/m/OpenCore.qcow2") refl refl
