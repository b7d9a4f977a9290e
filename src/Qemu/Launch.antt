-- ===== src/Qemu/Launch.antt =====
-- qemu/launch.go: `Spec.Args`, the qemu command line of a guest.
pub mod Escape
pub mod Parts
pub mod Disks
pub mod Ports
use cocoon_macos.Base.{
  ℕ, zero, suc, ◌+◌, ◌/◌, Bool, true, false, ◌&&◌, List, [], ◌∷◌, ◌++◌, Option, none, some, ◌==◌,
  ltb, leb, if◌then◌else◌, get_elem?, ℤ, pos, negsuc, ltb_ℤ,
}
use cocoon_macos.Text.{Bytes, codes, has_suffix, is_set}
use cocoon_macos.Text.Decimal.{decimal, decimal_ℤ}

pub record Spec : Type 0 where
  pub cpus : ℤ
  pub memory : Bytes
  pub vnc_disp : ℤ
  pub vnc_sock : Bytes
  pub vnc_pass : Bytes
  pub ssh_port : ℤ
  pub hugepages : Bool
  pub exit_on_reboot : Bool
  pub data_disks : List Bytes
  pub disk : Bytes
  pub open_core : Bytes
  pub ovmf_code : Bytes
  pub ovmf_vars : Bytes
  pub mac : Bytes
  pub tap : Bytes
  pub mon_sock : Bytes
  pub qmp_sock : Bytes

unfoldable pub osk : Bytes
osk = codes "ourhardworkbythesewordsguardedpleasedontsteal(c)AppleComputerInc"

unfoldable pub mac_os_cpu : Bytes
mac_os_cpu =
    codes "Skylake-Client,-hle,-rtm,kvm=on,vendor=GenuineIntel,+invtsc,vmware-cpuid-freq=on,"
    ++ codes "+ssse3,+sse4.2,+popcnt,+avx,+aes,+xsave,+xsaveopt,"
    ++ codes "+pcid,+invpcid,+tsc-deadline,+rdtscp,+xsavec,check"

unfoldable pub ahci_drive_opts : Bytes
ahci_drive_opts =
    codes "if=none,format=qcow2,cache=writeback,aio=io_uring,discard=unmap,detect-zeroes=unmap"

-- `strings.ReplaceAll(v, ",", ",,")`
unfoldable pub escape_opt_value : Bytes → Bytes
escape_opt_value [] = []
escape_opt_value (c ∷ v) =
    if c == b',' then b',' ∷ b',' ∷ escape_opt_value v else c ∷ escape_opt_value v

unfoldable pub is_qcow2_nvram : Bytes → Bool
is_qcow2_nvram path = has_suffix path (codes ".qcow2")

-- `s.CPUs/2`, which Go rounds towards zero, and not below 1
unfoldable pub cores : ℤ → ℕ
cores (pos n) = if ltb 1 (n / 2) then n / 2 else 1
cores (negsuc n) = 1

abbrev vars_format : Spec → Bytes
vars_format s = if is_qcow2_nvram s.ovmf_vars then codes "qcow2" else codes "raw"

abbrev machine : Spec → Bytes
machine s = if s.hugepages then codes "q35,memory-backend=pc.ram" else codes "q35"

abbrev mem_backend : Spec → List Bytes
mem_backend s =
    if s.hugepages
    then codes "-object"
      ∷ (codes "memory-backend-memfd,id=pc.ram,size="
          ++ (s.memory ++ codes "M,hugetlb=on,hugetlbsize=2M,prealloc=on,share=on"))
      ∷ []
    else []

unfoldable pub code_drive : Spec → Bytes
code_drive s = codes "if=pflash,format=raw,readonly=on,file=" ++ escape_opt_value s.ovmf_code

unfoldable pub vars_drive : Spec → Bytes
vars_drive s =
    codes "if=pflash,format=" ++ (vars_format s ++ (codes ",file=" ++ escape_opt_value s.ovmf_vars))

unfoldable pub open_core_drive : Spec → Bytes
open_core_drive s =
    codes "id=OpenCoreBoot,if=none,snapshot=on,format=qcow2,aio=io_uring,file="
    ++ escape_opt_value s.open_core

unfoldable pub system_drive : Spec → Bytes
system_drive s =
    codes "id=MacHDD," ++ (ahci_drive_opts ++ (codes ",file=" ++ escape_opt_value s.disk))

unfoldable pub smc_device : Bytes
smc_device = codes "isa-applesmc,osk=" ++ osk

unfoldable pub smp : Spec → Bytes
smp s = decimal_ℤ s.cpus ++ (codes ",cores=" ++ (decimal (cores s.cpus) ++ codes ",sockets=1"))

-- the arguments that every guest has
unfoldable pub base_args : Spec → List Bytes
base_args s =
    codes "-enable-kvm"
    ∷ codes "-m"
    ∷ s.memory
    ∷ codes "-cpu"
    ∷ mac_os_cpu
    ∷ codes "-machine"
    ∷ machine s
    ∷ codes "-smp"
    ∷ smp s
    ∷ codes "-device"
    ∷ codes "qemu-xhci,id=xhci"
    ∷ codes "-device"
    ∷ codes "usb-kbd,bus=xhci.0"
    ∷ codes "-device"
    ∷ codes "usb-tablet,bus=xhci.0"
    ∷ codes "-device"
    ∷ smc_device
    ∷ codes "-drive"
    ∷ code_drive s
    ∷ codes "-drive"
    ∷ vars_drive s
    ∷ codes "-smbios"
    ∷ codes "type=2"
    ∷ codes "-device"
    ∷ codes "ich9-ahci,id=sata"
    ∷ codes "-drive"
    ∷ open_core_drive s
    ∷ codes "-device"
    ∷ codes "ide-hd,bus=sata.2,drive=OpenCoreBoot"
    ∷ codes "-drive"
    ∷ system_drive s
    ∷ codes "-device"
    ∷ codes "ide-hd,bus=sata.4,drive=MacHDD"
    ∷ codes "-device"
    ∷ codes "vmware-svga"
    ∷ []

abbrev pub data_disk_ports : List ℕ
data_disk_ports = 0 ∷ 1 ∷ 3 ∷ 5 ∷ []

unfoldable pub disk_id : ℕ → Bytes
disk_id i = codes "DataDisk" ++ decimal i

unfoldable pub disk_drive : ℕ → Bytes → Bytes
disk_drive i path =
    codes "id="
    ++ (disk_id i ++ (codes "," ++ (ahci_drive_opts ++ (codes ",file=" ++ escape_opt_value path))))

unfoldable pub disk_device : ℕ → ℕ → Bytes
disk_device port i = codes "ide-hd,bus=sata." ++ (decimal port ++ (codes ",drive=" ++ disk_id i))

abbrev attach : ℕ → Bytes → Option ℕ → Option (List Bytes) → Option (List Bytes)
attach i path (some port) (some rest) =
    some (codes "-drive" ∷ disk_drive i path ∷ codes "-device" ∷ disk_device port i ∷ rest)
attach i path _ _ = none

-- The loop over the data disks from index `i` on. `none` is the panic of an index past the four
-- ports.
unfoldable pub data_disk_args : ℕ → List Bytes → Option (List Bytes)
data_disk_args i [] = some []
data_disk_args i (path ∷ paths) =
    attach i path (get_elem? data_disk_ports i) (data_disk_args (suc i) paths)

unfoldable pub netdev : Spec → Bytes
netdev s =
    if is_set s.tap
    then codes "tap,id=net0,ifname=" ++ (escape_opt_value s.tap ++ codes ",script=no,downscript=no")
    else if ltb_ℤ (pos 0) s.ssh_port
    then codes "user,id=net0,hostfwd=tcp:127.0.0.1:" ++ (decimal_ℤ s.ssh_port ++ codes "-:22")
    else codes "user,id=net0"

unfoldable pub nic : Spec → Bytes
nic s =
    codes "virtio-net-pci,netdev=net0,id=net0"
    ++ (if is_set s.mac then codes ",mac=" ++ s.mac else [])

unfoldable pub vnc_value : Spec → Bytes
vnc_value s =
    (if is_set s.vnc_sock
      then codes "unix:" ++ escape_opt_value s.vnc_sock
      else codes "127.0.0.1:" ++ decimal_ℤ s.vnc_disp)
    ++ (if is_set s.vnc_pass then codes ",password=on" else [])

abbrev vnc_args : Spec → List Bytes
vnc_args s =
    if ltb_ℤ s.vnc_disp (pos 0)
    then []
    else codes "-k" ∷ codes "en-us" ∷ codes "-vnc" ∷ vnc_value s ∷ []

abbrev monitor_args : Bytes → Bytes → List Bytes
monitor_args flag sock =
    if is_set sock
    then flag ∷ (codes "unix:" ++ (escape_opt_value sock ++ codes ",server,nowait")) ∷ []
    else []

abbrev net_args : Spec → List Bytes
net_args s =
    codes "-netdev" ∷ netdev s ∷ codes "-device" ∷ nic s ∷ codes "-display" ∷ codes "none" ∷ []

-- the arguments behind the data disks
unfoldable pub tail_args : Spec → List Bytes
tail_args s =
    net_args s
    ++ (vnc_args s
        ++ (monitor_args (codes "-monitor") s.mon_sock ++ monitor_args (codes "-qmp") s.qmp_sock))

abbrev with_disks : Spec → Option (List Bytes) → Option (List Bytes)
with_disks s none = none
with_disks s (some disks) = some (
    mem_backend s
    ++ (base_args s
        ++ ((if s.exit_on_reboot then codes "-no-reboot" ∷ [] else []) ++ (disks ++ tail_args s))))

-- `Spec.Args`
unfoldable pub args : Spec → Option (List Bytes)
args s = with_disks s (data_disk_args 0 s.data_disks)
