-- ===== src/Vm/Tests/Disks.antt =====
-- Examples: the theorems on data disks, names and sizes.
use cocoon_macos.Base.{false, List, [], ◌∷◌, ◌≡◌, refl, ◌↔◌, ◌⊎◌, ◌≤◌, ℤ, pos, length, arith}
use cocoon_macos.Text.{Bytes, codes, contains}
use cocoon_macos.Fault.{ok}
use cocoon_macos.FilePath.{join_path, base, parent, clean, is_rooted}
use cocoon_macos.Vm.DataDisk.{
  DataDiskSpec, parse_data_disks, parse_data_disk_spec, candidate, next_free, data_disk_name,
  data_disk_path,
}
use cocoon_macos.Vm.DataDisk.Names.{contains-next_free}
use cocoon_macos.Vm.DataDisk.Fresh.{IsFresh, names, parse_data_disks-IsFresh}
use cocoon_macos.Vm.DataDisk.Accept.{
  AllAnswer, IsAcceptable, parse_data_disks-AllAnswer, parse_data_disks_iff,
}
use cocoon_macos.Vm.DataDisk.FilePaths.{data_disk_name-data_disk_path}
use cocoon_macos.Vm.Store.{vm_dir}
use cocoon_macos.Vm.Store.Names.{vm_dir_child}
use cocoon_macos.Vm.Provision.{requested_vm_name, resize_system_disk}
use cocoon_macos.Vm.Provision.Names.{requested_vm_name-vm_dir}
use cocoon_macos.Vm.Provision.Resize.{IsGrown, resize_system_disk-IsGrown}
use cocoon_macos.Vm.Tests.Toy.{toy, toy_parse, desk}

abbrev wanted_disks : List Bytes
wanted_disks = codes ",size=1G" ∷ codes "data1,size=2G" ∷ []

abbrev disk : Bytes → DataDiskSpec
disk n = record { name = n; size = pos 4096 }

abbrev two_disks : List DataDiskSpec
two_disks = disk (codes "data2") ∷ disk (codes "data1") ∷ []

accepted : parse_data_disks toy_parse wanted_disks (codes "x" ∷ []) ≡ ok two_disks
unfolding parse_data_disks cocoon_macos.Vm.DataDisk.parse_specs parse_data_disk_spec
    cocoon_macos.Text.split contains cocoon_macos.Text.Space.trim_space cocoon_macos.Text.before
    cocoon_macos.Vm.DataDisk.claim_names cocoon_macos.Vm.DataDisk.auto_names candidate
    cocoon_macos.Text.Decimal.decimal next_free
accepted = refl

parse_data_disks-IsFresh_example : IsFresh (codes "x" ∷ []) (names two_disks)
parse_data_disks-IsFresh_example =
    parse_data_disks-IsFresh toy_parse wanted_disks (codes "x" ∷ []) accepted

parse_data_disks-AllAnswer_example : AllAnswer toy_parse wanted_disks two_disks
parse_data_disks-AllAnswer_example =
    parse_data_disks-AllAnswer toy_parse wanted_disks (codes "x" ∷ []) accepted

parse_data_disks_iff_example :
    ((specs : List DataDiskSpec) × (parse_data_disks toy_parse wanted_disks (codes "x" ∷ [])
        ≡ ok specs))
    ↔ IsAcceptable toy_parse wanted_disks (codes "x" ∷ [])
parse_data_disks_iff_example = parse_data_disks_iff toy_parse wanted_disks (codes "x" ∷ [])

abbrev used_names : List Bytes
used_names = codes "data2" ∷ codes "data1" ∷ []

contains-next_free_example : contains used_names (candidate (next_free 2 used_names 1)) ≡ false
contains-next_free_example = contains-next_free 2 used_names 1 (omega arith)

data_disk_name-data_disk_path_example :
    data_disk_name (data_disk_path (codes "/vms/m") (codes "x")) ≡ codes "x"
data_disk_name-data_disk_path_example =
    data_disk_name-data_disk_path (codes "/vms/m") (codes "x") refl

-- a name that moves leaves the machines' directory: `VMDir` has to refuse it
join_dots : join_path (codes "/vms/./a//b/..") (codes "..") ≡ codes "/vms"
unfolding join_path cocoon_macos.Text.text_eq
join_dots = refl

vm_dir_child_example :
    ((parent (codes "/vms/m") ≡ clean (codes "/vms")) × (base (codes "/vms/m") ≡ codes "m"))
    ⊎ ((codes "m" ≡ codes "/") × (codes "/vms/m" ≡ clean (codes "/vms")))
unfolding vm_dir cocoon_macos.Text.has_prefix cocoon_macos.Text.text_eq base join_path is_rooted
vm_dir_child_example = vm_dir_child (codes "/vms") (codes "m") {dir = codes "/vms/m"} refl refl

requested_vm_name-vm_dir_example :
    (vm_dir (codes "/vms") (codes "m-1") ≡ ok (join_path (codes "/vms") (codes "m-1")))
    × (parent (join_path (codes "/vms") (codes "m-1")) ≡ clean (codes "/vms"))
    × (base (join_path (codes "/vms") (codes "m-1")) ≡ codes "m-1")
    × (length (codes "m-1") ≤ 63)
unfolding requested_vm_name cocoon_macos.Vm.Provision.valid_name
    cocoon_macos.Vm.Provision.is_alphanumeric cocoon_macos.Vm.Provision.all_name_bytes
    cocoon_macos.Vm.Provision.is_name_byte is_rooted
requested_vm_name-vm_dir_example =
    requested_vm_name-vm_dir (codes "m-1") (codes "macos-1") (codes "/vms") {name = codes "m-1"}
      refl refl

resize_system_disk-IsGrown_example :
    (size : ℤ) × ((toy.virtual_size (codes "/vms/m/disk.qcow2") desk).0 ≡ ok size)
    × IsGrown (pos 8192) size (pos 8192)
unfolding resize_system_disk cocoon_macos.Vm.Provision.resized
resize_system_disk-IsGrown_example =
    resize_system_disk-IsGrown toy (codes "/vms/m/disk.qcow2") (pos 8192) desk refl
