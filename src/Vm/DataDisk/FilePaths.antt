-- ===== src/Vm/DataDisk/FilePaths.antt =====
-- `dataDiskPath` and `dataDiskName`.
use cocoon_macos.Base.{refl, false, ◌++◌, ◌≡◌, ◌∙◌, ap, arith, any-append, ◌==◌}
use cocoon_macos.Text.{Bytes, codes, trim_prefix, trim_suffix, text_eq}
use cocoon_macos.Text.Laws.{trim_prefix-append, trim_suffix-append}
use cocoon_macos.FilePath.{has_slash}
use cocoon_macos.FilePath.Joins.{IsComponent, base-join_path}
use cocoon_macos.Vm.DataDisk.{data_disk_path, data_disk_name}

disk_file-plain :
    (name : Bytes)
    → has_slash name ≡ false
    → has_slash (codes "data-" ++ (name ++ codes ".qcow2")) ≡ false
disk_file-plain name h = ground (arith, any-append (λ c. c == b'/') name (codes ".qcow2"))

disk_file-IsComponent :
    (name : Bytes)
    → has_slash name ≡ false
    → IsComponent (codes "data-" ++ (name ++ codes ".qcow2"))
unfolding text_eq
disk_file-IsComponent name h = record {
  plain = disk_file-plain name h;
  ne = λ e. cc;
  not_dot = refl;
  not_dots = refl;
}

-- The name of a disk is read back from its path in any directory, if the name holds no slash.
pub data_disk_name-data_disk_path :
    (dir name : Bytes) → has_slash name ≡ false → data_disk_name (data_disk_path dir name) ≡ name
unfolding data_disk_name data_disk_path
data_disk_name-data_disk_path dir name h =
    let file = codes "data-" ++ (name ++ codes ".qcow2") in
    ap (λ f. trim_suffix (trim_prefix f (codes "data-")) (codes ".qcow2"))
      (base-join_path dir file (disk_file-IsComponent name h))
    ∙ ap (λ f. trim_suffix f (codes ".qcow2"))
        (trim_prefix-append (codes "data-") (name ++ codes ".qcow2"))
    ∙ trim_suffix-append name b'.' (codes "qcow2")
