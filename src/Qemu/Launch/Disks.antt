-- ===== src/Qemu/Launch/Disks.antt =====
-- The drives and the SATA ports of a guest.
use cocoon_macos.Base.{
  ℕ, suc, Bool, true, false, List, [], ◌∷◌, ◌++◌, Option, none, some, ◌≡◌, refl, ◌∙◌, arith, ap,
  if◌then◌else◌, Bool-cases, inl, inr, map, append-nil, ltb_ℤ, pos,
}
use mathlib.Core.Path.{ap₂}
use mathlib.Core.List.{map-append}
use cocoon_macos.Text.{Bytes, codes, text_eq}
use cocoon_macos.Text.Decimal.{decimal, decimal-no_comma}
use cocoon_macos.Qemu.Launch.{
  Spec, code_drive, vars_drive, open_core_drive, system_drive, net_args, args, base_args,
  mem_backend, tail_args, data_disk_args, disk_drive, escape_opt_value, ahci_drive_opts, disk_id,
  vnc_args, is_qcow2_nvram,
}
use cocoon_macos.Qemu.Launch.Escape.{fields-escape_opt_value_end}
use cocoon_macos.Qemu.Launch.Parts.{
  reboot_args, args_inv, values-args, attach-eq-some, values-tail_args,
}
use cocoon_macos.Qemu.Options.{values, fields, lookup_field, fields_plain}

-- the file that a `-drive` value names, as qemu reads it
abbrev pub drive_file : Bytes → Option Bytes
drive_file v = lookup_field (codes "file=") (fields false [] v)

abbrev pub drive_files : List Bytes → List (Option Bytes)
drive_files a = map drive_file (values (codes "-drive") none a)

file_field :
    (v : Bytes)
    → lookup_field (codes "file=") (fields false (codes "file=") (escape_opt_value v)) ≡ some v
unfolding lookup_field
file_field v = rw (fields-escape_opt_value_end v (codes "file="))

drive_file-code_drive : (s : Spec) → drive_file (code_drive s) ≡ some s.ovmf_code
unfolding code_drive fields lookup_field
drive_file-code_drive s = file_field s.ovmf_code

vars_file :
    (qcow2 : Bool) (path : Bytes)
    → drive_file (
        codes "if=pflash,format="
        ++ ((if qcow2 then codes "qcow2" else codes "raw")
            ++ (codes ",file=" ++ escape_opt_value path)))
      ≡ some path
unfolding fields lookup_field
vars_file true path = file_field path
vars_file false path = file_field path

drive_file-vars_drive : (s : Spec) → drive_file (vars_drive s) ≡ some s.ovmf_vars
unfolding vars_drive
drive_file-vars_drive s = vars_file (is_qcow2_nvram s.ovmf_vars) s.ovmf_vars

drive_file-open_core_drive : (s : Spec) → drive_file (open_core_drive s) ≡ some s.open_core
unfolding open_core_drive fields lookup_field
drive_file-open_core_drive s = file_field s.open_core

drive_file-system_drive : (s : Spec) → drive_file (system_drive s) ≡ some s.disk
unfolding system_drive ahci_drive_opts fields lookup_field
drive_file-system_drive s = file_field s.disk

values-base_args :
    (s : Spec)
    → values (codes "-drive") none (base_args s)
      ≡ code_drive s ∷ vars_drive s ∷ open_core_drive s ∷ system_drive s ∷ []
unfolding values base_args
values-base_args s = refl

drives-base_args :
    (s : Spec)
    → drive_files (base_args s)
      ≡ some s.ovmf_code ∷ some s.ovmf_vars ∷ some s.open_core ∷ some s.disk ∷ []
drives-base_args s =
    ap (map drive_file) (values-base_args s)
    ∙ cc (
      drive_file-code_drive s,
      drive_file-vars_drive s,
      drive_file-open_core_drive s,
      drive_file-system_drive s,
    )

drive_file-disk_drive : (i : ℕ) (path : Bytes) → drive_file (disk_drive i path) ≡ some path
unfolding disk_drive disk_id fields lookup_field ahci_drive_opts
drive_file-disk_drive i path =
    rw (fields_plain (decimal i) (codes "id=DataDisk") _ (decimal-no_comma i)) (file_field path)

drives-data_disk_args :
    (i : ℕ) (paths disks : List Bytes)
    → data_disk_args i paths ≡ some disks
    → drive_files disks ≡ map some paths
unfolding data_disk_args values
drives-data_disk_args i [] disks h = ground arith
drives-data_disk_args i (path ∷ paths) disks h =
    let (port, rest, at, more, e) = attach-eq-some i path _ _ h in
    rw e (ap₂ ◌∷◌ (drive_file-disk_drive i path) (drives-data_disk_args (suc i) paths rest more))

drives-tail_args : (s : Spec) → drive_files (tail_args s) ≡ []
drives-tail_args s = ap (map drive_file) (
    values-tail_args (codes "-drive") s (unfold text_eq in refl) (unfold text_eq in refl)
    ∙ values-net)
  where
    values-net :
        values (codes "-drive") none (net_args s) ++ values (codes "-drive") none (vnc_args s) ≡ []
    values-net = elim (Bool-cases (ltb_ℤ s.vnc_disp (pos 0))) [
      | inl off ↦ rw off (unfold values in refl)
      | inr on ↦ rw on (unfold values in refl)
    ]

drives-mem_backend : (s : Spec) → drive_files (mem_backend s) ≡ []
drives-mem_backend s = elim (Bool-cases s.hugepages) [
  | inl on ↦ rw on (unfold values in refl)
  | inr off ↦ rw off (unfold values in refl)
]

drives-reboot_args : (s : Spec) → drive_files (reboot_args s) ≡ []
drives-reboot_args s = elim (Bool-cases s.exit_on_reboot) [
  | inl on ↦ rw on (unfold values in refl)
  | inr off ↦ rw off (unfold values in refl)
]

-- If the command line is built, the files of its drives, as qemu reads them, are the firmware, the
-- NVRAM, the OpenCore disk, the system disk and the data disks in order, whatever bytes the paths
-- hold.
pub drive_files-args :
    (s : Spec) {a : List Bytes}
    → args s ≡ some a
    → drive_files a ≡ map some (s.ovmf_code ∷ s.ovmf_vars ∷ s.open_core ∷ s.disk ∷ s.data_disks)
drive_files-args s h =
    let (disks, d, e) = args_inv s h in
    ap (map drive_file) (values-args (codes "-drive") s d e)
    ∙ simp (
      map-append,
      drives-mem_backend,
      drives-base_args,
      drives-reboot_args,
      drives-data_disk_args 0 s.data_disks disks d,
      drives-tail_args,
      append-nil,
    )
