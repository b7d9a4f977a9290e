-- ===== src/Vm/Provision.antt =====
-- cmd/vm/lifecycle.go, cmd/vm/utils.go and cmd/vm/gc.go: the checks of a new machine's flags, and
-- the steps that lay down its directory, or clean it up.
pub mod Names
pub mod Resize
use cocoon_macos.Base.{
  ℕ, zero, suc, Bool, true, false, not, ◌&&◌, ◌||◌, List, [], ◌∷◌, ◌++◌, Option, none, some,
  if◌then◌else◌, ℤ, pos, negsuc, ltb, leb, ◌==◌, ltb_ℤ, eq_ℤ, length, ◌%◌,
}
use cocoon_macos.Text.{Bytes, codes, is_set, first_set, trim_prefix}
use cocoon_macos.Text.Decimal.{decimal_ℤ, atoi, is_digit}
use cocoon_macos.Text.Space.{trim_space}
use cocoon_macos.Fault.{Error, Result, ok, err, fault, wrap, wrapped, reject_if, is_not_exist}
use cocoon_macos.FilePath.{join_path, base, parent}
use cocoon_macos.Io.{
  Io, pure, throw, lift, rewrap, reject, ignore, attempt, finally, ask, both, ◌>>=◌, ◌>>◌,
}
use cocoon_macos.Qemu.Smbios.{Smbios, random_smbios, mac}
use cocoon_macos.Vm.DataDisk.{DataDiskSpec, data_disk_path}
use cocoon_macos.Vm.Record.{VmRecord}
use cocoon_macos.Vm.Host.{Host, Flags}
use cocoon_macos.Vm.Store.{vm_dir, record_path, locks_dir}
use cocoon_macos.Vm.Process.{
  mon_sock_path, stop_instance, reap_stray_helpers, reset_incomplete_vm_dir,
}
use cocoon_macos.Vm.Net.{teardown_net}

unfoldable pub is_alphanumeric : ℕ → Bool
is_alphanumeric c =
    (leb b'a' c && leb c b'z') || ((leb b'A' c && leb c b'Z') || (leb b'0' c && leb c b'9'))

unfoldable pub is_name_byte : ℕ → Bool
is_name_byte c = is_alphanumeric c || ((c == b'.') || ((c == b'_') || (c == b'-')))

unfoldable pub all_name_bytes : Bytes → Bool
all_name_bytes [] = true
all_name_bytes (c ∷ s) = is_name_byte c && all_name_bytes s

-- `validName`: the pattern `^[a-zA-Z0-9][a-zA-Z0-9._-]{0,62}$`
unfoldable pub valid_name : Bytes → Bool
valid_name [] = false
valid_name (c ∷ s) = is_alphanumeric c && (all_name_bytes s && leb (length s) 62)

-- `requestedVMName`, of the flag and the fallback
unfoldable pub requested_vm_name : Bytes → Bytes → Result Bytes
requested_vm_name flag fallback =
    if valid_name (first_set flag fallback)
    then ok (first_set flag fallback)
    else if is_set flag
    then err (fault "invalid vm name %q: must match %s")
    else err (fault "generated vm name %q is invalid (max 63 chars): pass --name")

is_odd : ℤ → Bool
is_odd (pos n) = n % 2 == 1
is_odd (negsuc n) = n % 2 == 0

-- `validateMacOSCPUs`
unfoldable pub validate_macos_cpus : ℤ → Result (Unit {0})
unfolding is_odd
validate_macos_cpus cpus =
    reject_if (ltb_ℤ cpus (pos 1) || is_odd cpus) "--cpus must be a positive even number, got %d"

is_positive : Option ℤ → Bool
is_positive none = false
is_positive (some n) = ltb_ℤ (pos 0) n

-- `validateMemory`
unfoldable pub validate_memory : Bytes → Result (Unit {0})
unfolding is_positive
validate_memory mem =
    reject_if (not (is_positive (atoi mem))) "--memory must be a positive MiB count, got %q"

positive_size : Result ℤ → Result ℤ
positive_size (err e) = err e
positive_size (ok n) = if ltb_ℤ (pos 0) n then ok n else err (fault "size must be positive")

-- `storageFromFlag`, over cocoon's `types.ParseSize`
unfoldable pub storage_from_flag : (Bytes → Result ℤ) → Bytes → Result ℤ
unfolding positive_size
storage_from_flag parse_size raw =
    if not (is_set (trim_space raw))
    then ok (pos 0)
    else wrapped "invalid --storage %q: %w" (positive_size (parse_size raw))

module _ (host : Host) where
  open host use {
    World, run_qemu_img, virtual_size, file_exists, valid_file, reflink_copy, stat, remove_all,
    ensure_dirs, read_lock, unlock, open_store, inspect_image, blob_path, rand_bytes, new_uuid,
  }

  -- `bakeOverlay`
  unfoldable pub bake_overlay : Bytes → Bytes → Io World (Unit {0})
  bake_overlay image dst = rewrap "bake overlay on %s: %w" (
      run_qemu_img (
        codes "create"
        ∷ codes "-f"
        ∷ codes "qcow2"
        ∷ codes "-F"
        ∷ codes "qcow2"
        ∷ codes "-b"
        ∷ image
        ∷ dst
        ∷ []))

  grown : Bytes → ℤ → Io World ℤ
  grown path target = do
    rewrap "resize system disk %s to %d bytes: %w"
        (run_qemu_img (codes "resize" ∷ path ∷ decimal_ℤ target ∷ []))
    pure target

  -- the rest of `resizeSystemDisk` behind the header, which has the disk's size
  unfoldable pub resized : Bytes → ℤ → ℤ → Io World ℤ
  unfolding grown
  resized path target size =
      if eq_ℤ target (pos 0) || eq_ℤ target size
      then pure size
      else if ltb_ℤ target size
      then throw (
          fault
            "--storage %d bytes is smaller than image virtual size %d bytes; shrinking is not supported")
      else grown path target

  -- `resizeSystemDisk`: the size that the disk has behind it
  unfoldable pub resize_system_disk : Bytes → ℤ → Io World ℤ
  resize_system_disk path target = do
    size ← rewrap "read system disk %s: %w" (virtual_size path)
    resized path target size

  -- `createDataDisks`: the paths of the new disks
  unfoldable pub create_data_disks : Bytes → List DataDiskSpec → Io World (List Bytes)
  create_data_disks dir [] = pure []
  create_data_disks dir (s ∷ specs) = do
    rewrap "create data disk %s: %w" (
        run_qemu_img (
          codes "create"
          ∷ codes "-f"
          ∷ codes "qcow2"
          ∷ data_disk_path dir s.name
          ∷ decimal_ℤ s.size
          ∷ []))
    paths ← create_data_disks dir specs
    pure (data_disk_path dir s.name ∷ paths)

  -- `copyDataDisks`: the paths of the copies
  unfoldable pub copy_data_disks : Bytes → List Bytes → Io World (List Bytes)
  copy_data_disks dir [] = pure []
  copy_data_disks dir (path ∷ src) = do
    rewrap "copy data disk %s: %w" (reflink_copy (join_path dir (base path)) path)
    paths ← copy_data_disks dir src
    pure (join_path dir (base path) ∷ paths)

  unfoldable pub blob_of : Bytes → Option Bytes → Io World (Bytes × Bytes)
  blob_of image none = throw (fault "resolve image %q for vm %s: not a file, not in the store")
  blob_of image (some id) = do
    valid ← ask (valid_file (blob_path (trim_prefix id (codes "sha256:"))))
    reject (not valid) "blob %s invalid for vm %s (image %q)"
    pure (blob_path (trim_prefix id (codes "sha256:")), id)

  -- `resolveBase`: the file of an image, and its digest
  unfoldable pub resolve_base : Bytes → Io World (Bytes × Bytes)
  unfolding blob_of
  resolve_base image = do
    is_file ← ask (file_exists image)
    if is_file then pure (image, []) else do
      open_store
      found ← rewrap "resolve image %q for vm %s: %w" (inspect_image image)
      blob_of image found

  -- one round of the loop of `resolveFirmware`
  firmware_file : Bytes → Io World Bytes
  firmware_file p = do
    valid ← ask (valid_file p)
    reject (not valid) "firmware not found: %s"
    lift (wrapped "resolve firmware path: %w" (host.absolute p))

  -- `resolveFirmware`: the loader, the firmware's code and its variables
  unfoldable pub resolve_firmware : Flags → Io World (Bytes × Bytes × Bytes)
  unfolding firmware_file
  resolve_firmware flags = do
    oc ←
        firmware_file
          (first_set flags.open_core (join_path flags.firmware_dir (codes "OpenCore.qcow2")))
    code ←
        firmware_file
          (first_set flags.ovmf_code (join_path flags.firmware_dir (codes "OVMF_CODE.fd")))
    vars ←
        firmware_file
          (first_set flags.ovmf_vars (join_path flags.firmware_dir (codes "OVMF_VARS.fd")))
    pure (oc, code, vars)
