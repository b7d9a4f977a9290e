-- ===== src/Qemu/Inject/Config.antt =====
-- qemu/inject.go: mounting the OpenCore partition and rewriting its configuration.
use cocoon_macos.Base.{Bool, true, false, List, [], ◌∷◌, ◌++◌, Option, none, some, if◌then◌else◌}
use cocoon_macos.Text.{Bytes, codes}
use cocoon_macos.Text.Hex.{decode}
use cocoon_macos.Fault.{Result, ok, err, fault, wrap, wrapped, is_not_exist}
use cocoon_macos.FilePath.{join_path}
use cocoon_macos.Io.{Io, pure, throw, lift, rewrap, ignore, attempt, when, ◌>>=◌, ◌>>◌}
use cocoon_macos.Qemu.Smbios.{Smbios}
use cocoon_macos.Qemu.Plist.{patch_config}
use cocoon_macos.Qemu.Inject.{NbdHost, nbd_lease_path, with_nbd_lease, and_finally, disconnect}
use cocoon_macos.Qemu.Inject.Connect.{connect_free_nbd}

abbrev pub succeeded : Result (Unit {0}) → Bool
succeeded (ok u) = true
succeeded (err e) = false

abbrev pub decoded_rom : Option Bytes → Result Bytes
decoded_rom none = err (fault "decode ROM: %w")
decoded_rom (some rom) = ok rom

module _ {W : Type 0} (host : NbdHost W) where
  open host use {
    run_command, stat, remove, make_temp_dir, read_file, write_file, wait_for, unmarshal, marshal,
  }

  -- `waitForPart`
  unfoldable pub wait_for_part : Bytes → Io W (Unit {0})
  wait_for_part nbd =
      rewrap "wait for partition on %s: %w"
        (wait_for 5000 (do there ← attempt (stat (nbd ++ codes "p1")); pure (succeeded there)))

  -- `os.Remove`, for which a directory that is gone is no error
  unless_missing : Result (Unit {0}) → Result (Unit {0})
  unless_missing (ok u) = ok tt
  unless_missing (err e) = if is_not_exist e then ok tt else err (wrap "remove mount dir %s: %w" e)

  -- `cleanupNBDMount`
  unfoldable pub cleanup_nbd_mount : Bytes → Bool → Io W (Unit {0})
  unfolding unless_missing
  cleanup_nbd_mount mnt mounted = do
    when mounted (rewrap "unmount %s (output: %s): %w" (run_command (codes "umount") (mnt ∷ [])))
    removed ← attempt (remove mnt)
    lift (unless_missing removed)

  -- the loop of `InjectConfig` over the partitions: the first that mounts ends it
  unfoldable pub mount_first : Bytes → List Bytes → Result (Unit {0}) → Io W (Result (Unit {0}))
  mount_first mnt [] last = pure last
  mount_first mnt (p ∷ parts) last = do
    let rest = mount_first mnt parts
    this ← attempt (run_command (codes "mount") (p ∷ mnt ∷ []))
    if succeeded this then pure this else rest this

  -- `patchPlist`
  unfoldable pub patch_plist : Bytes → Smbios → Io W (Unit {0})
  patch_plist path sm = do
    b ← rewrap "read config.plist: %w" (read_file path)
    cfg ← lift (wrapped "parse config.plist: %w" (unmarshal b))
    rom ← lift (decoded_rom (decode sm.rom))
    out ← lift (wrapped "encode config.plist: %w" (marshal (patch_config sm rom cfg)))
    write_file path out

  -- `InjectConfig` on a mounted partition
  unfoldable pub patch_mounted : Bytes → Smbios → Result (Unit {0}) → Io W (Unit {0})
  patch_mounted mnt sm (err e) = throw (wrap "mount OpenCore EFI partition on %s: %w" e)
  patch_mounted mnt sm (ok u) =
      patch_plist
        (join_path (join_path (join_path mnt (codes "EFI")) (codes "OC")) (codes "config.plist")) sm

  -- `InjectConfig` on a connected device
  unfoldable pub patch_connected : Bytes → Smbios → Io W (Unit {0})
  patch_connected device sm = do
    wait_for_part device
    mnt ← rewrap "create mount dir: %w" (make_temp_dir (codes "oc-efi-"))
    mounted ← mount_first mnt ((device ++ codes "p1") ∷ (device ++ codes "p2") ∷ []) (ok tt)
    and_finally (patch_mounted mnt sm mounted) (cleanup_nbd_mount mnt (succeeded mounted))

  -- the transaction of `InjectConfig`
  unfoldable pub inject_leased : Bytes → Smbios → Io W (Unit {0})
  inject_leased oc_path sm = do
    ignore (run_command (codes "modprobe") (codes "nbd" ∷ codes "max_part=8" ∷ []))
    conn ← connect_free_nbd host oc_path
    and_finally (patch_connected conn.device sm) (disconnect host conn)

  -- `InjectConfig`
  unfoldable pub inject_config : Bytes → Smbios → Io W (Unit {0})
  inject_config oc_path sm = with_nbd_lease host nbd_lease_path (inject_leased oc_path sm)
