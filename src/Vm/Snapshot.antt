-- ===== src/Vm/Snapshot.antt =====
-- cmd/vm/snapshot.go: the snapshots of a machine, on all of its images or on none.
pub mod Images
pub mod AllOrNothing
pub mod Guard
pub mod Same
pub mod Whole
use cocoon_macos.Base.{
  ℕ, Bool, true, false, not, ◌&&◌, ◌||◌, List, [], ◌∷◌, ◌++◌, Option, none, some, if◌then◌else◌, ℤ,
  pos, negsuc, ltb_ℤ,
}
use cocoon_macos.Text.{Bytes, codes, is_set, contains, first_set}
use cocoon_macos.Fault.{Error, Result, ok, err, fault, wrap}
use cocoon_macos.Io.{Io, pure, throw, lift, rewrap, reject, ignore, attempt, ◌>>=◌, ◌>>◌}
use cocoon_macos.Qemu.Launch.{is_qcow2_nvram}
use cocoon_macos.Qemu.Snapshot
use cocoon_macos.Vm.Record.{VmRecord, stop_grace_period}
use cocoon_macos.Vm.Host.{Host, Flags}
use cocoon_macos.Vm.Store.{load_rec, save_rec, vm_dir, with_vm_lock}
use cocoon_macos.Vm.Vnc.{validate_vnc_password}
use cocoon_macos.Vm.Process.{reconcile_running_qemu, stop_instance}
use cocoon_macos.Vm.Net.{toggle_net}
use cocoon_macos.Vm.Lifecycle.{launch_record}

-- `imagesToSnapshot`
unfoldable pub images_to_snapshot : VmRecord → List Bytes
images_to_snapshot r =
    r.disk ∷ ((if is_qcow2_nvram r.ovmf_vars then r.ovmf_vars ∷ [] else []) ++ r.data_disks)

last_of : Bytes → List Bytes → Bytes
last_of t [] = t
last_of t (u ∷ tags) = last_of u tags

-- the newest snapshot of a record, if there is one
unfoldable pub newest : List Bytes → Option Bytes
unfolding last_of
newest [] = none
newest (t ∷ tags) = some (last_of t tags)

module _ (host : Host) where
  open host use {World, run_qemu_img, image_snapshots, now}

  unfoldable pub snap_create : Bytes → Bytes → Io World (Unit {0})
  snap_create = Snapshot.snap_create run_qemu_img image_snapshots

  unfoldable pub snap_apply : Bytes → Bytes → Io World (Unit {0})
  snap_apply = Snapshot.snap_apply run_qemu_img image_snapshots

  unfoldable pub snap_delete : Bytes → Bytes → Io World (Unit {0})
  snap_delete = Snapshot.snap_delete run_qemu_img image_snapshots

  unfoldable pub snap_exists : Bytes → Bytes → Io World Bool
  snap_exists = Snapshot.snap_exists run_qemu_img image_snapshots

  -- the roll-back: the tag goes from the images that have it already
  unfoldable pub roll_back : List Bytes → Bytes → Io World (Unit {0})
  roll_back [] tag = pure tt
  roll_back (img ∷ created) tag = do ignore (snap_delete img tag); roll_back created tag

  unfoldable pub kept_or_rolled_back : List Bytes → Bytes → Result (Unit {0}) → Io World (Unit {0})
  kept_or_rolled_back created tag (ok u) = pure tt
  kept_or_rolled_back created tag (err e) = do
    roll_back created tag
    throw (wrap "snapshot %s: %w" e)

  -- the loop of `snapshotAllOrNothing`, behind the images in `created`
  unfoldable pub snapshot_from : List Bytes → List Bytes → Bytes → Io World (Unit {0})
  snapshot_from created [] tag = pure tt
  snapshot_from created (img ∷ imgs) tag = do
    done ← attempt (snap_create img tag)
    kept_or_rolled_back created tag done
    snapshot_from (created ++ img ∷ []) imgs tag

  -- `snapshotAllOrNothing`
  unfoldable pub snapshot_all_or_nothing : List Bytes → Bytes → Io World (Unit {0})
  snapshot_all_or_nothing imgs tag = snapshot_from [] imgs tag

  -- what `Snapshot` does under the lock
  unfoldable pub snapshot_vm : Bytes → Bytes → Io World (Unit {0})
  snapshot_vm dir tag = do
    r ← load_rec host dir
    (running, r') ← reconcile_running_qemu host dir r
    reject running "vm %q is running (pid %d); stop it first"
    reject (contains r'.snapshots tag) "vm %q already has snapshot %q"
    snapshot_all_or_nothing (images_to_snapshot r') tag
    save_rec host dir (record r' { snapshots = r'.snapshots ++ tag ∷ [] })

  -- `Snapshot`
  unfoldable pub snapshot : Flags → Bytes → Io World (Unit {0})
  snapshot flags name = do
    dir ← lift (vm_dir flags.vms_dir name)
    tag ← if is_set flags.tag then pure flags.tag else (do time ← now; pure (codes "snap-" ++ time))
    with_vm_lock host dir (snapshot_vm dir tag)

  -- the first loop of `Restore`: every image has the tag
  unfoldable pub check_tags : List Bytes → Bytes → Io World (Unit {0})
  check_tags [] tag = pure tt
  check_tags (img ∷ imgs) tag = do
    there ← snap_exists img tag
    reject (not there) "snapshot %q missing on disk %s; refusing a partial restore"
    check_tags imgs tag

  -- the second
  unfoldable pub apply_tags : List Bytes → Bytes → Io World (Unit {0})
  apply_tags [] tag = pure tt
  apply_tags (img ∷ imgs) tag = do
    rewrap "restore %q on %s failed mid-apply; disks may be inconsistent: %w" (snap_apply img tag)
    apply_tags imgs tag

  abbrev pub or_no_snapshots : Option Bytes → Io World Bytes
  or_no_snapshots none = throw (fault "vm %q has no snapshots")
  or_no_snapshots (some tag) = pure tag

  -- the tag to restore: the flag's, else the newest
  unfoldable pub restore_tag : Flags → VmRecord → Io World Bytes
  restore_tag flags r =
      if is_set flags.tag then pure flags.tag else or_no_snapshots (newest r.snapshots)

  -- the record of a running machine that `--force` stops for a restore
  unfoldable pub force_stop : Flags → Bytes → VmRecord → Io World VmRecord
  force_stop flags dir r = do
    reject (not flags.force) "vm %q is running; stop it first or pass --force to stop+restore"
    lift (validate_vnc_password flags.vnc_password)
    reject
        (not (is_set flags.vnc_password)
          && not (ltb_ℤ r.vnc_disp (pos 0))
          && (r.vnc_pass_set || is_set r.netns))
        "vm %q serves a password-gated VNC display; pass --vnc-password to relaunch it"
    let gated = record r { vnc_pass = flags.vnc_password }
    stop_instance host dir gated stop_grace_period
    toggled ← toggle_net host flags gated false
    let stopped = record toggled { pid = pos 0 }
    save_rec host dir stopped
    pure stopped

  unfoldable pub relaunch : Flags → Bytes → VmRecord → Io World (Unit {0})
  relaunch flags dir r = do
    launched ← launch_record host flags dir r
    ignore (toggle_net host flags launched true)

  -- what `Restore` does under the lock
  unfoldable pub restore_vm : Flags → Bytes → Io World (Unit {0})
  restore_vm flags dir = do
    r ← load_rec host dir
    (was_running, r') ← reconcile_running_qemu host dir r
    ready ← if was_running then force_stop flags dir r' else pure r'
    tag ← restore_tag flags ready
    check_tags (images_to_snapshot ready) tag
    apply_tags (images_to_snapshot ready) tag
    if was_running then relaunch flags dir ready else save_rec host dir ready

  -- `Restore`
  unfoldable pub restore : Flags → Bytes → Io World (Unit {0})
  restore flags name = do
    dir ← lift (vm_dir flags.vms_dir name)
    with_vm_lock host dir (restore_vm flags dir)
