-- ===== src/Vm/Gc/Sweep.antt =====
-- cmd/vm/gc.go and cmd/vm/gc_linux.go: the sweep, which runs under the provisioning lock and every
-- machine's lock.
use cocoon_macos.Base.{
  ℕ, Bool, true, false, not, ◌&&◌, List, [], ◌∷◌, ◌++◌, if◌then◌else◌, Option, none, some, ◌+◌, ltb,
  leb, length,
}
use cocoon_macos.Text.{Bytes, codes, has_prefix, has_suffix, first_set}
use cocoon_macos.Fault.{Error, Result, ok, err, wrap, is_not_exist}
use cocoon_macos.FilePath.{join_path, parent}
use cocoon_macos.Io.{
  Io, pure, throw, lift, rewrap, reject, attempt, finally, ask, both, ◌>>=◌, ◌>>◌,
}
use cocoon_macos.Vm.Record.{VmRecord}
use cocoon_macos.Vm.Host.{Host, Flags, Provider, cni, TempEntry}
use cocoon_macos.Vm.Store.{load_rec, locks_dir}
use cocoon_macos.Vm.Process.{reset_incomplete_vm_dir}
use cocoon_macos.Vm.Create.{gc_lock_path}
use cocoon_macos.Vm.Gc.{vm_dirs, unlock_all, try_lock_vm_dirs}

-- `vmGCSnapshot`: the ids of the machines, and the directories with no record
pub record VmGcSnapshot : Type 0 where
  pub ids : List Bytes
  pub strays : List Bytes

-- `gc.Module` on these snapshots
pub record GcModule (W : Type 0) : Type 0 where
  pub read : Io W VmGcSnapshot
  pub resolve : VmGcSnapshot → List Bytes
  pub collect : List Bytes → Io W (Unit {0})

-- a name that `pull-*.qcow2` matches; a name of an entry has no slash
unfoldable pub matches_pull_temp : Bytes → Bool
matches_pull_temp name =
    has_prefix name (codes "pull-") && (has_suffix name (codes ".qcow2") && leb 11 (length name))

older_than : ℕ → ℕ → Option ℕ → Bool
older_than age now none = false
older_than age now (some t) = ltb (t + age) now

-- the file of a pull that was left behind; `age` is `utils.StaleTempAge`
unfoldable pub is_stale : ℕ → ℕ → TempEntry → Bool
unfolding older_than
is_stale age now e = matches_pull_temp e.name && (not e.is_dir && older_than age now e.mod_time)

-- `errors.Join` of a list
unfoldable pub all_joined : List Error → Result (Unit {0})
all_joined [] = ok tt
all_joined (e ∷ errs) = let rest = all_joined errs in both (err e) rest

-- `netConf` of a record with nothing in it
unfoldable pub swept_net : Flags → Provider
swept_net flags =
    cni (first_set flags.cni_conf_dir (codes "/etc/cni/net.d"))
      (first_set flags.cni_bin_dir (codes "/opt/cni/bin"))

module _ (host : Host) where
  unfoldable pub noted : Bytes → Result VmRecord → VmGcSnapshot → Io host.World VmGcSnapshot
  noted dir (ok r) snap = pure (record snap { ids = snap.ids ++ r.vmid ∷ [] })
  noted dir (err e) snap =
      if is_not_exist e
      then pure (record snap { strays = snap.strays ++ dir ∷ [] })
      else throw (wrap "read vm %s for gc: %w" e)

  -- `ReadDB` of `vmGCModule`
  unfoldable pub read_db : VmGcSnapshot → List Bytes → Io host.World VmGcSnapshot
  read_db snap [] = pure snap
  read_db snap (dir ∷ dirs) = do
    r ← attempt (load_rec host dir)
    snap' ← noted dir r snap
    read_db snap' dirs

-- `stale_temp_age` is `utils.StaleTempAge`, in seconds.
module _ (host : Host) (stale_temp_age : ℕ) where
  open host use {
    World, stat, clock, remove_matching, open_provider, ensure_dirs, try_lock, unlock, file_exists,
  }

  -- the loop of `Collect`: the directories with no record, with the errors joined
  unfoldable pub collect_strays : List Bytes → Io World (Result (Unit {0}))
  collect_strays [] = pure (ok tt)
  collect_strays (dir ∷ strays) = do
    this ← attempt (reset_incomplete_vm_dir host dir)
    rest ← collect_strays strays
    pure (both this rest)

  -- `Collect` of `vmGCModule`, of the state root
  unfoldable pub collect : Bytes → List Bytes → Io World (Unit {0})
  collect state_dir strays = do
    errs ← collect_strays strays
    now ← clock
    removed ← remove_matching state_dir (is_stale stale_temp_age now)
    lift (both errs (all_joined removed))

  -- `vmGCModule`
  unfoldable pub vm_gc_module : Bytes → List Bytes → GcModule World
  vm_gc_module state_dir dirs = record {
    read = read_db host (record { ids = []; strays = [] }) dirs;
    resolve = λ snap. snap.strays;
    collect = collect state_dir;
  }

  is_none : List Bytes → Bool
  is_none [] = true
  is_none (dir ∷ dirs) = false

  -- `registerNetGC`: the network whose namespaces and TAPs are swept
  unfoldable pub register_net_gc : Flags → Io World Provider
  register_net_gc flags = do open_provider (swept_net flags); pure (swept_net flags)

  -- what `sweep` does under the provisioning lock; `run` is cocoon's orchestrator on the machines and,
  -- if the state root has had machines, the network
  unfoldable pub sweep_locked :
      Flags → (GcModule World → Option Provider → Io World (Unit {0})) → Io World (Unit {0})
  unfolding is_none
  sweep_locked flags run = do
    dirs ← vm_dirs host flags
    held ← try_lock_vm_dirs host dirs
    finally
        (do
          marked ←
              ask
                (file_exists (join_path (join_path flags.vms_dir locks_dir) (codes ".provisioned")))
          net ←
              if is_none dirs && not marked
              then pure none
              else (do p ← register_net_gc flags; pure (some p))
          run (vm_gc_module (parent flags.vms_dir) dirs) net)
        (unlock_all host held)

  -- `sweep`, which is `GC`
  unfoldable pub sweep :
      Flags → (GcModule World → Option Provider → Io World (Unit {0})) → Io World (Unit {0})
  sweep flags run = do
    rewrap "no state root at %s: %w" (stat (parent flags.vms_dir))
    rewrap "create vm lock dir: %w" (ensure_dirs (join_path flags.vms_dir locks_dir))
    locked ← rewrap "lock gc: %w" (try_lock (gc_lock_path flags.vms_dir))
    reject (not locked) "a create or clone is provisioning; retry when it finishes"
    finally (sweep_locked flags run) (unlock (gc_lock_path flags.vms_dir))
