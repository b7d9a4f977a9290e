-- ===== src/Vm/Gc.antt =====
-- cmd/vm/gc.go: the machines of a state root, and the locks of all of them.
pub mod Locks
pub mod LockAll
pub mod Sweep
pub mod Strays
use cocoon_macos.Base.{
  ℕ, Bool, true, false, not, ◌&&◌, List, [], ◌∷◌, ◌++◌, if◌then◌else◌, Option, none, some, ◌+◌, ltb,
  leb, length,
}
use cocoon_macos.Text.{Bytes, codes, has_prefix, has_suffix, first_set}
use cocoon_macos.Fault.{Error, Result, ok, err, fault, wrap, is_not_exist}
use cocoon_macos.FilePath.{join_path, parent}
use cocoon_macos.Io.{
  Io, pure, throw, lift, rewrap, reject, ignore, attempt, finally, ask, both, ◌>>=◌, ◌>>◌,
}
use cocoon_macos.Vm.Record.{VmRecord}
use cocoon_macos.Vm.Host.{Host, Flags, Provider, cni, TempEntry}
use cocoon_macos.Vm.Store.{load_rec, vm_lock_path, locks_dir}
use cocoon_macos.Vm.Process.{reset_incomplete_vm_dir}
use cocoon_macos.Vm.Create.{gc_lock_path}

-- the subdirectories that are machines: a name that starts with a dot is the locks' directory
unfoldable pub visible : Bytes → List Bytes → List Bytes
visible vms_dir [] = []
visible vms_dir (n ∷ names) =
    let rest = visible vms_dir names in
    if has_prefix n (codes ".") then rest else join_path vms_dir n ∷ rest

module _ (host : Host) where
  open host use {World, ensure_dirs, try_lock, unlock, scan_subdirs, file_exists}

  -- `vmDirs`
  unfoldable pub vm_dirs : Flags → Io World (List Bytes)
  vm_dirs flags = do names ← scan_subdirs flags.vms_dir; pure (visible flags.vms_dir names)

  -- the closure `unlock`, of the locks that are held
  unfoldable pub unlock_all : List Bytes → Io World (Unit {0})
  unlock_all [] = pure tt
  unlock_all (path ∷ held) = do ignore (unlock path); unlock_all held

  -- a lock that was tried: an error or a busy machine gives the held ones back
  unfoldable pub locked_or_unlocked : List Bytes → Result Bool → Io World (Unit {0})
  locked_or_unlocked held (ok true) = pure tt
  locked_or_unlocked held (ok false) = do
    unlock_all held
    throw (fault "vm %s is busy; retry when it finishes")
  locked_or_unlocked held (err e) = do unlock_all held; throw e

  unfoldable pub try_one : Bytes → Io World Bool
  try_one path = do
    rewrap "create vm lock dir: %w" (ensure_dirs (parent path))
    rewrap "lock vm %s: %w" (try_lock path)

  -- the loop of `tryLockVMDirs`, with the locks that are held
  unfoldable pub lock_from : List Bytes → List Bytes → Io World (List Bytes)
  lock_from held [] = pure held
  lock_from held (dir ∷ dirs) = do
    tried ← attempt (try_one (vm_lock_path dir))
    locked_or_unlocked held tried
    lock_from (held ++ vm_lock_path dir ∷ []) dirs

  -- `tryLockVMDirs`, which returns the held locks in place of the closure that unlocks them
  unfoldable pub try_lock_vm_dirs : List Bytes → Io World (List Bytes)
  try_lock_vm_dirs dirs = lock_from [] dirs
