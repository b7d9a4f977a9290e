-- ===== src/Vm/Store.antt =====
-- cmd/vm/utils.go and home/home.go: the directory, the record and the lock of a machine.
pub mod Names
pub mod Order
pub mod Processes
pub mod Ascending
pub mod Latest
pub mod Progress
pub mod Finish
use cocoon_macos.Base.{ℕ, Bool, true, false, not, ◌&&◌, ◌||◌, List, [], ◌∷◌, ◌++◌, if◌then◌else◌}
use cocoon_macos.Text.{Bytes, codes, text_eq, text_lt, is_set, has_prefix}
use cocoon_macos.Fault.{Result, ok, err, fault}
use cocoon_macos.FilePath.{join_path, base, parent}
use cocoon_macos.Io.{Io, pure, lift, rewrap, finally, ◌>>=◌, ◌>>◌}
use cocoon_macos.Vm.Record.{VmRecord, stored}
use cocoon_macos.Vm.Host.{Host, Flags}

-- `home.VMDir`
unfoldable pub vm_dir : Bytes → Bytes → Result Bytes
vm_dir vms_dir name =
    if not (is_set name) || has_prefix name (codes ".") || not (text_eq (base name) name)
    then err (fault "invalid vm name %q: must be one path component and not start with a dot")
    else ok (join_path vms_dir name)

abbrev pub locks_dir : Bytes
locks_dir = codes ".locks"

unfoldable pub vm_lock_path : Bytes → Bytes
vm_lock_path dir = join_path (join_path (parent dir) locks_dir) (base dir ++ codes ".lock")

abbrev pub record_path : Bytes → Bytes
record_path dir = join_path dir (codes "vm.json")

module _ (host : Host) where
  open host use {World, read_json, write_json, ensure_dirs, lock, unlock, touch}

  unfoldable pub load_rec : Bytes → Io World VmRecord
  load_rec dir = rewrap "read vm record: %w" (read_json (record_path dir))

  unfoldable pub save_rec : Bytes → VmRecord → Io World (Unit {0})
  save_rec dir r = rewrap "write vm record: %w" (write_json (record_path dir) (stored r))

  -- `withVMLock`
  unfoldable pub with_vm_lock : {A : Type 0} → Bytes → Io World A → Io World A
  with_vm_lock dir fn = do
    rewrap "create vm lock dir: %w" (ensure_dirs (parent (vm_lock_path dir)))
    rewrap "lock vm: %w" (lock (vm_lock_path dir))
    finally fn (unlock (vm_lock_path dir))

  -- `withVMLocks`
  unfoldable pub with_vm_locks : {A : Type 0} → Bytes → Bytes → Io World A → Io World A
  with_vm_locks a b fn =
      if text_eq a b
      then with_vm_lock a fn
      else if text_lt b a
      then with_vm_lock b (with_vm_lock a fn)
      else with_vm_lock a (with_vm_lock b fn)

  -- `forEachVMDir`
  unfoldable pub for_each_vm_dir :
      Flags → List Bytes → (Bytes → Bytes → Io World (Unit {0})) → Io World (Unit {0})
  for_each_vm_dir flags [] fn = pure tt
  for_each_vm_dir flags (n ∷ args) fn = do
    dir ← lift (vm_dir flags.vms_dir n)
    with_vm_lock dir (fn n dir)
    for_each_vm_dir flags args fn

  -- `markProvisioned`
  unfoldable pub mark_provisioned : Bytes → Io World (Unit {0})
  mark_provisioned vms_dir = do
    rewrap "create vm lock dir: %w" (ensure_dirs (join_path vms_dir locks_dir))
    rewrap "mark state root provisioned: %w"
        (touch (join_path (join_path vms_dir locks_dir) (codes ".provisioned")))
