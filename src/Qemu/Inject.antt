-- ===== src/Qemu/Inject.antt =====
-- qemu/inject.go: writing an identity into OpenCore's configuration, on an nbd device.
pub mod Connect
pub mod Config
pub mod Free
pub mod Keeps
pub mod Lease
pub mod Patched
use cocoon_macos.Base.{
  ℕ, zero, suc, Bool, true, false, not, ◌&&◌, ◌||◌, List, [], ◌∷◌, ◌++◌, Option, none, some,
  if◌then◌else◌, ℤ,
}
use cocoon_macos.Text.{Bytes, codes}
use cocoon_macos.Text.Decimal.{decimal, atoi}
use cocoon_macos.Text.Hex.{decode}
use cocoon_macos.Fault.{Error, Result, ok, err, fault, wrap, join, wrapped, is_not_exist}
use cocoon_macos.FilePath.{join_path}
use cocoon_macos.Io.{
  Io, pure, throw, lift, rewrap, ignore, attempt, finally, ask, both, ◌>>=◌, ◌>>◌,
}
use cocoon_macos.Procutil.{terminate_by_cmdline}
use cocoon_macos.Qemu.Smbios.{Smbios}
use cocoon_macos.Qemu.Plist.{Entries, patch_config}
use cocoon_macos.Qemu.Nbd.{is_number, process_references_block_device, qemu_nbd_connect_args}

-- an entry of a directory
pub record DirEntry : Type 0 where
  pub name : Bytes
  pub is_dir : Bool

-- What is called outside the repository. Times are in milliseconds.
pub record NbdHost (W : Type 0) : Type 0 where
  -- `flock`
  pub lock : Bytes → Io W (Unit {0})
  pub unlock : Bytes → Io W (Unit {0})
  -- `exec.CommandContext(...).Run` and `CombinedOutput`, by the program and its arguments
  pub run_command : Bytes → List Bytes → Io W (Unit {0})
  -- `os.Stat`, `os.Remove`, `os.MkdirTemp`, `os.ReadDir`, `os.ReadFile`, `os.WriteFile`
  pub stat : Bytes → Io W (Unit {0})
  pub remove : Bytes → Io W (Unit {0})
  pub make_temp_dir : Bytes → Io W Bytes
  pub read_dir : Bytes → Io W (List DirEntry)
  pub read_file : Bytes → Io W Bytes
  pub write_file : Bytes → Bytes → Io W (Unit {0})
  -- `utils.WaitFor` on a condition, with its limit
  pub wait_for : ℕ → Io W Bool → Io W (Unit {0})
  pub find_vmm : Bytes → Bytes → Io W (List ℤ)
  pub terminate_process : ℤ → Bytes → Bytes → ℕ → Io W (Unit {0})
  pub read_pid_file : Bytes → Io W ℤ
  -- `ctx.Err()`
  pub cancelled : W → Option Error
  -- `plist.Unmarshal`, `plist.MarshalIndent`
  pub unmarshal : Bytes → Result Entries
  pub marshal : Entries → Result Bytes

-- `nbdConnection`
pub record NbdConnection : Type 0 where
  pub device : Bytes
  pub pid : ℤ
  pub pid_file : Bytes
  pub oc_path : Bytes

abbrev pub nbd_lease_path : Bytes
nbd_lease_path = codes "/run/lock/cocoon-macos-nbd.lock"

abbrev pub qemu_nbd : Bytes
qemu_nbd = codes "qemu-nbd"

abbrev is_nonempty : List ℤ → Bool
is_nonempty [] = false
is_nonempty (p ∷ ps) = true

-- a body, and a clean-up whose error joins the body's
unfoldable pub and_finally : {W : Type 0} → Io W (Unit {0}) → Io W (Unit {0}) → Io W (Unit {0})
and_finally body cleanup = do
  done ← attempt body
  cleaned ← attempt cleanup
  lift (both done cleaned)

module _ {W : Type 0} (host : NbdHost W) where
  open host use {unlock, lock, run_command, remove, wait_for, find_vmm, terminate_process}

  -- `withNBDLease`
  unfoldable pub with_nbd_lease : {A : Type 0} → Bytes → Io W A → Io W A
  with_nbd_lease path fn = do rewrap "lock qemu-nbd lease: %w" (lock path); finally fn (unlock path)

  -- `isFileHeld`
  unfoldable pub is_file_held : Bytes → Io W Bool
  is_file_held oc_path = do pids ← find_vmm qemu_nbd oc_path; pure (is_nonempty pids)

  -- `cleanupNBDForPath`
  unfoldable pub cleanup_nbd_for_path : Bytes → Io W (Unit {0})
  cleanup_nbd_for_path path = terminate_by_cmdline find_vmm terminate_process qemu_nbd path 1000

  -- the processes that are terminated when the wait for their end failed
  unfoldable pub killed_unless :
      NbdConnection → Result (Unit {0}) → Result (Unit {0}) → Io W (Result (Unit {0}))
  killed_unless c command (ok u) = pure command
  killed_unless c command (err e) = do
    killed ← attempt (terminate_process c.pid qemu_nbd c.oc_path 1000)
    cleaned ← attempt (cleanup_nbd_for_path c.oc_path)
    pure (both (both command (err e)) (both killed cleaned))

  -- the end of `disconnect`: whether the file is still held decides
  unfoldable pub released : Result (Unit {0}) → Result Bool → Io W (Unit {0})
  released command (err e) = lift (both command (err e))
  released command (ok held) = if not held then pure tt else lift command

  -- `nbdConnection.disconnect`
  unfoldable pub disconnect : NbdConnection → Io W (Unit {0})
  disconnect c = do
    command ← attempt (
        rewrap "disconnect %s (output: %s): %w"
          (run_command qemu_nbd (codes "--disconnect" ∷ c.device ∷ [])))
    waited ← attempt (wait_for 10000 (do held ← is_file_held c.oc_path; pure (not held)))
    errs ← killed_unless c command waited
    ignore (remove c.pid_file)
    held ← attempt (is_file_held c.oc_path)
    released errs held
