-- ===== src/Qemu/Inject/Connect.antt =====
-- qemu/inject.go: the search for a free nbd device, and the server that is started on it.
use cocoon_macos.Base.{
  ℕ, zero, suc, Bool, false, not, ◌&&◌, ◌||◌, List, [], ◌∷◌, ◌++◌, Option, none, some,
  if◌then◌else◌, ℤ,
}
use cocoon_macos.Text.{Bytes, codes}
use cocoon_macos.Text.Decimal.{decimal, atoi}
use cocoon_macos.Fault.{Error, Result, ok, err, fault, wrap, join, is_not_exist}
use cocoon_macos.FilePath.{join_path}
use cocoon_macos.Io.{Io, pure, throw, rewrap, ignore, attempt, ask, ◌>>=◌, ◌>>◌}
use cocoon_macos.Qemu.Nbd.{is_number, process_references_block_device, qemu_nbd_connect_args}
use cocoon_macos.Qemu.Inject.{NbdHost, NbdConnection, DirEntry, qemu_nbd, cleanup_nbd_for_path}

-- what trying one device came to: a connection, an error that ends the search, or one that does not
pub data Attempt : Type 0 where
  connected : NbdConnection → Attempt
  failed : Error → Attempt
  refused : Error → Attempt

abbrev pub nbd_device_count : ℕ
nbd_device_count = 16

unfoldable pub nbd_device : ℕ → Bytes
nbd_device i = codes "/dev/nbd" ++ decimal i

unfoldable pub nbd_owner_path : ℕ → Bytes
nbd_owner_path i = codes "/sys/block/nbd" ++ (decimal i ++ codes "/pid")

abbrev pub is_missing : Result (Unit {0}) → Bool
is_missing (ok u) = false
is_missing (err e) = is_not_exist e

module _ {W : Type 0} (host : NbdHost W) where
  open host use {run_command, stat, remove, read_dir, read_file, read_pid_file, cancelled}

  -- the command line of one entry of /proc: none if it is no process, or one that has ended
  unfoldable pub cmdline_of : Result Bytes → Io W (List Bytes)
  cmdline_of (ok cmdline) = pure (cmdline ∷ [])
  cmdline_of (err e) = if is_not_exist e then pure [] else throw (wrap "read %s: %w" e)

  unfoldable pub proc_cmdlines : Bytes → List DirEntry → Io W (List Bytes)
  proc_cmdlines root [] = pure []
  proc_cmdlines root (e ∷ entries) =
      let rest = proc_cmdlines root entries in
      if not e.is_dir || not (is_number (atoi e.name)) then rest else do
        cmdline ← attempt (read_file (join_path (join_path root e.name) (codes "cmdline")))
        this ← cmdline_of cmdline
        more ← rest
        pure (this ++ more)

  -- `readProcCmdlines`
  unfoldable pub read_proc_cmdlines : Bytes → Io W (List Bytes)
  read_proc_cmdlines root = do
    entries ← rewrap "read %s: %w" (read_dir root)
    proc_cmdlines root entries

  -- the test behind a device that is there
  unfoldable pub unowned : List Bytes → ℕ → Result (Unit {0}) → Io W Bool
  unowned cmdlines i (err e) = pure false
  unowned cmdlines i (ok u) = do
    owner ← attempt (stat (nbd_owner_path i))
    pure (is_missing owner && not (process_references_block_device cmdlines (nbd_device i)))

  -- the guards of the loop of `connectFreeNBD`
  unfoldable pub is_free_device : List Bytes → ℕ → Io W Bool
  is_free_device cmdlines i = do there ← attempt (stat (nbd_device i)); unowned cmdlines i there

  unfoldable pub with_pid : Bytes → Bytes → Bytes → Result ℤ → Io W Attempt
  with_pid nbd pid_file oc_path (ok pid) =
      pure (connected (record { device = nbd; pid = pid; pid_file = pid_file; oc_path = oc_path }))
  with_pid nbd pid_file oc_path (err e) = do
    ignore (run_command qemu_nbd (codes "--disconnect" ∷ nbd ∷ []))
    ignore (cleanup_nbd_for_path host oc_path)
    pure (failed (wrap "read qemu-nbd pid file %s: %w" e))

  unfoldable pub refused_or_cancelled : Error → Option Error → Attempt
  refused_or_cancelled e none = refused e
  refused_or_cancelled e (some c) = failed (join e c)

  unfoldable pub with_server : Bytes → Bytes → Bytes → Result (Unit {0}) → Io W Attempt
  with_server nbd pid_file oc_path (ok u) = do
    pid ← attempt (read_pid_file pid_file)
    with_pid nbd pid_file oc_path pid
  with_server nbd pid_file oc_path (err e) = do
    ignore (cleanup_nbd_for_path host oc_path)
    stop ← ask cancelled
    pure (refused_or_cancelled e stop)

  -- what the loop of `connectFreeNBD` does with a free device
  unfoldable pub connect_device : Bytes → Bytes → Bytes → Io W Attempt
  connect_device nbd pid_file oc_path = do
    out ← attempt (
        rewrap "connect qemu-nbd %s (output: %s): %w"
          (run_command qemu_nbd (qemu_nbd_connect_args nbd pid_file oc_path)))
    with_server nbd pid_file oc_path out

  -- the end of the search: the last refusal, or that there was no device to try
  unfoldable pub none_free : Option Error → Error
  none_free none = fault "no free /dev/nbd device (is the nbd module loaded)"
  none_free (some e) = e

  unfoldable pub after_attempt : Attempt → (Option Error → Io W NbdConnection) → Io W NbdConnection
  after_attempt (connected c) rest = pure c
  after_attempt (failed e) rest = throw e
  after_attempt (refused e) rest = rest (some e)

  -- the loop of `connectFreeNBD` from device i on, with the devices that are left and the last error
  unfoldable pub connect_from :
      List Bytes → Bytes → Bytes → ℕ → ℕ → Option Error → Io W NbdConnection
  connect_from cmdlines pid_file oc_path zero i last = throw (none_free last)
  connect_from cmdlines pid_file oc_path (suc left) i last = do
    let rest = connect_from cmdlines pid_file oc_path left (suc i)
    free ← is_free_device cmdlines i
    if not free
        then rest last
        else do tried ← connect_device (nbd_device i) pid_file oc_path; after_attempt tried rest

  -- `connectFreeNBD`
  unfoldable pub connect_free_nbd : Bytes → Io W NbdConnection
  connect_free_nbd oc_path = do
    let pid_file = oc_path ++ codes ".nbd.pid"
    ignore (remove pid_file)
    cmdlines ← read_proc_cmdlines (codes "/proc")
    connect_from cmdlines pid_file oc_path nbd_device_count 0 none
