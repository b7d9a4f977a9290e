-- ===== src/Qemu/Inject/Keeps.antt =====
-- qemu/inject.go: the transaction of `InjectConfig` leaves a view of the state alone if its calls do.
use cocoon_macos.Base.{ℕ, zero, suc, Bool, List, [], ◌∷◌, Option, some, ℤ}
use cocoon_macos.Text.{Bytes}
use cocoon_macos.Fault.{Error, Result, ok, err}
use cocoon_macos.Io.{Io}
use cocoon_macos.Io.Keeps.{Keeps, keeps_rules}
use cocoon_macos.Procutil.Keeps.{Keeps-terminate_by_cmdline}
use cocoon_macos.Qemu.Smbios.{Smbios}
use cocoon_macos.Qemu.Inject.{
  NbdHost, NbdConnection, DirEntry, is_file_held, cleanup_nbd_for_path, killed_unless, released,
  disconnect, and_finally,
}
use cocoon_macos.Qemu.Inject.Connect.{
  Attempt, connected, failed, refused, cmdline_of, proc_cmdlines, read_proc_cmdlines, unowned,
  is_free_device, with_pid, with_server, connect_device, after_attempt, connect_from,
  connect_free_nbd,
}
use cocoon_macos.Qemu.Inject.Config.{
  wait_for_part, cleanup_nbd_mount, mount_first, patch_plist, patch_mounted, patch_connected,
  inject_leased,
}

-- A view of the state that the calls leave alone.
module _ {W V : Type 0} (host : NbdHost W) (view : W → V)
    (keeps_run_command : (p : Bytes) (args : List Bytes) → Keeps view (host.run_command p args))
    (keeps_stat : (p : Bytes) → Keeps view (host.stat p))
    (keeps_remove : (p : Bytes) → Keeps view (host.remove p))
    (keeps_make_temp_dir : (p : Bytes) → Keeps view (host.make_temp_dir p))
    (keeps_read_dir : (p : Bytes) → Keeps view (host.read_dir p))
    (keeps_read_file : (p : Bytes) → Keeps view (host.read_file p))
    (keeps_write_file : (p b : Bytes) → Keeps view (host.write_file p b))
    (keeps_wait_for : (n : ℕ) (m : Io W Bool) → Keeps view m → Keeps view (host.wait_for n m))
    (keeps_find_vmm : (b p : Bytes) → Keeps view (host.find_vmm b p))
    (keeps_terminate_process : (pid : ℤ) (b p : Bytes) (n : ℕ)
      → Keeps view (host.terminate_process pid b p n))
    (keeps_read_pid_file : (p : Bytes) → Keeps view (host.read_pid_file p)) where
  Keeps-is_file_held : (p : Bytes) → Keeps view (is_file_held host p)
  unfolding is_file_held
  Keeps-is_file_held p = search keeps_rules

  Keeps-cleanup_nbd_for_path : (p : Bytes) → Keeps view (cleanup_nbd_for_path host p)
  unfolding cleanup_nbd_for_path
  Keeps-cleanup_nbd_for_path p =
      Keeps-terminate_by_cmdline view host.find_vmm host.terminate_process keeps_find_vmm
        keeps_terminate_process _ p 1000

  Keeps-killed_unless :
      (c : NbdConnection) (command waited : Result (Unit {0}))
      → Keeps view (killed_unless host c command waited)
  unfolding killed_unless
  Keeps-killed_unless c command (ok u) = search keeps_rules
  Keeps-killed_unless c command (err e) = search (keeps_rules, Keeps-cleanup_nbd_for_path)

  Keeps-released :
      (errs : Result (Unit {0})) (held : Result Bool) → Keeps view (released host errs held)
  unfolding released
  Keeps-released errs (err e) = search keeps_rules
  Keeps-released errs (ok held) = search keeps_rules

  Keeps-and_finally :
      (m c : Io W (Unit {0})) → Keeps view m → Keeps view c → Keeps view (and_finally m c)
  unfolding and_finally
  Keeps-and_finally m c k l = search keeps_rules

  Keeps-disconnect : (c : NbdConnection) → Keeps view (disconnect host c)
  unfolding disconnect
  Keeps-disconnect c =
      search (keeps_rules, Keeps-is_file_held, Keeps-killed_unless, Keeps-released) depth 12

  Keeps-cmdline_of : (r : Result Bytes) → Keeps view (cmdline_of host r)
  unfolding cmdline_of
  Keeps-cmdline_of (ok cmdline) = search keeps_rules
  Keeps-cmdline_of (err e) = search keeps_rules

  Keeps-proc_cmdlines :
      (root : Bytes) (entries : List DirEntry) → Keeps view (proc_cmdlines host root entries)
  unfolding proc_cmdlines
  Keeps-proc_cmdlines root [] = search keeps_rules
  Keeps-proc_cmdlines root (e ∷ entries) =
      let rest = Keeps-proc_cmdlines root entries in search (keeps_rules, Keeps-cmdline_of)

  Keeps-read_proc_cmdlines : (root : Bytes) → Keeps view (read_proc_cmdlines host root)
  unfolding read_proc_cmdlines
  Keeps-read_proc_cmdlines root = search (keeps_rules, Keeps-proc_cmdlines)

  Keeps-unowned :
      (cmdlines : List Bytes) (i : ℕ) (there : Result (Unit {0}))
      → Keeps view (unowned host cmdlines i there)
  unfolding unowned
  Keeps-unowned cmdlines i (ok u) = search keeps_rules
  Keeps-unowned cmdlines i (err e) = search keeps_rules

  Keeps-is_free_device :
      (cmdlines : List Bytes) (i : ℕ) → Keeps view (is_free_device host cmdlines i)
  unfolding is_free_device
  Keeps-is_free_device cmdlines i = search (keeps_rules, Keeps-unowned)

  Keeps-with_pid :
      (nbd pid_file oc_path : Bytes) (pid : Result ℤ)
      → Keeps view (with_pid host nbd pid_file oc_path pid)
  unfolding with_pid
  Keeps-with_pid nbd pid_file oc_path (ok pid) = search keeps_rules
  Keeps-with_pid nbd pid_file oc_path (err e) = search (keeps_rules, Keeps-cleanup_nbd_for_path)

  Keeps-with_server :
      (nbd pid_file oc_path : Bytes) (out : Result (Unit {0}))
      → Keeps view (with_server host nbd pid_file oc_path out)
  unfolding with_server
  Keeps-with_server nbd pid_file oc_path (ok u) = search (keeps_rules, Keeps-with_pid)
  Keeps-with_server nbd pid_file oc_path (err e) = search (keeps_rules, Keeps-cleanup_nbd_for_path)

  Keeps-connect_device :
      (nbd pid_file oc_path : Bytes) → Keeps view (connect_device host nbd pid_file oc_path)
  unfolding connect_device
  Keeps-connect_device nbd pid_file oc_path = search (keeps_rules, Keeps-with_server)

  Keeps-after_attempt :
      (tried : Attempt) (rest : Option Error → Io W NbdConnection)
      → ((last : Option Error) → Keeps view (rest last))
      → Keeps view (after_attempt host tried rest)
  unfolding after_attempt
  Keeps-after_attempt (connected c) rest k = search keeps_rules
  Keeps-after_attempt (failed e) rest k = search keeps_rules
  Keeps-after_attempt (refused e) rest k = k (some e)

  Keeps-connect_from :
      (cmdlines : List Bytes) (pid_file oc_path : Bytes) (left i : ℕ) (last : Option Error)
      → Keeps view (connect_from host cmdlines pid_file oc_path left i last)
  unfolding connect_from
  Keeps-connect_from cmdlines pid_file oc_path zero i last = search keeps_rules
  Keeps-connect_from cmdlines pid_file oc_path (suc left) i last =
      let rest = Keeps-connect_from cmdlines pid_file oc_path left (suc i) in
      search (keeps_rules, Keeps-is_free_device, Keeps-connect_device, Keeps-after_attempt)

  Keeps-connect_free_nbd : (oc_path : Bytes) → Keeps view (connect_free_nbd host oc_path)
  unfolding connect_free_nbd
  Keeps-connect_free_nbd oc_path =
      search (keeps_rules, Keeps-read_proc_cmdlines, Keeps-connect_from)

  Keeps-wait_for_part : (nbd : Bytes) → Keeps view (wait_for_part host nbd)
  unfolding wait_for_part
  Keeps-wait_for_part nbd = search (keeps_rules)

  Keeps-cleanup_nbd_mount :
      (mnt : Bytes) (mounted : Bool) → Keeps view (cleanup_nbd_mount host mnt mounted)
  unfolding cleanup_nbd_mount
  Keeps-cleanup_nbd_mount mnt mounted = search (keeps_rules)

  Keeps-mount_first :
      (mnt : Bytes) (parts : List Bytes) (last : Result (Unit {0}))
      → Keeps view (mount_first host mnt parts last)
  unfolding mount_first
  Keeps-mount_first mnt [] last = search keeps_rules
  Keeps-mount_first mnt (p ∷ parts) last =
      let rest = Keeps-mount_first mnt parts in search keeps_rules

  Keeps-patch_plist : (path : Bytes) (sm : Smbios) → Keeps view (patch_plist host path sm)
  unfolding patch_plist
  Keeps-patch_plist path sm = search (keeps_rules)

  Keeps-patch_mounted :
      (mnt : Bytes) (sm : Smbios) (mounted : Result (Unit {0}))
      → Keeps view (patch_mounted host mnt sm mounted)
  unfolding patch_mounted
  Keeps-patch_mounted mnt sm (ok u) = search (keeps_rules, Keeps-patch_plist)
  Keeps-patch_mounted mnt sm (err e) = search keeps_rules

  Keeps-patch_connected :
      (device : Bytes) (sm : Smbios) → Keeps view (patch_connected host device sm)
  unfolding patch_connected
  Keeps-patch_connected device sm = search (
    keeps_rules, Keeps-wait_for_part, Keeps-mount_first, Keeps-and_finally, Keeps-patch_mounted,
    Keeps-cleanup_nbd_mount,
  )

  pub Keeps-inject_leased :
      (oc_path : Bytes) (sm : Smbios) → Keeps view (inject_leased host oc_path sm)
  unfolding inject_leased
  Keeps-inject_leased oc_path sm = search (
    keeps_rules, Keeps-connect_free_nbd, Keeps-and_finally, Keeps-patch_connected, Keeps-disconnect,
  )
