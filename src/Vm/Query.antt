-- ===== src/Vm/Query.antt =====
-- cmd/vm/query.go: what list, inspect and console show of the machines.
use cocoon_macos.Base.{List, [], ◌∷◌, ◌++◌, Option, none, some, if◌then◌else◌, pos, ltb_ℤ}
use cocoon_macos.Text.{Bytes, codes, text_eq, first_set}
use cocoon_macos.Text.Decimal.{decimal_ℤ}
use cocoon_macos.Fault.{Result, ok, err}
use cocoon_macos.FilePath.{join_path}
use cocoon_macos.Io.{Io, pure, lift, ask, attempt, ◌>>=◌}
use cocoon_macos.Vm.Record.{VmRecord, net_user}
use cocoon_macos.Vm.Host.{Host, Flags}
use cocoon_macos.Vm.Store.{vm_dir, load_rec}
use cocoon_macos.Vm.VncProxy.{vnc_port}
use cocoon_macos.Vm.Process.{is_running}

-- `vmOutput`: a record and its state
pub record VmOutput : Type 0 where
  pub shown : VmRecord
  pub state : Bytes

-- `vncCol`
unfoldable pub vnc_col : VmRecord → Bytes
vnc_col r = if ltb_ℤ r.vnc_disp (pos 0) then codes "-" else decimal_ℤ (vnc_port r.vnc_disp)

-- `sshCol`
unfoldable pub ssh_col : VmRecord → Bytes
ssh_col r = if ltb_ℤ (pos 0) r.ssh_port then decimal_ℤ r.ssh_port else codes "-"

-- the two texts of `Console`
unfoldable pub console_vnc : VmRecord → Bytes
console_vnc r =
    if text_eq (vnc_col r) (codes "-") then vnc_col r else codes "127.0.0.1:" ++ vnc_col r

unfoldable pub console_ssh : VmRecord → Bytes
console_ssh r =
    if ltb_ℤ (pos 0) r.ssh_port
    then codes "ssh -p " ++ (decimal_ℤ r.ssh_port ++ codes " cocoon@localhost")
    else codes "-"

-- `formatTime`, over `time.Parse` and `Format`
unfoldable pub format_time : (Bytes → Option Bytes) → Bytes → Bytes
format_time local s = shown_time (local s)
  where
    shown_time : Option Bytes → Bytes
    shown_time none = s
    shown_time (some t) = t

-- the columns of a line of `List`
unfoldable pub columns : (Bytes → Option Bytes) → VmOutput → List Bytes
columns local v =
    let r = v.shown in
    r.name
    ∷ v.state
    ∷ decimal_ℤ r.cpus
    ∷ (r.memory ++ codes "M")
    ∷ first_set r.net_mode net_user
    ∷ vnc_col r
    ∷ ssh_col r
    ∷ r.image
    ∷ format_time local r.created
    ∷ []

module _ (host : Host) where
  open host use {World, scan_subdirs}

  -- `vmState`
  unfoldable pub vm_state : VmRecord → World → Bytes
  vm_state r w = if is_running host r w then codes "running" else codes "stopped"

  -- a machine whose record cannot be read is left out
  unfoldable pub listed : Result VmRecord → Io World (List VmOutput)
  listed (err e) = pure []
  listed (ok r) = do state ← ask (vm_state r); pure (record { shown = r; state = state } ∷ [])

  -- the loop of `List`
  unfoldable pub list_from : Bytes → List Bytes → Io World (List VmOutput)
  list_from vms_dir [] = pure []
  list_from vms_dir (n ∷ names) = do
    r ← attempt (load_rec host (join_path vms_dir n))
    this ← listed r
    rest ← list_from vms_dir names
    pure (this ++ rest)

  -- `List`
  unfoldable pub list_vms : Flags → Io World (List VmOutput)
  list_vms flags = do names ← scan_subdirs flags.vms_dir; list_from flags.vms_dir names

  -- `Inspect`
  unfoldable pub inspect_vm : Flags → Bytes → Io World VmOutput
  inspect_vm flags name = do
    dir ← lift (vm_dir flags.vms_dir name)
    r ← load_rec host dir
    state ← ask (vm_state r)
    pure (record { shown = r; state = state })

  -- `Console`
  unfoldable pub console : Flags → Bytes → Io World (Bytes × Bytes)
  console flags name = do
    dir ← lift (vm_dir flags.vms_dir name)
    r ← load_rec host dir
    pure (console_vnc r, console_ssh r)
