-- ===== src/Vm/Net.antt =====
-- cmd/vm/net_linux.go and cmd/vm/utils.go: the network endpoint of a machine.
pub mod Keeps
use cocoon_macos.Base.{ℕ, Bool, true, false, not, ◌&&◌, ◌||◌, List, [], ◌∷◌, ◌++◌, if◌then◌else◌}
use cocoon_macos.Text.{Bytes, codes, text_eq, is_set, first_set}
use cocoon_macos.Fault.{Error, Result, ok, err, fault, wrap, reject_if}
use cocoon_macos.FilePath.{base, parent}
use cocoon_macos.Io.{
  Io, pure, throw, lift, rewrap, reject, ignore, attempt, finally, ask, when, ◌>>=◌, ◌>>◌,
}
use cocoon_macos.Vm.Record.{VmRecord, net_user, net_tap, net_bridge, net_cni, qemu_binary}
use cocoon_macos.Vm.Host.{Host, Flags, Provider, cni, bridge}
use cocoon_macos.Vm.Store.{mark_provisioned}

-- `validateTapFlag`
unfoldable pub validate_tap_flag : Bytes → Bytes → Result (Unit {0})
validate_tap_flag net_mode tap =
    reject_if (is_set tap && not (text_eq net_mode net_tap))
      "--tap requires --net tap, got --net %s"

-- The directories of `netConf`: the flag, the record, the default.
unfoldable pub net_conf : Flags → VmRecord → Provider
net_conf flags r =
    cni (first_set flags.cni_conf_dir (first_set r.cni_conf_dir (codes "/etc/cni/net.d")))
      (first_set flags.cni_bin_dir (first_set r.cni_bin_dir (codes "/opt/cni/bin")))

-- a mode whose TAP is a port of a bridge
unfoldable pub is_bridge_mode : VmRecord → Bool
is_bridge_mode r = text_eq r.net_mode net_tap || text_eq r.net_mode net_bridge

module _ (host : Host) (flags : Flags) where
  open host use {
    World, open_provider, prepare, add, add_recover, verify, delete, quiesce, unquiesce,
    cleanup_taps, run_command,
  }

  unfoldable pub bridge_provider : VmRecord → Io World (Provider × VmRecord)
  bridge_provider r = do
    reject (not (is_set r.bridge_dev)) "--net %s requires --bridge <dev> (an existing Linux bridge)"
    open_provider (bridge r.bridge_dev)
    pure (bridge r.bridge_dev, r)

  -- `newProvider`, with the record whose bridge it may set
  unfoldable pub new_provider : VmRecord → Io World (Provider × VmRecord)
  unfolding bridge_provider
  new_provider r =
      if text_eq r.net_mode net_cni
      then (do open_provider (net_conf flags r); pure (net_conf flags r, r))
      else if is_bridge_mode r
      then bridge_provider (record r { bridge_dev = first_set r.bridge_dev flags.bridge_dev })
      else throw (fault "unknown --net mode %q (want user|tap|cni|bridge)")

  -- the TAP and the MAC that a provider added, or the roll-back of what it prepared
  added_or_undone : Provider → Bytes → Result (Bytes × Bytes) → Io World (Bytes × Bytes)
  added_or_undone p vmid (ok nic) = pure nic
  added_or_undone p vmid (err e) = do ignore (delete p vmid); throw (wrap "add network: %w" e)

  -- the TAP, the namespace and the MAC of a machine, and its record
  pub record Endpoint : Type 0 where
    pub tap : Bytes
    pub netns : Bytes
    pub mac : Bytes
    pub rec : VmRecord

  -- `provisionNet`
  unfoldable pub provision_net : VmRecord → Io World Endpoint
  unfolding new_provider added_or_undone
  provision_net r = do
    (p, r') ← new_provider r
    ns ← rewrap "prepare network: %w" (prepare p r'.vmid)
    added ← attempt (add p r'.vmid)
    (tap, mac) ← added_or_undone p r'.vmid added
    let kept = if text_eq r'.net_mode net_cni then mac else first_set r'.mac mac
    pure (record { tap = tap; netns = ns; mac = kept; rec = r' })

  -- `prepareNet`: user mode and a TAP of the user need no provider
  unfoldable pub prepare_net : VmRecord → Io World Endpoint
  unfolding provision_net
  prepare_net r =
      if not (is_set r.net_mode) || text_eq r.net_mode net_user
      then pure (record { tap = []; netns = []; mac = r.mac; rec = r })
      else if text_eq r.net_mode net_tap && is_set r.tap
      then pure (record { tap = r.tap; netns = []; mac = r.mac; rec = r })
      else provision_net r

  -- the record with its endpoint
  with_endpoint : Bytes → Endpoint → VmRecord
  with_endpoint user_tap e =
      let r = e.rec in
      if is_set e.tap
      then record r { mac = e.mac; tap = e.tap; netns = e.netns; tap_owned = not (is_set user_tap) }
      else record r { mac = e.mac }

  -- `applyNet`
  unfoldable pub apply_net : VmRecord → Io World VmRecord
  unfolding prepare_net with_endpoint
  apply_net r = do
    mark_provisioned host flags.vms_dir
    e ← prepare_net r
    pure (with_endpoint r.tap e)

  rebuild : Provider → VmRecord → Result (Unit {0}) → Io World VmRecord
  rebuild p r (ok u) = pure r
  rebuild p r (err e) = do
    ns ← prepare p r.vmid
    (tap, mac) ← add_recover p r.vmid r.tap r.mac
    pure (record r { tap = tap; netns = ns })

  -- `recoverNet`
  unfoldable pub recover_net : VmRecord → Io World VmRecord
  unfolding new_provider rebuild
  recover_net r = if not r.tap_owned then pure r else do
    (p, r') ← new_provider r
    verified ← attempt (verify p r'.vmid r'.tap r'.mac)
    rebuild p r' verified

  unfoldable pub release : VmRecord → Result (Provider × VmRecord) → Io World (Unit {0})
  release r (err e) =
      if is_bridge_mode r then pure tt else throw (wrap "teardown network for %s: %w" e)
  release r (ok (p, r')) = do
    ignore (quiesce p r.vmid)
    rewrap "teardown network for %s: %w" (delete p r.vmid)

  -- `teardownNet`
  unfoldable pub teardown_net : VmRecord → Io World (Unit {0})
  unfolding new_provider release
  teardown_net r = if not r.tap_owned then pure tt else do
    finally (do provider ← attempt (new_provider r); release r provider)
        (when (is_bridge_mode r) (cleanup_taps r.vmid))

  unfoldable pub toggle : Bool → VmRecord → Result (Provider × VmRecord) → Io World VmRecord
  toggle up r (err e) = pure r
  toggle up r (ok (p, r')) = do
    ignore (if up then unquiesce p r'.vmid else quiesce p r'.vmid)
    pure r'

  -- `toggleNet`, with the record whose bridge `newProvider` may set
  unfoldable pub toggle_net : VmRecord → Bool → Io World VmRecord
  unfolding new_provider toggle
  toggle_net r up =
      if not r.tap_owned
      then pure r
      else do provider ← attempt (new_provider r); toggle up r provider

  -- `ensureNetnsLoopback`
  unfoldable pub ensure_netns_loopback : VmRecord → Io World (Unit {0})
  ensure_netns_loopback r =
      if not (is_set r.netns)
      then pure tt
      else ignore (
          run_command (codes "ip") (
            codes "netns"
            ∷ codes "exec"
            ∷ base r.netns
            ∷ codes "ip"
            ∷ codes "link"
            ∷ codes "set"
            ∷ codes "lo"
            ∷ codes "up"
            ∷ []))

-- `launchCmd`: the program and its arguments
unfoldable pub launch_cmd : VmRecord → List Bytes → Bytes × List Bytes
launch_cmd r args =
    if is_set r.netns
    then (codes "ip", codes "netns" ∷ codes "exec" ∷ base r.netns ∷ qemu_binary ∷ args)
    else (qemu_binary, args)
