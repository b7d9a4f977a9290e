-- ===== src/Vm/Net/Keeps.antt =====
-- Giving up a network endpoint leaves a framed view of the host alone.
use cocoon_macos.Base.{Bool}
use cocoon_macos.Fault.{Result, ok, err}
use cocoon_macos.Io.Keeps.{Keeps, keeps_rules}
use cocoon_macos.Vm.Record.{VmRecord}
use cocoon_macos.Vm.Host.{Host, Flags, Provider}
use cocoon_macos.Vm.Host.Frame.{Frame}
use cocoon_macos.Vm.Net.{new_provider, bridge_provider, release, teardown_net, toggle, toggle_net}

module _ (host : Host) (flags : Flags) {V : Type 0} (view : host.World → V)
    (frame : Frame host V view) where
  open frame use {
    keeps_open_provider, keeps_quiesce, keeps_unquiesce, keeps_delete, keeps_cleanup_taps,
  }

  Keeps-bridge_provider : (r : VmRecord) → Keeps view (bridge_provider host flags r)
  unfolding bridge_provider
  Keeps-bridge_provider r = search (keeps_rules, keeps_open_provider)

  Keeps-new_provider : (r : VmRecord) → Keeps view (new_provider host flags r)
  unfolding new_provider
  Keeps-new_provider r = search (keeps_rules, keeps_open_provider, Keeps-bridge_provider)

  Keeps-release :
      (r : VmRecord) (p : Result (Provider × VmRecord)) → Keeps view (release host flags r p)
  unfolding release
  Keeps-release r (ok (p, r')) = search (keeps_rules, keeps_quiesce, keeps_delete)
  Keeps-release r (err e) = search keeps_rules

  pub Keeps-teardown_net : (r : VmRecord) → Keeps view (teardown_net host flags r)
  unfolding teardown_net
  Keeps-teardown_net r =
      search (keeps_rules, keeps_cleanup_taps, Keeps-new_provider, Keeps-release) depth 9

  Keeps-toggle :
      (up : Bool) (r : VmRecord) (p : Result (Provider × VmRecord))
      → Keeps view (toggle host flags up r p)
  unfolding toggle
  Keeps-toggle up r (ok (p, r')) = search (keeps_rules, keeps_quiesce, keeps_unquiesce)
  Keeps-toggle up r (err e) = search keeps_rules

  pub Keeps-toggle_net : (r : VmRecord) (up : Bool) → Keeps view (toggle_net host flags r up)
  unfolding toggle_net
  Keeps-toggle_net r up = search (keeps_rules, Keeps-new_provider, Keeps-toggle) depth 9
