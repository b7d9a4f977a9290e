-- ===== src/Vm/Snapshot/Same.antt =====
-- `Restore` (cmd/vm/snapshot.go) works on the images and the snapshots of the record that it read.
use cocoon_macos.Base.{
  Bool, true, false, not, ◌≡◌, refl, ap, ◌∙◌, inl, inr, if◌then◌else◌, ◌&&◌, ◌||◌, ltb_ℤ, pos,
}
use cocoon_macos.Text.{Bytes, is_set, text_eq, first_set}
use cocoon_macos.Fault.{Result, ok, err, fault}
use cocoon_macos.Io.{pure, attempt, throw, reject, ◌>>=◌, ◌>>◌}
use cocoon_macos.Io.Ends.{after-eq-ok}
use cocoon_macos.Vm.Record.{VmRecord, net_cni, stop_grace_period}
use cocoon_macos.Vm.Host.{Host, Flags, Provider, bridge}
use cocoon_macos.Vm.Store.{save_rec}
use cocoon_macos.Vm.Vnc.{validate_vnc_password}
use cocoon_macos.Vm.Net.{
  net_conf, is_bridge_mode, bridge_provider, new_provider, toggle, toggle_net,
}
use cocoon_macos.Vm.Process.{reconcile_running_qemu, stop_instance}
use cocoon_macos.Vm.Process.Adopt.{IsAdopted, reconcile_running_qemu-IsAdopted}
use cocoon_macos.Vm.Snapshot.{images_to_snapshot, force_stop}

-- what a restore reads of a record is the same
abbrev pub IsSame : VmRecord → VmRecord → Type 0
IsSame r r' = (images_to_snapshot r' ≡ images_to_snapshot r) × (r'.snapshots ≡ r.snapshots)

pub first : {A : Type 0} {a b : A} → ok a ≡ ok b → b ≡ a
first h = cc

second :
    {A B : Type 0} {a c : A} {b d : B} → ◌≡◌ {A = Result (A × B)} (ok (a, b)) (ok (c, d)) → d ≡ b
second h = cc

IsSame-as : (r q : VmRecord) {r' : VmRecord} → r' ≡ q → IsSame r q → IsSame r r'
IsSame-as r q e s = (ap images_to_snapshot e ∙ s.0, ap (λ q. q.snapshots) e ∙ s.1)

module _ (host : Host) where
  pub reconcile-IsSame :
      (dir : Bytes) (r : VmRecord) (w : host.World) {runs : Bool} {r' : VmRecord}
      → (reconcile_running_qemu host dir r w).0 ≡ ok (runs, r')
      → IsSame r r'
  unfolding IsAdopted images_to_snapshot
  reconcile-IsSame dir r w h = elim (reconcile_running_qemu-IsAdopted host dir r w h) [
    | inl (a, b, e) ↦ (ap images_to_snapshot e, ap (λ q. q.snapshots) e)
    | inr (down, inl (a, b, e)) ↦ (ap images_to_snapshot e, ap (λ q. q.snapshots) e)
    | inr (down, inr (pid, a, b, e)) ↦ (ap images_to_snapshot e, ap (λ q. q.snapshots) e)
  ]

  bridge_provider-eq-ok :
      (flags : Flags) (r : VmRecord) (w : host.World) {p : Provider} {r' : VmRecord}
      → (bridge_provider host flags r w).0 ≡ ok (p, r')
      → r' ≡ r
  unfolding bridge_provider
  bridge_provider-eq-ok flags r w h =
      let set =
        reject (not (is_set r.bridge_dev))
          "--net %s requires --bridge <dev> (an existing Linux bridge)" w in
      let a = after-eq-ok set _ h in
      let b = after-eq-ok (host.open_provider (bridge r.bridge_dev) set.1) _ a.2 in second b.2

  by_mode :
      (flags : Flags) (r : VmRecord) (w : host.World) (is_cni is_bridge : Bool) {p : Provider}
      {r' : VmRecord}
      → ((if is_cni
            then (host.open_provider (net_conf flags r) >> pure (net_conf flags r, r))
            else if is_bridge
            then bridge_provider host flags
                (record r { bridge_dev = first_set r.bridge_dev flags.bridge_dev })
            else throw (fault "unknown --net mode %q (want user|tap|cni|bridge)"))
          w).0
        ≡ ok (p, r')
      → IsSame r r'
  unfolding images_to_snapshot
  by_mode flags r w true is_bridge h =
      let q = after-eq-ok (host.open_provider (net_conf flags r) w) _ h in
      IsSame-as r r (second q.2) (refl, refl)
  by_mode flags r w false true h =
      let q : VmRecord = record r { bridge_dev = first_set r.bridge_dev flags.bridge_dev } in
      IsSame-as r q (bridge_provider-eq-ok flags q w h) (refl, refl)
  by_mode flags r w false false h = cc

  new_provider-IsSame :
      (flags : Flags) (r : VmRecord) (w : host.World) {p : Provider} {r' : VmRecord}
      → (new_provider host flags r w).0 ≡ ok (p, r')
      → IsSame r r'
  unfolding new_provider
  new_provider-IsSame flags r w h =
      by_mode flags r w (text_eq r.net_mode net_cni) (is_bridge_mode r) h

  toggle-IsSame :
      (flags : Flags) (up : Bool) (r : VmRecord) (found : Result (Provider × VmRecord))
      (w v : host.World) {r' : VmRecord}
      → (new_provider host flags r w).0 ≡ found
      → (toggle host flags up r found v).0 ≡ ok r'
      → IsSame r r'
  unfolding toggle
  toggle-IsSame flags up r (err x) w v e h = IsSame-as r r (first h) (refl, refl)
  toggle-IsSame flags up r (ok (p, q)) w v e h =
      IsSame-as r q (first h) (new_provider-IsSame flags r w e)

  toggle_by :
      (flags : Flags) (r : VmRecord) (up owned : Bool) (w : host.World) {r' : VmRecord}
      → ((if not owned
            then pure r
            else (attempt (new_provider host flags r) >>= toggle host flags up r))
          w).0
        ≡ ok r'
      → IsSame r r'
  toggle_by flags r up false w h = IsSame-as r r (first h) (refl, refl)
  toggle_by flags r up true w h =
      let found = new_provider host flags r w in toggle-IsSame flags up r found.0 w found.1 refl h

  toggle_net-IsSame :
      (flags : Flags) (r : VmRecord) (up : Bool) (w : host.World) {r' : VmRecord}
      → (toggle_net host flags r up w).0 ≡ ok r'
      → IsSame r r'
  unfolding toggle_net
  toggle_net-IsSame flags r up w h = toggle_by flags r up r.tap_owned w h

  pub force_stop-IsSame :
      (flags : Flags) (dir : Bytes) (r : VmRecord) (w : host.World) {r' : VmRecord}
      → (force_stop host flags dir r w).0 ≡ ok r'
      → IsSame r r'
  unfolding force_stop images_to_snapshot
  force_stop-IsSame flags dir r w h =
      let forced =
        reject (not flags.force) "vm %q is running; stop it first or pass --force to stop+restore"
          w in
      let a = after-eq-ok forced _ h in
      let b = after-eq-ok (validate_vnc_password flags.vnc_password, forced.1) _ a.2 in
      let gate =
        reject
          (not (is_set flags.vnc_password)
            && not (ltb_ℤ r.vnc_disp (pos 0))
            && (r.vnc_pass_set || is_set r.netns))
          "vm %q serves a password-gated VNC display; pass --vnc-password to relaunch it"
          forced.1 in
      let c = after-eq-ok gate _ b.2 in
      let gated : VmRecord = record r { vnc_pass = flags.vnc_password } in
      let halt = stop_instance host dir gated stop_grace_period gate.1 in
      let d = after-eq-ok halt _ c.2 in
      let net = toggle_net host flags gated false halt.1 in
      let e = after-eq-ok net _ d.2 in
      let stopped : VmRecord = record e.0 { pid = pos 0 } in
      let f = after-eq-ok (save_rec host dir stopped net.1) _ e.2 in
      IsSame-as r stopped (first f.2) (toggle_net-IsSame flags gated false halt.1 e.1)
