-- ===== src/Vm/Lifecycle/Removal.antt =====
-- `RM` (cmd/vm/lifecycle.go) removes a directory only behind a machine that is stopped.
use cocoon_macos.Base.{Bool, ◌≡◌, refl, ◌∙◌, ◌⊎◌, inl, inr, Bool-cases}
use cocoon_macos.Text.{Bytes}
use cocoon_macos.Fault.{Error, Result, ok, err, is_not_exist}
use cocoon_macos.Io.{Io, after}
use cocoon_macos.Io.Ends.{after-eq-ok}
use cocoon_macos.Vm.Process.{reconcile_running_qemu, stop_instance, reap_stray_helpers}
use cocoon_macos.Vm.Net.{teardown_net}
use cocoon_macos.Io.Keeps.{Keeps, keeps_rules}
use cocoon_macos.Vm.Record.{VmRecord}
use cocoon_macos.Vm.Host.{Host, Flags}
use cocoon_macos.Vm.Host.Frame.{Frame}
use cocoon_macos.Vm.Store.{load_rec}
use cocoon_macos.Vm.Process.Keeps.{
  Keeps-load_rec, Keeps-reconcile, Keeps-stop_instance, Keeps-reap_stray_helpers,
}
use cocoon_macos.Vm.Net.Keeps.{Keeps-teardown_net}
use cocoon_macos.Vm.Lifecycle.{grace_from_flags, rm_instance, rm_existing, rm_vm}

-- the record was not read, and the scan for the helpers of the directory and their end succeeded
abbrev pub HasReaped : (host : Host) → Bytes → host.World → Type 0
HasReaped host dir w =
    let read = load_rec host dir w in
    (e : Error) × (read.0 ≡ err e) × ((reap_stray_helpers host dir read.1).0 ≡ ok tt)

-- The record was read; it was found out whether its qemu runs; with what was found, the machine was
-- stopped and its network torn down; and each of these calls succeeded, on the state that the one
-- before left.
abbrev pub HasTornDown : (host : Host) → Flags → Bytes → host.World → Type 0
HasTornDown host flags dir w =
    let read = load_rec host dir w in
    (r : VmRecord) × (read.0 ≡ ok r)
    × (let found = reconcile_running_qemu host dir r read.1 in
        (running : Bool) × (r' : VmRecord) × (found.0 ≡ ok (running, r'))
        × (let stopped = stop_instance host dir r' (grace_from_flags flags) found.1 in
            (stopped.0 ≡ ok tt) × ((teardown_net host flags r' stopped.1).0 ≡ ok tt)))

module _ (host : Host) (flags : Flags) {V : Type 0} (view : host.World → V)
    (frame : Frame host V view) where
  open frame use {keeps_stat}

  Keeps-rm_instance :
      (dir : Bytes) (r : Result VmRecord) → Keeps view (rm_instance host flags dir r)
  unfolding rm_instance
  Keeps-rm_instance dir (err e) = Keeps-reap_stray_helpers host view frame dir
  Keeps-rm_instance dir (ok r) = search (
    keeps_rules,
    Keeps-reconcile host view frame,
    Keeps-stop_instance host view frame,
    Keeps-teardown_net host flags view frame,
  )

  after_instance :
      {P : Type 0} (w : host.World) (rest : Io host.World (Unit {0}))
      (p : Result (Unit {0}) × host.World)
      → view p.1 ≡ view w
      → (p.0 ≡ ok tt → P)
      → (view (after p (λ (u : Unit {0}). rest)).1 ≡ view w) ⊎ P
  after_instance w rest (ok u, w') h k = inr (k refl)
  after_instance w rest (err e, w') h k = inl h

  torn_down :
      (dir : Bytes) (w : host.World) (read : Result VmRecord)
      → (load_rec host dir w).0 ≡ read
      → (rm_instance host flags dir read (load_rec host dir w).1).0 ≡ ok tt
      → HasReaped host dir w ⊎ HasTornDown host flags dir w
  unfolding rm_instance
  torn_down dir w (err e) l h = inl (e, l, h)
  torn_down dir w (ok r) l h =
      let found = reconcile_running_qemu host dir r (load_rec host dir w).1 in
      let a = after-eq-ok found _ h in
      let stopped = stop_instance host dir a.0.1 (grace_from_flags flags) found.1 in
      let b = after-eq-ok stopped _ a.2 in inr (r, l, (a.0.0, a.0.1, a.1, (b.1, b.2)))

  after_dir :
      (dir : Bytes) (w : host.World) (p : Result (Unit {0}) × host.World)
      → view p.1 ≡ view w
      → (view (rm_existing host flags dir p.0 p.1).1 ≡ view w)
        ⊎ (HasReaped host dir p.1 ⊎ HasTornDown host flags dir p.1)
  unfolding rm_existing
  after_dir dir w (err e, w') h = elim (Bool-cases (is_not_exist e)) [
    | inl m ↦ inl (rw m h)
    | inr m ↦ inl (rw m h)
  ]
  after_dir dir w (ok u, w') h =
      after_instance w _
        (rm_instance host flags dir (load_rec host dir w').0 (load_rec host dir w').1)
        ((Keeps-rm_instance dir (load_rec host dir w').0).at (load_rec host dir w').1
          ∙ (Keeps-load_rec host view frame dir).at w'
          ∙ h)
        (torn_down dir w' (load_rec host dir w').0 refl)

  -- Under a view that only removals and `qemu-img` change: `RM` of one machine leaves the view as it
  -- is, unless before the record was read, the machine with what its scan found was stopped and its
  -- network torn down, or the record was not read and the machine's helpers were reaped, and each of
  -- these calls succeeded.
  pub rm_vm-guard :
      (n dir : Bytes) (w : host.World)
      → (view (rm_vm host flags n dir w).1 ≡ view w)
        ⊎ (HasReaped host dir (host.stat dir w).1 ⊎ HasTornDown host flags dir (host.stat dir w).1)
  unfolding rm_vm
  rm_vm-guard n dir w = after_dir dir w (host.stat dir w) ((keeps_stat dir).at w)
