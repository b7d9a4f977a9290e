-- ===== src/Vm/Snapshot/Guard.antt =====
-- `Snapshot` (cmd/vm/snapshot.go) runs `qemu-img` on the images of a stopped machine only.
use cocoon_macos.Base.{Bool, true, false, ◌≡◌, refl, ◌∙◌, ◌⊎◌, inl, inr, Bool-cases}
use cocoon_macos.Text.{Bytes, contains}
use cocoon_macos.Fault.{Result, ok, err}
use cocoon_macos.Io.{Io, after, reject, ◌>>◌}
use cocoon_macos.Vm.Record.{VmRecord}
use cocoon_macos.Vm.Host.{Host}
use cocoon_macos.Vm.Host.Frame.{Frame}
use cocoon_macos.Vm.Store.{load_rec}
use cocoon_macos.Vm.Process.{reconcile_running_qemu}
use cocoon_macos.Vm.Process.Keeps.{Keeps-load_rec, Keeps-reconcile}
use cocoon_macos.Vm.Snapshot.{snapshot_vm}

-- The record of the directory was read, its machine was found not to run, and the tag is new to it.
unfoldable pub IsReady : (host : Host) → Bytes → Bytes → host.World → Type 0
IsReady host dir tag w =
    (r : VmRecord) × (r' : VmRecord) × ((load_rec host dir w).0 ≡ ok r)
    × ((reconcile_running_qemu host dir r (load_rec host dir w).1).0 ≡ ok (false, r'))
    × (contains r'.snapshots tag ≡ false)

module _ (host : Host) {V : Type 0} (view : host.World → V) (frame : Frame host V view)
    (dir tag : Bytes) (w : host.World) where
  abbrev Guarded : host.World → Type 0
  Guarded w' = (view w' ≡ view w) ⊎ IsReady host dir tag w

  after_reconcile :
      (r : VmRecord) (p : Result (Bool × VmRecord) × host.World)
      (rest : VmRecord → Io host.World (Unit {0}))
      → (load_rec host dir w).0 ≡ ok r
      → (reconcile_running_qemu host dir r (load_rec host dir w).1).0 ≡ p.0
      → view p.1 ≡ view w
      → Guarded
          (after p (λ (running, r').
            reject running "vm %q is running (pid %d); stop it first"
            >> (reject (contains r'.snapshots tag) "vm %q already has snapshot %q" >> rest r'))).1
  unfolding IsReady
  after_reconcile r (err e, w') rest l q k = inl k
  after_reconcile r (ok (true, r'), w') rest l q k = inl k
  after_reconcile r (ok (false, r'), w') rest l q k =
      elim (Bool-cases (contains r'.snapshots tag)) [
        | inl old ↦ inl (rw old k)
        | inr new ↦ inr (r, r', l, q, new)
      ]

  after_load :
      (p : Result VmRecord × host.World) (rest : VmRecord → Io host.World (Unit {0}))
      → load_rec host dir w ≡ p
      → view p.1 ≡ view w
      → Guarded
          (after p (λ r v. after (reconcile_running_qemu host dir r v) (λ (running, r').
            reject running "vm %q is running (pid %d); stop it first"
            >> (reject (contains r'.snapshots tag) "vm %q already has snapshot %q" >> rest r')))).1
  after_load (err e, w') rest l k = inl k
  after_load (ok r, w') rest l k =
      after_reconcile r (reconcile_running_qemu host dir r w') rest (rw l refl) (rw l refl)
        ((Keeps-reconcile host view frame dir r).at w' ∙ k)

  -- Under a view that only removals and `qemu-img` change: `Snapshot` leaves the view as it is, unless
  -- the record was read, its machine was found not to run, and it does not have the tag.
  pub snapshot_vm-guard : (view (snapshot_vm host dir tag w).1 ≡ view w) ⊎ IsReady host dir tag w
  unfolding snapshot_vm
  snapshot_vm-guard =
      after_load (load_rec host dir w) _ refl ((Keeps-load_rec host view frame dir).at w)
