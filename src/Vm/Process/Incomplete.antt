-- ===== src/Vm/Process/Incomplete.antt =====
-- `resetIncompleteVMDir` (cmd/vm/utils.go) spares a machine that is committed or runs.
use cocoon_macos.Base.{true, not, List, [], ◌∷◌, ◌≡◌, refl, ◌∙◌, ◌⊎◌, inl, inr, ℤ, Bool-cases}
use cocoon_macos.Text.{Bytes}
use cocoon_macos.Fault.{Error, Result, ok, err, is_not_exist}
use cocoon_macos.Io.{Io, after, rewrap, reject, ◌>>◌}
use cocoon_macos.Vm.Record.{qemu_binary}
use cocoon_macos.Vm.Host.{Host}
use cocoon_macos.Vm.Host.Frame.{Frame}
use cocoon_macos.Vm.Store.{record_path}
use cocoon_macos.Vm.Process.{
  vm_dir_prefix, is_empty, clear_incomplete, reset_uncommitted, reset_existing,
  reset_incomplete_vm_dir,
}

-- a call failed since its file is missing
unfoldable pub IsMissing : Result (Unit {0}) → Type 0
IsMissing r = (e : Error) × (r ≡ err e) × (is_not_exist e ≡ true)

module _ (host : Host) {V : Type 0} (view : host.World → V) (frame : Frame host V view) where
  open frame use {keeps_stat, keeps_find_vmm}

  after_scan :
      (w : host.World) (rest : Io host.World (Unit {0})) (p : Result (List ℤ) × host.World)
      → view p.1 ≡ view w
      → (view
            (after (rewrap "scan qemu processes for %s: %w" (λ (v : host.World). p) w) (λ pids.
              reject
                (not (is_empty host pids))
                "refuse to replace incomplete vm dir %s: live qemu pids %v"
              >> rest)).1
          ≡ view w)
        ⊎ (p.0 ≡ ok [])
  after_scan w rest (err e, w') h = inl h
  after_scan w rest (ok [], w') h = inr refl
  after_scan w rest (ok (pid ∷ pids), w') h = inl h

  clear_incomplete-guard :
      (dir : Bytes) (w : host.World)
      → (view (clear_incomplete host dir w).1 ≡ view w)
        ⊎ ((host.find_vmm qemu_binary (vm_dir_prefix dir) w).0 ≡ ok [])
  unfolding clear_incomplete
  clear_incomplete-guard dir w =
      after_scan w _ (host.find_vmm qemu_binary (vm_dir_prefix dir) w)
        ((keeps_find_vmm qemu_binary (vm_dir_prefix dir)).at w)

  after_record :
      (dir : Bytes) (w : host.World) (p : Result (Unit {0}) × host.World)
      → view p.1 ≡ view w
      → (view (reset_uncommitted host dir p.0 p.1).1 ≡ view w)
        ⊎ (IsMissing p.0 × ((host.find_vmm qemu_binary (vm_dir_prefix dir) p.1).0 ≡ ok []))
  unfolding reset_uncommitted IsMissing
  after_record dir w (ok u, w') h = inl h
  after_record dir w (err e, w') h = elim (Bool-cases (is_not_exist e)) [
    | inl m ↦ elim (clear_incomplete-guard dir w') [
      | inl kept ↦ inl (rw m (kept ∙ h))
      | inr dead ↦ inr ((e, refl, m), dead)
    ]
    | inr m ↦ inl (rw m h)
  ]

  after_dir :
      (dir : Bytes) (w : host.World) (p : Result (Unit {0}) × host.World)
      → view p.1 ≡ view w
      → (view (reset_existing host dir p.0 p.1).1 ≡ view w)
        ⊎ (IsMissing (host.stat (record_path dir) p.1).0
            × ((host.find_vmm qemu_binary (vm_dir_prefix dir) (host.stat (record_path dir) p.1).1).0
                ≡ ok []))
  unfolding reset_existing
  after_dir dir w (err e, w') h = elim (Bool-cases (is_not_exist e)) [
    | inl m ↦ inl (rw m h)
    | inr m ↦ inl (rw m h)
  ]
  after_dir dir w (ok u, w') h =
      after_record dir w (host.stat (record_path dir) w') ((keeps_stat (record_path dir)).at w' ∙ h)

  -- Under a view that only removals and `qemu-img` change: `resetIncompleteVMDir` leaves the view as
  -- it is, unless the machine's record is missing and the scan finds no qemu of its directory.
  pub reset_incomplete_vm_dir-guard :
      (dir : Bytes) (w : host.World)
      → (view (reset_incomplete_vm_dir host dir w).1 ≡ view w)
        ⊎ (IsMissing (host.stat (record_path dir) (host.stat dir w).1).0
            × ((host.find_vmm qemu_binary
                  (vm_dir_prefix dir)
                  (host.stat (record_path dir) (host.stat dir w).1).1).0
                ≡ ok []))
  unfolding reset_incomplete_vm_dir
  reset_incomplete_vm_dir-guard dir w = after_dir dir w (host.stat dir w) ((keeps_stat dir).at w)
