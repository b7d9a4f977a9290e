-- ===== src/Vm/Process/Reset.antt =====
-- `resetIncompleteVMDir` (cmd/vm/utils.go): the removal of an uncommitted directory is its last change.
use cocoon_macos.Base.{not, List, ℤ, ◌≡◌, refl, ◌∙◌, ◌⊎◌, inl, inr, Bool-cases}
use cocoon_macos.Text.{Bytes, codes}
use cocoon_macos.Fault.{Result, ok, err, is_not_exist}
use cocoon_macos.Io.{Io, rewrap, reject}
use cocoon_macos.Io.Ends.{through}
use cocoon_macos.Io.Keeps.{Keeps, keeps_rules, Keeps-reject}
use cocoon_macos.FilePath.{parent}
use cocoon_macos.Procutil.{terminate_by_cmdline}
use cocoon_macos.Procutil.Keeps.{Keeps-terminate_by_cmdline}
use cocoon_macos.Vm.Record.{qemu_binary}
use cocoon_macos.Vm.Host.{Host}
use cocoon_macos.Vm.Host.Frame.{Frame}
use cocoon_macos.Vm.Store.{record_path, mark_provisioned}
use cocoon_macos.Vm.Process.{
  vm_dir_prefix, is_empty, clear_incomplete, reset_uncommitted, reset_existing,
  reset_incomplete_vm_dir,
}
use cocoon_macos.Vm.Process.Incomplete.{IsMissing}
use cocoon_macos.Vm.Process.Keeps.{Keeps-mark_provisioned}

-- A view that only removals and `qemu-img` change.
module _ (host : Host) {V : Type 0} (view : host.World → V) where
  -- the record was looked for, before the view changed, and is missing
  abbrev pub IsAbsent : Bytes → host.World → Type 0
  IsAbsent dir w =
      (u : host.World) × (view u ≡ view w) × IsMissing (host.stat (record_path dir) u).0

  -- nothing changed, or the record was missing and the directory's removal was the last change
  abbrev pub IsUndone : Bytes → host.World → host.World → Type 0
  IsUndone dir w u =
      (view u ≡ view w)
      ⊎ (IsAbsent dir w × ((v : host.World) × (view u ≡ view (host.remove_all dir v).1)))

  pub kept :
      (dir : Bytes) (w u u' : host.World) → IsUndone dir w u → view u' ≡ view u → IsUndone dir w u'
  kept dir w u u' (inl h) e = inl (e ∙ h)
  kept dir w u u' (inr (absent, (v, h))) e = inr (absent, (v, e ∙ h))

  pub by_kept :
      {A : Type 0} (dir : Bytes) (w u : host.World) (m : Io host.World A)
      → Keeps view m
      → IsUndone dir w u
      → IsUndone dir w (m u).1
  by_kept dir w u m k h = kept dir w u (m u).1 h (k.at u)

module _ (host : Host) {V : Type 0} (view : host.World → V) (frame : Frame host V view) where
  open frame use {keeps_stat, keeps_find_vmm, keeps_terminate_process}

  clear-IsUndone :
      (dir : Bytes) (w u : host.World)
      → IsAbsent host view dir w
      → IsUndone host view dir w u
      → IsUndone host view dir w (clear_incomplete host dir u).1
  unfolding clear_incomplete
  clear-IsUndone dir w u absent h =
      through (IsUndone host view dir w) (rewrap "scan qemu processes for %s: %w" find u) _
        (by_kept host view dir w u find (keeps_find_vmm qemu_binary (vm_dir_prefix dir)) h)
        λ pids u1 h1.
          let alive =
            reject (not (is_empty host pids))
              "refuse to replace incomplete vm dir %s: live qemu pids %v" in
          through (IsUndone host view dir w) (alive u1) _
            (by_kept host view dir w u1 alive (Keeps-reject view _ _) h1)
            λ x u2 h2.
              through (IsUndone host view dir w)
                (rewrap "cleanup stale qemu-nbd for %s: %w" reap u2) _
                (by_kept host view dir w u2 reap Keeps-reap h2)
                λ x u3 h3.
                  through (IsUndone host view dir w) (mark_provisioned host (parent dir) u3) _
                    (by_kept host view dir w u3 (mark_provisioned host (parent dir))
                      (Keeps-mark_provisioned host view frame (parent dir)) h3)
                    λ x v h4. inr (absent, (v, refl))
    where
      find : Io host.World (List ℤ)
      find = host.find_vmm qemu_binary (vm_dir_prefix dir)

      reap : Io host.World (Unit {0})
      reap =
          terminate_by_cmdline host.find_vmm host.terminate_process (codes "qemu-nbd")
            (vm_dir_prefix dir) 1000

      Keeps-reap : Keeps view reap
      Keeps-reap = search (
        keeps_rules,
        Keeps-terminate_by_cmdline view host.find_vmm host.terminate_process keeps_find_vmm
            keeps_terminate_process,
      )

  uncommitted-IsUndone :
      (dir : Bytes) (w u : host.World) (committed : Result (Unit {0}))
      → IsAbsent host view dir w
      → IsUndone host view dir w u
      → IsUndone host view dir w (reset_uncommitted host dir committed u).1
  unfolding reset_uncommitted
  uncommitted-IsUndone dir w u (ok x) absent h = h
  uncommitted-IsUndone dir w u (err e) absent h = elim (Bool-cases (is_not_exist e)) [
    | inl m ↦ rw m (clear-IsUndone dir w u absent h)
    | inr m ↦ rw m h
  ]

  existing-IsUndone :
      (dir : Bytes) (w u : host.World) (there : Result (Unit {0}))
      → IsAbsent host view dir w
      → IsUndone host view dir w u
      → IsUndone host view dir w (reset_existing host dir there u).1
  unfolding reset_existing
  existing-IsUndone dir w u (ok x) absent h =
      let committed = host.stat (record_path dir) u in
      uncommitted-IsUndone dir w committed.1 committed.0 absent
        (by_kept host view dir w u (host.stat (record_path dir)) (keeps_stat (record_path dir)) h)
  existing-IsUndone dir w u (err e) absent h = elim (Bool-cases (is_not_exist e)) [
    | inl m ↦ rw m h
    | inr m ↦ rw m h
  ]

  pub reset-IsUndone :
      (dir : Bytes) (w u : host.World)
      → IsAbsent host view dir w
      → IsUndone host view dir w u
      → IsUndone host view dir w (reset_incomplete_vm_dir host dir u).1
  unfolding reset_incomplete_vm_dir
  reset-IsUndone dir w u absent h =
      let there = host.stat dir u in
      existing-IsUndone dir w there.1 there.0 absent
        (by_kept host view dir w u (host.stat dir) (keeps_stat dir) h)
