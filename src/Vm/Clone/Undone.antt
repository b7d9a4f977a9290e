-- ===== src/Vm/Clone/Undone.antt =====
-- `clone` (cmd/vm/clone.go): what a failure leaves of the new machine's directory.
use cocoon_macos.Base.{[], Option, none, some, ◌≡◌, refl, ap, inl}
use cocoon_macos.Text.{Bytes}
use cocoon_macos.Fault.{Result, ok, err}
use cocoon_macos.Io.{Io}
use cocoon_macos.Io.Keeps.{Keeps}
use cocoon_macos.Io.Ends.{after-ends, after-by}
use cocoon_macos.Vm.Record.{VmRecord}
use cocoon_macos.Vm.Host.{Host, Flags}
use cocoon_macos.Vm.Host.Frame.{Frame}
use cocoon_macos.Vm.Store.{vm_dir, save_rec}
use cocoon_macos.Vm.Process.Reset.{IsAbsent}
use cocoon_macos.Vm.Create.{Scaffold, scaffold_vm, or_cleaned_up}
use cocoon_macos.Vm.Create.Undone.{
  IsFailed, ScaffoldEnd, scaffold_vm-End, CleanEnd, or_cleaned_up-End,
}
use cocoon_macos.Vm.Clone.{clone_image_base, clone_checks, clone}
use cocoon_macos.Vm.Clone.FailFast.{Keeps-clone_checks}

-- a call that cannot fail has returned
abbrev IsSure : {A W : Type 0} → Result A × W → Type 0
IsSure {A = A} run = (a : A) × (run.0 ≡ ok a)

-- The view of `create`; an id and the time are there.
module _ (host : Host) (flags : Flags) {V : Type 0} (view : host.World → V)
    (frame : Frame host V view) (keeps_open_store : Keeps view host.open_store)
    (keeps_inspect_image : (image : Bytes) → Keeps view (host.inspect_image image))
    (keeps_nothing : Keeps view (host.remove_all []))
    (gives_id : (u : host.World) → (id : Bytes) × ((host.generate_id u).0 ≡ ok id))
    (gives_time : (u : host.World) → (time : Bytes) × ((host.now u).0 ≡ ok time)) where
  -- the end of the scaffold, and of a call that is cleaned up
  abbrev Scaffolded : Bytes → host.World → Result Scaffold × host.World → Type 0
  Scaffolded = ScaffoldEnd host flags view frame keeps_open_store keeps_inspect_image keeps_nothing

  abbrev Cleaned :
      {A : Type 0} → Bytes → host.World → Result A × host.World → Result A × host.World → Type 0
  Cleaned = CleanEnd host flags view frame keeps_open_store keeps_inspect_image keeps_nothing

  cleaned :
      {A : Type 0} (dir at : Bytes) (r : Option VmRecord) (m : Io host.World A) (w u : host.World)
      → at ≡ dir
      → IsAbsent host view dir w
      → Cleaned dir w (m u) (or_cleaned_up host flags at r m u)
  cleaned =
      or_cleaned_up-End host flags view frame keeps_open_store keeps_inspect_image keeps_nothing

  -- how a clone ends: the record was missing and a record is written last, or an error is undone
  abbrev pub CloneEnd : Bytes → host.World → Result (Unit {0}) × host.World → Type 0
  CloneEnd dir w (ok x, u) =
      IsAbsent host view dir w
      × ((r : VmRecord) × (v : host.World) × (save_rec host dir r v ≡ (ok tt, u)))
  CloneEnd dir w (err e, u) =
      IsFailed host flags view frame keeps_open_store keeps_inspect_image keeps_nothing dir w u

  end_of :
      (dir : Bytes) (r : VmRecord) (w u : host.World) (run : Result (Unit {0}) × host.World)
      → IsAbsent host view dir w
      → Cleaned dir w (save_rec host dir r u) run
      → CloneEnd dir w run
  end_of dir r w u (ok x, v) absent h = (absent, (r, u, h))
  end_of dir r w u (err e, v) absent h = inl h

  saved-End :
      (dir : Bytes) (r : VmRecord) (s : Scaffold) (w u : host.World)
      → s.dir ≡ dir
      → IsAbsent host view dir w
      → CloneEnd dir w (or_cleaned_up host flags s.dir (some r) (save_rec host s.dir r) u)
  saved-End dir r s w u e absent = rw e (
      end_of dir r w u (or_cleaned_up host flags dir (some r) (save_rec host dir r) u) absent
        (cleaned dir dir (some r) (save_rec host dir r) w u refl absent))

  -- Under a view that only removals and `qemu-img` change, and the removal of the empty path does not,
  -- where an id and the time are always there, for the directory that the name gives: a `clone` that
  -- succeeds had found the machine's record missing, and wrote a record last; one that fails leaves the
  -- view as it was, or had found the record missing and leaves the view as the removal of the directory
  -- left it, or had found the record missing and the overlay or the copy of the variables failed from
  -- such a view, and it leaves the view as these two left it.
  pub clone-CloneEnd :
      (src : VmRecord) (name dir : Bytes) (w : host.World)
      → vm_dir flags.vms_dir name ≡ ok dir
      → CloneEnd dir w (clone host flags src name w)
  unfolding clone
  clone-CloneEnd src name dir w e =
      let checks = clone_checks host flags src w in
      let k : view checks.1 ≡ view w = ap view ((Keeps-clone_checks host flags src).at w) in
      after-ends (CloneEnd dir w) checks _ (λ x. inl (inl k))
        λ c e1.
          after-by (Scaffolded dir w) (CloneEnd dir w)
            (scaffold_vm host flags name (clone_image_base host flags src checks.1) src.ovmf_vars
              checks.1)
            _
            (scaffold_vm-End host flags view frame keeps_open_store keeps_inspect_image
              keeps_nothing name _ src.ovmf_vars dir w checks.1 e k)
            (λ x u h. h)
            λ s u h.
              after-by (Cleaned dir w _) (CloneEnd dir w) (or_cleaned_up host flags s.dir none _ u)
                _ (cleaned dir s.dir none _ w u h.0 h.1) (λ x v i. inl i)
                λ disks u1 i1.
                  after-by IsSure (CloneEnd dir w) (host.generate_id u1) _ (gives_id u1)
                    (λ x v i. let bad = i.1 in cc)
                    λ id u2 i2.
                      after-by IsSure (CloneEnd dir w) (host.now u2) _ (gives_time u2)
                        (λ x v i. let bad = i.1 in cc)
                        λ created u3 i3.
                          after-by (Cleaned dir w _) (CloneEnd dir w)
                            (or_cleaned_up host flags s.dir (some _) _ u3) _
                            (cleaned dir s.dir (some _) _ w u3 h.0 h.1) (λ x v i. inl i)
                            λ r1 u4 i4.
                              after-by (Cleaned dir w _) (CloneEnd dir w)
                                (or_cleaned_up host flags s.dir (some _) _ u4) _
                                (cleaned dir s.dir (some _) _ w u4 h.0 h.1) (λ x v i. inl i)
                                λ r3 u5 i5. saved-End dir r3 s w u5 h.0 h.1
