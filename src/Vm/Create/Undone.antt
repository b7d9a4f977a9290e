-- ===== src/Vm/Create/Undone.antt =====
-- `create` (cmd/vm/lifecycle.go) and `scaffoldVM` (cmd/vm/utils.go): what a failure leaves of the
-- machine's directory.
use cocoon_macos.Base.{
  [], ◌⊎◌, Bool, true, false, Option, none, some, ◌≡◌, refl, ap, ◌∙◌, inl, inr, if◌then◌else◌, ltb,
  length,
}
use cocoon_macos.Text.{Bytes}
use cocoon_macos.Fault.{Error, Result, ok, err, wrap, is_not_exist}
use cocoon_macos.Io.{Io, pure, throw, reject, ◌>>◌}
use cocoon_macos.Io.Keeps.{Keeps, keeps_rules, Keeps-reject}
use cocoon_macos.Io.Ends.{after-ends, after-by}
use cocoon_macos.Vm.Process.Reset.{IsAbsent, IsUndone, by_kept, reset-IsUndone}
use cocoon_macos.Vm.Record.{VmRecord}
use cocoon_macos.Vm.Host.{Host, Flags}
use cocoon_macos.Vm.Host.Frame.{Frame}
use cocoon_macos.Vm.Store.{vm_dir, record_path, save_rec}
use cocoon_macos.Vm.Process.{reset_incomplete_vm_dir, mon_sock_path}
use cocoon_macos.Vm.Process.Incomplete.{IsMissing}
use cocoon_macos.Vm.Provision.{blob_of, resolve_base, resolve_firmware}
use cocoon_macos.Vm.Create.{
  Scaffold, cleanup_failed_vm, cleaned_up, or_cleaned_up, absent_record, or_removed, overlaid,
  scaffold_vm, image_path, checked_flags, create, new_machine,
}
use cocoon_macos.Vm.Create.FailFast.{Keeps-image_path, Keeps-checked_flags}

module _ (host : Host) (flags : Flags) {V : Type 0} (view : host.World → V)
    (frame : Frame host V view) (keeps_open_store : Keeps view host.open_store)
    (keeps_inspect_image : (image : Bytes) → Keeps view (host.inspect_image image))
    (keeps_nothing : Keeps view (host.remove_all [])) where
  open frame use {keeps_stat, keeps_ensure_dirs}

  -- The record was missing, and from a state that is as before, or as the directory's removal left it,
  -- the overlay or the copy of the variables failed: what these two have changed is left.
  abbrev pub IsLeft : Bytes → host.World → host.World → Type 0
  IsLeft dir w u =
      IsAbsent host view dir w
      × ((image_file : Bytes) × (vars : Bytes) × (v : host.World) × (e : Error) × IsUndone host view
            dir w v
          × (let laid = overlaid host flags image_file dir vars v in
              (laid.0 ≡ err e) × (view u ≡ view laid.1)))

  abbrev pub IsFailed : Bytes → host.World → host.World → Type 0
  IsFailed dir w u = IsUndone host view dir w u ⊎ IsLeft dir w u

  -- a scaffold is of the directory, whose record was missing
  abbrev pub ScaffoldEnd : Bytes → host.World → Result Scaffold × host.World → Type 0
  ScaffoldEnd dir w (ok s, u) = (s.dir ≡ dir) × IsAbsent host view dir w
  ScaffoldEnd dir w (err e, u) = IsFailed dir w u

  Keeps-absent_record : (there : Result (Unit {0})) → Keeps view (absent_record host flags there)
  unfolding absent_record
  Keeps-absent_record (ok x) = search keeps_rules
  Keeps-absent_record (err e) = search keeps_rules

  absent_record-IsMissing :
      (there : Result (Unit {0})) (u : host.World)
      → (absent_record host flags there u).0 ≡ ok tt
      → IsMissing there
  unfolding absent_record IsMissing
  absent_record-IsMissing (ok x) u h = cc
  absent_record-IsMissing (err e) u h = (e, refl, by_test (is_not_exist e) h)
    where
      by_test :
          (missing : Bool)
          → ◌≡◌ {A = Result (Unit {0})}
              ((if missing then pure tt else throw (wrap "stat vm record: %w" e)) u).0
              (ok tt)
          → missing ≡ true
      by_test true k = refl
      by_test false k = cc

  Keeps-blob_of : (image : Bytes) (found : Option Bytes) → Keeps view (blob_of host image found)
  unfolding blob_of
  Keeps-blob_of image none = search keeps_rules
  Keeps-blob_of image (some id) = search keeps_rules depth 9

  Keeps-resolve_base : (image : Bytes) → Keeps view (resolve_base host image)
  unfolding resolve_base
  Keeps-resolve_base image = search (keeps_rules, keeps_inspect_image, Keeps-blob_of) depth 9

  Keeps-resolve_firmware : Keeps view (resolve_firmware host flags)
  unfolding resolve_firmware
  Keeps-resolve_firmware = search keeps_rules depth 12

  laid-End :
      (dir image_file vars : Bytes) (w v : host.World) (s : Scaffold) (laid : Result (Unit {0}))
      → (overlaid host flags image_file dir vars v).0 ≡ laid
      → s.dir ≡ dir
      → IsAbsent host view dir w
      → IsUndone host view dir w v
      → ScaffoldEnd dir w
          ((or_removed host flags laid >> pure s) (overlaid host flags image_file dir vars v).1)
  unfolding or_removed
  laid-End dir image_file vars w v s (ok x) l e absent undone = (e, absent)
  laid-End dir image_file vars w v s (err x) l e absent undone = inr (
    absent,
    (
      image_file,
      vars,
      v,
      x,
      undone,
      (l, keeps_nothing.at (overlaid host flags image_file dir vars v).1),
    ),
  )

  pub scaffold_vm-End :
      (name image vars dir : Bytes) (w u : host.World)
      → vm_dir flags.vms_dir name ≡ ok dir
      → view u ≡ view w
      → ScaffoldEnd dir w (scaffold_vm host flags name image vars u)
  unfolding scaffold_vm
  scaffold_vm-End name image vars dir w u e k = rw e (
      after-ends (ScaffoldEnd dir w) (short u) _ (λ x. inl (inl (short_kept ∙ k)))
        λ x e1.
          let there = host.stat (record_path dir) (short u).1 in
          let there_kept = (keeps_stat (record_path dir)).at (short u).1 ∙ short_kept ∙ k in
          let seen = absent_record host flags there.0 there.1 in
          let seen_kept : view seen.1 ≡ view w =
            (Keeps-absent_record there.0).at there.1 ∙ there_kept in
          after-ends (ScaffoldEnd dir w) seen _ (λ x. inl (inl seen_kept))
            λ x e2.
              let absent : IsAbsent host view dir w =
                ((short u).1, short_kept ∙ k, absent_record-IsMissing there.0 there.1 e2) in
              let reset = reset_incomplete_vm_dir host dir seen.1 in
              let undone = reset-IsUndone host view frame dir w seen.1 absent (inl seen_kept) in
              after-ends (ScaffoldEnd dir w) reset _ (λ x. inl undone)
                λ x e3.
                  let found = resolve_base host image reset.1 in
                  let looked =
                    by_kept host view dir w reset.1 (resolve_base host image)
                      (Keeps-resolve_base image) undone in
                  after-ends (ScaffoldEnd dir w) found _ (λ x. inl looked)
                    λ based e4.
                      let made = host.ensure_dirs dir found.1 in
                      let before =
                        by_kept host view dir w found.1 (host.ensure_dirs dir)
                          (keeps_ensure_dirs dir) looked in
                      after-ends (ScaffoldEnd dir w) made _ (λ x. inl before)
                        λ x e5. laid-End dir based.0 vars w made.1 _ _ refl refl absent before)
    where
      short : Io host.World (Unit {0})
      short =
          reject (ltb 107 (length (mon_sock_path dir)))
            "monitor socket path is %d bytes; shorten --state-dir or --name to fit Linux's 107-byte limit"

      short_kept : view (short u).1 ≡ view u
      short_kept = (Keeps-reject view _ _).at u

  cleanup-removes :
      (dir : Bytes) (r : Option VmRecord) (u : host.World)
      → (v : host.World) × ((cleanup_failed_vm host flags dir r u).1 ≡ (host.remove_all dir v).1)
  unfolding cleanup_failed_vm
  cleanup-removes dir none u = (_, refl)
  cleanup-removes dir (some r) u = (_, refl)

  -- a call that is cleaned up succeeds as it does alone, or is undone
  abbrev pub CleanEnd :
      {A : Type 0} → Bytes → host.World → Result A × host.World → Result A × host.World → Type 0
  CleanEnd dir w alone (ok a, u) = alone ≡ (ok a, u)
  CleanEnd dir w alone (err e, u) = IsUndone host view dir w u

  cleaned_up-End :
      {A : Type 0} (dir : Bytes) (r : Option VmRecord) (w : host.World)
      (alone : Result A × host.World)
      → IsAbsent host view dir w
      → CleanEnd dir w alone (cleaned_up host flags dir r alone.0 alone.1)
  unfolding cleaned_up
  cleaned_up-End dir r w (ok a, u) absent = refl
  cleaned_up-End dir r w (err e, u) absent =
      let removed = cleanup-removes dir r u in inr (absent, (removed.0, ap view removed.1))

  pub or_cleaned_up-End :
      {A : Type 0} (dir at : Bytes) (r : Option VmRecord) (m : Io host.World A) (w u : host.World)
      → at ≡ dir
      → IsAbsent host view dir w
      → CleanEnd dir w (m u) (or_cleaned_up host flags at r m u)
  unfolding or_cleaned_up
  or_cleaned_up-End dir at r m w u e absent = rw e (cleaned_up-End dir r w (m u) absent)

  -- how `create` ends: the record was missing and is written last, or an error is undone
  abbrev pub CreateEnd : Bytes → host.World → Result VmRecord × host.World → Type 0
  CreateEnd dir w (ok r, u) =
      IsAbsent host view dir w × ((v : host.World) × (save_rec host dir r v ≡ (ok tt, u)))
  CreateEnd dir w (err e, u) = IsFailed dir w u

  saved-End :
      (dir : Bytes) (r : VmRecord) (s : Scaffold) (w u : host.World)
      → s.dir ≡ dir
      → IsAbsent host view dir w
      → CreateEnd dir w
          ((or_cleaned_up host flags s.dir (some r) (save_rec host s.dir r) >> pure r) u)
  saved-End dir r s w u e absent = rw e (
      after-by (CleanEnd dir w (save_rec host dir r u)) (CreateEnd dir w)
        (or_cleaned_up host flags dir (some r) (save_rec host dir r) u) (λ x. pure r)
        (or_cleaned_up-End dir dir (some r) (save_rec host dir r) w u refl absent) (λ x v h. inl h)
        (λ x v h. (absent, (u, h))))

  -- Under a view that only removals and `qemu-img` change, and the removal of the empty path does not,
  -- for the directory that the name gives: a `create` that succeeds had found the machine's record
  -- missing, and wrote the one that it returns last; one that fails leaves the view as it was, or had
  -- found the record missing and leaves the view as the removal of the directory left it, or had found
  -- the record missing and the overlay or the copy of the variables failed from such a view, and it
  -- leaves the view as these two left it.
  pub create-CreateEnd :
      (image name dir : Bytes) (w : host.World)
      → vm_dir flags.vms_dir name ≡ ok dir
      → CreateEnd dir w (create host flags image name w)
  unfolding create
  create-CreateEnd image name dir w e =
      let path = image_path host flags image w in
      let path_kept : view path.1 ≡ view w = ap view ((Keeps-image_path host flags image).at w) in
      after-ends (CreateEnd dir w) path _ (λ x. inl (inl path_kept))
        λ p e1.
          let checks = checked_flags host flags path.1 in
          let checks_kept = ap view ((Keeps-checked_flags host flags).at path.1) ∙ path_kept in
          after-ends (CreateEnd dir w) checks _ (λ x. inl (inl checks_kept))
            λ c e2.
              let firmware = resolve_firmware host flags checks.1 in
              let firmware_kept = Keeps-resolve_firmware.at checks.1 ∙ checks_kept in
              after-ends (CreateEnd dir w) firmware _ (λ x. inl (inl firmware_kept))
                λ f e3.
                  after-by (ScaffoldEnd dir w) (CreateEnd dir w)
                    (scaffold_vm host flags name p f.2 firmware.1) _
                    (scaffold_vm-End name p f.2 dir w firmware.1 e firmware_kept) (λ x u h. h)
                    λ s u h.
                      after-by (CleanEnd dir w _) (CreateEnd dir w)
                        (or_cleaned_up host flags s.dir none
                          (new_machine host flags name p c.1 c.0 f.0 f.1 s) u)
                        _ (or_cleaned_up-End dir s.dir none _ w u h.0 h.1) (λ x v k. inl k)
                        λ r v k. saved-End dir r s w v h.0 h.1
