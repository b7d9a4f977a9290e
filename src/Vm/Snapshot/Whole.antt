-- ===== src/Vm/Snapshot/Whole.antt =====
-- `Restore` (cmd/vm/snapshot.go) changes images only if every image has the snapshot.
use cocoon_macos.Base.{
  Bool, true, false, not, List, [], ◌∷◌, Option, none, some, ◌≡◌, refl, sym, ap, ◌∙◌, ◌⊎◌, inl, inr,
  All, if◌then◌else◌, subst,
}
use cocoon_macos.Text.{Bytes, is_set, contains}
use cocoon_macos.Fault.{ok, wrapped, wrapped-eq-ok}
use cocoon_macos.Io.{Io, after, pure, reject, ◌>>=◌, ◌>>◌}
use cocoon_macos.Io.Ends.{after-eq-ok, reject-eq-ok}
use cocoon_macos.Io.Keeps.{Keeps, keeps_rules, Keeps-reject, after-kept}
use cocoon_macos.Qemu.Snapshot
use cocoon_macos.Vm.Record.{VmRecord}
use cocoon_macos.Vm.Host.{Host, Flags}
use cocoon_macos.Vm.Host.Frame.{Frame}
use cocoon_macos.Vm.Store.{load_rec, save_rec}
use cocoon_macos.Vm.Net.Keeps.{Keeps-toggle_net}
use cocoon_macos.Vm.Process.{reconcile_running_qemu}
use cocoon_macos.Vm.Process.Keeps.{
  Keeps-load_rec, Keeps-save_rec, Keeps-reconcile, Keeps-stop_instance,
}
use cocoon_macos.Vm.Snapshot.{
  images_to_snapshot, newest, snap_exists, check_tags, apply_tags, or_no_snapshots, restore_tag,
  force_stop, relaunch, restore_vm,
}
use cocoon_macos.Vm.Snapshot.Same.{IsSame, first, reconcile-IsSame, force_stop-IsSame}

-- the tag that a restore goes to: the flag's, or the newest snapshot of the record
abbrev pub IsTag : Flags → VmRecord → Bytes → Type 0
IsTag flags r tag =
    ((is_set flags.tag ≡ true) × (tag ≡ flags.tag))
    ⊎ ((is_set flags.tag ≡ false) × (newest r.snapshots ≡ some tag))

IsTag-same :
    (flags : Flags) (r r' : VmRecord) (tag : Bytes)
    → r'.snapshots ≡ r.snapshots
    → IsTag flags r tag
    → IsTag flags r' tag
IsTag-same flags r r' tag e (inl t) = inl t
IsTag-same flags r r' tag e (inr (u, n)) = inr (u, ap newest e ∙ n)

-- A view that only removals and `qemu-img` change, and the snapshots that `qemu-img info` reads from it.
module _ (host : Host) {V : Type 0} (view : host.World → V) (frame : Frame host V view)
    (tags : V → Bytes → List Bytes)
    (lists_tags : (img : Bytes) (w : host.World) (names : List Bytes)
      → (host.image_snapshots img w).0 ≡ ok names
      → names ≡ tags (view w) img)
    (flags : Flags) where
  open frame use {keeps_image_snapshots}

  -- the record was read, and every image of it has the tag
  abbrev pub IsWhole : Bytes → host.World → Type 0
  IsWhole dir w =
      (r : VmRecord) × (tag : Bytes) × ((load_rec host dir w).0 ≡ ok r)
      × IsTag flags r tag
      × All (λ img. contains (tags (view w) img) tag ≡ true) (images_to_snapshot r)

  Keeps-snap_exists : (img tag : Bytes) → Keeps view (snap_exists host img tag)
  unfolding snap_exists Snapshot.snap_exists
  Keeps-snap_exists img tag = search (keeps_rules, keeps_image_snapshots)

  snap_exists-eq-ok :
      (img tag : Bytes) (w : host.World) {there : Bool}
      → (snap_exists host img tag w).0 ≡ ok there
      → contains (tags (view w) img) tag ≡ there
  unfolding snap_exists Snapshot.snap_exists
  snap_exists-eq-ok img tag w h =
      let names = host.image_snapshots img w in
      let a = after-eq-ok (wrapped "qemu-img info %s: %w" names.0, names.1) _ h in
      ap (λ l. contains l tag) (sym (lists_tags img w a.0 (wrapped-eq-ok _ names.0 a.1)))
      ∙ sym (first a.2)

  check_tags-All :
      (imgs : List Bytes) (tag : Bytes) (w : host.World)
      → (check_tags host imgs tag w).0 ≡ ok tt
      → All (λ img. contains (tags (view w) img) tag ≡ true) imgs
  unfolding check_tags
  check_tags-All [] tag w h = tt
  check_tags-All (img ∷ imgs) tag w h =
      let found = snap_exists host img tag w in
      let a = after-eq-ok found _ h in
      let refused =
        reject (not a.0) "snapshot %q missing on disk %s; refusing a partial restore" found.1 in
      let b = after-eq-ok refused _ a.2 in
      let same : view refused.1 ≡ view w =
        (Keeps-reject view (not a.0)
            "snapshot %q missing on disk %s; refusing a partial restore").at
          found.1
        ∙ (Keeps-snap_exists img tag).at w in
      (
        snap_exists-eq-ok img tag w (a.1 ∙ ap ok (reject-eq-ok _ found.1 b.1)),
        subst (λ v. All (λ j. contains (tags v j) tag ≡ true) imgs) same
            (check_tags-All imgs tag refused.1 b.2),
      )

  Keeps-force_stop : (dir : Bytes) (r : VmRecord) → Keeps view (force_stop host flags dir r)
  unfolding force_stop
  Keeps-force_stop dir r =
      search
        (
          keeps_rules,
          Keeps-stop_instance host view frame,
          Keeps-toggle_net host flags view frame,
          Keeps-save_rec host view frame,
        )
        depth 14

  Keeps-check_tags : (imgs : List Bytes) (tag : Bytes) → Keeps view (check_tags host imgs tag)
  unfolding check_tags
  Keeps-check_tags [] tag = search keeps_rules
  Keeps-check_tags (img ∷ imgs) tag =
      let rest = Keeps-check_tags imgs tag in search (keeps_rules, Keeps-snap_exists)

  newest-IsTag :
      (r : VmRecord) (found : Option Bytes) (w : host.World)
      → newest r.snapshots ≡ found
      → is_set flags.tag ≡ false
      → (view (or_no_snapshots host found w).1 ≡ view w)
        × ((tag : Bytes) → (or_no_snapshots host found w).0 ≡ ok tag → IsTag flags r tag)
  newest-IsTag r none w e u = (refl, λ tag h. cc)
  newest-IsTag r (some t) w e u = (refl, λ tag h. inr (u, e ∙ ap some (sym (first h))))

  by_flag :
      (r : VmRecord) (w : host.World) (given : Bool)
      → is_set flags.tag ≡ given
      → (view ((if given then pure flags.tag else or_no_snapshots host (newest r.snapshots)) w).1
          ≡ view w)
        × ((tag : Bytes)
            → ((if given then pure flags.tag else or_no_snapshots host (newest r.snapshots)) w).0
              ≡ ok tag
            → IsTag flags r tag)
  by_flag r w true e = (refl, λ tag h. inl (e, first h))
  by_flag r w false e = newest-IsTag r (newest r.snapshots) w refl e

  restore_tag-IsTag :
      (r : VmRecord) (w : host.World)
      → (view (restore_tag host flags r w).1 ≡ view w)
        × ((tag : Bytes) → (restore_tag host flags r w).0 ≡ ok tag → IsTag flags r tag)
  unfolding restore_tag
  restore_tag-IsTag r w = by_flag r w (is_set flags.tag) refl

  -- what follows the record that is ready: the tag, the check of all images, and the rest
  ready-IsWhole :
      (dir : Bytes) (w v : host.World) (r ready : VmRecord)
      (rest : Bytes → Io host.World (Unit {0}))
      → (load_rec host dir w).0 ≡ ok r
      → IsSame r ready
      → view v ≡ view w
      → (view
            ((restore_tag host flags ready >>= λ tag.
                check_tags host (images_to_snapshot ready) tag >> rest tag)
              v).1
          ≡ view w)
        ⊎ IsWhole dir w
  ready-IsWhole dir w v r ready rest l same k =
      let found = restore_tag-IsTag ready v in
      after-kept view (IsWhole dir w) w (restore_tag host flags ready v) _ (found.0 ∙ k)
        λ tag u e ku.
          after-kept view (IsWhole dir w) w (check_tags host (images_to_snapshot ready) tag u) _
            ((Keeps-check_tags (images_to_snapshot ready) tag).at u ∙ ku)
            λ x t e' k'. inr (
              r,
              tag,
              l,
              IsTag-same flags ready r tag (sym same.1) (found.1 tag (ap (λ q. q.0) e)),
              subst (λ imgs. All (λ img. contains (tags (view w) img) tag ≡ true) imgs) same.0
                  (subst
                    (λ s. All (λ img. contains (tags s img) tag ≡ true) (images_to_snapshot ready))
                    ku (check_tags-All (images_to_snapshot ready) tag u (ap (λ q. q.0) e'))),
            )

  abbrev restored : Bytes → Bool → VmRecord → Io host.World (Unit {0})
  restored dir was_running ready = restore_tag host flags ready >>= λ tag.
      check_tags host (images_to_snapshot ready) tag
      >> (apply_tags host (images_to_snapshot ready) tag
          >> (if was_running then relaunch host flags dir ready else save_rec host dir ready))

  abbrev reconciled : Bytes → Bool × VmRecord → Io host.World (Unit {0})
  reconciled dir found =
      (if found.0 then force_stop host flags dir found.1 else pure found.1) >>= λ ready.
      restored dir found.0 ready

  by_running :
      (dir : Bytes) (w v : host.World) (r r' : VmRecord) (was_running : Bool)
      → (load_rec host dir w).0 ≡ ok r
      → IsSame r r'
      → view v ≡ view w
      → (view
            (after
              ((if was_running then force_stop host flags dir r' else pure r') v)
              (λ ready. restored dir was_running ready)).1
          ≡ view w)
        ⊎ IsWhole dir w
  by_running dir w v r r' false l same k = ready-IsWhole dir w v r r' _ l same k
  by_running dir w v r r' true l same k =
      after-kept view (IsWhole dir w) w (force_stop host flags dir r' v) _
        ((Keeps-force_stop dir r').at v ∙ k)
        λ ready u e ku.
          let s = force_stop-IsSame host flags dir r' v (ap (λ q. q.0) e) in
          ready-IsWhole dir w u r ready _ l (s.0 ∙ same.0, s.1 ∙ same.1) ku

  -- Under a view that only removals and `qemu-img` change, and from which `qemu-img info` reads the
  -- snapshots of an image: a restore leaves the view as it is, unless the record was read and every
  -- image of it has the tag, which is the flag's or, with no flag, the newest snapshot of the record.
  pub restore_vm-IsWhole :
      (dir : Bytes) (w : host.World)
      → (view (restore_vm host flags dir w).1 ≡ view w) ⊎ IsWhole dir w
  unfolding restore_vm
  restore_vm-IsWhole dir w =
      after-kept view (IsWhole dir w) w (load_rec host dir w)
        (λ r. reconcile_running_qemu host dir r >>= reconciled dir)
        ((Keeps-load_rec host view frame dir).at w)
        λ r v l k.
          after-kept view (IsWhole dir w) w (reconcile_running_qemu host dir r v) (reconciled dir)
            ((Keeps-reconcile host view frame dir r).at v ∙ k)
            λ found v' e k'.
              by_running dir w v' r found.1 found.0 (ap (λ q. q.0) l)
                (reconcile-IsSame host dir r v (ap (λ q. q.0) e)) k'
