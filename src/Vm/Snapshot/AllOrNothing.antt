-- ===== src/Vm/Snapshot/AllOrNothing.antt =====
-- `snapshotAllOrNothing` tags every image, or leaves the snapshots of all images as they were.
use cocoon_macos.Base.{
  Bool, ◌⊎◌, inl, inr, sym, ap, Bool-cases, true, false, List, [], ◌∷◌, ◌++◌, ◌≡◌, refl, ◌∙◌, arith,
  if◌then◌else◌, append-nil, append_assoc, subst,
}
use cocoon_macos.Text.{Bytes, contains, text_eq}
use cocoon_macos.Text.Laws.{text_eq_iff, text_eq_refl, contains-cons, contains-nil, contains-append}
use cocoon_macos.Fault.{Error, Result, ok, err, wrap}
use cocoon_macos.Io.{after, throw}
use cocoon_macos.Qemu.Snapshot
use cocoon_macos.Vm.Host.{Host}
use cocoon_macos.Vm.DataDisk.Fresh.{IsFresh}
use cocoon_macos.Vm.Snapshot.{
  snap_create, snap_delete, roll_back, kept_or_rolled_back, snapshot_from, snapshot_all_or_nothing,
}
use cocoon_macos.Vm.Snapshot.Images.{Images, without, delete_args}

without-append :
    (tag : Bytes) (ts : List Bytes) → contains ts tag ≡ false → without tag (ts ++ tag ∷ []) ≡ ts
unfolding without
without-append tag [] h = rw (text_eq_refl tag)
without-append tag (t ∷ ts) h =
    ground
      (arith, text_eq_iff t tag, text_eq_iff tag t, contains-cons t tag ts, without-append tag ts)

contains-snoc : (tag : Bytes) (ts : List Bytes) → contains (ts ++ tag ∷ []) tag ≡ true
contains-snoc tag ts =
    ground (arith, contains-append tag ts (tag ∷ []), contains-cons tag tag [], text_eq_refl tag)

IsFresh-out :
    (c : Bytes) (seen ns : List Bytes)
    → contains seen c ≡ true
    → IsFresh seen ns
    → contains ns c ≡ false
IsFresh-out c seen [] h f = contains-nil c
IsFresh-out c seen (n ∷ ns) h f = ground (
  arith,
  contains-cons n c ns,
  contains-cons n c seen,
  text_eq_iff c n,
  IsFresh-out c (n ∷ seen) ns (ground (arith, contains-cons n c seen)) f.1,
)

IsFresh-prefix : (seen xs ys : List Bytes) → IsFresh seen (xs ++ ys) → IsFresh seen xs
IsFresh-prefix seen [] ys f = tt
IsFresh-prefix seen (x ∷ xs) ys f = (f.0, IsFresh-prefix (x ∷ seen) xs ys f.1)

IsFresh-middle :
    (seen xs : List Bytes) (y : Bytes) (ys : List Bytes)
    → IsFresh seen (xs ++ (y ∷ ys))
    → (contains xs y ≡ false) × (contains seen y ≡ false)
IsFresh-middle seen [] y ys f = (contains-nil y, f.0)
IsFresh-middle seen (x ∷ xs) y ys f =
    let (a, b) = IsFresh-middle (x ∷ seen) xs y ys f.1 in
    (
      ground (arith, contains-cons x y xs, contains-cons x y seen),
      ground (arith, contains-cons x y seen),
    )

module _ (host : Host) (images : Images host) (tag : Bytes) (before : host.World)
    (absent : (j : Bytes) → contains (images.tags before j) tag ≡ false) where
  open images use {tags, create_ok, create_err, delete_ok, delete_err}

  -- the images in `created` have the tag more than before, and no other
  abbrev Tagged : List Bytes → host.World → Type 0
  Tagged created w =
      (j : Bytes)
      → tags w j ≡ (if contains created j then tags before j ++ tag ∷ [] else tags before j)

  -- the image still has the tag, and a deletion of the tag from it failed while it had the tag
  abbrev pub IsStuck : Bytes → host.World → Type 0
  IsStuck j w =
      (tags w j ≡ tags before j ++ tag ∷ [])
      × ((v : host.World) × (e : Error) × (tags v j ≡ tags before j ++ tag ∷ [])
          × ((host.run_qemu_img (delete_args j tag) v).0 ≡ err e))

  -- what an image has, by whether its tag is still to go
  abbrev Status : Bool → Bytes → host.World → Type 0
  Status true j w = tags w j ≡ tags before j ++ tag ∷ []
  Status false j w = (tags w j ≡ tags before j) ⊎ IsStuck j w

  Status-kept :
      (b : Bool) (j : Bytes) (w w' : host.World)
      → tags w' j ≡ tags w j
      → Status b j w
      → Status b j w'
  Status-kept true j w w' k h = k ∙ h
  Status-kept false j w w' k (inl h) = inl (k ∙ h)
  Status-kept false j w w' k (inr (h, failed)) = inr (k ∙ h, failed)

  abbrev Left : List Bytes → host.World → Type 0
  Left created w = (j : Bytes) → Status (contains created j) j w

  Tagged-Left : (created : List Bytes) (w : host.World) → Tagged created w → Left created w
  Tagged-Left created w t j = elim (Bool-cases (contains created j)) [
    | inl there ↦ rw there (t j ∙ rw there refl)
    | inr new ↦ rw new (inl (t j ∙ rw new refl))
  ]

  -- the image whose turn it is
  deleted-Status :
      (img : Bytes) (w : host.World) (p : Result (Unit {0}) × host.World)
      → host.run_qemu_img (delete_args img tag) w ≡ p
      → Status true img w
      → Status false img p.1
  deleted-Status img w (ok u, w') e h = inl (
      delete_ok img tag img w w' e (rw h (contains-snoc tag (tags before img)))
      ∙ rw (text_eq_refl img, h) (without-append tag (tags before img) (absent img)))
  deleted-Status img w (err x, w') e h =
      inr (delete_err img tag img w w' x e ∙ h, (w, x, h, ap (λ q. q.0) e))

  -- the others
  other-kept :
      (img j : Bytes) (w : host.World) (p : Result (Unit {0}) × host.World)
      → host.run_qemu_img (delete_args img tag) w ≡ p
      → contains (tags w img) tag ≡ true
      → text_eq j img ≡ false
      → tags p.1 j ≡ tags w j
  other-kept img j w (ok u, w') e there n = delete_ok img tag j w w' e there ∙ rw n refl
  other-kept img j w (err x, w') e there n = delete_err img tag j w w' x e

  Left-delete :
      (img : Bytes) (created : List Bytes) (w : host.World)
      → contains created img ≡ false
      → Left (img ∷ created) w
      → Left created (snap_delete host img tag w).1
  unfolding snap_delete Snapshot.snap_delete
  Left-delete img created w new left j = elim (Bool-cases (text_eq j img)) [
    | inl same ↦
        subst (λ i. Status (contains created i) i (host.run_qemu_img (delete_args img tag) w).1)
          (sym ((text_eq_iff j img).0 same))
          (rw new (deleted-Status img w (host.run_qemu_img (delete_args img tag) w) refl here))
    | inr other ↦
        Status-kept (contains created j) j w (host.run_qemu_img (delete_args img tag) w).1
          (other-kept img j w (host.run_qemu_img (delete_args img tag) w) refl there other)
          (subst (λ b. Status b j w) (still other) (left j))
  ]
    where
      among : contains (img ∷ created) img ≡ true
      among = ground (arith, contains-cons img img created, text_eq_refl img)

      here : Status true img w
      here = subst (λ b. Status b img w) among (left img)

      there : contains (tags w img) tag ≡ true
      there = rw here (contains-snoc tag (tags before img))

      still : text_eq j img ≡ false → contains (img ∷ created) j ≡ contains created j
      still n = ground (arith, contains-cons img j created, text_eq_iff j img, n)

  Left-roll_back :
      (seen created : List Bytes) (w : host.World)
      → IsFresh seen created
      → Left created w
      → Left [] (roll_back host created tag w).1
  unfolding roll_back
  Left-roll_back seen [] w f t = t
  Left-roll_back seen (img ∷ created) w f t =
      Left-roll_back (img ∷ seen) created (snap_delete host img tag w).1 f.1 (
        Left-delete img created w
          (IsFresh-out img (img ∷ seen) created
            (ground (arith, contains-cons img img seen, text_eq_refl img)) f.1)
          t)

  Tagged-create :
      (img : Bytes) (created : List Bytes) (w w' : host.World)
      → snap_create host img tag w ≡ (ok tt, w')
      → contains created img ≡ false
      → Tagged created w
      → Tagged (created ++ img ∷ []) w'
  unfolding snap_create Snapshot.snap_create
  Tagged-create img created w w' e new t j = ground (
    arith,
    t j,
    create_ok img tag j w w' e,
    text_eq_iff j img,
    contains-append j created (img ∷ []),
    contains-cons img j [],
    contains-nil j,
  )

  -- On success every image has the tag more; on failure an image is as before, or it has the tag more,
  -- and a deletion of the tag from it failed while it had the tag.
  abbrev pub Outcome : List Bytes → Result (Unit {0}) × host.World → Type 0
  Outcome imgs (ok u, w) = Tagged imgs w
  Outcome imgs (err e, w) = (j : Bytes) → (tags w j ≡ tags before j) ⊎ IsStuck j w

  Left-nil : (w : host.World) → Left [] w → (j : Bytes) → (tags w j ≡ tags before j) ⊎ IsStuck j w
  Left-nil w t j = subst (λ b. Status b j w) (contains-nil j) (t j)

  Outcome-throw :
      (x : Error) (all : List Bytes) (rest : host.World → Result (Unit {0}) × host.World)
      (q : Result (Unit {0}) × host.World)
      → ((j : Bytes) → (tags q.1 j ≡ tags before j) ⊎ IsStuck j q.1)
      → Outcome all (after (after q (λ _. throw {A = Unit {0}} x)) (λ _. rest))
  Outcome-throw x all rest (ok u, w) h = h
  Outcome-throw x all rest (err y, w) h = h

  Outcome-step :
      (img : Bytes) (created all : List Bytes) (w : host.World)
      (rest : host.World → Result (Unit {0}) × host.World) (p : Result (Unit {0}) × host.World)
      → snap_create host img tag w ≡ p
      → Tagged created w
      → contains created img ≡ false
      → IsFresh [] created
      → ((w' : host.World) → Tagged (created ++ img ∷ []) w' → Outcome all (rest w'))
      → Outcome all (after (kept_or_rolled_back host created tag p.0 p.1) (λ _. rest))
  unfolding kept_or_rolled_back snap_create Snapshot.snap_create
  Outcome-step img created all w rest (ok u, w') e t new f next =
      next w' (Tagged-create img created w w' e new t)
  Outcome-step img created all w rest (err x, w') e t new f next =
      Outcome-throw (wrap "snapshot %s: %w" x) all rest (roll_back host created tag w') (
        Left-nil _ (
          Left-roll_back [] created w' f
            (Tagged-Left created w' (λ j. create_err img tag j w w' x e ∙ t j))))

  Outcome-snapshot_from :
      (created imgs : List Bytes) (w : host.World)
      → IsFresh [] (created ++ imgs)
      → Tagged created w
      → Outcome (created ++ imgs) (snapshot_from host created imgs tag w)
  unfolding snapshot_from
  Outcome-snapshot_from created [] w f t = rw append-nil t
  Outcome-snapshot_from created (img ∷ imgs) w f t =
      Outcome-step img created (created ++ (img ∷ imgs)) w
        (snapshot_from host (created ++ img ∷ []) imgs tag) (snap_create host img tag w) refl t
        (IsFresh-middle [] created img imgs f).0 (IsFresh-prefix [] created (img ∷ imgs) f)
        λ w' t'.
          subst (λ all. Outcome all (snapshot_from host (created ++ img ∷ []) imgs tag w'))
            (append_assoc created (img ∷ []) imgs)
            (Outcome-snapshot_from (created ++ img ∷ []) imgs w' (rw append_assoc f) t')

  -- Where `qemu-img` treats the snapshots of images as `Images` says, and from images that are distinct
  -- and do not have the tag: if the whole succeeds, each of them has the tag more and no other image
  -- changed; if it fails, each image is as it was, but for those that have the tag and from which a
  -- deletion of it failed while they had it.
  pub snapshot_all_or_nothing-Outcome :
      (imgs : List Bytes)
      → IsFresh [] imgs
      → Outcome imgs (snapshot_all_or_nothing host imgs tag before)
  unfolding snapshot_all_or_nothing
  snapshot_all_or_nothing-Outcome imgs f =
      Outcome-snapshot_from [] imgs before f (λ j. ground (arith, contains-nil j))
