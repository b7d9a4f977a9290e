-- ===== src/Vm/Gc/Strays.antt =====
-- cmd/vm/gc.go: which directories the sweep takes for strays, and which machines are active.
use cocoon_macos.Base.{
  Bool, true, false, List, [], ◌∷◌, ◌++◌, ◌≡◌, refl, sym, ◌∙◌, ◌⊎◌, inl, inr, all, append_assoc,
  append-nil, Bool-cases,
}
use cocoon_macos.Text.{Bytes}
use cocoon_macos.Fault.{Error, Result, ok, err, is_not_exist, wrap}
use cocoon_macos.Io.{after}
use cocoon_macos.Vm.Record.{VmRecord}
use cocoon_macos.Vm.Host.{Host}
use cocoon_macos.Vm.Store.{load_rec, record_path}
use cocoon_macos.Vm.Gc.Sweep.{VmGcSnapshot, noted, read_db}

-- what one directory adds, by what the read of its record came to
abbrev pub id_of : Result VmRecord → List Bytes
id_of (ok r) = r.vmid ∷ []
id_of (err e) = []

abbrev pub stray_of : Bytes → Result VmRecord → List Bytes
stray_of dir (ok r) = []
stray_of dir (err e) = dir ∷ []

-- the record is there, or it is known to be missing
abbrev pub is_known : Result VmRecord → Bool
is_known (ok r) = true
is_known (err e) = is_not_exist e

module _ (host : Host) (w : host.World) where
  -- the ids of the machines whose record can be read, and the directories whose record cannot
  abbrev pub active_ids : List Bytes → List Bytes
  active_ids [] = []
  active_ids (dir ∷ dirs) = id_of (load_rec host dir w).0 ++ active_ids dirs

  abbrev pub recordless : List Bytes → List Bytes
  recordless [] = []
  recordless (dir ∷ dirs) = stray_of dir (load_rec host dir w).0 ++ recordless dirs

  abbrev pub all_known : List Bytes → Bool
  all_known dirs = all (λ dir. is_known (load_rec host dir w).0) dirs

  abbrev SnapshotEnd : VmGcSnapshot → List Bytes → Result VmGcSnapshot × host.World → Type 0
  SnapshotEnd snap dirs run =
      ((all_known dirs ≡ true)
        × (run ≡ (
          ok (record {
            ids = snap.ids ++ active_ids dirs;
            strays = snap.strays ++ recordless dirs;
          }),
          w,
        )))
      ⊎ ((all_known dirs ≡ false) × ((e : Error) × (run.0 ≡ err e)))

  noted-SnapshotEnd :
      (dir : Bytes) (dirs : List Bytes) (snap : VmGcSnapshot) (r : Result VmRecord)
      → (load_rec host dir w).0 ≡ r
      → ((s : VmGcSnapshot) → SnapshotEnd s dirs (read_db host s dirs w))
      → SnapshotEnd snap (dir ∷ dirs) (after (noted host dir r snap w) (λ s. read_db host s dirs))
  unfolding noted
  noted-SnapshotEnd dir dirs snap (ok r) e next =
      rw e (elim (next (record snap { ids = snap.ids ++ r.vmid ∷ [] })) [
        | inl (k, q) ↦ inl (
          k,
          q ∙ λ i. (
            ok (record {
              ids = append_assoc snap.ids (r.vmid ∷ []) (active_ids dirs) i;
              strays = snap.strays ++ recordless dirs;
            }),
            w,
          ),
        )
        | inr failed ↦ inr failed
      ])
  noted-SnapshotEnd dir dirs snap (err x) e next = elim (Bool-cases (is_not_exist x)) [
    | inl missing ↦
        rw (e, missing)
          (elim (next (record snap { strays = snap.strays ++ dir ∷ [] })) [
            | inl (k, q) ↦ inl (
              k,
              q ∙ λ i. (
                ok (record {
                  ids = snap.ids ++ active_ids dirs;
                  strays = append_assoc snap.strays (dir ∷ []) (recordless dirs) i;
                }),
                w,
              ),
            )
            | inr failed ↦ inr failed
          ])
    | inr broken ↦ rw (e, broken) (inr (refl, (wrap "read vm %s for gc: %w" x, refl)))
  ]

  read_db-SnapshotEnd :
      ((p : Bytes) (v : host.World) → (host.read_json p v).1 ≡ v)
      → (dirs : List Bytes) (snap : VmGcSnapshot) → SnapshotEnd snap dirs (read_db host snap dirs w)
  unfolding read_db load_rec
  read_db-SnapshotEnd reads [] snap = inl (
    refl,
    λ i. (
      ok (record { ids = sym (append-nil snap.ids) i; strays = sym (append-nil snap.strays) i }),
      w,
    ),
  )
  read_db-SnapshotEnd reads (dir ∷ dirs) snap =
      let r = load_rec host dir w in
      let same : r.1 ≡ w = reads (record_path dir) w in
      rw same (noted-SnapshotEnd dir dirs snap r.0 refl (read_db-SnapshotEnd reads dirs))

  -- what the snapshot of the directories comes to
  abbrev pub IsSnapshot : List Bytes → Result VmGcSnapshot × host.World → Type 0
  IsSnapshot dirs run =
      ((all_known dirs ≡ true)
        × (run ≡ (ok (record { ids = active_ids dirs; strays = recordless dirs }), w)))
      ⊎ ((all_known dirs ≡ false) × ((e : Error) × (run.0 ≡ err e)))

  -- Where reading a record changes nothing: the snapshot of the sweep has the ids of exactly the
  -- machines whose record can be read, and takes for strays exactly the directories whose record is
  -- missing; a record that is there and cannot be read makes it fail, and then there is no snapshot.
  pub read_db-IsSnapshot :
      ((p : Bytes) (v : host.World) → (host.read_json p v).1 ≡ v)
      → (dirs : List Bytes)
      → IsSnapshot dirs (read_db host (record { ids = []; strays = [] }) dirs w)
  read_db-IsSnapshot reads dirs = read_db-SnapshotEnd reads dirs (record { ids = []; strays = [] })
