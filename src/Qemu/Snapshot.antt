-- ===== src/Qemu/Snapshot.antt =====
-- qemu/snapshot.go: the snapshots inside a qcow2 image.
use cocoon_macos.Base.{Bool, List, [], ◌∷◌}
use cocoon_macos.Text.{Bytes, codes, contains}
use cocoon_macos.Io.{Io, pure, rewrap, ◌>>=◌}

-- `utils.RunQemuImg`, and the names in the output of `qemu-img info`
module _ {W : Type 0} (run_qemu_img : List Bytes → Io W (Unit {0}))
    (image_snapshots : Bytes → Io W (List Bytes)) where
  unfoldable pub snap_create : Bytes → Bytes → Io W (Unit {0})
  snap_create img tag = run_qemu_img (codes "snapshot" ∷ codes "-c" ∷ tag ∷ img ∷ [])

  unfoldable pub snap_apply : Bytes → Bytes → Io W (Unit {0})
  snap_apply img tag = run_qemu_img (codes "snapshot" ∷ codes "-a" ∷ tag ∷ img ∷ [])

  unfoldable pub snap_delete : Bytes → Bytes → Io W (Unit {0})
  snap_delete img tag = run_qemu_img (codes "snapshot" ∷ codes "-d" ∷ tag ∷ img ∷ [])

  unfoldable pub snap_exists : Bytes → Bytes → Io W Bool
  snap_exists img tag = do
    names ← rewrap "qemu-img info %s: %w" (image_snapshots img)
    pure (contains names tag)
