-- ===== src/Vm/Snapshot/Images.antt =====
-- What `qemu-img snapshot` is documented to do to the snapshots of images, as an interface.
use cocoon_macos.Base.{true, List, [], ◌∷◌, ◌++◌, ◌≡◌, if◌then◌else◌}
use cocoon_macos.Text.{Bytes, codes, text_eq, contains}
use cocoon_macos.Fault.{Error, ok, err}
use cocoon_macos.Vm.Host.{Host}

-- the list without the first snapshot of a name
unfoldable pub without : Bytes → List Bytes → List Bytes
without tag [] = []
without tag (t ∷ ts) = if text_eq t tag then ts else t ∷ without tag ts

abbrev pub create_args : Bytes → Bytes → List Bytes
create_args img tag = codes "snapshot" ∷ codes "-c" ∷ tag ∷ img ∷ []

abbrev pub delete_args : Bytes → Bytes → List Bytes
delete_args img tag = codes "snapshot" ∷ codes "-d" ∷ tag ∷ img ∷ []

-- Each image has a list of snapshots. A creation (`-c`) that succeeds adds the tag to one image at the
-- end; a deletion (`-d`) that succeeds, of a tag that is there, removes it; either can fail, and then
-- changes no image.
pub record Images (host : Host) : Type 0 where
  pub tags : host.World → Bytes → List Bytes
  pub create_ok :
      (img tag j : Bytes) (w w' : host.World)
      → host.run_qemu_img (create_args img tag) w ≡ (ok tt, w')
      → tags w' j ≡ (if text_eq j img then tags w j ++ tag ∷ [] else tags w j)
  pub create_err :
      (img tag j : Bytes) (w w' : host.World) (e : Error)
      → host.run_qemu_img (create_args img tag) w ≡ (err e, w')
      → tags w' j ≡ tags w j
  pub delete_ok :
      (img tag j : Bytes) (w w' : host.World)
      → host.run_qemu_img (delete_args img tag) w ≡ (ok tt, w')
      → contains (tags w img) tag ≡ true
      → tags w' j ≡ (if text_eq j img then without tag (tags w j) else tags w j)
  pub delete_err :
      (img tag j : Bytes) (w w' : host.World) (e : Error)
      → host.run_qemu_img (delete_args img tag) w ≡ (err e, w')
      → tags w' j ≡ tags w j
