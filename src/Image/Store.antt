-- ===== src/Image/Store.antt =====
-- cmd/image/handler.go: List, Inspect and RM.
use cocoon_macos.Base.{List, [], ◌∷◌, Option, none, some}
use cocoon_macos.Text.{Bytes}
use cocoon_macos.Fault.{fault}
use cocoon_macos.Io.{Io, pure, throw, ignore, ◌>>=◌, ◌>>◌}
use cocoon_macos.Image.Registry.{ImageHost}
use cocoon_macos.Image.Pull.{open_store}

module _ {W : Type 0} (host : ImageHost W) where
  open host use {store_inspect, store_delete, store_list, print}

  -- `List`: the images that are printed
  unfoldable pub list_images : Bytes → Io W (List Bytes)
  list_images dir = do open_store host dir; store_list

  found : Option Bytes → Io W Bytes
  found none = throw (fault "image not found: %s")
  found (some img) = pure img

  -- `Inspect`: the image that is printed
  unfoldable pub inspect : Bytes → Bytes → Io W Bytes
  unfolding found
  inspect dir ref = do open_store host dir; img ← store_inspect ref; found img

  unfoldable pub print_all : List Bytes → Io W (Unit {0})
  print_all [] = pure tt
  print_all (d ∷ deleted) = do ignore (print d); print_all deleted

  -- `RM`
  unfoldable pub rm_images : Bytes → List Bytes → Io W (Unit {0})
  rm_images dir refs = do open_store host dir; deleted ← store_delete refs; print_all deleted
