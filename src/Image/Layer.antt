-- ===== src/Image/Layer.antt =====
-- cmd/image/oci.go: the layer of a manifest that is pulled, and cmd/image/handler.go: short digests.
pub mod Pick
use cocoon_macos.Base.{
  ℕ, Bool, true, false, List, [], ◌∷◌, Option, none, some, if◌then◌else◌, ltb, length, take, ℤ,
  ltb_ℤ,
}
use cocoon_macos.Text.{Bytes, codes, has_suffix}
use cocoon_macos.Fault.{Result, ok, err, fault}

-- what is read of an `ocispec.Descriptor`: the title among its annotations, its size and its digest
pub record Descriptor : Type 0 where
  pub title : Bytes
  pub size : ℤ
  pub digest : Bytes

unfoldable pub is_qcow2 : Descriptor → Bool
is_qcow2 l = has_suffix l.title (codes ".qcow2")

unfoldable pub first_titled : List Descriptor → Option Descriptor
first_titled [] = none
first_titled (l ∷ layers) = let rest = first_titled layers in if is_qcow2 l then some l else rest

-- `slices.MaxFunc` by size, on a list that starts with the best one so far: the first of the largest
unfoldable pub largest : Descriptor → List Descriptor → Descriptor
largest best [] = best
largest best (l ∷ layers) = largest (if ltb_ℤ best.size l.size then l else best) layers

titled_or_largest : Option Descriptor → Descriptor → List Descriptor → Descriptor
titled_or_largest (some l) first layers = l
titled_or_largest none first layers = largest first layers

-- `pickQcow2Layer`
unfoldable pub pick_qcow2_layer : List Descriptor → Result Descriptor
unfolding titled_or_largest
pick_qcow2_layer [] = err (fault "manifest has no layers")
pick_qcow2_layer (l ∷ layers) = ok (titled_or_largest (first_titled (l ∷ layers)) l layers)

-- `shortDigest`
unfoldable pub short_digest : Bytes → Bytes
short_digest id = if ltb 19 (length id) then take 19 id else id
