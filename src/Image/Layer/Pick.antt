-- ===== src/Image/Layer/Pick.antt =====
-- `pickQcow2Layer` (cmd/image/oci.go): which layer it picks.
use cocoon_macos.Base.{
  ℕ, suc, true, false, List, [], ◌∷◌, Option, none, some, ◌≡◌, refl, ◌⊎◌, inl, inr, arith,
  Bool-cases, if◌then◌else◌, ltb_ℤ, any, All, get_elem?,
}
use cocoon_macos.Fault.{ok}
use cocoon_macos.Image.Layer.{
  Descriptor, is_qcow2, first_titled, largest, pick_qcow2_layer, titled_or_largest,
}

-- no layer is larger
abbrev pub IsLargest : Descriptor → List Descriptor → Type 0
IsLargest l layers = All (λ k. ltb_ℤ l.size k.size ≡ false) layers

-- an element of the list
abbrev pub IsAmong : Descriptor → List Descriptor → Type 0
IsAmong l layers = (i : ℕ) × (get_elem? layers i ≡ some l)

-- A layer with the title of a qcow2 image, or a largest one if no layer has such a title.
unfoldable pub IsPicked : Descriptor → List Descriptor → Type 0
IsPicked l layers =
    IsAmong l layers × ((is_qcow2 l ≡ true) ⊎ ((any is_qcow2 layers ≡ false) × IsLargest l layers))

ltb_ℤ_trans :
    (a b c : Descriptor)
    → ltb_ℤ a.size b.size ≡ false
    → ltb_ℤ b.size c.size ≡ false
    → ltb_ℤ a.size c.size ≡ false
ltb_ℤ_trans a b c h g = ground arith

ltb_ℤ_asym : (a b : Descriptor) → ltb_ℤ a.size b.size ≡ true → ltb_ℤ b.size a.size ≡ false
ltb_ℤ_asym a b h = ground arith

ltb_ℤ_irrefl : (a : Descriptor) → ltb_ℤ a.size a.size ≡ false
ltb_ℤ_irrefl a = ground arith

abbrev larger : Descriptor → Descriptor → Descriptor
larger best l = if ltb_ℤ best.size l.size then l else best

larger-ge :
    (best l : Descriptor)
    → (ltb_ℤ (larger best l).size best.size ≡ false) × (ltb_ℤ (larger best l).size l.size ≡ false)
larger-ge best l = elim (Bool-cases (ltb_ℤ best.size l.size)) [
  | inl less ↦ rw less (ltb_ℤ_asym best l less, ltb_ℤ_irrefl l)
  | inr more ↦ rw more (ltb_ℤ_irrefl best, more)
]

largest-ge :
    (best : Descriptor) (layers : List Descriptor)
    → (ltb_ℤ (largest best layers).size best.size ≡ false) × IsLargest (largest best layers) layers
unfolding largest
largest-ge best [] = (ltb_ℤ_irrefl best, tt)
largest-ge best (l ∷ layers) =
    let m = larger best l in
    let (a, b) = largest-ge m layers in
    (
      ltb_ℤ_trans (largest m layers) m best a (larger-ge best l).0,
      (ltb_ℤ_trans (largest m layers) m l a (larger-ge best l).1, b),
    )

largest-IsAmong :
    (best : Descriptor) (layers : List Descriptor)
    → (largest best layers ≡ best) ⊎ IsAmong (largest best layers) layers
unfolding largest
largest-IsAmong best [] = inl refl
largest-IsAmong best (l ∷ layers) = elim (Bool-cases (ltb_ℤ best.size l.size)) [
  | inl less ↦
      rw less (elim (largest-IsAmong l layers) [
        | inl e ↦ inr (0, rw e refl)
        | inr (i, e) ↦ inr (suc i, e)
      ])
  | inr more ↦
      rw more (elim (largest-IsAmong best layers) [ inl e ↦ inl e | inr (i, e) ↦ inr (suc i, e) ])
]

first_titled-some :
    (layers : List Descriptor) (l : Descriptor)
    → first_titled layers ≡ some l
    → IsAmong l layers × (is_qcow2 l ≡ true)
unfolding first_titled
first_titled-some [] l h = cc
first_titled-some (k ∷ layers) l h = elim (Bool-cases (is_qcow2 k)) [
  | inl titled ↦ let e : some k ≡ some l = ground arith in ((0, e), ground arith)
  | inr other ↦ let ((i, e), t) = first_titled-some layers l (ground arith) in ((suc i, e), t)
]

first_titled-none :
    (layers : List Descriptor) → first_titled layers ≡ none → any is_qcow2 layers ≡ false
unfolding first_titled
first_titled-none [] h = refl
first_titled-none (k ∷ layers) h = ground (arith, first_titled-none layers)

titled_or_largest-IsPicked :
    (found : Option Descriptor) (l : Descriptor) (layers : List Descriptor)
    → first_titled (l ∷ layers) ≡ found
    → IsPicked (titled_or_largest found l layers) (l ∷ layers)
unfolding IsPicked titled_or_largest
titled_or_largest-IsPicked (some k) l layers h =
    let (among, t) = first_titled-some (l ∷ layers) k h in (among, inl t)
titled_or_largest-IsPicked none l layers h = (
  elim (largest-IsAmong l layers) [ inl e ↦ (0, rw e refl) | inr (i, e) ↦ (suc i, e) ],
  inr (first_titled-none (l ∷ layers) h, largest-ge l layers),
)

-- `pickQcow2Layer` of a manifest with a layer gives one of its layers, which has the title of a qcow2
-- image, or is a largest one where no layer has such a title.
pub pick_qcow2_layer-IsPicked :
    (l : Descriptor) (layers : List Descriptor)
    → (picked : Descriptor) × (pick_qcow2_layer (l ∷ layers) ≡ ok picked)
      × IsPicked picked (l ∷ layers)
unfolding pick_qcow2_layer
pick_qcow2_layer-IsPicked l layers = (
  titled_or_largest (first_titled (l ∷ layers)) l layers,
  refl,
  titled_or_largest-IsPicked (first_titled (l ∷ layers)) l layers refl,
)
