-- ===== src/Vm/Store/Ascending.antt =====
-- Lists of directories in order.
use cocoon_macos.Base.{
  Bool, true, false, ◌&&◌, List, [], ◌∷◌, ◌++◌, ◌≡◌, refl, ap, arith, all, all-append,
}
use cocoon_macos.Text.{Bytes, text_lt}
use cocoon_macos.Vm.Store.Processes.{is_empty}

abbrev pub ascending : List Bytes → Bool
ascending [] = true
ascending (x ∷ xs) = all (text_lt x) xs && ascending xs

pub ascending-append :
    (xs ys : List Bytes)
    → ascending (xs ++ ys) ≡ true
    → (ascending xs ≡ true) × (ascending ys ≡ true)
ascending-append [] ys h = (refl, h)
ascending-append (x ∷ xs) ys h =
    ground (arith, all-append (text_lt x) xs ys, ascending-append xs ys)

-- a part of an ascending list is below what stands behind it
pub ascending-middle :
    (xs : List Bytes) (x : Bytes) (ys : List Bytes) (y : Bytes) (zs : List Bytes)
    → ascending ((xs ++ (x ∷ ys)) ++ (y ∷ zs)) ≡ true
    → text_lt x y ≡ true
ascending-middle [] x ys y zs h = ground (arith, all-append (text_lt x) ys (y ∷ zs))
ascending-middle (w ∷ xs) x ys y zs h = ascending-middle xs x ys y zs (ground arith)

pub is_empty-eq : (xs : List Bytes) → is_empty xs ≡ true → xs ≡ []
is_empty-eq [] h = refl
is_empty-eq (x ∷ xs) h = cc

pub snoc-split :
    (xs : List Bytes) → is_empty xs ≡ false → (ys : List Bytes) × (y : Bytes) × (xs ≡ ys ++ y ∷ [])
snoc-split [] h = cc
snoc-split (x ∷ []) h = ([], x, refl)
snoc-split (x ∷ y ∷ xs) h =
    let (ys, z, e) = snoc-split (y ∷ xs) refl in (x ∷ ys, z, ap (λ l. x ∷ l) e)
