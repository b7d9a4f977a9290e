-- ===== src/Qemu/Plist/Paths.antt =====
-- Reading and writing a property list at a path of keys: the specification of the patch.
use cocoon_macos.Base.{
  Bool, true, false, List, [], ◌∷◌, Option, none, some, ◌≡◌, refl, ap, subst, ◌∙◌, arith,
  Bool-cases, inl, inr, if◌then◌else◌,
}
use cocoon_macos.Text.{Bytes, text_eq}
use cocoon_macos.Text.Laws.{text_eq_iff, text_eq_refl}
use cocoon_macos.Qemu.Plist.{Plist, dict, Entries, end, entry, lookup, insert, sub_map, within}

pub lookup-insert_same : (k : Bytes) (v : Plist) (m : Entries) → lookup k (insert k v m) ≡ some v
unfolding lookup insert
lookup-insert_same k v end = rw (text_eq_refl k)
lookup-insert_same k v (entry j x m) = elim (Bool-cases (text_eq j k)) [
  | inl here ↦ rw (here, lookup) (rw here)
  | inr there ↦ rw (there, lookup) (rw there (lookup-insert_same k v m))
]

pub lookup-insert_ne :
    (j k : Bytes) (v : Plist) (m : Entries)
    → text_eq k j ≡ false
    → lookup j (insert k v m) ≡ lookup j m
unfolding lookup insert
lookup-insert_ne j k v end h = rw h
lookup-insert_ne j k v (entry i x m) h = elim (Bool-cases (text_eq i k)) [
  | inl here ↦
      let other : text_eq i j ≡ false = rw ((text_eq_iff i k).0 here) h in
      rw (here, lookup) (rw other refl)
  | inr there ↦ elim (Bool-cases (text_eq i j)) [
    | inl same ↦ rw (there, lookup) (rw same refl)
    | inr other ↦ rw (there, lookup) (rw other (lookup-insert_ne j k v m h))
  ]
]

pub insert-insert :
    (k : Bytes) (u v : Plist) (m : Entries) → insert k v (insert k u m) ≡ insert k v m
unfolding insert
insert-insert k u v end = rw (text_eq_refl k)
insert-insert k u v (entry j x m) = elim (Bool-cases (text_eq j k)) [
  | inl here ↦ rw (here, insert) (rw here refl)
  | inr there ↦ rw (there, insert) (rw there (ap (entry j x) (insert-insert k u v m)))
]

-- two changes of one sub-map
pub within-within :
    (k : Bytes) (f g : Entries → Entries) (m : Entries)
    → within k g (within k f m) ≡ within k (λ e. g (f e)) m
unfolding within sub_map
within-within k f g m =
    ap (λ o. insert k (dict (g (sub_map o))) (insert k (dict (f (sub_map (lookup k m)))) m))
      (lookup-insert_same k (dict (f (sub_map (lookup k m)))) m)
    ∙ insert-insert k (dict (f (sub_map (lookup k m)))) (dict (g (f (sub_map (lookup k m))))) m

-- the value at a path of keys
abbrev pub at : List Bytes → Entries → Option Plist
at [] m = none
at (k ∷ []) m = lookup k m
at (k ∷ j ∷ ks) m = at (j ∷ ks) (sub_map (lookup k m))

-- a value is set at a path
abbrev pub set_at : List Bytes → Plist → Entries → Entries
set_at [] v m = m
set_at (k ∷ []) v m = insert k v m
set_at (k ∷ j ∷ ks) v m = within k (set_at (j ∷ ks) v) m

-- two paths part at some key, so neither goes on from the other
abbrev pub apart : List Bytes → List Bytes → Bool
apart [] q = false
apart (a ∷ p) [] = false
apart (a ∷ p) (b ∷ q) = if text_eq a b then apart p q else true

sub_map-within :
    (k : Bytes) (f : Entries → Entries) (m : Entries)
    → sub_map (lookup k (within k f m)) ≡ f (sub_map (lookup k m))
unfolding within sub_map
sub_map-within k f m = ap sub_map (lookup-insert_same k (dict (f (sub_map (lookup k m)))) m)

lookup-set_at_ne :
    (a b : Bytes) (q : List Bytes) (v : Plist) (m : Entries)
    → text_eq b a ≡ false
    → lookup a (set_at (b ∷ q) v m) ≡ lookup a m
unfolding within
lookup-set_at_ne a b [] v m h = lookup-insert_ne a b v m h
lookup-set_at_ne a b (j ∷ q) v m h = lookup-insert_ne a b _ m h

at-lookup :
    (a : Bytes) (p : List Bytes) (m m' : Entries)
    → lookup a m ≡ lookup a m'
    → at (a ∷ p) m ≡ at (a ∷ p) m'
at-lookup a [] m m' h = h
at-lookup a (j ∷ p) m m' h = ap (λ o. at (j ∷ p) (sub_map o)) h

-- What was set at a path is read there.
pub at-set_at-same :
    (k : Bytes) (ks : List Bytes) (v : Plist) (m : Entries)
    → at (k ∷ ks) (set_at (k ∷ ks) v m) ≡ some v
at-set_at-same k [] v m = lookup-insert_same k v m
at-set_at-same k (j ∷ ks) v m =
    ap (at (j ∷ ks)) (sub_map-within k (set_at (j ∷ ks) v) m)
    ∙ at-set_at-same j ks v (sub_map (lookup k m))

text_eq_sym : (a b : Bytes) → text_eq a b ≡ false → text_eq b a ≡ false
text_eq_sym a b h = ground (arith, text_eq_iff a b, text_eq_iff b a)

at-set_at_below :
    (a : Bytes) (p q : List Bytes) (v : Plist) (m : Entries)
    → apart p q ≡ true
    → ((n : Entries) → at p (set_at q v n) ≡ at p n)
    → at (a ∷ p) (set_at (a ∷ q) v m) ≡ at (a ∷ p) m
at-set_at_below a [] q v m h next = cc
at-set_at_below a (i ∷ p) [] v m h next = cc
at-set_at_below a (i ∷ p) (j ∷ q) v m h next =
    ap (at (i ∷ p)) (sub_map-within a (set_at (j ∷ q) v) m) ∙ next (sub_map (lookup a m))

-- What is read at another path stays.
pub at-set_at-apart :
    (p q : List Bytes) (v : Plist) (m : Entries) → apart p q ≡ true → at p (set_at q v m) ≡ at p m
at-set_at-apart [] q v m h = cc
at-set_at-apart (a ∷ p) [] v m h = cc
at-set_at-apart (a ∷ p) (b ∷ q) v m h = elim (Bool-cases (text_eq a b)) [
  | inr other ↦ at-lookup a p _ m (lookup-set_at_ne a b q v m (text_eq_sym a b other))
  | inl same ↦
      let deeper : apart p q ≡ true = ground arith in
      subst (λ c. at (a ∷ p) (set_at (c ∷ q) v m) ≡ at (a ∷ p) m) ((text_eq_iff a b).0 same)
        (at-set_at_below a p q v m deeper (λ n. at-set_at-apart p q v n deeper))
]
