-- ===== src/Text/Laws.antt =====
-- Laws of the text functions, that the other modules use with the functions shut.
use cocoon_macos.Base.{
  ℕ, true, false, ◌||◌, List, [], ◌∷◌, ◌++◌, some, ◌≡◌, refl, ap, ◌↔◌, arith, any-append, any, ◌==◌,
  length, length-append,
}
use cocoon_macos.Text.{
  Bytes, text_eq, contains, cut_prefix, has_prefix, trim_prefix, has_suffix, trim_suffix, split,
}

pub text_eq_iff : (a b : Bytes) → (text_eq a b ≡ true) ↔ (a ≡ b)
unfolding text_eq
text_eq_iff (x ∷ a) (y ∷ b) = ground (arith, text_eq_iff a b)
text_eq_iff _ _ = ground arith

pub text_eq_refl : (a : Bytes) → text_eq a a ≡ true
text_eq_refl a = (text_eq_iff a a).1 refl

pub contains-cons :
    (n m : Bytes) (ns : List Bytes) → contains (n ∷ ns) m ≡ (text_eq m n || contains ns m)
unfolding contains
contains-cons n m ns = refl

pub contains-nil : (m : Bytes) → contains [] m ≡ false
unfolding contains
contains-nil m = refl

pub cut_prefix-append : (p s : Bytes) → cut_prefix (p ++ s) p ≡ some s
unfolding cut_prefix
cut_prefix-append [] s = refl
cut_prefix-append (c ∷ p) s = ground (arith, cut_prefix-append p s)

pub trim_prefix-append : (p s : Bytes) → trim_prefix (p ++ s) p ≡ s
unfolding trim_prefix
trim_prefix-append p s = rw (cut_prefix-append p s)

pub has_prefix-append : (p s : Bytes) → has_prefix (p ++ s) p ≡ true
unfolding has_prefix
has_prefix-append p s = rw (cut_prefix-append p s)

pub has_suffix-append : (s suffix : Bytes) → has_suffix (s ++ suffix) suffix ≡ true
unfolding has_suffix
has_suffix-append [] [] = refl
has_suffix-append [] (c ∷ suffix) = rw (text_eq_refl (c ∷ suffix))
has_suffix-append (x ∷ s) suffix = ground (arith, has_suffix-append s suffix)

append-ne_self : (x : ℕ) (s t : Bytes) → text_eq (x ∷ (s ++ t)) t ≡ true → ⊥
append-ne_self x s t h =
    omega (arith, ap length ((text_eq_iff (x ∷ (s ++ t)) t).0 h), length-append {0} s t)

pub trim_suffix-append :
    (s : Bytes) (c : ℕ) (suffix : Bytes) → trim_suffix (s ++ (c ∷ suffix)) (c ∷ suffix) ≡ s
unfolding trim_suffix
trim_suffix-append [] c suffix = rw (text_eq_refl (c ∷ suffix))
trim_suffix-append (x ∷ s) c suffix =
    ground (arith, append-ne_self x s (c ∷ suffix), trim_suffix-append s c suffix)

pub append-cancel : (p : Bytes) {s t : Bytes} → p ++ s ≡ p ++ t → s ≡ t
append-cancel [] e = e
append-cancel (c ∷ p) e = append-cancel p (ground arith)

pub contains-append :
    (m : Bytes) (ns ms : List Bytes) → contains (ns ++ ms) m ≡ (contains ns m || contains ms m)
unfolding contains
contains-append m ns ms = any-append (text_eq m) ns ms

pub split-plain : (sep : ℕ) (s : Bytes) → any (λ c. c == sep) s ≡ false → split sep s ≡ s ∷ []
unfolding split
split-plain sep [] h = refl
split-plain sep (c ∷ s) h = ground (arith, split-plain sep s)
