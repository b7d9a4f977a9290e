-- ===== src/FilePath/Laws.antt =====
-- The last component of a path and the path before it.
use cocoon_macos.Base.{
  ℕ, false, [], ◌∷◌, ◌++◌, ◌≡◌, refl, ◌∙◌, sym, ap, arith, ◌==◌, any-append, inl, inr, append_assoc,
  append-nil, ◌≢◌, ◌⊎◌,
}
use mathlib.Core.List.{reverse, reverse-reverse, reverse-append}
use cocoon_macos.Text.{Bytes, codes}
use cocoon_macos.FilePath.{
  base, parent, past_slash, has_slash, drop_slashes, up_to_slash, or_slash, or_dot,
}

up_to_slash-append : (f rest : Bytes) → has_slash f ≡ false → up_to_slash (f ++ (b'/' ∷ rest)) ≡ f
unfolding up_to_slash
up_to_slash-append [] rest h = refl
up_to_slash-append (c ∷ f) rest h = ground (arith, up_to_slash-append f rest)

up_to_slash-plain : (f : Bytes) → has_slash f ≡ false → up_to_slash f ≡ f
unfolding up_to_slash
up_to_slash-plain [] h = refl
up_to_slash-plain (c ∷ f) h = ground (arith, up_to_slash-plain f)

drop_slashes-plain :
    (f rest : Bytes) → has_slash f ≡ false → f ≢ [] → drop_slashes (f ++ rest) ≡ f ++ rest
unfolding drop_slashes
drop_slashes-plain [] rest h n = absurd (n refl)
drop_slashes-plain (c ∷ f) rest h n = ground arith

has_slash-reverse : (f : Bytes) → has_slash (reverse f) ≡ has_slash f
has_slash-reverse [] = refl
has_slash-reverse (c ∷ f) =
    ap has_slash (reverse-append (c ∷ []) f)
    ∙ any-append (λ d. d == b'/') (reverse f) (c ∷ [])
    ∙ ground (arith, has_slash-reverse f)

base_lem :
    (s : Bytes) → s ≢ [] → base s ≡ or_slash (reverse (up_to_slash (drop_slashes (reverse s))))
unfolding base
base_lem [] n = absurd (n refl)
base_lem (c ∷ s) n = refl

pub or_slash-ne_nil : (s : Bytes) → s ≢ [] → or_slash s ≡ s
or_slash-ne_nil [] n = absurd (n refl)
or_slash-ne_nil (c ∷ s) n = refl

pub or_dot-ne_nil : (s : Bytes) → s ≢ [] → or_dot s ≡ s
or_dot-ne_nil [] n = absurd (n refl)
or_dot-ne_nil (c ∷ s) n = refl

pub append-ne_nil : (s : Bytes) (c : ℕ) (t : Bytes) → s ++ (c ∷ t) ≢ []
append-ne_nil [] c t e = cc
append-ne_nil (d ∷ s) c t e = cc

reverse-slash : (dir f : Bytes) → reverse (dir ++ (b'/' ∷ f)) ≡ reverse f ++ (b'/' ∷ reverse dir)
reverse-slash dir f =
    reverse-append dir (b'/' ∷ f)
    ∙ ap (λ r. r ++ reverse dir) (reverse-append (b'/' ∷ []) f)
    ∙ append_assoc (reverse f) (b'/' ∷ []) (reverse dir)

pub cons-ne_nil : (c : ℕ) (s : Bytes) → c ∷ s ≢ []
cons-ne_nil c s e = cc

list_head : (c : ℕ) (s : Bytes) (d : ℕ) (t : Bytes) → c ∷ s ≡ d ∷ t → c ≡ d
list_head c s d t e = ground arith

module _ (f : Bytes) (plain : has_slash f ≡ false) (ne : f ≢ []) where
  reverse-ne_nil : reverse f ≢ []
  reverse-ne_nil e = ne (sym (reverse-reverse f) ∙ ap reverse e)

  plain' : has_slash (reverse f) ≡ false
  plain' = has_slash-reverse f ∙ plain

  pub base-append : (dir : Bytes) → base (dir ++ (b'/' ∷ f)) ≡ f
  base-append dir =
      base_lem (dir ++ (b'/' ∷ f)) (append-ne_nil dir b'/' f)
      ∙ ap (λ r. or_slash (reverse (up_to_slash (drop_slashes r)))) (reverse-slash dir f)
      ∙ ap (λ r. or_slash (reverse (up_to_slash r)))
          (drop_slashes-plain (reverse f) (b'/' ∷ reverse dir) plain' reverse-ne_nil)
      ∙ ap (λ r. or_slash (reverse r)) (up_to_slash-append (reverse f) (reverse dir) plain')
      ∙ ap or_slash (reverse-reverse f)
      ∙ or_slash-ne_nil f ne

  pub base-plain : base f ≡ f
  base-plain =
      base_lem f ne
      ∙ ap (λ r. or_slash (reverse (up_to_slash (drop_slashes r)))) (sym (append-nil (reverse f)))
      ∙ ap (λ r. or_slash (reverse (up_to_slash r)))
          (drop_slashes-plain (reverse f) [] plain' reverse-ne_nil ∙ append-nil (reverse f))
      ∙ ap (λ r. or_slash (reverse r)) (up_to_slash-plain (reverse f) plain')
      ∙ ap or_slash (reverse-reverse f)
      ∙ or_slash-ne_nil f ne

  past_slash-append :
      (g rest : Bytes) → has_slash g ≡ false → past_slash (g ++ (b'/' ∷ rest)) ≡ rest
  unfolding past_slash
  past_slash-append [] rest h = refl
  past_slash-append (c ∷ g) rest h = ground (arith, past_slash-append g rest)

  pub parent-append : (dir : Bytes) → parent (dir ++ (b'/' ∷ f)) ≡ or_slash dir
  unfolding parent
  parent-append dir =
      ap (λ r. or_slash (reverse (past_slash r))) (reverse-slash dir f)
      ∙ ap (λ r. or_slash (reverse r)) (past_slash-append (reverse f) (reverse dir) plain')
      ∙ ap or_slash (reverse-reverse dir)

has_slash-up_to_slash : (s : Bytes) → has_slash (up_to_slash s) ≡ false
unfolding up_to_slash
has_slash-up_to_slash [] = refl
has_slash-up_to_slash (c ∷ s) = ground (arith, has_slash-up_to_slash s)

or_slash-reverse :
    (u name : Bytes)
    → has_slash u ≡ false
    → or_slash (reverse u) ≡ name
    → (has_slash name ≡ false) ⊎ (name ≡ codes "/")
or_slash-reverse [] name h e = inr (sym e)
or_slash-reverse (c ∷ u) name h e =
    let ne : reverse (c ∷ u) ≢ [] =
      λ n. absurd (cons-ne_nil c u (sym (reverse-reverse (c ∷ u)) ∙ ap reverse n)) in
    let e' = sym (or_slash-ne_nil (reverse (c ∷ u)) ne) ∙ e in
    inl (rw (← e') (has_slash-reverse (c ∷ u) ∙ h))

-- A name that is its own base is one component, or the root.
pub base_self :
    (name : Bytes) → name ≢ [] → base name ≡ name → (has_slash name ≡ false) ⊎ (name ≡ codes "/")
base_self name n e =
    or_slash-reverse (up_to_slash (drop_slashes (reverse name))) name
      (has_slash-up_to_slash (drop_slashes (reverse name))) (sym (base_lem name n) ∙ e)
