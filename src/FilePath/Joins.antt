-- ===== src/FilePath/Joins.antt =====
-- `filepath.Join` of a directory and a name.
use cocoon_macos.Base.{
  ℕ, Bool, true, false, List, [], ◌∷◌, ◌++◌, ◌≡◌, refl, ◌∙◌, ap, arith, ◌==◌, Bool-cases, inl, inr,
  ◌≢◌,
}
use cocoon_macos.Text.{Bytes, codes, text_eq, has_prefix, split, onto_first}
use cocoon_macos.Text.Laws.{split-plain}
use cocoon_macos.FilePath.{
  join_path, base, parent, has_slash, or_dot, clean, is_rooted, push_part, push_parts, rooted_path,
  relative_path, clean_parts,
}
use cocoon_macos.FilePath.Laws.{
  base-plain, base-append, parent-append, or_slash-ne_nil, or_dot-ne_nil, append-ne_nil,
  cons-ne_nil,
}

onto_first-append :
    (c : ℕ) (parts more : List Bytes)
    → parts ≢ []
    → onto_first c (parts ++ more) ≡ onto_first c parts ++ more
onto_first-append c [] more n = absurd (n refl)
onto_first-append c (part ∷ parts) more n = refl

onto_first-ne_nil : (c : ℕ) (parts : List Bytes) → onto_first c parts ≢ []
onto_first-ne_nil c [] e = cc
onto_first-ne_nil c (part ∷ parts) e = cc

split-ne_nil : (s : Bytes) → split b'/' s ≢ []
unfolding split
split-ne_nil [] e = cc
split-ne_nil (c ∷ s) e = elim (Bool-cases (c == b'/')) [
  | inl h ↦ ground arith
  | inr h ↦ onto_first-ne_nil c (split b'/' s) (ground arith)
]

split-append : (dir f : Bytes) → split b'/' (dir ++ (b'/' ∷ f)) ≡ split b'/' dir ++ split b'/' f
unfolding split
split-append [] f = refl
split-append (c ∷ dir) f =
    rw (split-append dir f, onto_first-append c (split b'/' dir) (split b'/' f) (split-ne_nil dir))
      (elim (Bool-cases (c == b'/')) [ inl e ↦ rw e refl | inr e ↦ rw e refl ])

push_parts-append :
    (rooted : Bool) (a b parts : List Bytes)
    → push_parts rooted (a ++ b) parts ≡ push_parts rooted b (push_parts rooted a parts)
unfolding push_parts
push_parts-append rooted [] b parts = refl
push_parts-append rooted (x ∷ a) b parts = push_parts-append rooted a b (push_part rooted x parts)

-- the components of a directory
abbrev parts_of : Bytes → List Bytes
parts_of dir = push_parts (is_rooted dir) (split b'/' dir) []

-- A name that is one component and does not move: it is not empty, ".", ".." or below a directory.
pub record IsComponent (f : Bytes) : Type 0 where
  pub plain : has_slash f ≡ false
  pub ne : f ≢ []
  pub not_dot : text_eq f (codes ".") ≡ false
  pub not_dots : text_eq f (codes "..") ≡ false

-- A name that does not begin with a dot is neither "." nor "..".
pub no_dot-not_dot : (s : Bytes) → has_prefix s (codes ".") ≡ false → text_eq s (codes ".") ≡ false
unfolding has_prefix text_eq
no_dot-not_dot [] h = refl
no_dot-not_dot (c ∷ s) h = ground arith

pub no_dot-not_dots :
    (s : Bytes) → has_prefix s (codes ".") ≡ false → text_eq s (codes "..") ≡ false
unfolding has_prefix text_eq
no_dot-not_dots [] h = refl
no_dot-not_dots (c ∷ s) h = ground arith

push_part-cons :
    (rooted : Bool) (f : Bytes) (parts : List Bytes)
    → IsComponent f
    → push_part rooted f parts ≡ f ∷ parts
unfolding push_part text_eq
push_part-cons rooted [] parts h = absurd (h.ne refl)
push_part-cons rooted (c ∷ f) parts h = rw (h.not_dot, h.not_dots) refl

clean-append :
    (dir f : Bytes)
    → dir ≢ []
    → clean (dir ++ (b'/' ∷ f))
      ≡ clean_parts (is_rooted dir) (push_parts (is_rooted dir) (split b'/' f) (parts_of dir))
unfolding clean is_rooted
clean-append [] f n = absurd (n refl)
clean-append (c ∷ dir) f n =
    let r = c == b'/' in
    ap (λ parts. clean_parts r (push_parts r parts [])) (split-append (c ∷ dir) f)
    ∙ ap (clean_parts r) (push_parts-append r (split b'/' (c ∷ dir)) (split b'/' f) [])

push_parts-cons :
    (rooted : Bool) (f : Bytes) (parts : List Bytes)
    → IsComponent f
    → push_parts rooted (split b'/' f) parts ≡ f ∷ parts
unfolding push_parts
push_parts-cons rooted f parts h = rw (split-plain b'/' f h.plain) (push_part-cons rooted f parts h)

is_rooted-plain : (f : Bytes) → has_slash f ≡ false → is_rooted f ≡ false
unfolding is_rooted
is_rooted-plain [] h = refl
is_rooted-plain (c ∷ f) h = ground arith

clean-plain : (f : Bytes) → IsComponent f → clean f ≡ f
unfolding clean push_parts clean_parts relative_path
clean-plain f h =
    rw (is_rooted-plain f h.plain, split-plain b'/' f h.plain, push_part-cons false f [] h)
      (or_dot-ne_nil f h.ne)

-- A component is joined to the components of the directory.
join_path-parts :
    (dir f : Bytes)
    → IsComponent f
    → join_path dir f ≡ clean_parts (is_rooted dir) (f ∷ parts_of dir)
unfolding join_path
join_path-parts dir [] h = absurd (h.ne refl)
join_path-parts [] (d ∷ f) h =
    clean-plain (d ∷ f) h
    ∙ (unfold is_rooted push_parts split push_part text_eq clean_parts relative_path in refl)
join_path-parts (c ∷ dir) (d ∷ f) h =
    clean-append (c ∷ dir) (d ∷ f) (cons-ne_nil c dir)
    ∙ ap (clean_parts (is_rooted (c ∷ dir)))
        (push_parts-cons (is_rooted (c ∷ dir)) (d ∷ f) (parts_of (c ∷ dir)) h)

base-relative_path :
    (f : Bytes) (parts : List Bytes) → IsComponent f → base (or_dot (relative_path (f ∷ parts))) ≡ f
unfolding relative_path
base-relative_path f [] h = rw (or_dot-ne_nil f h.ne) (base-plain f h.plain h.ne)
base-relative_path f (part ∷ parts) h =
    let dir = relative_path (part ∷ parts) in
    ap base (or_dot-ne_nil (dir ++ (b'/' ∷ f)) (append-ne_nil dir b'/' f))
    ∙ base-append f h.plain h.ne dir

base-clean_parts :
    (rooted : Bool) (f : Bytes) (parts : List Bytes)
    → IsComponent f
    → base (clean_parts rooted (f ∷ parts)) ≡ f
unfolding clean_parts rooted_path
base-clean_parts true f parts h =
    ap base
      (or_slash-ne_nil (rooted_path parts ++ (b'/' ∷ f)) (append-ne_nil (rooted_path parts) b'/' f))
    ∙ base-append f h.plain h.ne (rooted_path parts)
base-clean_parts false f parts h = base-relative_path f parts h

-- The base of a joined path is the component that was joined.
pub base-join_path : (dir f : Bytes) → IsComponent f → base (join_path dir f) ≡ f
base-join_path dir f h =
    rw (join_path-parts dir f h) (base-clean_parts (is_rooted dir) f (parts_of dir) h)

parent-clean_parts :
    (rooted : Bool) (f : Bytes) (parts : List Bytes)
    → IsComponent f
    → rooted ≡ true
    → parent (clean_parts rooted (f ∷ parts)) ≡ clean_parts rooted parts
unfolding clean_parts rooted_path
parent-clean_parts true f parts h r =
    ap parent
      (or_slash-ne_nil (rooted_path parts ++ (b'/' ∷ f)) (append-ne_nil (rooted_path parts) b'/' f))
    ∙ parent-append f h.plain h.ne (rooted_path parts)
parent-clean_parts false f parts h r = absurd (ground arith)

-- The parent of a path that was joined to an absolute directory is the clean path of the directory.
pub parent-join_path :
    (dir f : Bytes) → IsComponent f → is_rooted dir ≡ true → parent (join_path dir f) ≡ clean dir
unfolding clean
parent-join_path dir f h r =
    rw (join_path-parts dir f h) (parent-clean_parts (is_rooted dir) f (parts_of dir) h r)

-- The root that is joined to an absolute directory gives the clean path of the directory.
pub join_path-root : (dir : Bytes) → is_rooted dir ≡ true → join_path dir (codes "/") ≡ clean dir
unfolding join_path is_rooted
join_path-root [] r = absurd (ground arith)
join_path-root (c ∷ dir) r =
    clean-append (c ∷ dir) (codes "/") (cons-ne_nil c dir)
    ∙ (unfold clean split push_parts push_part text_eq in refl)
