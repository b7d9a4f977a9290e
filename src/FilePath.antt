-- ===== src/FilePath.antt =====
-- What the program uses of `path/filepath`.
pub mod Laws
pub mod Joins
use cocoon_macos.Base.{
  ℕ, suc, Bool, true, false, not, ◌||◌, List, [], ◌∷◌, ◌++◌, ◌≡◌, refl, ◌∙◌, ap, arith, ◌==◌, any,
  if◌then◌else◌, Bool-cases, inl, inr,
}
use mathlib.Core.List.{reverse, reverse-reverse, reverse-append}
use cocoon_macos.Text.{Bytes, codes, is_set, text_eq, split}

abbrev or_slash : Bytes → Bytes
or_slash [] = codes "/"
or_slash (c ∷ s) = c ∷ s

abbrev or_dot : Bytes → Bytes
or_dot [] = codes "."
or_dot (c ∷ s) = c ∷ s

unfoldable pub is_rooted : Bytes → Bool
is_rooted [] = false
is_rooted (c ∷ s) = c == b'/'

-- ".." on the components so far, the last one first: it takes the last one away, and stays in front
-- of a relative path
go_up : Bool → List Bytes → List Bytes
go_up rooted [] = if rooted then [] else codes ".." ∷ []
go_up rooted (part ∷ parts) = if text_eq part (codes "..") then codes ".." ∷ part ∷ parts else parts

-- the components so far and the next one
push_part : Bool → Bytes → List Bytes → List Bytes
unfolding go_up
push_part rooted part parts =
    if text_eq part [] || text_eq part (codes ".")
    then parts
    else if text_eq part (codes "..")
    then go_up rooted parts
    else part ∷ parts

-- the components of a path, after the ones before it
push_parts : Bool → List Bytes → List Bytes → List Bytes
unfolding push_part
push_parts rooted [] parts = parts
push_parts rooted (part ∷ more) parts = push_parts rooted more (push_part rooted part parts)

rooted_path : List Bytes → Bytes
rooted_path [] = []
rooted_path (part ∷ parts) = rooted_path parts ++ (b'/' ∷ part)

relative_path : List Bytes → Bytes
relative_path [] = []
relative_path (part ∷ []) = part
relative_path (part ∷ before ∷ parts) = relative_path (before ∷ parts) ++ (b'/' ∷ part)

clean_parts : Bool → List Bytes → Bytes
unfolding rooted_path relative_path
clean_parts true parts = or_slash (rooted_path parts)
clean_parts false parts = or_dot (relative_path parts)

-- `filepath.Clean`
unfoldable pub clean : Bytes → Bytes
unfolding is_rooted push_parts clean_parts split
clean path = clean_parts (is_rooted path) (push_parts (is_rooted path) (split b'/' path) [])

-- `filepath.Join` of two elements: the ones that are not empty, joined and cleaned
unfoldable pub join_path : Bytes → Bytes → Bytes
unfolding clean
join_path [] [] = []
join_path [] (c ∷ name) = clean (c ∷ name)
join_path (c ∷ dir) [] = clean (c ∷ dir)
join_path (c ∷ dir) (d ∷ name) = clean ((c ∷ dir) ++ (b'/' ∷ d ∷ name))

-- a reversed path with no slashes in front
drop_slashes : Bytes → Bytes
drop_slashes [] = []
drop_slashes (c ∷ s) = if c == b'/' then drop_slashes s else c ∷ s

up_to_slash : Bytes → Bytes
up_to_slash [] = []
up_to_slash (c ∷ s) = if c == b'/' then [] else c ∷ up_to_slash s

past_slash : Bytes → Bytes
past_slash [] = []
past_slash (c ∷ s) = if c == b'/' then s else past_slash s

-- `filepath.Base`: trailing slashes go, then all up to the last slash
unfoldable pub base : Bytes → Bytes
unfolding drop_slashes up_to_slash
base [] = codes "."
base (c ∷ s) = or_slash (reverse (up_to_slash (drop_slashes (reverse (c ∷ s)))))

-- `filepath.Dir` of an absolute clean path
unfoldable pub parent : Bytes → Bytes
unfolding past_slash
parent path = or_slash (reverse (past_slash (reverse path)))

abbrev pub has_slash : Bytes → Bool
has_slash = any (λ c. c == b'/')
