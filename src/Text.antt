-- ===== src/Text.antt =====
-- Go's `string` as the list of its bytes, and what the program uses of the package `strings`.
pub mod Decimal
pub mod Space
pub mod Hex
pub mod Laws
use Prim.Native.Char.{code}
use Prim.Native.String.{String}
use cocoon_macos.Base.{
  ℕ, zero, suc, Bool, true, false, ◌&&◌, ◌||◌, List, [], ◌∷◌, ◌++◌, Option, none, some, ◌==◌, ltb,
  any, if◌then◌else◌,
}

abbrev pub Bytes : Type 0
Bytes = List ℕ

-- The bytes of a literal. Every literal of the model is ASCII.
abbrev pub codes : String → Bytes
codes String.[] = []
codes (String.◌∷◌ c s) = code c ∷ codes s

-- `a == b`
unfoldable pub text_eq : Bytes → Bytes → Bool
text_eq [] [] = true
text_eq (a ∷ s) (b ∷ t) = a == b && text_eq s t
text_eq _ _ = false

-- `a < b`, byte by byte
unfoldable pub text_lt : Bytes → Bytes → Bool
text_lt s [] = false
text_lt [] (b ∷ t) = true
text_lt (a ∷ s) (b ∷ t) = ltb a b || (a == b && text_lt s t)

-- `slices.Contains`, and the test of a set of names
unfoldable pub contains : List Bytes → Bytes → Bool
unfolding text_eq
contains names name = any (text_eq name) names

-- `strings.CutPrefix`
unfoldable pub cut_prefix : Bytes → Bytes → Option Bytes
cut_prefix s [] = some s
cut_prefix [] (p ∷ ps) = none
cut_prefix (c ∷ s) (p ∷ ps) = if c == p then cut_prefix s ps else none

abbrev some? : Option Bytes → Bool
some? none = false
some? (some r) = true

abbrev or_else : Option Bytes → Bytes → Bytes
or_else none s = s
or_else (some r) s = r

-- `strings.HasPrefix`
unfoldable pub has_prefix : Bytes → Bytes → Bool
unfolding cut_prefix
has_prefix s p = some? (cut_prefix s p)

-- `strings.TrimPrefix`
unfoldable pub trim_prefix : Bytes → Bytes → Bytes
unfolding cut_prefix
trim_prefix s p = or_else (cut_prefix s p) s

-- `strings.HasSuffix`
unfoldable pub has_suffix : Bytes → Bytes → Bool
unfolding text_eq
has_suffix [] suffix = text_eq [] suffix
has_suffix (c ∷ s) suffix = text_eq (c ∷ s) suffix || has_suffix s suffix

-- `strings.TrimSuffix`
unfoldable pub trim_suffix : Bytes → Bytes → Bytes
unfolding text_eq
trim_suffix [] suffix = []
trim_suffix (c ∷ s) suffix = if text_eq (c ∷ s) suffix then [] else c ∷ trim_suffix s suffix

-- `strings.Contains`
unfoldable pub has_substring : Bytes → Bytes → Bool
unfolding has_prefix
has_substring [] sub = has_prefix [] sub
has_substring (c ∷ s) sub = has_prefix (c ∷ s) sub || has_substring s sub

abbrev pub onto_first : ℕ → List Bytes → List Bytes
onto_first c [] = (c ∷ []) ∷ []
onto_first c (p ∷ ps) = (c ∷ p) ∷ ps

-- `strings.SplitSeq` at a separator of one byte
unfoldable pub split : ℕ → Bytes → List Bytes
split sep [] = [] ∷ []
split sep (c ∷ s) = if c == sep then [] ∷ split sep s else onto_first c (split sep s)

-- the first result of `strings.Cut` at a separator of one byte
unfoldable pub before : ℕ → Bytes → Bytes
before sep [] = []
before sep (c ∷ s) = if c == sep then [] else c ∷ before sep s

-- `cmp.Or` on texts
abbrev pub first_set : Bytes → Bytes → Bytes
first_set [] t = t
first_set (c ∷ s) t = c ∷ s

-- `s != ""`
abbrev pub is_set : Bytes → Bool
is_set [] = false
is_set (c ∷ s) = true

-- the last component: the bytes behind the last slash
unfoldable pub after_last : ℕ → Bytes → Bytes → Bytes
after_last sep last [] = last
after_last sep last (c ∷ s) = after_last sep (if c == sep then s else last) s
