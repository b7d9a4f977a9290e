-- ===== src/Text/Space.antt =====
-- `unicode.IsSpace` and `unicode.IsControl` on the bytes of a UTF-8 text, and `strings.TrimSpace`.
-- The lead byte of a wide rune is no continuation byte, so a rune is found at its bytes.
use cocoon_macos.Base.{
  ℕ, zero, suc, ◌-◌, Bool, false, ◌&&◌, ◌||◌, [], ◌∷◌, ◌==◌, ltb, leb, if◌then◌else◌,
}
use mathlib.Core.List.{reverse}
use cocoon_macos.Text.{Bytes}

abbrev within : ℕ → ℕ → ℕ → Bool
within lo hi c = leb lo c && leb c hi

abbrev space1 : ℕ → Bool
space1 a = within 9 13 a || a == 32

-- U+0085, U+00A0
abbrev space2 : ℕ → ℕ → Bool
space2 a b = a == 0xC2 && (b == 0x85 || b == 0xA0)

-- U+1680, U+2000 to U+200A, U+2028, U+2029, U+202F, U+205F, U+3000
abbrev space3 : ℕ → ℕ → ℕ → Bool
space3 a b c =
    (a == 0xE1 && b == 0x9A && c == 0x80)
    || (a == 0xE2 && b == 0x80 && (within 0x80 0x8A c || c == 0xA8 || c == 0xA9 || c == 0xAF))
    || (a == 0xE2 && b == 0x81 && c == 0x9F)
    || (a == 0xE3 && b == 0x80 && c == 0x80)

abbrev control1 : ℕ → Bool
control1 a = ltb a 32 || a == 127

-- U+0080 to U+009F
abbrev control2 : ℕ → ℕ → Bool
control2 a b = a == 0xC2 && within 0x80 0x9F b

-- The bytes of the white-space rune that a text begins with; 0 if it begins with none.
unfoldable pub space_width : Bytes → ℕ
space_width [] = 0
space_width (a ∷ []) = if space1 a then 1 else 0
space_width (a ∷ b ∷ []) = if space1 a then 1 else if space2 a b then 2 else 0
space_width (a ∷ b ∷ c ∷ s) =
    if space1 a then 1 else if space2 a b then 2 else if space3 a b c then 3 else 0

-- the same at the end of a text, which is handed over reversed
space_width_back : Bytes → ℕ
space_width_back [] = 0
space_width_back (a ∷ []) = if space1 a then 1 else 0
space_width_back (b ∷ a ∷ []) = if space1 b then 1 else if space2 a b then 2 else 0
space_width_back (c ∷ b ∷ a ∷ s) =
    if space1 c then 1 else if space2 b c then 2 else if space3 a b c then 3 else 0

-- `skip` bytes of the last rune are still to drop
trim : (Bytes → ℕ) → ℕ → Bytes → Bytes
trim width skip [] = []
trim width (suc skip) (c ∷ s) = trim width skip s
trim width zero (c ∷ s) =
    let w = width (c ∷ s) in let rest = trim width (w - 1) s in if w == 0 then c ∷ s else rest

-- `strings.TrimSpace`
unfoldable pub trim_space : Bytes → Bytes
unfolding space_width space_width_back trim
trim_space s = reverse (trim space_width_back 0 (reverse (trim space_width 0 s)))

-- Does some rune of a text count as white space, as a control character or as a double quote?
unfoldable pub has_unsafe_rune : Bytes → Bool
has_unsafe_rune [] = false
has_unsafe_rune (a ∷ []) = space1 a || control1 a || a == b'"'
has_unsafe_rune (a ∷ b ∷ s) =
    ltb 0 (space_width (a ∷ b ∷ s))
    || control1 a
    || control2 a b
    || a == b'"'
    || has_unsafe_rune (b ∷ s)
