-- ===== src/Text/Hex.antt =====
-- `hex.EncodeToString` and `hex.DecodeString`.
use cocoon_macos.Base.{
  ℕ, ◌+◌, ◌-◌, ◌*◌, ◌/◌, ◌%◌, ◌<◌, ◌&&◌, [], ◌∷◌, Option, none, some, ◌≡◌, refl, ap, ◌∙◌, arith,
  ltb, leb, if◌then◌else◌, All, length,
}
use cocoon_macos.Text.{Bytes}

hex_digit : ℕ → ℕ
hex_digit n = if ltb n 10 then b'0' + n else b'a' + (n - 10)

from_hex : ℕ → Option ℕ
from_hex c =
    if leb b'0' c && leb c b'9'
    then some (c - b'0')
    else if leb b'a' c && leb c b'f'
    then some (c - b'a' + 10)
    else if leb b'A' c && leb c b'F'
    then some (c - b'A' + 10)
    else none

-- `hex.EncodeToString`, and `%02x` of one byte
unfoldable pub encode : Bytes → Bytes
unfolding hex_digit
encode [] = []
encode (b ∷ bs) = hex_digit (b / 16) ∷ hex_digit (b % 16) ∷ encode bs

abbrev joined : Option ℕ → Option ℕ → Option Bytes → Option Bytes
joined (some hi) (some lo) (some bs) = some ((hi * 16 + lo) ∷ bs)
joined _ _ _ = none

-- `hex.DecodeString`; `none` on an odd length or a byte that is no hex digit
unfoldable pub decode : Bytes → Option Bytes
unfolding from_hex
decode [] = some []
decode (a ∷ []) = none
decode (a ∷ b ∷ s) = joined (from_hex a) (from_hex b) (decode s)

from_hex-hex_digit : (n : ℕ) → n < 16 → from_hex (hex_digit n) ≡ some n
unfolding from_hex hex_digit
from_hex-hex_digit n h = ground arith

ap₃ :
    {A B C D : Type 0} (f : A → B → C → D) {a a' : A} {b b' : B} {c c' : C}
    → a ≡ a'
    → b ≡ b'
    → c ≡ c'
    → f a b c ≡ f a' b' c'
ap₃ f p q r = λ i. f (p i) (q i) (r i)

-- Bytes come back from their hex digits.
pub decode-encode : (bs : Bytes) → All (λ b. b < 256) bs → decode (encode bs) ≡ some bs
unfolding decode encode
decode-encode [] h = refl
decode-encode (b ∷ bs) h =
    ap₃ joined (from_hex-hex_digit (b / 16) (omega arith))
      (from_hex-hex_digit (b % 16) (omega arith)) (decode-encode bs h.1)
    ∙ ap (λ n. some (n ∷ bs)) (omega arith)

pub length-encode : (bs : Bytes) → length (encode bs) ≡ 2 * length bs
unfolding encode
length-encode [] = refl
length-encode (b ∷ bs) = omega (arith, length-encode bs)
