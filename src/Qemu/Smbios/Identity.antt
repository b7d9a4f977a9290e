-- ===== src/Qemu/Smbios/Identity.antt =====
-- `RandomSMBIOS` and `SMBIOS.MAC` (qemu/smbios.go): the shape of a machine's identity.
use cocoon_macos.Base.{
  ℕ, zero, suc, ◌%◌, ◌<◌, Bool, true, ◌&&◌, [], ◌∷◌, some, map, ◌==◌, length, ltb, any, All, ◌≡◌,
  refl, sym, ap, ◌∙◌, arith, Bool-cases, inl, inr,
}
use cocoon_macos.Text.{Bytes}
use cocoon_macos.Text.Hex.{encode, decode, decode-encode}
use cocoon_macos.Fault.{Result, ok, err, wrapped}
use cocoon_macos.Io.{Io, rewrap}
use cocoon_macos.Io.Ends.{after-eq-ok}
use cocoon_macos.Qemu.Smbios.{
  Smbios, serial_alphabet, get_or, serial_letter, local_unicast, rom_bytes, rand_string, rand_rom,
  random_smbios, mac_text, mac,
}

-- a byte of Apple's serial alphabet
abbrev pub is_serial_byte : ℕ → Bool
is_serial_byte c = any (λ d. c == d) serial_alphabet

abbrev pub AreBytes : Bytes → Type 0
AreBytes bs = All (λ b. b < 256) bs

get_or-any : (s : Bytes) (i : ℕ) → i < length s → any (λ d. get_or s i == d) s ≡ true
get_or-any [] i h = absurd (omega arith)
get_or-any (c ∷ s) zero h = ground arith
get_or-any (c ∷ s) (suc i) h = ground (arith, get_or-any s i (omega arith))

serial_letter-is_serial_byte : (c : ℕ) → is_serial_byte (serial_letter c) ≡ true
unfolding serial_letter
serial_letter-is_serial_byte c = get_or-any serial_alphabet (c % 35) (omega arith)

letters-All : (bs : Bytes) → All (λ c. is_serial_byte c ≡ true) (map serial_letter bs)
letters-All [] = tt
letters-All (b ∷ bs) = (serial_letter-is_serial_byte b, letters-All bs)

length-letters : (bs : Bytes) → length (map serial_letter bs) ≡ length bs
length-letters [] = refl
length-letters (b ∷ bs) = ap suc (length-letters bs)

-- the two low bits of a byte's first octet: locally administered, and unicast
abbrev is_local_unicast : ℕ → Bool
is_local_unicast b = (b % 4 == 2) && ltb b 256

all_local_unicast : ℕ → Bool
all_local_unicast zero = true
all_local_unicast (suc n) = is_local_unicast (local_unicast n) && all_local_unicast n

checked : all_local_unicast 256 ≡ true
unfolding all_local_unicast local_unicast
checked = refl

below-checked :
    (n b : ℕ) → b < n → all_local_unicast n ≡ true → is_local_unicast (local_unicast b) ≡ true
unfolding all_local_unicast
below-checked zero b l h = absurd (omega arith)
below-checked (suc n) b l h = elim (Bool-cases (b == n)) [
  | inl same ↦ let e : b ≡ n = ground arith in rw e (ground arith)
  | inr other ↦ below-checked n b (ground arith) (ground arith)
]

local_unicast-octet : (b : ℕ) → b < 256 → (local_unicast b % 4 ≡ 2) × (local_unicast b < 256)
local_unicast-octet b h =
    let c = below-checked 256 b h checked in (ground (arith, c), ground (arith, c))

-- A number of bytes of the serial alphabet.
unfoldable pub IsSerial : ℕ → Bytes → Type 0
IsSerial n s = (length s ≡ n) × All (λ c. is_serial_byte c ≡ true) s

-- Six bytes in hex digits, the first of which is that of a locally administered unicast address.
unfoldable pub IsRom : Bytes → Type 0
IsRom rom = (b : ℕ) × (bs : Bytes) × (decode rom ≡ some (b ∷ bs)) × (length bs ≡ 5) × (b % 4 ≡ 2)

rom_bytes-IsRom : (b : Bytes) → length b ≡ 6 → AreBytes b → IsRom (encode (rom_bytes b))
unfolding IsRom rom_bytes
rom_bytes-IsRom [] l h = absurd (omega arith)
rom_bytes-IsRom (b ∷ bs) l h =
    let (e, lt) = local_unicast-octet b h.0 in
    (local_unicast b, bs, decode-encode (local_unicast b ∷ bs) (lt, h.1), omega arith, e)

-- A machine's address has 17 characters if its ROM is six bytes.
mac_text-length : (bs : Bytes) → length bs ≡ 6 → length (mac_text (some bs)) ≡ 17
unfolding encode
mac_text-length (a ∷ b ∷ c ∷ d ∷ e ∷ f ∷ []) l = refl
mac_text-length [] l = absurd (omega arith)
mac_text-length (a ∷ []) l = absurd (omega arith)
mac_text-length (a ∷ b ∷ []) l = absurd (omega arith)
mac_text-length (a ∷ b ∷ c ∷ []) l = absurd (omega arith)
mac_text-length (a ∷ b ∷ c ∷ d ∷ []) l = absurd (omega arith)
mac_text-length (a ∷ b ∷ c ∷ d ∷ e ∷ []) l = absurd (omega arith)
mac_text-length (a ∷ b ∷ c ∷ d ∷ e ∷ f ∷ g ∷ bs) l = absurd (omega arith)

mac-length : (s : Smbios) → IsRom s.rom → length (mac s) ≡ 17
unfolding mac IsRom
mac-length s (b, bs, e, l, o) = rw e (mac_text-length (b ∷ bs) (ap suc l))

-- What `RandomSMBIOS` gives: a serial of 12 letters, a board serial of 17, a ROM, and an address.
unfoldable pub IsIdentity : Smbios → Type 0
IsIdentity s = IsSerial 12 s.serial × IsSerial 17 s.mlb × IsRom s.rom × (length (mac s) ≡ 17)

module _ {W : Type 0} (rand_bytes : ℕ → Io W Bytes) (new_uuid : Io W Bytes)
    (gives : (n : ℕ) (w : W) (b : Bytes)
      → (rand_bytes n w).0 ≡ ok b
      → (length b ≡ n) × AreBytes b) where
  wrapped-ok :
      (n : ℕ) (w : W) {b : Bytes}
      → (rewrap "read random bytes: %w" (rand_bytes n) w).0 ≡ ok b
      → (length b ≡ n) × AreBytes b
  wrapped-ok n w {b} h = go (rand_bytes n w).0 refl h
    where
      go :
          (r : Result Bytes)
          → (rand_bytes n w).0 ≡ r
          → wrapped "read random bytes: %w" r ≡ ok b
          → (length b ≡ n) × AreBytes b
      go (ok c) e q = gives n w b (e ∙ q)
      go (err x) e q = cc

  rand_string-IsSerial :
      (n : ℕ) (w : W) {s : Bytes} → (rand_string rand_bytes new_uuid n w).0 ≡ ok s → IsSerial n s
  unfolding rand_string IsSerial
  rand_string-IsSerial n w {s} h =
      let (b, e, q) = after-eq-ok (rewrap "read random bytes: %w" (rand_bytes n) w) _ h in
      let same : map serial_letter b ≡ s = cc in
      rw (← same) (length-letters b ∙ (wrapped-ok n w e).0, letters-All b)

  rand_rom-IsRom : (w : W) {s : Bytes} → (rand_rom rand_bytes new_uuid w).0 ≡ ok s → IsRom s
  unfolding rand_rom
  rand_rom-IsRom w {s} h =
      let (b, e, q) = after-eq-ok (rewrap "read random bytes: %w" (rand_bytes 6) w) _ h in
      let same : encode (rom_bytes b) ≡ s = cc in
      rw (← same) (rom_bytes-IsRom b (wrapped-ok 6 w e).0 (wrapped-ok 6 w e).1)

  -- Where the random source gives as many bytes as it is asked for: an identity that `RandomSMBIOS`
  -- returns has a serial of 12 and a board serial of 17 letters of Apple's alphabet, a ROM of six bytes
  -- whose first makes a locally administered unicast address, and a MAC of 17 characters.
  pub random_smbios-IsIdentity :
      (w : W) {s : Smbios} → (random_smbios rand_bytes new_uuid w).0 ≡ ok s → IsIdentity s
  unfolding random_smbios IsIdentity
  random_smbios-IsIdentity w {s} h =
      let (serial, e1, h1) = after-eq-ok (rand_string rand_bytes new_uuid 12 w) _ h in
      let (mlb, e2, h2) = after-eq-ok (rand_string rand_bytes new_uuid 17 _) _ h1 in
      let (rom, e3, h3) = after-eq-ok (rand_rom rand_bytes new_uuid _) _ h2 in
      let (uuid, e4, h4) = after-eq-ok (new_uuid _) _ h3 in
      let serial_is : s.serial ≡ serial =
        sym (ap (λ r. elim r [ ok x ↦ Smbios.serial x | err e ↦ [] ]) h4) in
      let mlb_is : s.mlb ≡ mlb = sym (ap (λ r. elim r [ ok x ↦ Smbios.mlb x | err e ↦ [] ]) h4) in
      let rom_is : s.rom ≡ rom = sym (ap (λ r. elim r [ ok x ↦ Smbios.rom x | err e ↦ [] ]) h4) in
      let is_rom : IsRom s.rom = rw rom_is (rand_rom-IsRom _ e3) in
      (
        rw serial_is (rand_string-IsSerial 12 w e1),
        rw mlb_is (rand_string-IsSerial 17 _ e2),
        is_rom,
        mac-length s is_rom,
      )
