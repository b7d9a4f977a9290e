-- ===== src/Qemu/Smbios.antt =====
-- qemu/smbios.go: the Apple identity of a machine. The random bytes and the UUID come from outside.
pub mod Identity
use Prim.Native.Nat.{bit_and, bit_or}
use cocoon_macos.Base.{
  ℕ, suc, ◌-◌, ◌%◌, [], ◌∷◌, ◌++◌, Option, some, map, if◌then◌else◌, length, leb, ◌&&◌,
}
use cocoon_macos.Text.{Bytes, codes}
use cocoon_macos.Text.Hex.{encode, decode}
use cocoon_macos.Io.{Io, pure, rewrap, ◌>>=◌}

-- `SMBIOS`
pub record Smbios : Type 0 where
  pub model : Bytes
  pub serial : Bytes
  pub mlb : Bytes
  pub uuid : Bytes
  pub rom : Bytes

abbrev pub smbios_model : Bytes
smbios_model = codes "iMac19,1"

abbrev pub serial_alphabet : Bytes
serial_alphabet = codes "ABCDEFGHIJKLMNPQRSTUVWXYZ0123456789"

abbrev get_or : Bytes → ℕ → ℕ
get_or [] i = 0
get_or (c ∷ s) ℕ.zero = c
get_or (c ∷ s) (suc i) = get_or s i

-- the letter that a random byte stands for
unfoldable pub serial_letter : ℕ → ℕ
serial_letter c = get_or serial_alphabet (c % length serial_alphabet)

-- the first byte of a locally administered unicast address
unfoldable pub local_unicast : ℕ → ℕ
local_unicast b = bit_or (bit_and b 0xfe) 0x02

unfoldable pub rom_bytes : Bytes → Bytes
rom_bytes [] = []
rom_bytes (b ∷ bs) = local_unicast b ∷ bs

to_upper : ℕ → ℕ
to_upper c = if leb b'a' c && leb c b'z' then c - 32 else c

module _ {W : Type 0} (rand_bytes : ℕ → Io W Bytes) (new_uuid : Io W Bytes) where
  unfoldable pub rand_string : ℕ → Io W Bytes
  rand_string n = do b ← rewrap "read random bytes: %w" (rand_bytes n); pure (map serial_letter b)

  unfoldable pub rand_rom : Io W Bytes
  rand_rom = do b ← rewrap "read random bytes: %w" (rand_bytes 6); pure (encode (rom_bytes b))

  -- `RandomSMBIOS`
  unfoldable pub random_smbios : Io W Smbios
  unfolding rand_string rand_rom to_upper
  random_smbios = do
    serial ← rand_string 12
    mlb ← rand_string 17
    rom ← rand_rom
    uuid ← new_uuid
    pure (record {
      model = smbios_model;
      serial = serial;
      mlb = mlb;
      uuid = map to_upper uuid;
      rom = rom;
    })

abbrev mac_text : Option Bytes → Bytes
mac_text (some (a ∷ b ∷ c ∷ d ∷ e ∷ f ∷ [])) =
    encode (a ∷ [])
    ++ (b':'
        ∷ (encode (b ∷ [])
            ++ (b':'
                ∷ (encode (c ∷ [])
                    ++ (b':'
                        ∷ (encode (d ∷ [])
                            ++ (b':' ∷ (encode (e ∷ []) ++ (b':' ∷ encode (f ∷ []))))))))))
mac_text _ = []

-- `SMBIOS.MAC`
unfoldable pub mac : Smbios → Bytes
mac s = mac_text (decode s.rom)
