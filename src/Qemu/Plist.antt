-- ===== src/Qemu/Plist.antt =====
-- qemu/inject.go: the property list of OpenCore, and what `patchPlist` writes into it.
pub mod Paths
pub mod Settings
use cocoon_macos.Base.{ℕ, Bool, true, false, List, [], ◌∷◌, Option, none, some, if◌then◌else◌}
use cocoon_macos.Text.{Bytes, codes, text_eq}
use cocoon_macos.Qemu.Smbios.{Smbios}

-- What `plist.Unmarshal` makes of a document: a date or a real number is a value that nothing here
-- looks into.
mutual
  pub data Plist : Type 0 where
    text : Bytes → Plist
    octets : Bytes → Plist
    boolean : Bool → Plist
    number : ℕ → Plist
    opaque : Bytes → Plist
    array : Items → Plist
    dict : Entries → Plist

  pub data Items : Type 0 where
    no_item : Items
    item : Plist → Items → Items

  pub data Entries : Type 0 where
    end : Entries
    entry : Bytes → Plist → Entries → Entries

-- `m[key]`
unfoldable pub lookup : Bytes → Entries → Option Plist
lookup key end = none
lookup key (entry k v es) = let rest = lookup key es in if text_eq k key then some v else rest

-- `m[key] = value`
unfoldable pub insert : Bytes → Plist → Entries → Entries
insert key value end = entry key value end
insert key value (entry k v es) =
    let rest = insert key value es in if text_eq k key then entry k value es else entry k v rest

unfoldable pub sub_map : Option Plist → Entries
sub_map (some (dict es)) = es
sub_map _ = end

-- `ensureSubMap`, with what its caller does to the map that it returns: a missing key, or one whose
-- value is no map, gets an empty map.
unfoldable pub within : Bytes → (Entries → Entries) → Entries → Entries
within key change m = insert key (dict (change (sub_map (lookup key m)))) m

-- the assignments to the sub-map `Generic`
unfoldable pub patch_generic : Smbios → Bytes → Entries → Entries
patch_generic sm rom g =
    let g1 = insert (codes "SystemProductName") (text sm.model) g in
    let g2 = insert (codes "SystemSerialNumber") (text sm.serial) g1 in
    let g3 = insert (codes "MLB") (text sm.mlb) g2 in
    let g4 = insert (codes "SystemUUID") (text sm.uuid) g3 in
    let g5 = insert (codes "ROM") (octets rom) g4 in insert (codes "SpoofVendor") (boolean true) g5

unfoldable pub patch_platform_info : Smbios → Bytes → Entries → Entries
patch_platform_info sm rom pi =
    let pi1 = insert (codes "Automatic") (boolean true) pi in
    let pi2 = insert (codes "UpdateSMBIOS") (boolean true) pi1 in
    let pi3 = insert (codes "UpdateNVRAM") (boolean true) pi2 in
    within (codes "Generic") (patch_generic sm rom) pi3

unfoldable pub patch_boot : Entries → Entries
patch_boot boot =
    let boot1 = insert (codes "ShowPicker") (boolean false) boot in
    let boot2 = insert (codes "HideAuxiliary") (boolean true) boot1 in
    insert (codes "Timeout") (number 5) boot2

-- the changes of `patchPlist`, of an identity and its ROM
unfoldable pub patch_config : Smbios → Bytes → Entries → Entries
patch_config sm rom cfg =
    let cfg1 = within (codes "PlatformInfo") (patch_platform_info sm rom) cfg in
    let cfg2 = within (codes "Misc") (within (codes "Boot") patch_boot) cfg1 in
    within (codes "UEFI")
      (within (codes "Quirks") (insert (codes "RequestBootVarRouting") (boolean true))) cfg2
