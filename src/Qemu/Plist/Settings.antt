-- ===== src/Qemu/Plist/Settings.antt =====
-- `patchPlist` (qemu/inject.go) as a list of settings at paths.
use cocoon_macos.Base.{
  map, ◌++◌, Bool, true, false, ◌&&◌, List, [], ◌∷◌, some, ◌≡◌, refl, sym, ap, ◌∙◌, arith, All, all,
}
use cocoon_macos.Text.{Bytes, codes, text_eq}
use cocoon_macos.Qemu.Smbios.{Smbios}
use cocoon_macos.Qemu.Plist.{
  Plist, text, octets, boolean, number, Entries, within, patch_generic, patch_platform_info,
  patch_boot, patch_config,
}
use cocoon_macos.Qemu.Plist.Paths.{
  within-within, at, set_at, apart, at-set_at-same, at-set_at-apart,
}

-- A setting: the first key, the keys below it, and the value.
pub record Setting : Type 0 where
  pub key : Bytes
  pub below : List Bytes
  pub value : Plist

abbrev pub path : Setting → List Bytes
path s = s.key ∷ s.below

abbrev pub apply : List Setting → Entries → Entries
apply [] m = m
apply (s ∷ settings) m = apply settings (set_at (path s) s.value m)

-- a setting of a map itself, and one inside a sub-map
abbrev pub here : Bytes → Plist → Setting
here key value = record { key = key; below = []; value = value }

abbrev pub under : Bytes → Setting → Setting
under key s = record { key = key; below = path s; value = s.value }

abbrev generic_settings : Smbios → Bytes → List Setting
generic_settings sm rom =
    here (codes "SystemProductName") (text sm.model)
    ∷ here (codes "SystemSerialNumber") (text sm.serial)
    ∷ here (codes "MLB") (text sm.mlb)
    ∷ here (codes "SystemUUID") (text sm.uuid)
    ∷ here (codes "ROM") (octets rom)
    ∷ here (codes "SpoofVendor") (boolean true)
    ∷ []

abbrev platform_info_settings : Smbios → Bytes → List Setting
platform_info_settings sm rom =
    here (codes "Automatic") (boolean true)
    ∷ here (codes "UpdateSMBIOS") (boolean true)
    ∷ here (codes "UpdateNVRAM") (boolean true)
    ∷ map (under (codes "Generic")) (generic_settings sm rom)

abbrev boot_settings : List Setting
boot_settings =
    here (codes "ShowPicker") (boolean false)
    ∷ here (codes "HideAuxiliary") (boolean true)
    ∷ here (codes "Timeout") (number 5)
    ∷ []

abbrev quirks_settings : List Setting
quirks_settings = here (codes "RequestBootVarRouting") (boolean true) ∷ []

-- The settings of a machine with an identity: the identity itself, what lets OpenCore use it, and
-- what boots it with no one at the picker.
abbrev pub settings : Smbios → Bytes → List Setting
settings sm rom =
    map (under (codes "PlatformInfo")) (platform_info_settings sm rom)
    ++ (map (under (codes "Misc")) (map (under (codes "Boot")) boot_settings)
        ++ map (under (codes "UEFI")) (map (under (codes "Quirks")) quirks_settings))

apply-append : (s t : List Setting) (m : Entries) → apply (s ++ t) m ≡ apply t (apply s m)
apply-append [] t m = refl
apply-append (x ∷ s) t m = apply-append s t (set_at (path x) x.value m)

abbrev is_nonempty : List Setting → Bool
is_nonempty [] = false
is_nonempty (s ∷ settings) = true

-- settings inside one sub-map are one change of it
apply-under :
    (key : Bytes) (settings : List Setting) (m : Entries)
    → is_nonempty settings ≡ true
    → within key (apply settings) m ≡ apply (map (under key) settings) m
apply-under key [] m h = cc
apply-under key (s ∷ []) m h = refl
apply-under key (s ∷ t ∷ more) m h =
    sym (within-within key (set_at (path s) s.value) (apply (t ∷ more)) m)
    ∙ apply-under key (t ∷ more) (within key (set_at (path s) s.value) m) refl

within-change :
    (key : Bytes) (f g : Entries → Entries) (m : Entries)
    → ((e : Entries) → f e ≡ g e)
    → within key f m ≡ within key g m
within-change key f g m h = λ i. within key (λ e. h e i) m

patch_platform_info-settings :
    (sm : Smbios) (rom : Bytes) (pi : Entries)
    → patch_platform_info sm rom pi ≡ apply (platform_info_settings sm rom) pi
unfolding patch_platform_info patch_generic
patch_platform_info-settings sm rom pi =
    apply-under (codes "Generic") (generic_settings sm rom)
      (apply
        (here (codes "Automatic") (boolean true)
          ∷ here (codes "UpdateSMBIOS") (boolean true)
          ∷ here (codes "UpdateNVRAM") (boolean true)
          ∷ [])
        pi)
      refl

-- a sub-map of a sub-map
within-twice :
    (outer key : Bytes) (settings : List Setting) (m : Entries)
    → is_nonempty (map (under key) settings) ≡ true
    → is_nonempty settings ≡ true
    → within outer (within key (apply settings)) m
      ≡ apply (map (under outer) (map (under key) settings)) m
within-twice outer key settings m h g =
    within-change outer (within key (apply settings)) (apply (map (under key) settings)) m
      (λ e. apply-under key settings e g)
    ∙ apply-under outer (map (under key) settings) m h

-- `patchPlist` does what the settings say, one after the other.
pub patch_config-settings :
    (sm : Smbios) (rom : Bytes) (cfg : Entries)
    → patch_config sm rom cfg ≡ apply (settings sm rom) cfg
unfolding patch_config patch_boot
patch_config-settings sm rom cfg =
    within-twice (codes "UEFI") (codes "Quirks") quirks_settings _ refl refl
    ∙ ap (apply uefi) (within-twice (codes "Misc") (codes "Boot") boot_settings _ refl refl)
    ∙ ap (λ m. apply uefi (apply misc m))
        (within-change (codes "PlatformInfo") (patch_platform_info sm rom)
            (apply (platform_info_settings sm rom)) cfg (patch_platform_info-settings sm rom)
          ∙ apply-under (codes "PlatformInfo") (platform_info_settings sm rom) cfg refl)
    ∙ sym (apply-append info (misc ++ uefi) cfg ∙ apply-append misc uefi (apply info cfg))
  where
    info : List Setting
    info = map (under (codes "PlatformInfo")) (platform_info_settings sm rom)

    misc : List Setting
    misc = map (under (codes "Misc")) (map (under (codes "Boot")) boot_settings)

    uefi : List Setting
    uefi = map (under (codes "UEFI")) (map (under (codes "Quirks")) quirks_settings)

-- no two settings are at one path, or one inside the other
abbrev pub is_apart : List Bytes → List Setting → Bool
is_apart p settings = all (λ t. apart p (path t)) settings

abbrev are_apart : List Setting → Bool
are_apart [] = true
are_apart (s ∷ settings) = is_apart (path s) settings && are_apart settings

at-apply :
    (p : List Bytes) (settings : List Setting) (m : Entries)
    → is_apart p settings ≡ true
    → at p (apply settings m) ≡ at p m
at-apply p [] m h = refl
at-apply p (s ∷ settings) m h =
    at-apply p settings (set_at (path s) s.value m) (ground arith)
    ∙ at-set_at-apart p (path s) s.value m (ground arith)

apply-sets :
    (settings : List Setting) (m : Entries)
    → are_apart settings ≡ true
    → All (λ s. at (path s) (apply settings m) ≡ some s.value) settings
apply-sets [] m h = tt
apply-sets (s ∷ settings) m h = (
  at-apply (path s) settings (set_at (path s) s.value m) (ground arith)
      ∙ at-set_at-same s.key s.below s.value m,
  apply-sets settings (set_at (path s) s.value m) (ground arith),
)

-- In the property list that `patchPlist` writes, every setting is at its path, and the value at each
-- path that parts from the paths of all settings is that of the list it read.
pub patch_config-sets_only :
    (sm : Smbios) (rom : Bytes) (cfg : Entries) (p : List Bytes)
    → is_apart p (settings sm rom) ≡ true
    → All (λ s. at (path s) (patch_config sm rom cfg) ≡ some s.value) (settings sm rom)
      × (at p (patch_config sm rom cfg) ≡ at p cfg)
unfolding text_eq
patch_config-sets_only sm rom cfg p h =
    rw (patch_config-settings sm rom cfg)
      (apply-sets (settings sm rom) cfg refl, at-apply p (settings sm rom) cfg h)
