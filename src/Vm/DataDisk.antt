-- ===== src/Vm/DataDisk.antt =====
-- cmd/vm/datadisk.go: the specifications, the names and the paths of a guest's extra disks.
pub mod Names
pub mod Fresh
pub mod Accept
pub mod FilePaths
use cocoon_macos.Base.{
  ℕ, zero, suc, ◌+◌, Bool, true, false, List, [], ◌∷◌, ◌++◌, ltb, if◌then◌else◌, any, length, ℤ,
}
use cocoon_macos.Text.{Bytes, codes, contains, split, before, trim_prefix, trim_suffix, is_set}
use cocoon_macos.Text.Space.{trim_space}
use cocoon_macos.Text.Decimal.{decimal}
use cocoon_macos.Fault.{Result, ok, err, fault, wrapped, reject_if, ◌>>=◌, ◌>>◌}
use cocoon_macos.FilePath.{join_path, base}

-- cocoon's `types.DataDiskSpec`, as far as the program reads it
pub record DataDiskSpec : Type 0 where
  pub name : Bytes
  pub size : ℤ

abbrev pub max_data_disks : ℕ
max_data_disks = 4

abbrev agent_only_disk_keys : List Bytes
agent_only_disk_keys = codes "fstype" ∷ codes "mount" ∷ codes "directio" ∷ []

unfoldable pub agent_only : Bytes → Bool
agent_only part = contains agent_only_disk_keys (trim_space (before b'=' part))

-- `parseDataDiskSpec`, over cocoon's `types.ParseDataDiskSpec`
unfoldable pub parse_data_disk_spec : (Bytes → Result DataDiskSpec) → Bytes → Result DataDiskSpec
unfolding agent_only
parse_data_disk_spec parse s =
    if any agent_only (split b',' s)
    then err (fault "data disk: key %q unsupported on macOS")
    else wrapped "data disk: %w" (parse s)

-- the first loop of `parseDataDisks`
unfoldable pub parse_specs : (Bytes → Result DataDiskSpec) → List Bytes → Result (List DataDiskSpec)
parse_specs parse [] = ok []
parse_specs parse (s ∷ raw) = do
  spec ← parse_data_disk_spec parse s
  specs ← parse_specs parse raw
  ok (spec ∷ specs)

-- the second: the names that specifications ask for join the used ones
unfoldable pub claim_names : List Bytes → List DataDiskSpec → Result (List Bytes)
claim_names used [] = ok used
claim_names used (s ∷ specs) =
    let skip = claim_names used specs in
    let claim = claim_names (s.name ∷ used) specs in
    if is_set s.name
    then (if contains used s.name then err (fault "data disk: name %q duplicated") else claim)
    else skip

unfoldable pub candidate : ℕ → Bytes
candidate i = codes "data" ++ decimal i

-- The inner loop: the first index from `i` on whose name is free. It tries as many names as the
-- fuel says, and one name more than there are used ones is free.
unfoldable pub next_free : ℕ → List Bytes → ℕ → ℕ
next_free zero used i = i
next_free (suc fuel) used i =
    let rest = next_free fuel used (suc i) in if contains used (candidate i) then rest else i

-- the third loop
unfoldable pub auto_names : ℕ → List Bytes → List DataDiskSpec → List DataDiskSpec
auto_names i used [] = []
auto_names i used (s ∷ specs) =
    let k = next_free (length used) used i in
    let keep = s ∷ auto_names i used specs in
    let named = record s { name = candidate k } ∷ auto_names (suc k) (candidate k ∷ used) specs in
    if is_set s.name then keep else named

-- `parseDataDisks`
unfoldable pub parse_data_disks :
    (Bytes → Result DataDiskSpec) → List Bytes → List Bytes → Result (List DataDiskSpec)
parse_data_disks parse raw reserved = do
  specs ← parse_specs parse raw
  used ← claim_names reserved specs
  let named = auto_names 1 used specs
  reject_if (ltb max_data_disks (length reserved + length named))
      "data disk: %d disks exceeds the limit"
  ok named

unfoldable pub data_disk_path : Bytes → Bytes → Bytes
data_disk_path dir name = join_path dir (codes "data-" ++ (name ++ codes ".qcow2"))

unfoldable pub data_disk_name : Bytes → Bytes
data_disk_name path = trim_suffix (trim_prefix (base path) (codes "data-")) (codes ".qcow2")
