-- ===== src/Home.antt =====
-- home/home.go and cmd/root.go: the state root of a command, and its flags that name paths.
pub mod Fixed
pub mod Tests
use cocoon_macos.Base.{Bool, true, false, List, [], ◌∷◌, Option, none, some, if◌then◌else◌}
use cocoon_macos.Text.{Bytes, codes, text_eq, is_set, first_set}
use cocoon_macos.Fault.{Result, ok, err, fault, wrapped, ◌>>=◌}
use cocoon_macos.FilePath.{join_path}

-- the text flags of a command: a command has some of them, each with a value
abbrev pub TextFlags : Type 0
TextFlags = List (Bytes × Bytes)

unfoldable pub flag : Bytes → TextFlags → Option Bytes
flag name [] = none
flag name ((n, v) ∷ flags) = let rest = flag name flags in if text_eq n name then some v else rest

-- `value, _ := cmd.Flags().GetString(name)`
unfoldable pub flag_text : Option Bytes → Bytes
flag_text none = []
flag_text (some v) = v

-- `cmd.Flags().Set` on a flag that the command has
unfoldable pub set_flag : Bytes → Bytes → TextFlags → TextFlags
set_flag name value [] = []
set_flag name value ((n, v) ∷ flags) =
    let rest = set_flag name value flags in
    if text_eq n name then (n, value) ∷ flags else (n, v) ∷ rest

abbrev pub state_dir_flag : Bytes
state_dir_flag = codes "state-dir"

abbrev pub default_dir : Bytes
default_dir = codes "/var/lib/cocoon-macos"

-- `home.Dir`, of $COCOON_MACOS_HOME
unfoldable pub dir : Bytes → TextFlags → Bytes
dir env flags = first_set (flag_text (flag state_dir_flag flags)) (first_set env default_dir)

-- `home.FirmwareDir` and `home.VMsDir`
unfoldable pub firmware_dir : Bytes → TextFlags → Bytes
firmware_dir env flags = join_path (dir env flags) (codes "firmware")

unfoldable pub vms_dir : Bytes → TextFlags → Bytes
vms_dir env flags = join_path (dir env flags) (codes "vms")

-- `filepath.Abs`
module _ (absolute : Bytes → Result Bytes) where
  -- the flag is set, and a command that does not have it fails
  unfoldable pub set_path : Bytes → Bytes → Option Bytes → TextFlags → Result TextFlags
  set_path name path none flags = err (fault "flag accessed but not defined: %s")
  set_path name path (some v) flags = ok (set_flag name path flags)

  unfoldable pub resolve_path : Bytes → Bytes → TextFlags → Result TextFlags
  resolve_path name path flags = do
    resolved ← wrapped "resolve --%s: %w" (absolute path)
    set_path name resolved (flag name flags) flags

  -- a path that is not the state root stays unset
  unfoldable pub resolve_if_set : Bytes → TextFlags → Result TextFlags
  resolve_if_set name flags =
      if is_set (flag_text (flag name flags))
      then resolve_path name (flag_text (flag name flags)) flags
      else ok flags

  -- `resolvePaths`
  unfoldable pub resolve_paths : Bytes → TextFlags → Result TextFlags
  resolve_paths env flags = do
    with_dir ← resolve_path state_dir_flag (dir env flags) flags
    with_conf ← resolve_if_set (codes "cni-conf-dir") with_dir
    resolve_if_set (codes "cni-bin-dir") with_conf
