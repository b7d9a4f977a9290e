-- ===== src/Qemu/Nbd.antt =====
-- qemu/inject.go: which processes hold an nbd device, by their command lines.
pub mod Held
use cocoon_macos.Base.{
  ℕ, Bool, true, false, not, ◌&&◌, ◌||◌, List, [], ◌∷◌, ◌++◌, Option, none, some, any,
  if◌then◌else◌, ℤ,
}
use cocoon_macos.Text.{Bytes, codes, text_eq, cut_prefix, is_set, split}
use cocoon_macos.Text.Decimal.{atoi}

unfoldable pub is_number : Option ℤ → Bool
is_number none = false
is_number (some n) = true

is_partition : Option Bytes → Bool
is_partition none = false
is_partition (some partition) = is_set partition && is_number (atoi partition)

-- `nbdArgReferencesDevice`
unfoldable pub nbd_arg_references_device : Bytes → Bytes → Bool
unfolding is_partition is_number
nbd_arg_references_device arg device =
    (text_eq arg device || text_eq arg (codes "--connect=" ++ device))
    || is_partition (cut_prefix arg (device ++ codes "p"))

-- `processReferencesBlockDevice`
unfoldable pub process_references_block_device : List Bytes → Bytes → Bool
process_references_block_device cmdlines device =
    any (λ cmdline. any (λ arg. nbd_arg_references_device arg device) (split 0 cmdline)) cmdlines

-- `qemuNBDConnectArgs`
unfoldable pub qemu_nbd_connect_args : Bytes → Bytes → Bytes → List Bytes
qemu_nbd_connect_args nbd pid_file oc_path =
    codes "--fork"
    ∷ (codes "--pid-file=" ++ pid_file)
    ∷ (codes "--connect=" ++ nbd)
    ∷ codes "-f"
    ∷ codes "qcow2"
    ∷ oc_path
    ∷ []
