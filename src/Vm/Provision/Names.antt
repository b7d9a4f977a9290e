-- ===== src/Vm/Provision/Names.antt =====
-- `requestedVMName` (cmd/vm/lifecycle.go) against `VMDir` (home/home.go).
use cocoon_macos.Base.{
  ◌≤◌, true, false, [], ◌∷◌, ◌≡◌, ◌≢◌, refl, inl, inr, arith, Bool-cases, length, leb→le,
}
use cocoon_macos.Text.{Bytes, codes, is_set, first_set, has_prefix}
use cocoon_macos.Text.Laws.{text_eq_refl}
use cocoon_macos.Fault.{ok}
use cocoon_macos.FilePath.{join_path, parent, base, clean, is_rooted, has_slash}
use cocoon_macos.FilePath.Laws.{base-plain}
use cocoon_macos.FilePath.Joins.{
  IsComponent, parent-join_path, base-join_path, no_dot-not_dot, no_dot-not_dots,
}
use cocoon_macos.Vm.Store.{vm_dir}
use cocoon_macos.Vm.Provision.{
  is_alphanumeric, is_name_byte, all_name_bytes, valid_name, requested_vm_name,
}

all_name_bytes-plain : (s : Bytes) → all_name_bytes s ≡ true → has_slash s ≡ false
unfolding all_name_bytes is_name_byte is_alphanumeric
all_name_bytes-plain [] h = refl
all_name_bytes-plain (c ∷ s) h = ground (arith, all_name_bytes-plain s)

valid_name-plain : (s : Bytes) → valid_name s ≡ true → has_slash s ≡ false
unfolding valid_name is_alphanumeric
valid_name-plain [] h = refl
valid_name-plain (c ∷ s) h = ground (arith, all_name_bytes-plain s)

valid_name-no_dot : (s : Bytes) → valid_name s ≡ true → has_prefix s (codes ".") ≡ false
unfolding valid_name is_alphanumeric has_prefix
valid_name-no_dot [] h = refl
valid_name-no_dot (c ∷ s) h = ground arith

valid_name-ne_nil : (s : Bytes) → valid_name s ≡ true → s ≢ []
unfolding valid_name
valid_name-ne_nil [] h e = ground arith
valid_name-ne_nil (c ∷ s) h e = ground arith

valid_name-is_set : (s : Bytes) → valid_name s ≡ true → is_set s ≡ true
unfolding valid_name
valid_name-is_set [] h = ground arith
valid_name-is_set (c ∷ s) h = refl

valid_name-length : (s : Bytes) → valid_name s ≡ true → length s ≤ 63
unfolding valid_name
valid_name-length [] h = omega arith
valid_name-length (c ∷ s) h = ground (arith, leb→le (length s) 62)

valid_name-IsComponent : (s : Bytes) → valid_name s ≡ true → IsComponent s
valid_name-IsComponent s v = record {
  plain = valid_name-plain s v;
  ne = valid_name-ne_nil s v;
  not_dot = no_dot-not_dot s (valid_name-no_dot s v);
  not_dots = no_dot-not_dots s (valid_name-no_dot s v);
}

vm_dir-valid :
    (vms_dir name : Bytes)
    → valid_name name ≡ true
    → is_rooted vms_dir ≡ true
    → (vm_dir vms_dir name ≡ ok (join_path vms_dir name))
      × (parent (join_path vms_dir name) ≡ clean vms_dir)
      × (base (join_path vms_dir name) ≡ name)
      × (length name ≤ 63)
unfolding vm_dir
vm_dir-valid vms_dir name v n =
    let part = valid_name-IsComponent name v in
    (
      rw
          (
            valid_name-is_set name v,
            valid_name-no_dot name v,
            base-plain name part.plain part.ne,
            text_eq_refl name,
          )
          refl,
      parent-join_path vms_dir name part n,
      base-join_path vms_dir name part,
      valid_name-length name v,
    )

-- For an absolute machines' directory: a name that `requestedVMName` returns has at most 63 bytes,
-- and `VMDir` accepts it and gives the directory of that name, whose base is the name and whose
-- parent is the clean path of the machines' directory.
pub requested_vm_name-vm_dir :
    (flag fallback vms_dir : Bytes) {name : Bytes}
    → requested_vm_name flag fallback ≡ ok name
    → is_rooted vms_dir ≡ true
    → (vm_dir vms_dir name ≡ ok (join_path vms_dir name))
      × (parent (join_path vms_dir name) ≡ clean vms_dir)
      × (base (join_path vms_dir name) ≡ name)
      × (length name ≤ 63)
unfolding requested_vm_name
requested_vm_name-vm_dir flag fallback vms_dir {name} h n =
    elim (Bool-cases (valid_name (first_set flag fallback))) [
      | inl v ↦ vm_dir-valid vms_dir name (ground arith) n
      | inr v ↦ elim (Bool-cases (is_set flag)) [ inl s ↦ ground arith | inr s ↦ ground arith ]
    ]
