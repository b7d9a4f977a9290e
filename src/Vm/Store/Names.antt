-- ===== src/Vm/Store/Names.antt =====
-- `VMDir` (home/home.go): a machine's directory is a child of the machines' directory.
use cocoon_macos.Base.{true, false, [], ◌≡◌, ◌≢◌, ◌⊎◌, ap, ◌∙◌, arith, inl, inr}
use cocoon_macos.Text.{Bytes, codes, has_prefix}
use cocoon_macos.Text.Laws.{text_eq_iff}
use cocoon_macos.Fault.{ok}
use cocoon_macos.FilePath.{join_path, base, parent, clean, is_rooted}
use cocoon_macos.FilePath.Laws.{base_self}
use cocoon_macos.FilePath.Joins.{
  IsComponent, base-join_path, parent-join_path, join_path-root, no_dot-not_dot, no_dot-not_dots,
}
use cocoon_macos.Vm.Store.{vm_dir}

vm_dir_inv :
    (vms_dir name : Bytes) {dir : Bytes}
    → vm_dir vms_dir name ≡ ok dir
    → (dir ≡ join_path vms_dir name)
      × (name ≢ [])
      × (base name ≡ name)
      × (has_prefix name (codes ".") ≡ false)
unfolding vm_dir
vm_dir_inv vms_dir name {dir} h = (
  ground arith,
  (λ e. absurd (ground arith)),
  ground (arith, text_eq_iff (base name) name),
  ground arith,
)

-- For an absolute machines' directory: an accepted name gives a directory of that name whose parent
-- is the clean path of the machines' directory, unless the name is "/", which gives the clean path of
-- the machines' directory itself.
pub vm_dir_child :
    (vms_dir name : Bytes) {dir : Bytes}
    → is_rooted vms_dir ≡ true
    → vm_dir vms_dir name ≡ ok dir
    → ((parent dir ≡ clean vms_dir) × (base dir ≡ name))
      ⊎ ((name ≡ codes "/") × (dir ≡ clean vms_dir))
vm_dir_child vms_dir name v h =
    let (e, n, b, d) = vm_dir_inv vms_dir name h in
    elim (base_self name n b) [
      | inl plain ↦
          let part : IsComponent name = record {
            plain = plain;
            ne = n;
            not_dot = no_dot-not_dot name d;
            not_dots = no_dot-not_dots name d;
          } in
          inl (rw e (parent-join_path vms_dir name part v), rw e (base-join_path vms_dir name part))
      | inr root ↦ inr (root, e ∙ ap (join_path vms_dir) root ∙ join_path-root vms_dir v)
    ]
