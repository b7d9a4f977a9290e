-- ===== src/Home/Fixed.antt =====
-- cmd/root.go: once its paths are resolved, a command reads its state root from its flag alone.
use cocoon_macos.Base.{
  true, false, Option, none, some, ◌≡◌, refl, ◌∙◌, sym, ap, arith, Bool-cases, inl, inr, [], ◌∷◌,
  if◌then◌else◌,
}
use cocoon_macos.Text.{Bytes, codes, text_eq, is_set}
use cocoon_macos.Text.Laws.{text_eq_iff}
use cocoon_macos.Fault.{Result, ok, wrapped, wrapped-eq-ok, >>=-eq-ok}
use cocoon_macos.Home.{
  TextFlags, flag, flag_text, set_flag, set_path, state_dir_flag, dir, resolve_path, resolve_if_set,
  resolve_paths,
}

flag-set_flag_other :
    (name other v : Bytes) (flags : TextFlags)
    → text_eq other name ≡ false
    → flag name (set_flag other v flags) ≡ flag name flags
unfolding flag set_flag
flag-set_flag_other name other v [] h = refl
flag-set_flag_other name other v ((n, u) ∷ flags) h = elim (Bool-cases (text_eq n other)) [
  | inl same ↦
      let apart : text_eq n name ≡ false = rw ((text_eq_iff n other).0 same) h in
      rw same (rw apart refl)
  | inr differs ↦
      rw differs
        (ap (λ f. if text_eq n name then some u else f) (flag-set_flag_other name other v flags h))
]

flag-set_flag :
    (name v u : Bytes) (flags : TextFlags)
    → flag name flags ≡ some u
    → flag name (set_flag name v flags) ≡ some v
unfolding flag set_flag
flag-set_flag name v u [] h = cc
flag-set_flag name v u ((n, t) ∷ flags) h = ground (arith, flag-set_flag name v u flags)

different_bin : text_eq (codes "cni-bin-dir") state_dir_flag ≡ false
unfolding text_eq
different_bin = refl

different_conf : text_eq (codes "cni-conf-dir") state_dir_flag ≡ false
unfolding text_eq
different_conf = refl

dir_of :
    (env : Bytes) (flags : TextFlags) (p : Bytes)
    → flag state_dir_flag flags ≡ some p
    → is_set p ≡ true
    → dir env flags ≡ p
unfolding dir flag_text
dir_of env flags [] h g = cc
dir_of env flags (c ∷ p) h g = rw h refl

module _ (absolute : Bytes → Result Bytes) where
  set_path-eq-ok :
      (name path : Bytes) (found : Option Bytes) (flags : TextFlags) {after : TextFlags}
      → flag name flags ≡ found
      → set_path absolute name path found flags ≡ ok after
      → (u : Bytes) × (flag name flags ≡ some u) × (after ≡ set_flag name path flags)
  unfolding set_path
  set_path-eq-ok name path none flags e h = cc
  set_path-eq-ok name path (some u) flags e h = (u, e, sym (cc))

  resolve_path-eq-ok :
      (name path : Bytes) (flags : TextFlags) {after : TextFlags}
      → resolve_path absolute name path flags ≡ ok after
      → (p : Bytes) × (u : Bytes) × (absolute path ≡ ok p)
        × (flag name flags ≡ some u)
        × (after ≡ set_flag name p flags)
  unfolding resolve_path
  resolve_path-eq-ok name path flags h =
      let t = >>=-eq-ok (wrapped "resolve --%s: %w" (absolute path)) _ h in
      let s = set_path-eq-ok name t.0 (flag name flags) flags refl t.2 in
      (t.0, s.0, wrapped-eq-ok _ (absolute path) t.1, s.1, s.2)

  resolve_if_set-keeps :
      (name other : Bytes) (flags : TextFlags) {after : TextFlags}
      → text_eq other name ≡ false
      → resolve_if_set absolute other flags ≡ ok after
      → flag name after ≡ flag name flags
  unfolding resolve_if_set
  resolve_if_set-keeps name other flags {after} h r =
      elim (Bool-cases (is_set (flag_text (flag other flags)))) [
        | inl given ↦
            let t =
              resolve_path-eq-ok other (flag_text (flag other flags)) flags {after = after}
                (ground arith) in
            ap (flag name) t.4 ∙ flag-set_flag_other name other t.0 flags h
        | inr absent ↦ let same : flags ≡ after = ground arith in ap (flag name) (sym same)
      ]

  -- Where an absolute path is not empty, a command whose paths are resolved has the same state root
  -- whatever its environment says: the absolute path of the one that it had before.
  pub resolve_paths-dir :
      (env later : Bytes) (flags : TextFlags) {after : TextFlags}
      → ((path p : Bytes) → absolute path ≡ ok p → is_set p ≡ true)
      → resolve_paths absolute env flags ≡ ok after
      → (p : Bytes) × (absolute (dir env flags) ≡ ok p) × (dir later after ≡ p)
  unfolding resolve_paths
  resolve_paths-dir env later flags {after} nonempty h =
      let a = >>=-eq-ok (resolve_path absolute state_dir_flag (dir env flags) flags) _ h in
      let b = >>=-eq-ok (resolve_if_set absolute (codes "cni-conf-dir") a.0) _ a.2 in
      let r = resolve_path-eq-ok state_dir_flag (dir env flags) flags a.1 in
      let kept : flag state_dir_flag after ≡ flag state_dir_flag a.0 =
        resolve_if_set-keeps state_dir_flag (codes "cni-bin-dir") b.0 (different_bin) b.2
        ∙ resolve_if_set-keeps state_dir_flag (codes "cni-conf-dir") a.0 (different_conf) b.1 in
      let found : flag state_dir_flag after ≡ some r.0 =
        kept ∙ ap (flag state_dir_flag) r.4 ∙ flag-set_flag state_dir_flag r.0 r.1 flags r.3 in
      (r.0, r.2, dir_of later after r.0 found (nonempty (dir env flags) r.0 r.2))
