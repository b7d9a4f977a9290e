-- ===== src/Vm/Provision/Resize.antt =====
-- `resizeSystemDisk` (cmd/vm/utils.go) never shrinks a disk.
use cocoon_macos.Base.{
  false, [], ◌∷◌, ◌≡◌, refl, ◌⊎◌, inl, inr, arith, Bool-cases, ℤ, pos, ltb_ℤ, eq_ℤ, eq_ℤ_iff,
}
use cocoon_macos.Text.{Bytes, codes}
use cocoon_macos.Text.Decimal.{decimal_ℤ}
use cocoon_macos.Fault.{Result, ok, err, wrapped}
use cocoon_macos.Io.{after, pure}
use cocoon_macos.Vm.Host.{Host}
use cocoon_macos.Vm.Provision.{grown, resized, resize_system_disk}

-- A disk's new size is not below its old one, and is the one asked for, or the old one if none was.
unfoldable pub IsGrown : ℤ → ℤ → ℤ → Type 0
IsGrown target size n = (ltb_ℤ n size ≡ false) × (((target ≡ pos 0) × (n ≡ size)) ⊎ (n ≡ target))

ltb_ℤ_irrefl : (n : ℤ) → ltb_ℤ n n ≡ false
ltb_ℤ_irrefl n = ground arith

module _ (host : Host) where
  grown-result :
      (path : Bytes) (target : ℤ) (w : host.World) {n : ℤ}
      → (grown host path target w).0 ≡ ok n
      → n ≡ target
  unfolding grown
  grown-result path target w {n} h =
      go (host.run_qemu_img (codes "resize" ∷ path ∷ decimal_ℤ target ∷ []) w) h
    where
      go :
          (p : Result (Unit {0}) × host.World)
          → (after
              (wrapped "resize system disk %s to %d bytes: %w" p.0, p.1)
              (λ u. pure {W = host.World} target)).0
            ≡ ok n
          → n ≡ target
      go (ok u, w') e = cc
      go (err x, w') e = cc

  resized-IsGrown :
      (path : Bytes) (target size : ℤ) (w : host.World) {n : ℤ}
      → (resized host path target size w).0 ≡ ok n
      → IsGrown target size n
  unfolding resized IsGrown
  resized-IsGrown path target size w {n} h = elim (Bool-cases (eq_ℤ target (pos 0))) [
    | inl z ↦
        let e : n ≡ size = ground arith in
        (rw e (ltb_ℤ_irrefl size), inl ((eq_ℤ_iff target (pos 0)).0 z, e))
    | inr nz ↦ elim (Bool-cases (eq_ℤ target size)) [
      | inl same ↦
          let e : n ≡ target = ground (arith, eq_ℤ_iff target size) in
          (rw (e, (eq_ℤ_iff target size).0 same) (ltb_ℤ_irrefl size), inr e)
      | inr other ↦ elim (Bool-cases (ltb_ℤ target size)) [
        | inl less ↦ absurd (ground (arith, nz, other, less))
        | inr more ↦
            let e = grown-result path target w (ground (arith, nz, other, more)) in
            (rw e more, inr e)
      ]
    ]
  ]

  -- If `resizeSystemDisk` succeeds, the size of the disk was read, and the size it returns is not below
  -- that one, and is the one asked for, or the old one if none was.
  pub resize_system_disk-IsGrown :
      (path : Bytes) (target : ℤ) (w : host.World) {n : ℤ}
      → (resize_system_disk host path target w).0 ≡ ok n
      → (size : ℤ) × ((host.virtual_size path w).0 ≡ ok size) × IsGrown target size n
  unfolding resize_system_disk
  resize_system_disk-IsGrown path target w {n} h = go (host.virtual_size path w) h
    where
      go :
          (p : Result ℤ × host.World)
          → (after (wrapped "read system disk %s: %w" p.0, p.1) (resized host path target)).0 ≡ ok n
          → (size : ℤ) × (p.0 ≡ ok size) × IsGrown target size n
      go (ok size, w') e = (size, refl, resized-IsGrown path target size w' e)
      go (err x, w') e = cc
