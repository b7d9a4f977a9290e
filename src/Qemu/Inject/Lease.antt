-- ===== src/Qemu/Inject/Lease.antt =====
-- qemu/inject.go: the nbd lease is held for the whole of a run of `InjectConfig`, and given back.
use cocoon_macos.Base.{ℕ, Bool, true, false, List, ◌≡◌, refl, ◌∙◌, ◌⊎◌, inl, inr, ℤ}
use cocoon_macos.Text.{Bytes}
use cocoon_macos.Fault.{Error, Result, ok, err, wrap, wrapped}
use cocoon_macos.Io.{Io, after, finally}
use cocoon_macos.Io.Keeps.{Keeps}
use cocoon_macos.Qemu.Smbios.{Smbios}
use cocoon_macos.Qemu.Inject.{NbdHost, with_nbd_lease, nbd_lease_path}
use cocoon_macos.Qemu.Inject.Config.{inject_leased, inject_config}
use cocoon_macos.Qemu.Inject.Keeps.{Keeps-inject_leased}

-- what the lock does to the lease: it takes it, or fails and leaves it
abbrev pub Locked : {W : Type 0} → (W → Bool) → Result (Unit {0}) × W → Type 0
Locked leased (ok u, w) = leased w ≡ true
Locked leased (err e, w) = leased w ≡ false

-- the lock failed, and nothing else was done
abbrev pub NotLocked : {W : Type 0} → NbdHost W → W → Result (Unit {0}) × W → Type 0
NotLocked host w run =
    (e : Error) × (host.lock nbd_lease_path w ≡ (err e, run.1))
    × (run.0 ≡ err (wrap "lock qemu-nbd lease: %w" e))

-- The lock was taken, the transaction ran from there with the lease and ended with it, and the run
-- ended with its result, behind the release.
abbrev pub HeldFor :
    {W : Type 0} → NbdHost W → (W → Bool) → Bytes → Smbios → W → Result (Unit {0}) × W → Type 0
HeldFor {W = W} host leased oc_path sm w run =
    (v : W) × (host.lock nbd_lease_path w ≡ (ok tt, v))
    × (leased v ≡ true)
    × (let inner = inject_leased host oc_path sm v in
        (leased inner.1 ≡ true) × (run ≡ (inner.0, (host.unlock nbd_lease_path inner.1).1)))

-- a run of `InjectConfig`, which ends without the lease
abbrev pub GivenBack :
    {W : Type 0} → NbdHost W → (W → Bool) → Bytes → Smbios → W → Result (Unit {0}) × W → Type 0
GivenBack host leased oc_path sm w run =
    (leased run.1 ≡ false) × (NotLocked host w run ⊎ HeldFor host leased oc_path sm w run)

module _ {W : Type 0} (host : NbdHost W) (leased : W → Bool)
    (keeps_run_command : (p : Bytes) (args : List Bytes) → Keeps leased (host.run_command p args))
    (keeps_stat : (p : Bytes) → Keeps leased (host.stat p))
    (keeps_remove : (p : Bytes) → Keeps leased (host.remove p))
    (keeps_make_temp_dir : (p : Bytes) → Keeps leased (host.make_temp_dir p))
    (keeps_read_dir : (p : Bytes) → Keeps leased (host.read_dir p))
    (keeps_read_file : (p : Bytes) → Keeps leased (host.read_file p))
    (keeps_write_file : (p b : Bytes) → Keeps leased (host.write_file p b))
    (keeps_wait_for : (n : ℕ) (m : Io W Bool) → Keeps leased m → Keeps leased (host.wait_for n m))
    (keeps_find_vmm : (b p : Bytes) → Keeps leased (host.find_vmm b p))
    (keeps_terminate_process : (pid : ℤ) (b p : Bytes) (n : ℕ)
      → Keeps leased (host.terminate_process pid b p n))
    (keeps_read_pid_file : (p : Bytes) → Keeps leased (host.read_pid_file p))
    (lock_lem : (w : W) → leased w ≡ false → Locked leased (host.lock nbd_lease_path w))
    (unlock_lem : (w : W) → leased (host.unlock nbd_lease_path w).1 ≡ false) where
  kept : (oc_path : Bytes) (sm : Smbios) → Keeps leased (inject_leased host oc_path sm)
  kept =
      Keeps-inject_leased host leased keeps_run_command keeps_stat keeps_remove keeps_make_temp_dir
        keeps_read_dir keeps_read_file keeps_write_file keeps_wait_for keeps_find_vmm
        keeps_terminate_process keeps_read_pid_file

  lease_end :
      (w : W) (locked : Result (Unit {0}) × W) (oc_path : Bytes) (sm : Smbios)
      → host.lock nbd_lease_path w ≡ locked
      → Locked leased locked
      → GivenBack host leased oc_path sm w (
          after
            (wrapped "lock qemu-nbd lease: %w" locked.0, locked.1)
            (λ u. finally (inject_leased host oc_path sm) (host.unlock nbd_lease_path)))
  lease_end w (ok u, v) oc_path sm l h = (
    unlock_lem (inject_leased host oc_path sm v).1,
    inr (v, l, h, ((kept oc_path sm).at v ∙ h, refl)),
  )
  lease_end w (err e, v) oc_path sm l h = (h, inl (e, l, refl))

  -- If no call but the lock and its release changes who has the lease, the lock takes it or fails, and
  -- the release gives it back: a run that starts without the lease ends without it, also on an error;
  -- either the lock failed and that is all, or the lock was taken, the transaction ran with the lease
  -- from its start to its end, also on an error, and the run ends with its result, behind the release.
  pub inject_config-gives_back :
      (oc_path : Bytes) (sm : Smbios) (w : W)
      → leased w ≡ false
      → GivenBack host leased oc_path sm w (inject_config host oc_path sm w)
  unfolding inject_config with_nbd_lease
  inject_config-gives_back oc_path sm w free =
      lease_end w (host.lock nbd_lease_path w) oc_path sm refl (lock_lem w free)
