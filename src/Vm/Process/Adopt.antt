-- ===== src/Vm/Process/Adopt.antt =====
-- `reconcileRunningQEMU` (cmd/vm/utils.go): which process a machine's record is given.
use cocoon_macos.Base.{Bool, true, false, List, [], ◌∷◌, ◌≡◌, refl, ◌⊎◌, inl, inr, ℤ, if◌then◌else◌}
use cocoon_macos.Text.{Bytes}
use cocoon_macos.Fault.{Result, ok, err, wrapped}
use cocoon_macos.Io.{after, pure, rewrap, ◌>>=◌}
use cocoon_macos.Vm.Record.{VmRecord, qemu_binary}
use cocoon_macos.Vm.Host.{Host}
use cocoon_macos.Vm.Store.{save_rec}
use cocoon_macos.Vm.Process.{qemu_pid_path, is_running, adopt, reconcile_running_qemu}

-- By what a scan found: no process and the machine does not run, or one process and it is the
-- record's.
unfoldable pub IsAdopted : VmRecord → Result (List ℤ) → Bool → VmRecord → Type 0
IsAdopted r found runs r' =
    ((found ≡ ok []) × (runs ≡ false) × (r' ≡ r))
    ⊎ ((pid : ℤ) × (found ≡ ok (pid ∷ [])) × (runs ≡ true) × (r' ≡ record r { pid = pid }))

module _ (host : Host) where
  adopt-IsAdopted :
      (dir : Bytes) (r : VmRecord) (p : Result (List ℤ) × host.World) {runs : Bool} {r' : VmRecord}
      → (after {B = Bool × VmRecord}
          (wrapped "scan qemu process for %s: %w" p.0, p.1)
          (adopt host dir r)).0
        ≡ ok (runs, r')
      → IsAdopted r p.0 runs r'
  unfolding adopt IsAdopted
  adopt-IsAdopted dir r (err e, w) h = cc
  adopt-IsAdopted dir r (ok [], w) h = inl (refl, cc, cc)
  adopt-IsAdopted dir r (ok (pid ∷ []), w) {runs} {r'} h =
      go (save_rec host dir (record r { pid = pid }) w) h
    where
      go :
          (q : Result (Unit {0}) × host.World)
          → (after {B = Bool × VmRecord} q
              (λ u. pure {W = host.World} (true, record r { pid = pid }))).0
            ≡ ok (runs, r')
          → IsAdopted r (ok (pid ∷ [])) runs r'
      go (ok u, w') e = inr (pid, refl, cc, cc)
      go (err x, w') e = cc
  adopt-IsAdopted dir r (ok (pid ∷ other ∷ pids), w) h = cc

  by_running :
      (dir : Bytes) (r : VmRecord) (w : host.World) (running : Bool) {runs : Bool} {r' : VmRecord}
      → is_running host r w ≡ running
      → ((if running
            then pure {W = host.World} (true, r)
            else (rewrap "scan qemu process for %s: %w"
                  (host.find_vmm qemu_binary (qemu_pid_path r.disk))
                >>= adopt host dir r))
          w).0
        ≡ ok (runs, r')
      → ((is_running host r w ≡ true) × (runs ≡ true) × (r' ≡ r))
        ⊎ ((is_running host r w ≡ false)
            × IsAdopted r (host.find_vmm qemu_binary (qemu_pid_path r.disk) w).0 runs r')
  by_running dir r w true up h = inl (up, cc, cc)
  by_running dir r w false down h =
      inr (down, adopt-IsAdopted dir r (host.find_vmm qemu_binary (qemu_pid_path r.disk) w) h)

  -- If `reconcileRunningQEMU` succeeds, the record's own process runs and the record stays, or the
  -- scan for the record's disk found no process and the machine is stopped, or it found one and the
  -- record has that one's pid.
  pub reconcile_running_qemu-IsAdopted :
      (dir : Bytes) (r : VmRecord) (w : host.World) {runs : Bool} {r' : VmRecord}
      → (reconcile_running_qemu host dir r w).0 ≡ ok (runs, r')
      → ((is_running host r w ≡ true) × (runs ≡ true) × (r' ≡ r))
        ⊎ ((is_running host r w ≡ false)
            × IsAdopted r (host.find_vmm qemu_binary (qemu_pid_path r.disk) w).0 runs r')
  unfolding reconcile_running_qemu
  reconcile_running_qemu-IsAdopted dir r w h = by_running dir r w (is_running host r w) refl h
