-- ===== src/Vm/Lifecycle/Halt.antt =====
-- `Stop` (cmd/vm/lifecycle.go): what the record of a stopped machine says.
use cocoon_macos.Base.{false, [], ◌≡◌, refl, pos, negsuc, ap}
use cocoon_macos.Text.{Bytes}
use cocoon_macos.Fault.{Error, Result, ok, err, wrapped}
use cocoon_macos.Io.Ends.{after-end}
use cocoon_macos.Vm.Record.{VmRecord, stored}
use cocoon_macos.Vm.Host.{Host, Flags}
use cocoon_macos.Vm.Store.{record_path, load_rec, save_rec}
use cocoon_macos.Vm.Process.{reconcile_running_qemu, stop_instance}
use cocoon_macos.Vm.Net.{toggle_net}
use cocoon_macos.Vm.Lifecycle.{grace_from_flags, halted, stop_vm}

-- A record that was written is read again.
pub record Records (host : Host) : Type 0 where
  pub read_back :
      (p : Bytes) (r : VmRecord) (w w' : host.World)
      → host.write_json p r w ≡ (ok tt, w')
      → (host.read_json p w').0 ≡ ok r

-- A record with no process, no display and no password.
unfoldable pub IsHalted : VmRecord → Type 0
IsHalted r =
    (r.pid ≡ pos 0) × (r.vnc_disp ≡ negsuc 0) × (r.vnc_pass ≡ []) × (r.vnc_pass_set ≡ false)

module _ (host : Host) (flags : Flags) (records : Records host) where
  -- if a run succeeded, the directory's record is a stopped machine's
  EndsHalted : Bytes → Result (Unit {0}) × host.World → Type 0
  EndsHalted dir p = p.0 ≡ ok tt → (r : VmRecord) × ((load_rec host dir p.1).0 ≡ ok r) × IsHalted r

  save_rec-EndsHalted :
      (dir : Bytes) (r : VmRecord) (w : host.World)
      → EndsHalted dir (save_rec host dir (halted r) w)
  unfolding save_rec load_rec EndsHalted IsHalted halted stored
  save_rec-EndsHalted dir r w = go (host.write_json (record_path dir) (stored (halted r)) w) refl
    where
      go :
          (p : Result (Unit {0}) × host.World)
          → host.write_json (record_path dir) (stored (halted r)) w ≡ p
          → EndsHalted dir (wrapped "write vm record: %w" p.0, p.1)
      go (ok u, w') e h = (
        stored (halted r),
        ap (wrapped "read vm record: %w")
            (records.read_back (record_path dir) (stored (halted r)) w w' e),
        (refl, refl, refl, refl),
      )
      go (err x, w') e h = cc

  bad : (dir : Bytes) (e : Error) (w : host.World) → EndsHalted dir (err e, w)
  unfolding EndsHalted
  bad dir e w h = cc

  -- Where a record that was written is read again: after a `Stop` of one machine that succeeds, the
  -- record in its directory has no pid, no display and no password.
  pub stop_vm-IsHalted :
      (n dir : Bytes) (w : host.World)
      → (stop_vm host flags n dir w).0 ≡ ok tt
      → (r : VmRecord) × ((load_rec host dir (stop_vm host flags n dir w).1).0 ≡ ok r) × IsHalted r
  unfolding stop_vm EndsHalted
  stop_vm-IsHalted n dir w = after-end (EndsHalted dir) (load_rec host dir w) _ (bad dir) λ r w1.
      after-end (EndsHalted dir) (reconcile_running_qemu host dir r w1) _ (bad dir) λ (runs, r') w2.
        after-end (EndsHalted dir) (stop_instance host dir r' (grace_from_flags flags) w2) _
          (bad dir)
          λ u w3.
            after-end (EndsHalted dir) (toggle_net host flags r' false w3) _ (bad dir)
              λ t w4. save_rec-EndsHalted dir t w4
