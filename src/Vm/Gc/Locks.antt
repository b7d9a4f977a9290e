-- ===== src/Vm/Gc/Locks.antt =====
-- What cocoon's file locks are documented to do, as an interface.
use cocoon_macos.Base.{Bool, true, false, not, ◌&&◌, ◌||◌, ◌≡◌}
use cocoon_macos.Text.{Bytes, text_eq}
use cocoon_macos.Fault.{Result, ok}
use cocoon_macos.Vm.Host.{Host}
use cocoon_macos.Vm.Gc.{try_one}

-- Which locks this process holds. A try that succeeds takes a lock that is free and no other; any
-- other try changes no lock; unlocking gives one lock back.
pub record Locks (host : Host) : Type 0 where
  pub holds : host.World → Bytes → Bool
  pub try_ok :
      (path j : Bytes) (w w' : host.World)
      → try_one host path w ≡ (ok true, w')
      → (holds w path ≡ false) × (holds w' j ≡ (text_eq j path || holds w j))
  pub try_else :
      (path j : Bytes) (w w' : host.World) (r : Result Bool)
      → try_one host path w ≡ (r, w')
      → (r ≡ ok true → ⊥)
      → holds w' j ≡ holds w j
  pub give_back :
      (path j : Bytes) (w : host.World)
      → holds (host.unlock path w).1 j ≡ (not (text_eq j path) && holds w j)
