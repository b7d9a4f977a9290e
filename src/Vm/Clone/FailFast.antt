-- ===== src/Vm/Clone/FailFast.antt =====
-- `clone` (cmd/vm/clone.go) rejects bad flags, and disks that collide, before it touches the host.
use cocoon_macos.Base.{◌≡◌, ◌∙◌, ap}
use cocoon_macos.Text.{Bytes}
use cocoon_macos.Fault.{Error, Result, ok, err}
use cocoon_macos.Io.{Io, after}
use cocoon_macos.Io.Keeps.{Keeps, keeps_rules}
use cocoon_macos.Vm.Record.{VmRecord}
use cocoon_macos.Vm.Host.{Host, Flags}
use cocoon_macos.Vm.Clone.{clone_checks, clone}

module _ (host : Host) (flags : Flags) where
  abbrev whole : host.World → host.World
  whole w = w

  pub Keeps-clone_checks : (src : VmRecord) → Keeps whole (clone_checks host flags src)
  unfolding clone_checks
  Keeps-clone_checks src = search keeps_rules depth 14

  after_failed :
      {A B : Type 0} (p : Result A × host.World) (f : A → Io host.World B) (e : Error)
      → p.0 ≡ err e
      → after p f ≡ (err e, p.1)
  after_failed (err x, w) f e h = cc
  after_failed (ok a, w) f e h = cc

  -- If the checks of a clone fail, `clone` returns that error and leaves the host as it is.
  clone-fails_fast :
      (src : VmRecord) (name : Bytes) (w : host.World) (e : Error)
      → (clone_checks host flags src w).0 ≡ err e
      → clone host flags src name w ≡ (err e, w)
  unfolding clone
  clone-fails_fast src name w e h =
      after_failed (clone_checks host flags src w) _ e h
      ∙ ap (λ (v : host.World). (err e, v)) ((Keeps-clone_checks src).at w)
