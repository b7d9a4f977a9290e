-- ===== src/Vm/Create/FailFast.antt =====
-- `create` (cmd/vm/lifecycle.go) rejects bad flags before it touches the host.
use cocoon_macos.Base.{◌≡◌, refl, ◌∙◌}
use cocoon_macos.Text.{Bytes}
use cocoon_macos.Fault.{Error, Result, ok, err}
use cocoon_macos.Io.{Io, after}
use cocoon_macos.Io.Keeps.{Keeps, keeps_rules}
use cocoon_macos.Vm.Host.{Host, Flags}
use cocoon_macos.Vm.Create.{image_path, checked_flags, create}

module _ (host : Host) (flags : Flags) where
  abbrev whole : host.World → host.World
  whole w = w

  pub Keeps-image_path : (image : Bytes) → Keeps whole (image_path host flags image)
  unfolding image_path
  Keeps-image_path image = search keeps_rules

  pub Keeps-checked_flags : Keeps whole (checked_flags host flags)
  unfolding checked_flags
  Keeps-checked_flags = search keeps_rules depth 12

  -- the state of a run whose second call fails
  after_failed :
      {A B C : Type 0} (w : host.World) (p : Result A × host.World) (m : Io host.World B)
      (f : A → B → Io host.World C)
      → p.1 ≡ w
      → ((v : host.World) → (m v).1 ≡ v)
      → (e : Error) → (m w).0 ≡ err e
      → (after p (λ a v. after (m v) (f a))).1 ≡ w
  after_failed w (err x, w') m f k keeps e h = k
  after_failed w (ok a, w') m f k keeps e h = go (m w') (rw k h) ∙ keeps w' ∙ k
    where
      go : (q : Result _ × host.World) → q.0 ≡ err e → (after q (f a)).1 ≡ q.1
      go (err y, v) z = refl
      go (ok b, v) z = cc

  -- If the checks of the flags fail, `create` leaves the host as it is.
  pub create-fails_fast :
      (image name : Bytes) (w : host.World) (e : Error)
      → (checked_flags host flags w).0 ≡ err e
      → (create host flags image name w).1 ≡ w
  unfolding create
  create-fails_fast image name w e h =
      after_failed w (image_path host flags image w) (checked_flags host flags) _
        ((Keeps-image_path image).at w) (λ v. Keeps-checked_flags.at v) e h
