-- ===== src/Procutil.antt =====
-- internal/procutil/terminate.go: stopping every process with a command line.
pub mod Keeps
use cocoon_macos.Base.{ℕ, List, [], ◌∷◌, ℤ}
use cocoon_macos.Text.{Bytes}
use cocoon_macos.Fault.{Result, ok, wrapped}
use cocoon_macos.Io.{Io, pure, lift, rewrap, attempt, both, ◌>>=◌}

-- `utils.FindVMMByCmdline`, `utils.TerminateProcess`
module _ {W : Type 0} (find_vmm : Bytes → Bytes → Io W (List ℤ))
    (terminate_process : ℤ → Bytes → Bytes → ℕ → Io W (Unit {0})) where
  -- the loop of `TerminateByCmdline`, which joins the errors
  unfoldable pub terminate_all : Bytes → Bytes → ℕ → List ℤ → Io W (Result (Unit {0}))
  terminate_all binary path grace [] = pure (ok tt)
  terminate_all binary path grace (pid ∷ pids) = do
    this ← attempt (terminate_process pid binary path grace)
    rest ← terminate_all binary path grace pids
    pure (both (wrapped "terminate %s pid %d: %w" this) rest)

  -- `TerminateByCmdline`
  unfoldable pub terminate_by_cmdline : Bytes → Bytes → ℕ → Io W (Unit {0})
  terminate_by_cmdline binary path grace = do
    pids ← rewrap "scan %s processes for %s: %w" (find_vmm binary path)
    errs ← terminate_all binary path grace pids
    lift errs
