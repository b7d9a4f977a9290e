-- ===== src/Procutil/Keeps.antt =====
-- Stopping processes leaves a view of the state alone if the calls that it makes do.
use cocoon_macos.Base.{ℕ, List, [], ◌∷◌, ℤ}
use cocoon_macos.Text.{Bytes}
use cocoon_macos.Io.{Io}
use cocoon_macos.Io.Keeps.{Keeps, keeps_rules}
use cocoon_macos.Procutil.{terminate_all, terminate_by_cmdline}

module _ {W V : Type 0} (view : W → V) (find_vmm : Bytes → Bytes → Io W (List ℤ))
    (terminate_process : ℤ → Bytes → Bytes → ℕ → Io W (Unit {0}))
    (keeps_find_vmm : (b p : Bytes) → Keeps view (find_vmm b p))
    (keeps_terminate_process : (pid : ℤ) (b p : Bytes) (grace : ℕ)
      → Keeps view (terminate_process pid b p grace)) where
  Keeps-terminate_one :
      (binary path : Bytes) (grace : ℕ) (pid : ℤ) (pids : List ℤ)
      → Keeps view (terminate_all find_vmm terminate_process binary path grace pids)
      → Keeps view (terminate_all find_vmm terminate_process binary path grace (pid ∷ pids))
  unfolding terminate_all
  Keeps-terminate_one binary path grace pid pids rest =
      search (keeps_rules, keeps_terminate_process)

  Keeps-terminate_all :
      (binary path : Bytes) (grace : ℕ) (pids : List ℤ)
      → Keeps view (terminate_all find_vmm terminate_process binary path grace pids)
  unfolding terminate_all
  Keeps-terminate_all binary path grace [] = search keeps_rules
  Keeps-terminate_all binary path grace (pid ∷ pids) =
      Keeps-terminate_one binary path grace pid pids (Keeps-terminate_all binary path grace pids)

  pub Keeps-terminate_by_cmdline :
      (binary path : Bytes) (grace : ℕ)
      → Keeps view (terminate_by_cmdline find_vmm terminate_process binary path grace)
  unfolding terminate_by_cmdline
  Keeps-terminate_by_cmdline binary path grace =
      search (keeps_rules, keeps_find_vmm, Keeps-terminate_all)
