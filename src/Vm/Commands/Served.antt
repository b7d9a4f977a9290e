-- ===== src/Vm/Commands/Served.antt =====
-- cmd/vm/commands.go: a call that passes the check of its arguments reaches an operation with the
-- machines that it names.
use cocoon_macos.Base.{
  ℕ, Bool, true, false, List, [], ◌∷◌, Option, ◌≡◌, refl, sym, ◌∙◌, length, ◌==◌, leb, arith,
}
use cocoon_macos.Text.{Bytes, codes, before}
use cocoon_macos.Io.{Io, pure, ◌>>=◌}
use cocoon_macos.Cli.{FlagSpec, ArgsRule, exact_args, minimum_args, ArgsChecks, first_arg}
use cocoon_macos.Vm.Host.{Host, Flags, Provider}
use cocoon_macos.Vm.Lifecycle.{start, stop, rm}
use cocoon_macos.Vm.Create.{create_vm}
use cocoon_macos.Vm.Clone.{clone_vm}
use cocoon_macos.Vm.Snapshot.{snapshot, restore}
use cocoon_macos.Vm.Query.{list_vms, inspect_vm, console}
use cocoon_macos.Vm.Gc.Sweep.{GcModule, sweep}
use cocoon_macos.Vm.Commands.{
  Handler, create_handler, run_handler, start_handler, stop_handler, list_handler, inspect_handler,
  console_handler, rm_handler, snapshot_handler, restore_handler, clone_handler, vnc_proxy_handler,
  gc_handler, command_of, handle,
}

single : (args : List Bytes) → (length args == 1) ≡ true → (a : Bytes) × (args ≡ a ∷ [])
single [] h = ground arith
single (a ∷ []) h = (a, refl)
single (a ∷ b ∷ args) h = ground arith

empty : (args : List Bytes) → (length args == 0) ≡ true → args ≡ []
empty [] h = refl
empty (a ∷ args) h = ground arith

nonempty :
    (args : List Bytes)
    → leb 1 (length args) ≡ true
    → (a : Bytes) × (rest : List Bytes) × (args ≡ a ∷ rest)
nonempty [] h = ground arith
nonempty (a ∷ rest) h = (a, rest, refl)

module _ (host : Host) (run_proxy : Bytes → Io host.World (Unit {0})) (stale_temp_age : ℕ)
    (orchestrate : GcModule host.World → Option Provider → Io host.World (Unit {0}))
    (flags : Flags) where
  -- what a call of each command does with its arguments, by the word that names it on a command line
  pub data Serves : Bytes → List Bytes → Io host.World (Unit {0}) → Type 0 where
    creates :
        (image : Bytes) → Serves (codes "create") (image ∷ []) (create_vm host flags image false)
    runs : (image : Bytes) → Serves (codes "run") (image ∷ []) (create_vm host flags image true)
    starts :
        (name : Bytes) (names : List Bytes)
        → Serves (codes "start") (name ∷ names) (start host flags (name ∷ names))
    halts :
        (name : Bytes) (names : List Bytes)
        → Serves (codes "stop") (name ∷ names) (stop host flags (name ∷ names))
    lists :
        (args : List Bytes) → Serves (codes "list") args (list_vms host flags >>= λ shown. pure tt)
    inspects :
        (name : Bytes)
        → Serves (codes "inspect") (name ∷ []) (inspect_vm host flags name >>= λ shown. pure tt)
    attaches :
        (name : Bytes)
        → Serves (codes "console") (name ∷ []) (console host flags name >>= λ shown. pure tt)
    removes :
        (name : Bytes) (names : List Bytes)
        → Serves (codes "rm") (name ∷ names) (rm host flags (name ∷ names))
    snapshots : (name : Bytes) → Serves (codes "snapshot") (name ∷ []) (snapshot host flags name)
    restores : (name : Bytes) → Serves (codes "restore") (name ∷ []) (restore host flags name)
    clones : (name : Bytes) → Serves (codes "clone") (name ∷ []) (clone_vm host flags name)
    proxies : (sock : Bytes) → Serves (codes "_vnc-proxy") (sock ∷ []) (run_proxy sock)
    sweeps : Serves (codes "gc") [] (sweep host stale_temp_age flags orchestrate)

  module _ (format_flags : List FlagSpec) (accepts : ArgsRule → List Bytes → Bool)
      (checks : ArgsChecks accepts) where
    open checks use {accepts_exact, accepts_minimum, accepts_none}

    one_arg :
        (args : List Bytes) → accepts (exact_args 1) args ≡ true → (a : Bytes) × (args ≡ a ∷ [])
    one_arg args h = single args (sym (accepts_exact 1 args) ∙ h)

    some_args :
        (args : List Bytes)
        → accepts (minimum_args 1) args ≡ true
        → (a : Bytes) × (rest : List Bytes) × (args ≡ a ∷ rest)
    some_args args h = nonempty args (sym (accepts_minimum 1 args) ∙ h)

    -- Where `ExactArgs`, `MinimumNArgs` and `NoArgs` count the arguments: a call whose arguments the
    -- command's rule accepts reaches, through the command's handler, the operation that the first word
    -- of its `Use` names, with the image, the socket or the machine that is given, or for `start`,
    -- `stop` and `rm` with all of them, one at least; so no handler runs past the end of its arguments.
    pub handle-Serves :
        (h : Handler) (args : List Bytes)
        → accepts (command_of format_flags h).args args ≡ true
        → Serves (before b' ' (command_of format_flags h).use_line) args (
            handle host run_proxy stale_temp_age orchestrate
              (command_of format_flags h).run
              flags
              args)
    unfolding before command_of handle first_arg cocoon_macos.Vm.Commands.create_image
        cocoon_macos.Vm.Commands.run_image cocoon_macos.Vm.Commands.gc
        cocoon_macos.Vm.Commands.gc_command cocoon_macos.Vm.Commands.vnc_proxy_command
    handle-Serves create_handler args h = let (a, e) = one_arg args h in rw e (creates a)
    handle-Serves run_handler args h = let (a, e) = one_arg args h in rw e (runs a)
    handle-Serves start_handler args h = let (a, rest, e) = some_args args h in rw e (starts a rest)
    handle-Serves stop_handler args h = let (a, rest, e) = some_args args h in rw e (halts a rest)
    handle-Serves list_handler args h = lists args
    handle-Serves inspect_handler args h = let (a, e) = one_arg args h in rw e (inspects a)
    handle-Serves console_handler args h = let (a, e) = one_arg args h in rw e (attaches a)
    handle-Serves rm_handler args h = let (a, rest, e) = some_args args h in rw e (removes a rest)
    handle-Serves snapshot_handler args h = let (a, e) = one_arg args h in rw e (snapshots a)
    handle-Serves restore_handler args h = let (a, e) = one_arg args h in rw e (restores a)
    handle-Serves clone_handler args h = let (a, e) = one_arg args h in rw e (clones a)
    handle-Serves vnc_proxy_handler args h = let (a, e) = one_arg args h in rw e (proxies a)
    handle-Serves gc_handler args h = rw (empty args (sym (accepts_none args) ∙ h)) sweeps
