-- ===== src/Vm/Tests/Commands.antt =====
-- Examples: command lines with no flag, and calls that pass the check of their arguments.
use cocoon_macos.Base.{
  ℤ, Bool, true, false, List, [], ◌∷◌, Option, some, ◌≡◌, refl, ap, pos, length, ◌==◌, leb,
}
use cocoon_macos.Text.{Bytes, codes}
use cocoon_macos.Fault.{ok}
use cocoon_macos.Io.{pure}
use cocoon_macos.Cli.{
  with_persistent, FlagDefault, int, text, boolean, FlagSpec, FlagSet, declared, ArgsRule,
  exact_args, minimum_args, no_args, unchecked, ArgsChecks,
}
use cocoon_macos.Vm.Create.{checked_flags}
use cocoon_macos.Vm.Commands.{add_vm_flags, stop_handler, handle}
use cocoon_macos.Vm.Commands.Served.{Serves, handle-Serves}
use cocoon_macos.Vm.Commands.Defaults.{flags_of, checked_flags-defaults}
use cocoon_macos.Vm.Tests.Toy.{toy, toy_flags, desk}

abbrev int_of : Option FlagDefault → ℤ
int_of (some (int d)) = d
int_of _ = pos 0

abbrev text_of : Option FlagDefault → Bytes
text_of (some (text d)) = d
text_of _ = []

abbrev bool_of : Option FlagDefault → Bool
bool_of (some (boolean d)) = d
bool_of _ = false

-- a command line with no flag
abbrev bare : (flags : List FlagSpec) → FlagSet flags
bare flags = record {
  changed = λ name. false;
  get_int = λ name. int_of (declared name flags);
  get_text = λ name. text_of (declared name flags);
  get_bool = λ name. bool_of (declared name flags);
  get_texts = λ name. [];
  int_default = λ name d e u. ap int_of e;
  text_default = λ name d e u. ap text_of e;
  bool_default = λ name d e u. ap bool_of e;
  texts_default = λ name e u. refl;
  text_undeclared = λ name e. ap text_of e;
}

checked_flags-defaults_example :
    checked_flags toy (flags_of [] (bare (with_persistent add_vm_flags))) desk
    ≡ (ok ([], pos 0), desk)
checked_flags-defaults_example =
    checked_flags-defaults toy [] (bare (with_persistent add_vm_flags)) (λ name h. refl) desk

-- cobra's rules
abbrev allows : ArgsRule → List Bytes → Bool
allows (exact_args n) args = length args == n
allows (minimum_args n) args = leb n (length args)
allows no_args args = length args == 0
allows unchecked args = true

abbrev rules : ArgsChecks allows
rules = record {
  accepts_exact = λ n args. refl;
  accepts_minimum = λ n args. refl;
  accepts_none = λ args. refl;
}

handle-Serves_example :
    Serves toy
      (λ sock. pure tt)
      3600
      (λ vms net. pure tt)
      toy_flags
      (codes "stop")
      (codes "m" ∷ codes "n" ∷ [])
      (handle toy
        (λ sock. pure tt)
        3600
        (λ vms net. pure tt)
        stop_handler
        toy_flags
        (codes "m" ∷ codes "n" ∷ []))
unfolding cocoon_macos.Vm.Commands.command_of cocoon_macos.Text.before
handle-Serves_example =
    handle-Serves toy (λ sock. pure tt) 3600 (λ vms net. pure tt) toy_flags [] allows rules
      stop_handler (codes "m" ∷ codes "n" ∷ []) refl
