-- ===== src/Cli.antt =====
-- What the commands declare for the cobra library: flags with their defaults, and how many arguments a
-- command takes. What cobra makes of a command line is a parameter.
use cocoon_macos.Base.{
  ℕ, ℤ, Bool, false, List, [], ◌∷◌, Option, none, some, ◌≡◌, if◌then◌else◌, ◌==◌, leb, length,
}
use cocoon_macos.Fault.{Result, ok, err, panic}
use cocoon_macos.Text.{Bytes, codes, text_eq}

-- the type of a flag, with its default
pub data FlagDefault : Type 0 where
  int : ℤ → FlagDefault
  text : Bytes → FlagDefault
  boolean : Bool → FlagDefault
  texts : FlagDefault

pub record FlagSpec : Type 0 where
  pub name : Bytes
  pub shorthand : Bytes
  pub default : FlagDefault

-- `cmd.Flags().Int`, `String`, `Bool` and `StringArray`
abbrev pub flag_of : Bytes → FlagDefault → FlagSpec
flag_of name default = record { name = name; shorthand = []; default = default }

-- the flags of a command with the persistent one of the root
abbrev pub with_persistent : List FlagSpec → List FlagSpec
with_persistent flags = flag_of (codes "state-dir") (text []) ∷ flags

-- `Args` of a command: `cobra.ExactArgs`, `MinimumNArgs` and `NoArgs`, or nothing
pub data ArgsRule : Type 0 where
  exact_args : ℕ → ArgsRule
  minimum_args : ℕ → ArgsRule
  no_args : ArgsRule
  unchecked : ArgsRule

-- `cobra.Command`, by its handler; texts for its help are left out
pub record Command (H : Type 0) : Type 0 where
  pub use_line : Bytes
  pub aliases : List Bytes
  pub args : ArgsRule
  pub flags : List FlagSpec
  pub hidden : Bool
  pub run : H

-- `args[0]`
unfoldable pub first_arg : List Bytes → Result Bytes
first_arg [] = err panic
first_arg (a ∷ args) = ok a

-- The default that a command declares for a flag.
unfoldable pub declared : Bytes → List FlagSpec → Option FlagDefault
declared name [] = none
declared name (f ∷ flags) =
    let rest = declared name flags in if text_eq f.name name then some f.default else rest

-- The command line of a command with these flags, as `cmd.Flags()` gives it, and what is documented of
-- it: a flag that is not given has its default, and one that is not declared reads as the zero value.
pub record FlagSet (flags : List FlagSpec) : Type 0 where
  pub changed : Bytes → Bool
  pub get_int : Bytes → ℤ
  pub get_text : Bytes → Bytes
  pub get_bool : Bytes → Bool
  pub get_texts : Bytes → List Bytes
  pub int_default :
      (name : Bytes) (d : ℤ)
      → declared name flags ≡ some (int d)
      → changed name ≡ false
      → get_int name ≡ d
  pub text_default :
      (name d : Bytes)
      → declared name flags ≡ some (text d)
      → changed name ≡ false
      → get_text name ≡ d
  pub bool_default :
      (name : Bytes) (d : Bool)
      → declared name flags ≡ some (boolean d)
      → changed name ≡ false
      → get_bool name ≡ d
  pub texts_default :
      (name : Bytes) → declared name flags ≡ some texts → changed name ≡ false → get_texts name ≡ []
  pub text_undeclared : (name : Bytes) → declared name flags ≡ none → get_text name ≡ []

-- What `Args` demands, as cobra documents it: exactly so many arguments, at least so many, or none.
pub record ArgsChecks (accepts : ArgsRule → List Bytes → Bool) : Type 0 where
  pub accepts_exact : (n : ℕ) (args : List Bytes) → accepts (exact_args n) args ≡ (length args == n)
  pub accepts_minimum :
      (n : ℕ) (args : List Bytes) → accepts (minimum_args n) args ≡ leb n (length args)
  pub accepts_none : (args : List Bytes) → accepts no_args args ≡ (length args == 0)
