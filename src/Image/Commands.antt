-- ===== src/Image/Commands.antt =====
-- cmd/image/commands.go: the commands on images, and the handler that each one runs.
use cocoon_macos.Base.{Bool, false, List, [], ◌∷◌, map}
use cocoon_macos.Text.{Bytes, codes}
use cocoon_macos.Fault.{panic}
use cocoon_macos.Io.{Io, pure, throw, ◌>>=◌, ◌>>◌}
use cocoon_macos.Cli.{boolean, FlagSpec, flag_of, exact_args, minimum_args, unchecked, Command}
use cocoon_macos.Image.Registry.{ImageHost}
use cocoon_macos.Image.Pull.{open_store, pull}
use cocoon_macos.Image.Store.{list_images, inspect, rm_images}

-- the values of `RunE`
pub data ImageHandler : Type 0 where
  pull_handler : ImageHandler
  list_handler : ImageHandler
  inspect_handler : ImageHandler
  rm_handler : ImageHandler

-- The command of each handler; `format_flags` are the ones that cocoon's `AddFormatFlag` declares.
module _ (format_flags : List FlagSpec) where
  unfoldable pub image_command_of : ImageHandler → Command ImageHandler
  image_command_of pull_handler = record {
    use_line = codes "pull REF";
    aliases = [];
    args = exact_args 1;
    flags = flag_of (codes "force") (boolean false) ∷ [];
    hidden = false;
    run = pull_handler;
  }
  image_command_of list_handler = record {
    use_line = codes "list";
    aliases = codes "ls" ∷ [];
    args = unchecked;
    flags = format_flags;
    hidden = false;
    run = list_handler;
  }
  image_command_of inspect_handler = record {
    use_line = codes "inspect REF";
    aliases = [];
    args = exact_args 1;
    flags = [];
    hidden = false;
    run = inspect_handler;
  }
  image_command_of rm_handler = record {
    use_line = codes "rm REF [REF...]";
    aliases = [];
    args = minimum_args 1;
    flags = [];
    hidden = false;
    run = rm_handler;
  }

  -- `Command`: the commands of the group `image`
  unfoldable pub image_commands : List (Command ImageHandler)
  image_commands =
      map image_command_of (pull_handler ∷ list_handler ∷ inspect_handler ∷ rm_handler ∷ [])

-- The handlers, of the state root and the flag --force; `Pull` and `Inspect` read `args[0]` once the
-- store is open.
module _ {W : Type 0} (host : ImageHost W) (dir : Bytes) where
  unfoldable pub handle_image : ImageHandler → Bool → List Bytes → Io W (Unit {0})
  handle_image pull_handler force [] = open_store host dir >> throw panic
  handle_image pull_handler force (ref ∷ args) = pull host dir ref force
  handle_image list_handler force args = do shown ← list_images host dir; pure tt
  handle_image inspect_handler force [] = open_store host dir >> throw panic
  handle_image inspect_handler force (ref ∷ args) = do shown ← inspect host dir ref; pure tt
  handle_image rm_handler force args = rm_images host dir args
