-- ===== src/Vm/Commands.antt =====
-- cmd/vm/commands.go and GCCommand of cmd/vm/gc.go: the commands on machines, with their flags, and the
-- handler that each one runs.
pub mod Served
pub mod Defaults
use cocoon_macos.Base.{ℕ, Bool, true, false, List, [], ◌∷◌, Option, pos, negsuc, map}
use cocoon_macos.Text.{Bytes, codes}
use cocoon_macos.Io.{Io, pure, lift, ◌>>=◌, ◌>>◌}
use cocoon_macos.Cli.{
  FlagDefault, int, text, boolean, texts, FlagSpec, flag_of, ArgsRule, exact_args, minimum_args,
  no_args, unchecked, Command, first_arg,
}
use cocoon_macos.Vm.Host.{Host, Flags, Provider}
use cocoon_macos.Vm.Lifecycle.{start, stop, rm}
use cocoon_macos.Vm.Create.{create_vm}
use cocoon_macos.Vm.Clone.{clone_vm}
use cocoon_macos.Vm.Snapshot.{snapshot, restore}
use cocoon_macos.Vm.Query.{list_vms, inspect_vm, console}
use cocoon_macos.Vm.Gc.Sweep.{GcModule, sweep}

-- the values of `RunE`
pub data Handler : Type 0 where
  create_handler : Handler
  run_handler : Handler
  start_handler : Handler
  stop_handler : Handler
  list_handler : Handler
  inspect_handler : Handler
  console_handler : Handler
  rm_handler : Handler
  snapshot_handler : Handler
  restore_handler : Handler
  clone_handler : Handler
  vnc_proxy_handler : Handler
  gc_handler : Handler

-- `addVMFlags`
unfoldable pub add_vm_flags : List FlagSpec
add_vm_flags =
    record { name = codes "name"; shorthand = codes "n"; default = text [] }
    ∷ flag_of (codes "cpus") (int (pos 4))
    ∷ flag_of (codes "memory") (text (codes "8192"))
    ∷ flag_of (codes "storage") (text [])
    ∷ flag_of (codes "hugepages") (boolean false)
    ∷ flag_of (codes "exit-on-reboot") (boolean false)
    ∷ flag_of (codes "data-disk") texts
    ∷ flag_of (codes "vnc") (int (negsuc 0))
    ∷ flag_of (codes "ssh-port") (int (pos 0))
    ∷ flag_of (codes "opencore") (text [])
    ∷ flag_of (codes "ovmf-code") (text [])
    ∷ flag_of (codes "ovmf-vars") (text [])
    ∷ flag_of (codes "random-smbios") (boolean false)
    ∷ flag_of (codes "vnc-password") (text [])
    ∷ flag_of (codes "net") (text (codes "user"))
    ∷ flag_of (codes "tap") (text [])
    ∷ flag_of (codes "bridge") (text [])
    ∷ flag_of (codes "cni-conf-dir") (text [])
    ∷ flag_of (codes "cni-bin-dir") (text [])
    ∷ []

abbrev cni_flags : List FlagSpec
cni_flags = flag_of (codes "cni-conf-dir") (text []) ∷ flag_of (codes "cni-bin-dir") (text []) ∷ []

abbrev shown : Bytes → ArgsRule → List FlagSpec → Handler → Command Handler
shown use_line args flags handler = record {
  use_line = use_line;
  aliases = [];
  args = args;
  flags = flags;
  hidden = false;
  run = handler;
}

-- `vncProxyCommand`
unfoldable pub vnc_proxy_command : Command Handler
vnc_proxy_command = record {
  use_line = codes "_vnc-proxy <unix-sock>";
  aliases = [];
  args = exact_args 1;
  flags = [];
  hidden = true;
  run = vnc_proxy_handler;
}

-- `GCCommand`
unfoldable pub gc_command : Command Handler
gc_command = shown (codes "gc") no_args cni_flags gc_handler

-- The command of each handler; `format_flags` are the ones that cocoon's `AddFormatFlag` declares.
module _ (format_flags : List FlagSpec) where
  unfoldable pub command_of : Handler → Command Handler
  unfolding add_vm_flags vnc_proxy_command gc_command
  command_of create_handler =
      shown (codes "create [flags] IMAGE") (exact_args 1) add_vm_flags create_handler
  command_of run_handler = shown (codes "run [flags] IMAGE") (exact_args 1) add_vm_flags run_handler
  command_of start_handler =
      shown (codes "start VM [VM...]") (minimum_args 1)
        (flag_of (codes "vnc") (int (negsuc 0)) ∷ flag_of (codes "vnc-password") (text []) ∷ [])
        start_handler
  command_of stop_handler =
      shown (codes "stop VM [VM...]") (minimum_args 1)
        (flag_of (codes "force") (boolean false) ∷ []) stop_handler
  command_of list_handler = record {
    use_line = codes "list";
    aliases = codes "ls" ∷ [];
    args = unchecked;
    flags = format_flags;
    hidden = false;
    run = list_handler;
  }
  command_of inspect_handler = shown (codes "inspect VM") (exact_args 1) [] inspect_handler
  command_of console_handler = shown (codes "console VM") (exact_args 1) [] console_handler
  command_of rm_handler =
      shown (codes "rm VM [VM...]") (minimum_args 1)
        (flag_of (codes "force") (boolean false) ∷ cni_flags) rm_handler
  command_of snapshot_handler =
      shown (codes "snapshot VM") (exact_args 1) (flag_of (codes "tag") (text []) ∷ [])
        snapshot_handler
  command_of restore_handler =
      shown (codes "restore VM") (exact_args 1)
        (flag_of (codes "tag") (text [])
          ∷ flag_of (codes "force") (boolean false)
          ∷ flag_of (codes "vnc-password") (text [])
          ∷ [])
        restore_handler
  command_of clone_handler = shown (codes "clone SRC") (exact_args 1) add_vm_flags clone_handler
  command_of vnc_proxy_handler = vnc_proxy_command
  command_of gc_handler = gc_command

  -- `Command`: the commands of the group `vm`
  unfoldable pub vm_commands : List (Command Handler)
  vm_commands = map command_of (
      vnc_proxy_handler ∷ create_handler ∷ run_handler ∷ start_handler ∷ stop_handler ∷ list_handler
      ∷ inspect_handler ∷ console_handler ∷ rm_handler ∷ snapshot_handler ∷ restore_handler
      ∷ clone_handler ∷ [])

-- The handlers, over what runs the proxy of a socket, and cocoon's orchestrator.
module _ (host : Host) (run_proxy : Bytes → Io host.World (Unit {0})) (stale_temp_age : ℕ)
    (orchestrate : GcModule host.World → Option Provider → Io host.World (Unit {0})) where
  -- `Create` and `Run`
  unfoldable pub create_image : Flags → List Bytes → Io host.World (Unit {0})
  create_image flags args = do image ← lift (first_arg args); create_vm host flags image false

  unfoldable pub run_image : Flags → List Bytes → Io host.World (Unit {0})
  run_image flags args = do image ← lift (first_arg args); create_vm host flags image true

  -- `GC`
  unfoldable pub gc : Flags → Io host.World (Unit {0})
  gc flags = sweep host stale_temp_age flags orchestrate

  unfoldable pub handle : Handler → Flags → List Bytes → Io host.World (Unit {0})
  handle create_handler flags args = create_image flags args
  handle run_handler flags args = run_image flags args
  handle start_handler flags args = start host flags args
  handle stop_handler flags args = stop host flags args
  handle list_handler flags args = do shown ← list_vms host flags; pure tt
  handle inspect_handler flags args = do
    name ← lift (first_arg args)
    shown ← inspect_vm host flags name
    pure tt
  handle console_handler flags args = do
    name ← lift (first_arg args)
    shown ← console host flags name
    pure tt
  handle rm_handler flags args = rm host flags args
  handle snapshot_handler flags args = do name ← lift (first_arg args); snapshot host flags name
  handle restore_handler flags args = do name ← lift (first_arg args); restore host flags name
  handle clone_handler flags args = do name ← lift (first_arg args); clone_vm host flags name
  handle vnc_proxy_handler flags args = do sock ← lift (first_arg args); run_proxy sock
  handle gc_handler flags args = gc flags
