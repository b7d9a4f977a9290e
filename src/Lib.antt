-- ===== src/Lib.antt =====
-- cocoon-macos: a command line that runs macOS guests under qemu, as a model with its theorems.
--
-- The program keeps one directory per machine with a record (vm.json), the disks and qemu's sockets.
-- A command takes the machine's lock, reads the record, finds out whether a qemu runs on the
-- machine's disk, calls qemu, qemu-img and cocoon's network providers, and writes the record again.
--
-- The files, by the part of the repository that they model:
-- - Base, Text, FilePath, Fault, Io: lists, numbers, Go's strings as lists of bytes, the paths of
--   path/filepath, Go's errors, and effects: a function from a state to a result and a state.
-- - Qemu/Launch: qemu/launch.go (Spec.Args). Qemu/Options is a reader of command lines by the
--   conventions that qemu documents; the theorems compare the two.
-- - Qemu/Smbios: qemu/smbios.go. Qemu/Snapshot: qemu/snapshot.go. Qemu/Nbd,
--   Qemu/Inject, Qemu/Plist: the nbd devices, InjectConfig and the property list of qemu/inject.go.
-- - Cli, Vm/Commands, Image/Commands: the commands with their flags and handlers, in cmd/vm/commands.go,
--   cmd/image/commands.go, and GCCommand of cmd/vm/gc.go.
-- - Home: home/home.go and resolvePaths of cmd/root.go.
-- - Vm/Record, Vm/Store: the record of cmd/vm/handler.go, and the file, the directory and the locks
--   of a machine in cmd/vm/utils.go and home/home.go.
-- - Vm/DataDisk: cmd/vm/datadisk.go (parseDataDisks and its loops).
-- - Procutil: internal/procutil/terminate.go.
-- - Vm/Monitor, Vm/Process: the monitor and the qemu process in cmd/vm/utils.go.
-- - Vm/Vnc, Vm/VncProxy, Vm/VncPipe: cmd/vm/vnc.go. Vm/Net: cmd/vm/net_linux.go.
-- - Vm/Provision, Vm/Create: the checks of flags, the scaffold and create in cmd/vm/lifecycle.go and
--   cmd/vm/utils.go, with the provisioning lock of cmd/vm/gc.go. Vm/Clone: cmd/vm/clone.go.
-- - Vm/Lifecycle: launch, Start, Stop and RM of cmd/vm/lifecycle.go.
-- - Vm/Snapshot: cmd/vm/snapshot.go. Vm/Gc: cmd/vm/gc.go and gc_linux.go. Vm/Query: cmd/vm/query.go.
-- - Image/Layer, Image/Registry: cmd/image/oci.go. Image/Pull, Image/Store: cmd/image/handler.go.
-- - Home/Tests, Qemu/Tests, Image/Tests, Vm/Tests: examples, and the small hosts they run on.
--
-- What is outside the repository is a field of a record: Host (Vm/Host), NbdHost (Qemu/Inject), which
-- is a field of Host, or ImageHost (Image/Registry). They hold the operating system, the external
-- programs and cocoon's libraries, on a state that the model does not look into. What a theorem needs
-- of them is a hypothesis: that calls leave a view of the state alone, or a record of laws: Images
-- (what qemu-img does to snapshots), Frame (a view that only removals and qemu-img change), Records (a
-- record that was written is read again), Locks (what file locks do), FlagSet and ArgsChecks (cobra).
-- What runs at the same time is a step relation on processes that take and give back locks
-- (Vm/Store/Processes). The two goroutines that copy a connection of the VNC proxy (Vm/VncPipe), up to
-- the end of the first, are a parameter.
-- A call that changes its record returns the new one. Log lines and what is printed are left out, and
-- so is the cancellation of a command, but for the search for an nbd device and the wait between two
-- attempts of a pull; a deadline is the end of the reads that it allows.
--
-- Every loop is a recursion on a list, but for three: the search for a free disk name has as many
-- tries as there are used names, which is enough, since one more name than these is free; the search
-- for an nbd device counts sixteen devices down, and a pull counts three attempts. A panic is an error
-- of its own. Integers are unbounded; no operation on them comes near the end of Go's range.
--
-- Not modelled: what the image store and the registry do inside, cocoon's orchestrator and its
-- collectors, how cobra reads a command line, the texts of the help, the set-up of the log, the
-- writing of tables and JSON, and the stubs for other systems.
pub mod Base
pub mod Text
pub mod Fault
pub mod Io
pub mod FilePath
pub mod Cli
pub mod Home
pub mod Procutil
pub mod Qemu
pub mod Image
pub mod Vm
