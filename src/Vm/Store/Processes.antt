-- ===== src/Vm/Store/Processes.antt =====
-- Commands that run at the same time and take the locks of machines (cmd/vm/utils.go), as processes.
use cocoon_macos.Base.{Bool, true, false, ◌&&◌, List, [], ◌∷◌, ◌++◌, if◌then◌else◌, ◌≡◌, any}
use cocoon_macos.Text.{Bytes, text_eq, text_lt}
use cocoon_macos.Io.{Io}
use cocoon_macos.Vm.Host.{Host}
use cocoon_macos.Vm.Store.{vm_lock_path, with_vm_lock, with_vm_locks}

-- what a command runs under: the lock of one machine, or the locks of a pair
pub data Request : Type 0 where
  one : Bytes → Request
  pair : Bytes → Bytes → Request

abbrev pub run_request : (host : Host) {A : Type 0} → Request → Io host.World A → Io host.World A
run_request host (one a) fn = with_vm_lock host a fn
run_request host (pair a b) fn = with_vm_locks host a b fn

-- the directories whose locks are taken, in order
abbrev pub order : Request → List Bytes
order (one a) = a ∷ []
order (pair a b) = if text_eq a b then a ∷ [] else if text_lt b a then b ∷ a ∷ [] else a ∷ b ∷ []

-- locks that are taken one after the other around a body
abbrev pub locked : (host : Host) {A : Type 0} → List Bytes → Io host.World A → Io host.World A
locked host [] fn = fn
locked host (dir ∷ dirs) fn = with_vm_lock host dir (locked host dirs fn)

-- a process: the directories whose locks it holds, and those whose locks it takes yet
pub record Process : Type 0 where
  pub held : List Bytes
  pub wanted : List Bytes

abbrev pub started : Request → Process
started r = record { held = []; wanted = order r }

abbrev pub is_empty : List Bytes → Bool
is_empty [] = true
is_empty (x ∷ xs) = false

abbrev pub is_finished : Process → Bool
is_finished p = is_empty p.held && is_empty p.wanted

-- whether a process holds the lock file of a directory
unfoldable pub holds_file : Bytes → Process → Bool
holds_file dir p = any (λ h. text_eq (vm_lock_path h) (vm_lock_path dir)) p.held

-- One process takes the next lock, which nobody holds; or, done with its work, gives back the lock that
-- it took last.
pub data Move (ps : List Process) : List Process → Type 0 where
  takes :
      (before after : List Process) (p : Process) (dir : Bytes) (dirs : List Bytes)
      → ps ≡ before ++ (p ∷ after)
      → p.wanted ≡ dir ∷ dirs
      → any (holds_file dir) ps ≡ false
      → Move ps (before ++ (record { held = p.held ++ dir ∷ []; wanted = dirs } ∷ after))
  gives_back :
      (before after : List Process) (p : Process) (dirs : List Bytes) (dir : Bytes)
      → ps ≡ before ++ (p ∷ after)
      → p.wanted ≡ []
      → p.held ≡ dirs ++ dir ∷ []
      → Move ps (before ++ (record { held = dirs; wanted = [] } ∷ after))

-- the states that processes can reach, also when one gives up to wait for a lock
pub data Reached (ps : List Process) : List Process → Type 0 where
  at_first : Reached ps ps
  moved : {qs rs : List Process} → Reached ps qs → Move qs rs → Reached ps rs
  gave_up :
      (before after : List Process) (p : Process)
      → Reached ps (before ++ (p ∷ after))
      → Reached ps (before ++ (record p { wanted = [] } ∷ after))

-- moves alone
pub data Moves : List Process → List Process → Type 0 where
  stay : {ps : List Process} → Moves ps ps
  onward : {ps qs rs : List Process} → Move ps qs → Moves qs rs → Moves ps rs
