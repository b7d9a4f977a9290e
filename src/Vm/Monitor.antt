-- ===== src/Vm/Monitor.antt =====
-- cmd/vm/utils.go: a command to qemu's human monitor, and what its answer says.
pub mod Replies
use cocoon_macos.Base.{ℕ, Bool, true, false, not, ◌&&◌, ◌||◌, List, [], ◌∷◌, ◌++◌, if◌then◌else◌}
use cocoon_macos.Text.{Bytes, codes, is_set, has_prefix, has_substring, split}
use cocoon_macos.Text.Space.{trim_space}
use cocoon_macos.Fault.{Result, ok, err}
use cocoon_macos.Io.{Io, pure, rewrap, reject, finally, ◌>>=◌, ◌>>◌}
use cocoon_macos.Vm.Host.{Host, Read}

abbrev pub hmp_prompt : Bytes
hmp_prompt = codes "(qemu) "

-- `readUntil`: the bytes, whether the marker was seen, and the reads that are left. No read is left
-- when the deadline has passed.
unfoldable pub read_until : Bytes → Bytes → List Read → Bytes × Bool × List Read
read_until marker acc [] = (acc, false, [])
read_until marker acc ((chunk, failed) ∷ reads) =
    let more = read_until marker (acc ++ chunk) reads in
    if has_substring (acc ++ chunk) marker
    then (acc ++ chunk, true, reads)
    else if failed
    then (acc ++ chunk, false, reads)
    else more

-- a line that is neither blank nor a prompt
unfoldable pub is_significant : Bytes → Bool
is_significant line = is_set line && not (has_prefix line (codes "(qemu)"))

-- the loop of `hmpReplied` over trimmed lines
unfoldable pub replied : Bytes → Bool → List Bytes → Bool
replied echo echoed [] = false
replied echo echoed (line ∷ lines) =
    let skip = replied echo echoed lines in
    let next = replied echo true lines in
    if not (is_significant line)
    then skip
    else if not echoed && has_substring line echo
    then next
    else true

abbrev pub trim_all : List Bytes → List Bytes
trim_all [] = []
trim_all (line ∷ lines) = trim_space line ∷ trim_all lines

-- `hmpReplied`
unfoldable pub hmp_replied : Bytes → Bytes → Bool
hmp_replied out echo = replied echo false (trim_all (split b'\n' out))

module _ (host : Host) where
  open host use {World, dial_monitor, send_line, close_monitor}

  -- what `hmpCommand` does on a connection with these first reads
  unfoldable pub converse : Bytes → Bytes → List Read → Io World Bytes
  converse mon_sock line reads = do
    let greeting = read_until hmp_prompt [] reads
    reject (not greeting.1) "monitor prompt not seen"
    more ← rewrap "send %s: %w" (send_line mon_sock (line ++ (b'\n' ∷ [])))
    let answer = read_until hmp_prompt [] (greeting.2 ++ more)
    reject (not answer.1) "monitor closed before answering %s"
    pure answer.0

  -- `hmpCommand`
  unfoldable pub hmp_command : Bytes → Bytes → Io World Bytes
  hmp_command mon_sock line = do
    reads ← rewrap "dial monitor: %w" (dial_monitor mon_sock)
    finally (converse mon_sock line reads) (close_monitor mon_sock)

  -- `setVNCPassword`
  unfoldable pub set_vnc_password : Bytes → Bytes → Io World (Unit {0})
  set_vnc_password mon_sock pw = do
    out ← hmp_command mon_sock (codes "set_password vnc " ++ pw)
    reject (hmp_replied out (codes "set_password ")) "qemu rejected set_password"
