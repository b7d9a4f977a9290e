-- ===== src/Vm/Monitor/Replies.antt =====
-- `hmpReplied` against its description by filtering, and what `readUntil` returns.
use cocoon_macos.Base.{
  Bool, true, false, List, [], ◌∷◌, ◌++◌, ◌≡◌, refl, ◌∙◌, arith, if◌then◌else◌, Bool-cases, inl,
  inr, append_assoc,
}
use cocoon_macos.Text.{Bytes, has_substring, split}
use cocoon_macos.Vm.Host.{Read}
use cocoon_macos.Vm.Monitor.{is_significant, replied, hmp_replied, trim_all, read_until}

-- the lines that say something
abbrev pub significant : List Bytes → List Bytes
significant [] = []
significant (l ∷ ls) = if is_significant l then l ∷ significant ls else significant ls

-- all but the first line that holds a text
abbrev pub without_echo : Bytes → List Bytes → List Bytes
without_echo echo [] = []
without_echo echo (l ∷ ls) = if has_substring l echo then ls else l ∷ without_echo echo ls

abbrev pub is_nonempty : List Bytes → Bool
is_nonempty [] = false
is_nonempty (l ∷ ls) = true

replied-echoed :
    (echo : Bytes) (ls : List Bytes) → replied echo true ls ≡ is_nonempty (significant ls)
unfolding replied
replied-echoed echo [] = refl
replied-echoed echo (l ∷ ls) = ground (arith, replied-echoed echo ls)

replied-without_echo :
    (echo : Bytes) (ls : List Bytes)
    → replied echo false ls ≡ is_nonempty (without_echo echo (significant ls))
unfolding replied
replied-without_echo echo [] = refl
replied-without_echo echo (l ∷ ls) =
    ground (arith, replied-without_echo echo ls, replied-echoed echo ls)

-- The monitor counts as having replied exactly if a line is left of its output when the blank lines
-- and the prompts are dropped, and then the first line that holds the command.
pub hmp_replied_lem :
    (out echo : Bytes)
    → hmp_replied out echo
      ≡ is_nonempty (without_echo echo (significant (trim_all (split b'\n' out))))
unfolding hmp_replied
hmp_replied_lem out echo = replied-without_echo echo (trim_all (split b'\n' out))

-- the bytes of some reads
abbrev pub chunks : List Read → Bytes
chunks [] = []
chunks ((chunk, failed) ∷ reads) = chunk ++ chunks reads

-- If the marker was seen, what was read holds it, and no byte is lost: what was read and what is left
-- to read are together the bytes of the connection.
pub read_until-chunks :
    (marker acc : Bytes) (reads : List Read)
    → (read_until marker acc reads).1 ≡ true
    → (has_substring (read_until marker acc reads).0 marker ≡ true)
      × ((read_until marker acc reads).0 ++ chunks (read_until marker acc reads).2
          ≡ acc ++ chunks reads)
unfolding read_until
read_until-chunks marker acc [] h = cc
read_until-chunks marker acc ((chunk, failed) ∷ reads) h =
    elim (Bool-cases (has_substring (acc ++ chunk) marker)) [
      | inl seen ↦ rw seen (seen, append_assoc acc chunk (chunks reads))
      | inr unseen ↦ elim (Bool-cases failed) [
        | inl end ↦ absurd (ground arith)
        | inr more ↦
            let (m, e) = read_until-chunks marker (acc ++ chunk) reads (ground arith) in
            rw (unseen, more) (m, e ∙ append_assoc acc chunk (chunks reads))
      ]
    ]
