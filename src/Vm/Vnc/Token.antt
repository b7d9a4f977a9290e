-- ===== src/Vm/Vnc/Token.antt =====
-- An accepted VNC password is one token of the one line that `setVNCPassword` (cmd/vm/utils.go) sends.
use cocoon_macos.Base.{
  Bool, List, not, ap, ◌⊎◌, ℕ, ◌≤◌, true, false, [], ◌∷◌, ◌++◌, ◌≡◌, refl, sym, ◌∙◌, arith,
  Bool-cases, inl, inr, ltb, length, any, ◌==◌, ==_iff,
}
use cocoon_macos.Text.{Bytes, codes, split}
use cocoon_macos.Text.Laws.{split-plain}
use cocoon_macos.Text.Space.{has_unsafe_rune, space_width}
use cocoon_macos.Fault.{Error, Result, ok, err}
use cocoon_macos.Io.{rewrap, reject}
use cocoon_macos.Io.Ends.{after-ends, after-by}
use cocoon_macos.Io.Keeps.{Keeps, Keeps-reject}
use cocoon_macos.Vm.Host.{Host, Read}
use cocoon_macos.Vm.Monitor.{
  hmp_prompt, read_until, converse, hmp_command, hmp_replied, set_vnc_password,
}
use cocoon_macos.Vm.Vnc.{validate_vnc_password}

true_ne_false : ¬ (true ≡ false)
true_ne_false e = cc

split_unsafe :
    (a b : ℕ) (s : Bytes)
    → has_unsafe_rune (a ∷ b ∷ s) ≡ false
    → ((ltb 0 (space_width (a ∷ b ∷ s)) ≡ false) × (ltb a 32 ≡ false))
      × (has_unsafe_rune (b ∷ s) ≡ false)
unfolding has_unsafe_rune
split_unsafe a b s h = ((ground arith, ground arith), ground arith)

split-end :
    (sep : ℕ) (s : Bytes) → any (λ c. c == sep) s ≡ false → split sep (s ++ sep ∷ []) ≡ s ∷ [] ∷ []
unfolding split
split-end sep [] h = ground arith
split-end sep (c ∷ s) h = ground (arith, split-end sep s)

space_width-space :
    (a b : ℕ) (s : Bytes) → (a == b' ') ≡ true → ltb 0 (space_width (a ∷ b ∷ s)) ≡ true
unfolding space_width
space_width-space a b [] h = rw ((==_iff a b' ').0 h)
space_width-space a b (c ∷ s) h = rw ((==_iff a b' ').0 h)

has_unsafe_rune-space : (s : Bytes) → has_unsafe_rune s ≡ false → any (λ c. c == b' ') s ≡ false
unfolding has_unsafe_rune
has_unsafe_rune-space [] h = refl
has_unsafe_rune-space (a ∷ []) h = ground arith
has_unsafe_rune-space (a ∷ b ∷ s) h =
    let (here, rest) = split_unsafe a b s h in
    let later = has_unsafe_rune-space (b ∷ s) rest in
    elim (Bool-cases (a == b' ')) [
      | inl space ↦ absurd (true_ne_false (sym (space_width-space a b s space) ∙ here.0))
      | inr other ↦ rw other later
    ]

has_unsafe_rune-newline : (s : Bytes) → has_unsafe_rune s ≡ false → any (λ c. c == b'\n') s ≡ false
unfolding has_unsafe_rune
has_unsafe_rune-newline [] h = refl
has_unsafe_rune-newline (a ∷ []) h = ground arith
has_unsafe_rune-newline (a ∷ b ∷ s) h =
    let (here, rest) = split_unsafe a b s h in
    let later = has_unsafe_rune-newline (b ∷ s) rest in
    elim (Bool-cases (a == b'\n')) [
      | inl newline ↦ absurd (ground arith)
      | inr other ↦ rw other later
    ]

abbrev set_password_line : Bytes → Bytes
set_password_line pw = codes "set_password vnc " ++ pw

has_unsafe_rune-quote : (s : Bytes) → has_unsafe_rune s ≡ false → any (λ c. c == b'"') s ≡ false
unfolding has_unsafe_rune
has_unsafe_rune-quote [] h = refl
has_unsafe_rune-quote (a ∷ []) h = ground arith
has_unsafe_rune-quote (a ∷ b ∷ s) h = ground (arith, has_unsafe_rune-quote (b ∷ s))

validate_vnc_password-split :
    (pw : Bytes)
    → validate_vnc_password pw ≡ ok tt
    → (length pw ≤ 8)
      × (any (λ c. c == b'"') pw ≡ false)
      × (split b'\n' (set_password_line pw ++ b'\n' ∷ []) ≡ set_password_line pw ∷ [] ∷ [])
      × (split b' ' (set_password_line pw) ≡ codes "set_password" ∷ codes "vnc" ∷ pw ∷ [])
unfolding validate_vnc_password
validate_vnc_password-split pw h =
    let safe : has_unsafe_rune pw ≡ false = ground arith in
    (
      ground arith,
      has_unsafe_rune-quote pw safe,
      split-end b'\n' (set_password_line pw) (has_unsafe_rune-newline pw safe),
      unfold split in rw (split-plain b' ' pw (has_unsafe_rune-space pw safe)),
    )

-- The lines that the monitor was sent: `send_line` adds its line, and the two other calls add none.
module _ (host : Host) (sent : host.World → List Bytes)
    (send_sent : (sock line : Bytes) (w : host.World)
      → sent (host.send_line sock line w).1 ≡ sent w ++ line ∷ [])
    (keeps_dial_monitor : (sock : Bytes) → Keeps sent (host.dial_monitor sock))
    (keeps_close_monitor : (sock : Bytes) → Keeps sent (host.close_monitor sock)) where
  -- it failed and nothing was sent, or this line was sent and nothing else
  abbrev pub IsSent : {A : Type 0} → Bytes → host.World → Result A × host.World → Type 0
  IsSent line w run =
      ((e : Error) × (run.0 ≡ err e) × (sent run.1 ≡ sent w))
      ⊎ (sent run.1 ≡ sent w ++ (line ++ b'\n' ∷ []) ∷ [])

  converse-IsSent :
      (sock line : Bytes) (reads : List Read) (w u : host.World)
      → sent w ≡ sent u
      → IsSent line u (converse host sock line reads w)
  unfolding converse
  converse-IsSent sock line reads w u k =
      let greeted = reject (not (read_until hmp_prompt [] reads).1) "monitor prompt not seen" w in
      let greeted_kept : sent greeted.1 ≡ sent u = (Keeps-reject sent _ _).at w ∙ k in
      let send = rewrap "send %s: %w" (host.send_line sock (line ++ b'\n' ∷ [])) greeted.1 in
      let added =
        send_sent sock (line ++ b'\n' ∷ []) greeted.1
        ∙ ap (λ l. l ++ (line ++ b'\n' ∷ []) ∷ []) greeted_kept in
      after-ends (IsSent line u) greeted _ (λ e. inl (e, refl, greeted_kept))
        λ x e1.
          after-ends (IsSent line u) send _ (λ e. inr added)
            λ more e2.
              let seen =
                (read_until hmp_prompt [] ((read_until hmp_prompt [] reads).2 ++ more)).1 in
              let answered = (Keeps-reject sent (not seen) _).at send.1 ∙ added in
              after-ends (IsSent line u)
                (reject (not seen) "monitor closed before answering %s" send.1) _
                (λ e. inr answered) λ y e3. inr answered

  closed-IsSent :
      (sock line : Bytes) (u : host.World) (talked : Result Bytes × host.World)
      → IsSent line u talked
      → IsSent line u (talked.0, (host.close_monitor sock talked.1).1)
  closed-IsSent sock line u talked (inl (e, f, k)) =
      inl (e, f, (keeps_close_monitor sock).at talked.1 ∙ k)
  closed-IsSent sock line u talked (inr k) = inr ((keeps_close_monitor sock).at talked.1 ∙ k)

  hmp_command-IsSent :
      (sock line : Bytes) (w : host.World) → IsSent line w (hmp_command host sock line w)
  unfolding hmp_command
  hmp_command-IsSent sock line w =
      let dialed = rewrap "dial monitor: %w" (host.dial_monitor sock) w in
      let k = (keeps_dial_monitor sock).at w in
      after-ends (IsSent line w) dialed _ (λ e. inl (e, refl, k))
        λ reads e1.
          closed-IsSent sock line w (converse host sock line reads dialed.1)
            (converse-IsSent sock line reads dialed.1 w k)

  failed-IsSent :
      (line : Bytes) (w v : host.World) (e : Error)
      → IsSent {A = Bytes} line w (err e, v)
      → IsSent {A = Unit {0}} line w (err e, v)
  failed-IsSent line w v e (inl (x, f, k)) = inl (e, refl, k)
  failed-IsSent line w v e (inr k) = inr k

  replied-IsSent :
      (line : Bytes) (w v : host.World) (out : Bytes) (bad : Bool)
      → IsSent {A = Bytes} line w (ok out, v)
      → IsSent line w (reject bad "qemu rejected set_password" v)
  replied-IsSent line w v out bad (inl (e, f, k)) = cc
  replied-IsSent line w v out bad (inr k) = inr ((Keeps-reject sent bad _).at v ∙ k)

  -- Where `send_line` sends its line to the monitor, and dialing and closing send nothing: for an
  -- accepted password, `setVNCPassword` fails and has sent nothing, or has sent one text and nothing
  -- else, which is one whole line of three tokens, the last of which is the password; and the password
  -- has at most eight bytes and no double quote.
  pub set_vnc_password-sends :
      (sock pw : Bytes) (w : host.World)
      → validate_vnc_password pw ≡ ok tt
      → (length pw ≤ 8)
        × (any (λ c. c == b'"') pw ≡ false)
        × ((line : Bytes) × (split b'\n' (line ++ b'\n' ∷ []) ≡ line ∷ [] ∷ [])
            × (split b' ' line ≡ codes "set_password" ∷ codes "vnc" ∷ pw ∷ [])
            × IsSent line w (set_vnc_password host sock pw w))
  unfolding set_vnc_password
  set_vnc_password-sends sock pw w h =
      let (short, bare, whole, tokens) = validate_vnc_password-split pw h in
      let line = set_password_line pw in
      (
        short,
        bare,
        (
          line,
          whole,
          tokens,
          after-by (IsSent {A = Bytes} line w) (IsSent {A = Unit {0}} line w)
              (hmp_command host sock line w)
              (λ out. reject (hmp_replied out (codes "set_password ")) "qemu rejected set_password")
              (hmp_command-IsSent sock line w) (λ e v k. failed-IsSent line w v e k)
              λ out v k. replied-IsSent line w v out (hmp_replied out (codes "set_password ")) k,
        ),
      )
