-- ===== src/Vm/Store/Latest.antt =====
-- Of the locks that processes want next, the last in the order.
use cocoon_macos.Base.{
  Bool, true, false, not, ◌&&◌, List, [], ◌∷◌, ◌≡◌, refl, sym, ap, ◌⊎◌, inl, inr, arith, any, all,
  Bool-cases,
}
use cocoon_macos.Text.{Bytes, text_eq, text_lt}
use cocoon_macos.Text.Laws.{text_eq_iff, text_eq_refl}
use cocoon_macos.Vm.Store.Order.{text_lt_irrefl, text_lt_trans}
use cocoon_macos.Vm.Store.Processes.{Process, is_empty, is_finished}

-- the head of what a process wants is not behind a directory
abbrev pub not_behind : Bytes → List Bytes → Bool
not_behind dir [] = true
not_behind dir (x ∷ xs) = not (text_lt dir x)

abbrev pub wants : Bytes → List Bytes → Bool
wants dir [] = false
wants dir (x ∷ xs) = text_eq dir x

not_behind_trans :
    (dir later : Bytes) (ws : List Bytes)
    → text_lt dir later ≡ true
    → not_behind dir ws ≡ true
    → not_behind later ws ≡ true
not_behind_trans dir later [] l h = refl
not_behind_trans dir later (x ∷ xs) l h = ground (arith, text_lt_trans dir later x)

pub wants-eq :
    (dir : Bytes) (ws : List Bytes) → wants dir ws ≡ true → (rest : List Bytes) × (ws ≡ dir ∷ rest)
wants-eq dir [] h = cc
wants-eq dir (x ∷ xs) h = (xs, ap (λ d. d ∷ xs) (sym ((text_eq_iff dir x).0 h)))

-- the last directory that is wanted next, if one is
abbrev pub Latest : List Process → Type 0
Latest ps =
    (dir : Bytes) × (any (λ p. wants dir p.wanted) ps ≡ true)
    × (all (λ p. not_behind dir p.wanted) ps ≡ true)

idle-not_behind : (dir : Bytes) (ws : List Bytes) → is_empty ws ≡ true → not_behind dir ws ≡ true
idle-not_behind dir [] h = refl
idle-not_behind dir (x ∷ xs) h = cc

all-idle :
    (dir : Bytes) (ps : List Process)
    → all (λ p. is_empty p.wanted) ps ≡ true
    → all (λ p. not_behind dir p.wanted) ps ≡ true
all-idle dir [] h = refl
all-idle dir (p ∷ ps) h = ground (arith, idle-not_behind dir p.wanted, all-idle dir ps)

all-later :
    (dir later : Bytes) (ps : List Process)
    → text_lt dir later ≡ true
    → all (λ p. not_behind dir p.wanted) ps ≡ true
    → all (λ p. not_behind later p.wanted) ps ≡ true
all-later dir later [] l h = refl
all-later dir later (p ∷ ps) l h =
    ground (arith, not_behind_trans dir later p.wanted l, all-later dir later ps l)

Latest-step :
    (held : List Bytes) (dir : Bytes) (dirs : List Bytes) (ps : List Process)
    → (all (λ p. is_empty p.wanted) ps ≡ true) ⊎ Latest ps
    → Latest (record { held = held; wanted = dir ∷ dirs } ∷ ps)
Latest-step held dir dirs ps (inl idle) = (
  dir,
  ground (arith, text_eq_refl dir),
  ground (arith, text_lt_irrefl dir, all-idle dir ps idle),
)
Latest-step held dir dirs ps (inr (d, a, b)) = elim (Bool-cases (text_lt d dir)) [
  | inl less ↦ (
    dir,
    ground (arith, text_eq_refl dir),
    ground (arith, text_lt_irrefl dir, all-later d dir ps less b),
  )
  | inr more ↦ (d, ground arith, ground arith)
]

Latest-of :
    (held wanted : List Bytes) (ps : List Process)
    → (all (λ p. is_empty p.wanted) ps ≡ true) ⊎ Latest ps
    → (all (λ p. is_empty p.wanted) (record { held = held; wanted = wanted } ∷ ps) ≡ true)
      ⊎ Latest (record { held = held; wanted = wanted } ∷ ps)
Latest-of held [] ps (inl idle) = inl idle
Latest-of held [] ps (inr (d, a, b)) = inr (d, a, b)
Latest-of held (dir ∷ dirs) ps found = inr (Latest-step held dir dirs ps found)

pub latest : (ps : List Process) → (all (λ p. is_empty p.wanted) ps ≡ true) ⊎ Latest ps
latest [] = inl refl
latest (p ∷ ps) = Latest-of p.held p.wanted ps (latest ps)

abbrev pub can_give : Process → Bool
can_give p = is_empty p.wanted && not (is_empty p.held)

pub all-is_finished :
    (ps : List Process)
    → all (λ p. is_empty p.wanted) ps ≡ true
    → any can_give ps ≡ false
    → all is_finished ps ≡ true
all-is_finished [] h g = refl
all-is_finished (p ∷ ps) h g = ground (arith, all-is_finished ps)
