-- ===== src/Vm/Store/Finish.antt =====
-- cmd/vm/utils.go: commands that wait for the locks of machines never wait for each other for ever.
use cocoon_macos.Base.{
  ℕ, zero, suc, ◌+◌, ◌*◌, ◌<◌, true, List, [], ◌∷◌, ◌++◌, ◌≡◌, refl, ap, ◌∙◌, inl, inr, arith, all,
  length, length-append, Bool-cases, map,
}
use cocoon_macos.Text.{Bytes, text_eq, text_lt, contains}
use cocoon_macos.Io.{Io}
use cocoon_macos.Vm.Host.{Host}
use cocoon_macos.Vm.Store.{vm_lock_path, with_vm_locks}
use cocoon_macos.Vm.Store.Order.{text_lt_other, text_eq_comm}
use cocoon_macos.Vm.Store.Processes.{
  Request, one, pair, run_request, order, locked, Process, started, is_finished, Move, takes,
  gives_back, Reached, Moves, stay, onward,
}
use cocoon_macos.Vm.Store.Ascending.{ascending}
use cocoon_macos.Vm.Store.Progress.{is_ordered, progress, Move-is_ordered, Reached-is_ordered}

-- A command takes the locks of its request one after the other, in the request's order.
run_request-locked :
    (host : Host) {A : Type 0} (r : Request) (fn : Io host.World A)
    → run_request host r fn ≡ locked host (order r) fn
unfolding with_vm_locks
run_request-locked host (one a) fn = refl
run_request-locked host (pair a b) fn = elim (Bool-cases (text_eq a b)) [
  | inl e ↦ rw (e) refl
  | inr n ↦ elim (Bool-cases (text_lt b a)) [ inl l ↦ rw (n, l) refl | inr g ↦ rw (n, g) refl ]
]

-- what is left to do: every lock is taken and given back
abbrev work_of : Process → ℕ
work_of p = 2 * length p.wanted + length p.held

work : List Process → ℕ
work [] = 0
work (p ∷ ps) = work_of p + work ps

work-append :
    (before after : List Process) (p : Process)
    → work (before ++ (p ∷ after)) ≡ work before + (work_of p + work after)
unfolding work
work-append [] after p = omega arith
work-append (q ∷ before) after p = omega (arith, work-append before after p)

Move-work : (ps : List Process) {qs : List Process} → Move ps qs → work qs < work ps
Move-work ps (takes before after p dir rest e w free) =
    let taken : Process = record { held = p.held ++ dir ∷ []; wanted = rest } in
    omega (
      arith,
      ap work e,
      work-append before after p,
      work-append before after taken,
      ap length w,
      length-append p.held (dir ∷ []),
    )
Move-work ps (gives_back before after p ys y e w s) =
    let left : Process = record { held = ys; wanted = [] } in
    omega (
      arith,
      ap work e,
      work-append before after p,
      work-append before after left,
      ap length w,
      ap length s,
      length-append ys (y ∷ []),
    )

Moves-finish :
    (dirs : List Bytes)
    (own_files : (a b : Bytes)
      → contains dirs a ≡ true
      → contains dirs b ≡ true
      → vm_lock_path a ≡ vm_lock_path b
      → a ≡ b)
    (fuel : ℕ) (ps : List Process)
    → work ps < fuel
    → all (is_ordered dirs) ps ≡ true
    → (qs : List Process) × Moves ps qs × (all is_finished qs ≡ true)
Moves-finish dirs own_files zero ps h o = elim h [ ]
Moves-finish dirs own_files (suc fuel) ps h o = elim (progress dirs own_files ps o) [
  | inl done ↦ (ps, stay, done)
  | inr (qs, m) ↦
      let (rs, ms, done) =
        Moves-finish dirs own_files fuel qs (omega (arith, Move-work ps m))
          (Move-is_ordered dirs ps m o) in
      (rs, onward m ms, done)
]

order-ascending : (r : Request) → ascending (order r) ≡ true
order-ascending (one a) = refl
order-ascending (pair a b) = elim (Bool-cases (text_eq a b)) [
  | inl e ↦ rw e refl
  | inr n ↦ elim (Bool-cases (text_lt b a)) [
    | inl l ↦ rw (n, l) (rw l refl)
    | inr g ↦
        let less : text_lt a b ≡ true = text_lt_other b a (text_eq_comm b a ∙ n) g in
        rw (n, g) (rw less refl)
  ]
]

all-started :
    (dirs : List Bytes) (rs : List Request)
    → all (λ r. all (contains dirs) (order r)) rs ≡ true
    → all (is_ordered dirs) (map started rs) ≡ true
all-started dirs [] h = refl
all-started dirs (r ∷ rs) h = ground (arith, order-ascending r, all-started dirs rs)

-- A command on one machine or on a pair takes the locks one after the other in the order of its request;
-- and where the directories have lock files of their own: from every state that commands on them can
-- reach, also when some of them gave up to wait, moves lead to a state in which all have ended and hold
-- no lock.
pub run_request-finishes :
    (host : Host) {A : Type 0} (r : Request) (fn : Io host.World A) (dirs : List Bytes)
    (rs : List Request) {ps : List Process}
    → ((a b : Bytes)
        → contains dirs a ≡ true
        → contains dirs b ≡ true
        → vm_lock_path a ≡ vm_lock_path b
        → a ≡ b)
    → all (λ r. all (contains dirs) (order r)) rs ≡ true
    → Reached (map started rs) ps
    → (run_request host r fn ≡ locked host (order r) fn)
      × ((qs : List Process) × Moves ps qs × (all is_finished qs ≡ true))
run_request-finishes host r fn dirs rs {ps} own_files among reached = (
  run_request-locked host r fn,
  Moves-finish dirs own_files (suc (work ps)) ps (omega arith)
      (Reached-is_ordered dirs (map started rs) (all-started dirs rs among) reached),
)
