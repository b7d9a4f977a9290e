-- ===== src/Vm/Tests/Locks.antt =====
-- Examples: two clones that take the same two locks, a sweep's snapshot, a restore, a create and a clone.
use cocoon_macos.Base.{
  true, false, some, List, [], ◌∷◌, ◌≡◌, refl, ap, sym, ◌∙◌, map, all, ◌⊎◌, inl, inr, Bool-cases,
  arith,
}
use cocoon_macos.Text.{Bytes, codes, contains, text_eq}
use cocoon_macos.Text.Laws.{text_eq_iff}
use cocoon_macos.Io.{pure}
use cocoon_macos.Vm.Store.{vm_lock_path, vm_dir}
use cocoon_macos.Vm.Record.{VmRecord}
use cocoon_macos.Vm.Clone.{clone}
use cocoon_macos.Vm.Clone.Undone.{CloneEnd, clone-CloneEnd}
use cocoon_macos.Vm.Create.{create}
use cocoon_macos.Vm.Create.Undone.{CreateEnd, create-CreateEnd}
use cocoon_macos.Vm.Store.Processes.{
  Request, pair, run_request, order, locked, Process, started, is_finished, Reached, at_first,
  moved, takes, Moves,
}
use cocoon_macos.Vm.Store.Finish.{run_request-finishes}
use cocoon_macos.Vm.Gc.Sweep.{read_db}
use cocoon_macos.Vm.Gc.Strays.{IsSnapshot, read_db-IsSnapshot}
use cocoon_macos.Vm.Snapshot.{restore_vm}
use cocoon_macos.Vm.Snapshot.Whole.{IsWhole, restore_vm-IsWhole}
use cocoon_macos.Fault.{Result, ok}
use cocoon_macos.Vm.Host.{Flags}
use cocoon_macos.Vm.Tests.Toy.{Desk, toy, desk, toy_flags, toy_record}
use cocoon_macos.Vm.Tests.Toy.Laws.{frame_of}

abbrev m : Bytes
m = codes "/vms/m"

abbrev n : Bytes
n = codes "/vms/n"

-- one clones m to n, the other n to m
abbrev clones : List Request
clones = pair m n ∷ pair n m ∷ []

one_of : (a : Bytes) → contains (m ∷ n ∷ []) a ≡ true → (a ≡ m) ⊎ (a ≡ n)
unfolding contains
one_of a h = elim (Bool-cases (text_eq a m)) [
  | inl e ↦ inl ((text_eq_iff a m).0 e)
  | inr d ↦ inr ((text_eq_iff a n).0 (ground arith))
]

differ : text_eq (vm_lock_path m) (vm_lock_path n) ≡ false
unfolding text_eq vm_lock_path cocoon_macos.FilePath.join_path cocoon_macos.FilePath.parent
    cocoon_macos.FilePath.base
differ = refl

not-same : vm_lock_path m ≡ vm_lock_path n → ⊥
not-same e =
    let same : text_eq (vm_lock_path m) (vm_lock_path n) ≡ true =
      (text_eq_iff (vm_lock_path m) (vm_lock_path n)).1 e in
    ground (arith, differ)

own_files_of :
    (a b : Bytes) → (a ≡ m) ⊎ (a ≡ n) → (b ≡ m) ⊎ (b ≡ n) → vm_lock_path a ≡ vm_lock_path b → a ≡ b
own_files_of a b (inl p) (inl q) e = p ∙ sym q
own_files_of a b (inr p) (inr q) e = p ∙ sym q
own_files_of a b (inl p) (inr q) e =
    absurd (not-same (ap vm_lock_path (sym p) ∙ e ∙ ap vm_lock_path q))
own_files_of a b (inr p) (inl q) e =
    absurd (not-same (ap vm_lock_path (sym q) ∙ sym e ∙ ap vm_lock_path p))

own_files :
    (a b : Bytes)
    → contains (m ∷ n ∷ []) a ≡ true
    → contains (m ∷ n ∷ []) b ≡ true
    → vm_lock_path a ≡ vm_lock_path b
    → a ≡ b
own_files a b h g e = own_files_of a b (one_of a h) (one_of b g) e

-- the first clone has taken a lock
abbrev first_moved : List Process
first_moved =
    record { held = m ∷ []; wanted = n ∷ [] } ∷ record { held = []; wanted = m ∷ n ∷ [] } ∷ []

among : all (λ r. all (contains (m ∷ n ∷ [])) (order r)) clones ≡ true
unfolding text_eq cocoon_macos.Text.text_lt contains
among = refl

reached : Reached (map started clones) first_moved
unfolding text_eq cocoon_macos.Text.text_lt cocoon_macos.Vm.Store.Processes.holds_file
reached = moved at_first (
    takes [] (record { held = []; wanted = m ∷ n ∷ [] } ∷ [])
      (record { held = []; wanted = m ∷ n ∷ [] }) m (n ∷ []) refl refl refl)

run_request-finishes_example :
    (run_request toy (pair n m) (pure tt) ≡ locked toy (order (pair n m)) (pure {A = Unit {0}} tt))
    × ((qs : List Process) × Moves first_moved qs × (all is_finished qs ≡ true))
run_request-finishes_example =
    run_request-finishes toy (pair n m) (pure tt) (m ∷ n ∷ []) clones {ps = first_moved} own_files
      among reached

read_db-IsSnapshot_example :
    IsSnapshot toy desk (m ∷ []) (read_db toy (record { ids = []; strays = [] }) (m ∷ []) desk)
read_db-IsSnapshot_example = read_db-IsSnapshot toy desk (λ p v. refl) (m ∷ [])

abbrev kept_desk : Desk
kept_desk = record desk { kept = some toy_record }

abbrev to_base : Flags
to_base = record toy_flags { tag = codes "base" }

listed :
    (img : Bytes) (w : Desk) (names : List Bytes)
    → ◌≡◌ {A = Result (List Bytes)} (ok (w.tags img)) (ok names)
    → names ≡ w.tags img
listed img w names h = cc

restore_vm-IsWhole_example :
    ((restore_vm toy to_base m kept_desk).1.tags ≡ kept_desk.tags)
    ⊎ IsWhole toy (λ w. w.tags) (frame_of λ p t. t) (λ t j. t j) listed to_base m kept_desk
restore_vm-IsWhole_example =
    restore_vm-IsWhole toy (λ w. w.tags) (frame_of λ p t. t) (λ t j. t j) listed to_base m kept_desk

gives : vm_dir (codes "/vms") (codes "o") ≡ ok (codes "/vms/o")
unfolding vm_dir cocoon_macos.FilePath.base cocoon_macos.FilePath.join_path text_eq
    cocoon_macos.Text.has_prefix
gives = refl

create-CreateEnd_example :
    CreateEnd toy toy_flags
      (λ w. w.paths)
      (frame_of λ p t. p)
      (record { at = λ w. refl })
      (λ image. record { at = λ w. refl })
      (record { at = λ w. refl })
      (codes "/vms/o")
      desk
      (create toy toy_flags (codes "/img/sonoma") (codes "o") desk)
create-CreateEnd_example =
    create-CreateEnd toy toy_flags (λ w. w.paths) (frame_of λ p t. p) (record { at = λ w. refl })
      (λ image. record { at = λ w. refl }) (record { at = λ w. refl }) (codes "/img/sonoma")
      (codes "o") (codes "/vms/o") desk gives

abbrev source : VmRecord
source = record toy_record { image = codes "/img/sonoma" }

clone-CloneEnd_example :
    CloneEnd toy toy_flags
      (λ w. w.paths)
      (frame_of λ p t. p)
      (record { at = λ w. refl })
      (λ image. record { at = λ w. refl })
      (record { at = λ w. refl })
      (λ u. ([], refl))
      (λ u. ([], refl))
      (codes "/vms/o")
      desk
      (clone toy toy_flags source (codes "o") desk)
clone-CloneEnd_example =
    clone-CloneEnd toy toy_flags (λ w. w.paths) (frame_of λ p t. p) (record { at = λ w. refl })
      (λ image. record { at = λ w. refl }) (record { at = λ w. refl }) (λ u. ([], refl))
      (λ u. ([], refl)) source (codes "o") (codes "/vms/o") desk gives
