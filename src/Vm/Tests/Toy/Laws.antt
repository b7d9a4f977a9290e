-- ===== src/Vm/Tests/Toy/Laws.antt =====
-- The laws that the small host keeps.
use cocoon_macos.Base.{
  Bool, true, false, ◌||◌, List, [], ◌∷◌, ◌++◌, ◌≡◌, refl, sym, ap, ◌∙◌, if◌then◌else◌, subst,
}
use cocoon_macos.Text.{Bytes, text_eq, contains}
use cocoon_macos.Fault.{Error, Result, ok, err, wrapped}
use cocoon_macos.Vm.Host.Frame.{Frame}
use cocoon_macos.Vm.Snapshot.Images.{Images, without, create_args, delete_args}
use cocoon_macos.Vm.Lifecycle.Halt.{Records}
use cocoon_macos.Vm.Gc.{try_one}
use cocoon_macos.Vm.Gc.Locks.{Locks}
use cocoon_macos.Vm.Tests.Toy.{Desk, read_json, created, deleted, stuck_image, tried, toy}

-- The paths and the snapshots that are there are left alone but by a removal and `qemu-img`.
pub frame_of :
    {V : Type 0} (f : List Bytes → (Bytes → List Bytes) → V) → Frame toy V (λ w. f w.paths w.tags)
frame_of f = record {
  keeps_read_json = λ x0. record { at = λ w. refl };
  keeps_write_json = λ x0 x1. record { at = λ w. refl };
  keeps_stat = λ x0. record { at = λ w. refl };
  keeps_remove = λ x0. record { at = λ w. refl };
  keeps_ensure_dirs = λ x0. record { at = λ w. refl };
  keeps_touch = λ x0. record { at = λ w. refl };
  keeps_write_file = λ x0 x1. record { at = λ w. refl };
  keeps_lock = λ x0. record { at = λ w. refl };
  keeps_unlock = λ x0. record { at = λ w. refl };
  keeps_image_snapshots = λ x0. record { at = λ w. refl };
  keeps_find_vmm = λ x0 x1. record { at = λ w. refl };
  keeps_terminate_process = λ x0 x1 x2 x3. record { at = λ w. refl };
  keeps_read_pid_file = λ x0. record { at = λ w. refl };
  keeps_write_pid_file = λ x0 x1. record { at = λ w. refl };
  keeps_wait_for = λ x0 x1. record { at = λ w. refl };
  keeps_run_command = λ x0 x1. record { at = λ w. refl };
  keeps_dial_monitor = λ x0. record { at = λ w. refl };
  keeps_send_line = λ x0 x1. record { at = λ w. refl };
  keeps_close_monitor = λ x0. record { at = λ w. refl };
  keeps_open_provider = λ x0. record { at = λ w. refl };
  keeps_prepare = λ x0 x1. record { at = λ w. refl };
  keeps_add = λ x0 x1. record { at = λ w. refl };
  keeps_delete = λ x0 x1. record { at = λ w. refl };
  keeps_quiesce = λ x0 x1. record { at = λ w. refl };
  keeps_unquiesce = λ x0 x1. record { at = λ w. refl };
  keeps_cleanup_taps = λ x0. record { at = λ w. refl };
}

pub toy-Frame : Frame toy (List Bytes) (λ w. w.paths)
toy-Frame = frame_of λ paths tags. paths

pub toy-Records : Records toy
toy-Records = record { read_back = λ p r w w' h. subst (λ q. (read_json p q.1).0 ≡ ok r) h refl }

created-ok :
    (has : Bool) (img tag j : Bytes) (w w' : Desk)
    → created has img tag w ≡ (ok tt, w')
    → w'.tags j ≡ (if text_eq j img then w.tags j ++ tag ∷ [] else w.tags j)
created-ok true img tag j w w' h = cc
created-ok false img tag j w w' h =
    subst (λ q. q.1.tags j ≡ (if text_eq j img then w.tags j ++ tag ∷ [] else w.tags j)) h refl

created-err :
    (has : Bool) (img tag j : Bytes) (w w' : Desk) (e : Error)
    → created has img tag w ≡ (err e, w')
    → w'.tags j ≡ w.tags j
created-err true img tag j w w' e h = subst (λ q. q.1.tags j ≡ w.tags j) h refl
created-err false img tag j w w' e h = cc

pub toy_create_ok :
    (img tag j : Bytes) (w w' : Desk)
    → toy.run_qemu_img (create_args img tag) w ≡ (ok tt, w')
    → w'.tags j ≡ (if text_eq j img then w.tags j ++ tag ∷ [] else w.tags j)
unfolding text_eq
toy_create_ok img tag j w w' h = created-ok (contains (w.tags img) tag) img tag j w w' h

pub toy_create_err :
    (img tag j : Bytes) (w w' : Desk) (e : Error)
    → toy.run_qemu_img (create_args img tag) w ≡ (err e, w')
    → w'.tags j ≡ w.tags j
unfolding text_eq
toy_create_err img tag j w w' e h = created-err (contains (w.tags img) tag) img tag j w w' e h

deleted-ok :
    (stuck : Bool) (img tag j : Bytes) (w w' : Desk)
    → deleted stuck img tag w ≡ (ok tt, w')
    → w'.tags j ≡ (if text_eq j img then without tag (w.tags j) else w.tags j)
deleted-ok true img tag j w w' h = cc
deleted-ok false img tag j w w' h =
    subst (λ q. q.1.tags j ≡ (if text_eq j img then without tag (w.tags j) else w.tags j)) h refl

deleted-err :
    (stuck : Bool) (img tag j : Bytes) (w w' : Desk) (e : Error)
    → deleted stuck img tag w ≡ (err e, w')
    → w'.tags j ≡ w.tags j
deleted-err true img tag j w w' e h = subst (λ q. q.1.tags j ≡ w.tags j) h refl
deleted-err false img tag j w w' e h = cc

pub toy_delete_ok :
    (img tag j : Bytes) (w w' : Desk)
    → toy.run_qemu_img (delete_args img tag) w ≡ (ok tt, w')
    → w'.tags j ≡ (if text_eq j img then without tag (w.tags j) else w.tags j)
unfolding text_eq
toy_delete_ok img tag j w w' h = deleted-ok (text_eq img stuck_image) img tag j w w' h

pub toy_delete_err :
    (img tag j : Bytes) (w w' : Desk) (e : Error)
    → toy.run_qemu_img (delete_args img tag) w ≡ (err e, w')
    → w'.tags j ≡ w.tags j
unfolding text_eq
toy_delete_err img tag j w w' e h = deleted-err (text_eq img stuck_image) img tag j w w' e h

abbrev pub toy_images : Images toy
toy_images = record {
  tags = λ w. w.tags;
  create_ok = toy_create_ok;
  create_err = toy_create_err;
  delete_ok = λ img tag j w w' h there. toy_delete_ok img tag j w w' h;
  delete_err = toy_delete_err;
}

tried-ok :
    (held : Bool) (p j : Bytes) (w w' : Desk)
    → tried held p w ≡ (ok true, w')
    → (held ≡ false) × (w'.locked j ≡ (text_eq j p || w.locked j))
tried-ok true p j w w' h = cc
tried-ok false p j w w' h = (refl, subst (λ q. q.1.locked j ≡ (text_eq j p || w.locked j)) h refl)

tried-else :
    (held : Bool) (p j : Bytes) (w w' : Desk) (r : Result Bool)
    → tried held p w ≡ (r, w')
    → (r ≡ ok true → ⊥)
    → w'.locked j ≡ w.locked j
tried-else true p j w w' r h n = subst (λ q. q.1.locked j ≡ w.locked j) h refl
tried-else false p j w w' r h n = absurd (n (sym (ap (λ q. q.0) h)))

wrapped-tried :
    (held : Bool) (p : Bytes) (w : Desk)
    → (wrapped "lock vm %s: %w" (tried held p w).0, (tried held p w).1) ≡ tried held p w
wrapped-tried true p w = refl
wrapped-tried false p w = refl

pub toy_try_ok :
    (p j : Bytes) (w w' : Desk)
    → try_one toy p w ≡ (ok true, w')
    → (w.locked p ≡ false) × (w'.locked j ≡ (text_eq j p || w.locked j))
unfolding try_one
toy_try_ok p j w w' h = tried-ok (w.locked p) p j w w' (sym (wrapped-tried (w.locked p) p w) ∙ h)

pub toy_try_else :
    (p j : Bytes) (w w' : Desk) (r : Result Bool)
    → try_one toy p w ≡ (r, w')
    → (r ≡ ok true → ⊥)
    → w'.locked j ≡ w.locked j
unfolding try_one
toy_try_else p j w w' r h n =
    tried-else (w.locked p) p j w w' r (sym (wrapped-tried (w.locked p) p w) ∙ h) n

abbrev pub toy_locks : Locks toy
toy_locks = record {
  holds = λ w. w.locked;
  try_ok = toy_try_ok;
  try_else = toy_try_else;
  give_back = λ p j w. refl;
}
