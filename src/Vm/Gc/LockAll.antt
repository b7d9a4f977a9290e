-- ===== src/Vm/Gc/LockAll.antt =====
-- `tryLockVMDirs` (cmd/vm/gc.go) takes every machine's lock, or none.
use cocoon_macos.Base.{
  Bool, true, false, not, ◌&&◌, ◌||◌, List, [], ◌∷◌, ◌++◌, ◌≡◌, refl, ◌∙◌, arith, map, append_assoc,
  append-nil, subst,
}
use cocoon_macos.Text.{Bytes, contains}
use cocoon_macos.Text.Laws.{contains-cons, contains-nil, contains-append, text_eq_iff}
use cocoon_macos.Fault.{Error, Result, ok, err, fault}
use cocoon_macos.Io.{Io, after, throw}
use cocoon_macos.Vm.Host.{Host}
use cocoon_macos.Vm.Store.{vm_lock_path}
use cocoon_macos.Vm.Gc.{try_one, unlock_all, locked_or_unlocked, lock_from, try_lock_vm_dirs}
use cocoon_macos.Vm.Gc.Locks.{Locks}

module _ (host : Host) (locks : Locks host) (before : host.World) where
  open locks use {holds, try_ok, try_else, give_back}

  -- the process holds the locks in `held` more than before, and no other
  abbrev Holding : List Bytes → host.World → Type 0
  Holding held w =
      (j : Bytes)
      → (holds w j ≡ (contains held j || holds before j))
        × (contains held j ≡ true → holds before j ≡ false)

  -- With the locks of all directories, or an error and the locks as they were.
  abbrev pub AllOrNone : List Bytes → Result (List Bytes) × host.World → Type 0
  AllOrNone all (ok held, w) =
      (held ≡ all) × ((j : Bytes) → holds w j ≡ (contains all j || holds before j))
  AllOrNone all (err e, w) = (j : Bytes) → holds w j ≡ holds before j

  holds-unlock_all :
      (held : List Bytes) (w : host.World) (j : Bytes)
      → holds (unlock_all host held w).1 j ≡ (not (contains held j) && holds w j)
  unfolding unlock_all
  holds-unlock_all [] w j = ground (arith, contains-nil j)
  holds-unlock_all (path ∷ held) w j = ground (
    arith,
    holds-unlock_all held (host.unlock path w).1 j,
    give_back path j w,
    contains-cons path j held,
  )

  holds-back :
      (held : List Bytes) (w : host.World) (j : Bytes)
      → Holding held w
      → holds (unlock_all host held w).1 j ≡ holds before j
  holds-back held w j h = ground (arith, holds-unlock_all held w j, h j)

  Holding-more :
      (path : Bytes) (held : List Bytes) (w w' : host.World)
      → try_one host path w ≡ (ok true, w')
      → Holding held w
      → Holding (held ++ path ∷ []) w'
  Holding-more path held w w' t h j =
      let (free, more) = try_ok path j w w' t in
      let snoc = contains-append j held (path ∷ []) in
      let (_, e) = h j in
      let (at_path, _) = h path in
      (
        ground (arith, more, snoc, h j, contains-cons path j [], contains-nil j),
        λ c. ground (
          arith,
          free,
          at_path,
          snoc,
          e,
          text_eq_iff j path,
          contains-cons path j [],
          contains-nil j,
        ),
      )

  Holding-same :
      (path : Bytes) (held : List Bytes) (w w' : host.World) (r : Result Bool)
      → try_one host path w ≡ (r, w')
      → (r ≡ ok true → ⊥)
      → Holding held w
      → Holding held w'
  Holding-same path held w w' r t n h j = (try_else path j w w' r t n ∙ (h j).0, (h j).1)

  AllOrNone-throw :
      (x : Error) (all : List Bytes) (rest : Io host.World (List Bytes))
      (q : Result (Unit {0}) × host.World)
      → ((j : Bytes) → holds q.1 j ≡ holds before j)
      → AllOrNone all
          (after (after q (λ (u : Unit {0}). throw {A = Unit {0}} x)) (λ (u : Unit {0}). rest))
  AllOrNone-throw x all rest (ok u, w) h = h
  AllOrNone-throw x all rest (err y, w) h = h

  AllOrNone-step :
      (path : Bytes) (held all : List Bytes) (w : host.World) (rest : Io host.World (List Bytes))
      (p : Result Bool × host.World)
      → try_one host path w ≡ p
      → Holding held w
      → ((w' : host.World) → Holding (held ++ path ∷ []) w' → AllOrNone all (rest w'))
      → AllOrNone all (after (locked_or_unlocked host held p.0 p.1) (λ (u : Unit {0}). rest))
  unfolding locked_or_unlocked
  AllOrNone-step path held all w rest (ok true, w') t h next =
      next w' (Holding-more path held w w' t h)
  AllOrNone-step path held all w rest (ok false, w') t h next =
      AllOrNone-throw (fault "vm %s is busy; retry when it finishes") all rest
        (unlock_all host held w')
        λ j. holds-back held w' j (Holding-same path held w w' (ok false) t (λ e. cc) h)
  AllOrNone-step path held all w rest (err e, w') t h next =
      AllOrNone-throw e all rest (unlock_all host held w')
        λ j. holds-back held w' j (Holding-same path held w w' (err e) t (λ q. cc) h)

  AllOrNone-lock_from :
      (held dirs : List Bytes) (w : host.World)
      → Holding held w
      → AllOrNone (held ++ map vm_lock_path dirs) (lock_from host held dirs w)
  unfolding lock_from
  AllOrNone-lock_from held [] w h = rw append-nil (refl, λ j. (h j).0)
  AllOrNone-lock_from held (dir ∷ dirs) w h =
      AllOrNone-step (vm_lock_path dir) held (held ++ (vm_lock_path dir ∷ map vm_lock_path dirs)) w
        (lock_from host (held ++ vm_lock_path dir ∷ []) dirs) (try_one host (vm_lock_path dir) w)
        refl h
        λ w' h'.
          subst (λ all. AllOrNone all (lock_from host (held ++ vm_lock_path dir ∷ []) dirs w'))
            (append_assoc held (vm_lock_path dir ∷ []) (map vm_lock_path dirs))
            (AllOrNone-lock_from (held ++ vm_lock_path dir ∷ []) dirs w' h')

  -- Where file locks work as `Locks` says: if `tryLockVMDirs` succeeds, it holds the locks of all the
  -- directories and no other lock more than before; if it fails, because of an error or of a machine
  -- that is busy, it holds the locks that it held before.
  pub try_lock_vm_dirs-AllOrNone :
      (dirs : List Bytes) → AllOrNone (map vm_lock_path dirs) (try_lock_vm_dirs host dirs before)
  unfolding try_lock_vm_dirs
  try_lock_vm_dirs-AllOrNone dirs =
      AllOrNone-lock_from [] dirs before
        (λ j. (ground (arith, contains-nil j), λ c. absurd (ground (arith, contains-nil j))))
