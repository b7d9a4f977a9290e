-- ===== src/Vm/Store/Progress.antt =====
-- Processes that take locks in order are not all blocked, and they stay in order.
use cocoon_macos.Base.{
  Bool, true, false, ◌&&◌, List, [], ◌∷◌, ◌++◌, ◌≡◌, refl, sym, ap, ◌∙◌, ◌⊎◌, inl, inr, arith, any,
  all, all-append, all-at, any-at, all-put, any-split, Bool-cases, append_assoc, append-nil, subst,
}
use cocoon_macos.Text.{Bytes, text_eq, text_lt, contains}
use cocoon_macos.Text.Laws.{text_eq_iff}
use cocoon_macos.Vm.Store.{vm_lock_path}
use cocoon_macos.Vm.Store.Processes.{
  Process, is_finished, holds_file, Move, takes, gives_back, Reached, at_first, moved, gave_up,
}
use cocoon_macos.Vm.Store.Ascending.{
  ascending, ascending-append, ascending-middle, is_empty-eq, snoc-split,
}
use cocoon_macos.Vm.Store.Latest.{
  not_behind, wants, wants-eq, Latest, latest, can_give, all-is_finished,
}

-- what a process holds and wants is in order, and among the directories
abbrev pub is_ordered : List Bytes → Process → Bool
is_ordered dirs p = ascending (p.held ++ p.wanted) && all (contains dirs) (p.held ++ p.wanted)

-- The directories have lock files of their own.
module _ (dirs : List Bytes)
    (own_files : (a b : Bytes)
      → contains dirs a ≡ true
      → contains dirs b ≡ true
      → vm_lock_path a ≡ vm_lock_path b
      → a ≡ b) where
  -- who holds a file that is wanted next and last can give a lock back
  not-blocked :
      (held wanted : List Bytes) (dir : Bytes)
      → contains dirs dir ≡ true
      → holds_file dir (record { held = held; wanted = wanted }) ≡ true
      → is_ordered dirs (record { held = held; wanted = wanted }) ≡ true
      → can_give (record { held = held; wanted = wanted }) ≡ false
      → not_behind dir wanted ≡ true
      → ⊥
  unfolding holds_file
  not-blocked [] [] dir c h o g n = cc
  not-blocked (x ∷ xs) [] dir c h o g n = cc
  not-blocked held (w ∷ wanted) dir c h o g n =
      let (before, x, after, e, s) =
        any-split (λ h. text_eq (vm_lock_path h) (vm_lock_path dir)) held h in
      let ordered : is_ordered dirs (record { held = before ++ (x ∷ after); wanted = w ∷ wanted })
          ≡ true =
        subst (λ l. is_ordered dirs (record { held = l; wanted = w ∷ wanted }) ≡ true) e o in
      let among : contains dirs x ≡ true =
        all-at (contains dirs) before x after
          (ground (arith, all-append (contains dirs) (before ++ (x ∷ after)) (w ∷ wanted))) in
      let same : x ≡ dir =
        own_files x dir among c ((text_eq_iff (vm_lock_path x) (vm_lock_path dir)).0 s) in
      let less : text_lt x w ≡ true = ascending-middle before x after w wanted (ground arith) in
      let later : text_lt dir w ≡ true = subst (λ d. text_lt d w ≡ true) same less in ground arith

  -- the process that wants the last of the directories that are wanted next can take it
  takes-Latest :
      (ps : List Process)
      → all (is_ordered dirs) ps ≡ true
      → any can_give ps ≡ false
      → Latest ps
      → (qs : List Process) × Move ps qs
  takes-Latest ps o none_give (dir, wanted, last) =
      let (before, p, after, e, w) = any-split (λ p. wants dir p.wanted) ps wanted in
      let (rest, next) = wants-eq dir p.wanted w in
      let mine : is_ordered dirs p ≡ true =
        all-at (is_ordered dirs) before p after (subst (λ l. all (is_ordered dirs) l ≡ true) e o) in
      let split : all (contains dirs) (p.held ++ (dir ∷ rest)) ≡ true =
        subst (λ l. all (contains dirs) (p.held ++ l) ≡ true) next (ground arith) in
      elim (Bool-cases (any (holds_file dir) ps)) [
        | inr free ↦ (_, takes before after p dir rest e next free)
        | inl held ↦
            let (before', q, after', e', h) = any-split (holds_file dir) ps held in
            absurd (
              not-blocked q.held q.wanted dir (all-at (contains dirs) p.held dir rest split) h
                (all-at (is_ordered dirs) before' q after'
                  (subst (λ l. all (is_ordered dirs) l ≡ true) e' o))
                (any-at can_give before' q after'
                  (subst (λ l. any can_give l ≡ false) e' none_give))
                (all-at (λ p. not_behind dir p.wanted) before' q after'
                  (subst (λ l. all (λ p. not_behind dir p.wanted) l ≡ true) e' last)))
      ]

  pub progress :
      (ps : List Process)
      → all (is_ordered dirs) ps ≡ true
      → (all is_finished ps ≡ true) ⊎ ((qs : List Process) × Move ps qs)
  progress ps o = elim (Bool-cases (any can_give ps)) [
    | inl some_give ↦
        let (before, p, after, e, g) = any-split can_give ps some_give in
        let (ys, y, s) = snoc-split p.held (ground arith) in
        inr (_, gives_back before after p ys y e (is_empty-eq p.wanted (ground arith)) s)
    | inr none_give ↦ elim (latest ps) [
      | inl idle ↦ inl (all-is_finished ps idle none_give)
      | inr found ↦ inr (takes-Latest ps o none_give found)
    ]
  ]

module _ (dirs : List Bytes) where
  is_ordered-same :
      (h w h' w' : List Bytes)
      → h' ++ w' ≡ h ++ w
      → is_ordered dirs (record { held = h; wanted = w }) ≡ true
      → is_ordered dirs (record { held = h'; wanted = w' }) ≡ true
  is_ordered-same h w h' w' e o = subst (λ l. ascending l && all (contains dirs) l ≡ true) (sym e) o

  is_ordered-less :
      (h w rest : List Bytes)
      → h ++ rest ≡ w
      → ascending w && all (contains dirs) w ≡ true
      → is_ordered dirs (record { held = h; wanted = [] }) ≡ true
  is_ordered-less h w rest e o =
      let o' : ascending (h ++ rest) && all (contains dirs) (h ++ rest) ≡ true =
        subst (λ l. ascending l && all (contains dirs) l ≡ true) (sym e) o in
      let a : ascending h ≡ true = (ascending-append h rest (ground arith)).0 in
      let b : all (contains dirs) h ≡ true = ground (arith, all-append (contains dirs) h rest) in
      subst (λ l. ascending l && all (contains dirs) l ≡ true) (sym (append-nil h)) (ground arith)

  all-replace :
      (before : List Process) (p q : Process) (after : List Process)
      → (is_ordered dirs p ≡ true → is_ordered dirs q ≡ true)
      → all (is_ordered dirs) (before ++ (p ∷ after)) ≡ true
      → all (is_ordered dirs) (before ++ (q ∷ after)) ≡ true
  all-replace before p q after f h =
      let here : is_ordered dirs q ≡ true = f (all-at (is_ordered dirs) before p after h) in
      all-put (is_ordered dirs) before p q after here h

  pub Move-is_ordered :
      (ps : List Process) {qs : List Process}
      → Move ps qs
      → all (is_ordered dirs) ps ≡ true
      → all (is_ordered dirs) qs ≡ true
  Move-is_ordered ps (takes before after p dir rest e w free) o =
      all-replace before p (record { held = p.held ++ dir ∷ []; wanted = rest }) after
        (is_ordered-same p.held p.wanted (p.held ++ dir ∷ []) rest
          (append_assoc p.held (dir ∷ []) rest ∙ ap (λ l. p.held ++ l) (sym w)))
        (subst (λ l. all (is_ordered dirs) l ≡ true) e o)
  Move-is_ordered ps (gives_back before after p ys y e w s) o =
      all-replace before p (record { held = ys; wanted = [] }) after
        (is_ordered-less ys (p.held ++ p.wanted) (y ∷ p.wanted)
          (sym (append_assoc ys (y ∷ []) p.wanted) ∙ ap (λ l. l ++ p.wanted) (sym s)))
        (subst (λ l. all (is_ordered dirs) l ≡ true) e o)

  pub Reached-is_ordered :
      (ps : List Process) {qs : List Process}
      → all (is_ordered dirs) ps ≡ true
      → Reached ps qs
      → all (is_ordered dirs) qs ≡ true
  Reached-is_ordered ps o at_first = o
  Reached-is_ordered ps o (moved {qs} r m) = Move-is_ordered qs m (Reached-is_ordered ps o r)
  Reached-is_ordered ps o (gave_up before after p r) =
      all-replace before p (record p { wanted = [] }) after
        (is_ordered-less p.held (p.held ++ p.wanted) p.wanted refl) (Reached-is_ordered ps o r)
