-- ===== src/Vm/Store/Order.antt =====
-- `withVMLocks` (cmd/vm/utils.go) takes the locks of a pair in one order.
use cocoon_macos.Base.{true, false, [], ◌∷◌, ◌≡◌, refl, inl, inr, arith, Bool-cases}
use cocoon_macos.Text.{Bytes, text_eq, text_lt}
use cocoon_macos.Text.Laws.{text_eq_iff}
use cocoon_macos.Io.{Io}
use cocoon_macos.Vm.Host.{Host}
use cocoon_macos.Vm.Store.{with_vm_locks}

pub text_eq_comm : (a b : Bytes) → text_eq a b ≡ text_eq b a
unfolding text_eq
text_eq_comm [] [] = refl
text_eq_comm [] (y ∷ b) = refl
text_eq_comm (x ∷ a) [] = refl
text_eq_comm (x ∷ a) (y ∷ b) = ground (arith, text_eq_comm a b)

text_lt_total : (a b : Bytes) → text_eq a b ≡ false → text_lt a b ≡ true → text_lt b a ≡ false
unfolding text_lt text_eq
text_lt_total [] [] n h = refl
text_lt_total [] (y ∷ b) n h = refl
text_lt_total (x ∷ a) [] n h = ground arith
text_lt_total (x ∷ a) (y ∷ b) n h = ground (arith, text_lt_total a b)

pub text_lt_other : (a b : Bytes) → text_eq a b ≡ false → text_lt a b ≡ false → text_lt b a ≡ true
unfolding text_lt text_eq
text_lt_other [] [] n h = ground arith
text_lt_other [] (y ∷ b) n h = ground arith
text_lt_other (x ∷ a) [] n h = refl
text_lt_other (x ∷ a) (y ∷ b) n h = ground (arith, text_lt_other a b)

pub text_lt_irrefl : (a : Bytes) → text_lt a a ≡ false
unfolding text_lt
text_lt_irrefl [] = refl
text_lt_irrefl (x ∷ a) = ground (arith, text_lt_irrefl a)

pub text_lt_trans : (a b c : Bytes) → text_lt a b ≡ true → text_lt b c ≡ true → text_lt a c ≡ true
unfolding text_lt
text_lt_trans a [] c h g = cc
text_lt_trans a (y ∷ b) [] h g = cc
text_lt_trans [] (y ∷ b) (z ∷ c) h g = refl
text_lt_trans (x ∷ a) (y ∷ b) (z ∷ c) h g = ground (arith, text_lt_trans a b c)

-- The two directories may be given in either order: the same locks are taken, in the same order,
-- around the same work.
with_vm_locks_comm :
    (host : Host) {A : Type 0} (a b : Bytes) (fn : Io host.World A)
    → with_vm_locks host a b fn ≡ with_vm_locks host b a fn
unfolding with_vm_locks
with_vm_locks_comm host a b fn = elim (Bool-cases (text_eq a b)) [
  | inl e ↦ rw ((text_eq_iff a b).0 e) refl
  | inr n ↦ elim (Bool-cases (text_lt a b)) [
    | inl l ↦ rw (← text_eq_comm a b, n, l, text_lt_total a b n l)
    | inr g ↦ rw (← text_eq_comm a b, n, g, text_lt_other a b n g)
  ]
]
