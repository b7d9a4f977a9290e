-- ===== src/Vm/DataDisk/Names.antt =====
-- The search for a free disk name: it ends, and at the first name that is free.
use cocoon_macos.Base.{
  ℕ, zero, suc, ◌<◌, ◌≤◌, true, false, List, [], ◌∷◌, ◌≡◌, ◌≢◌, refl, ◌∙◌, sym, ap, arith,
  if◌then◌else◌, Bool-cases, inl, inr, length, ◌==◌, ==_iff,
}
use cocoon_macos.Text.{Bytes, codes, contains, text_eq}
use cocoon_macos.Text.Laws.{text_eq_iff, append-cancel}
use cocoon_macos.Text.Decimal.{decimal_inj}
use cocoon_macos.Vm.DataDisk.{candidate, next_free}

-- the list without the first name equal to `c`
erase : Bytes → List Bytes → List Bytes
erase c [] = []
erase c (n ∷ ns) = if text_eq c n then ns else n ∷ erase c ns

length-erase :
    (c : Bytes) (ns : List Bytes) → contains ns c ≡ true → suc (length (erase c ns)) ≡ length ns
unfolding erase contains
length-erase c [] h = cc
length-erase c (n ∷ ns) h = ground (arith, length-erase c ns)

contains-erase_ne :
    (c d : Bytes) (ns : List Bytes) → c ≢ d → contains (erase c ns) d ≡ contains ns d
unfolding erase contains
contains-erase_ne c d [] h = refl
contains-erase_ne c d (n ∷ ns) h =
    ground (arith, text_eq_iff c n, text_eq_iff d n, contains-erase_ne c d ns)

pub candidate_inj : (i j : ℕ) → candidate i ≡ candidate j → i ≡ j
unfolding candidate
candidate_inj i j e = decimal_inj i j (append-cancel (codes "data") e)

next_free-ge : (fuel : ℕ) (used : List Bytes) (i : ℕ) → i ≤ next_free fuel used i
unfolding next_free
next_free-ge zero used i = omega arith
next_free-ge (suc fuel) used i = ground (arith, next_free-ge fuel used (suc i))

-- Without a name that is no candidate from `i` on, the search goes the same way.
next_free-cong :
    (fuel : ℕ) (used used' : List Bytes) (i : ℕ)
    → ((k : ℕ) → i ≤ k → contains used (candidate k) ≡ contains used' (candidate k))
    → next_free fuel used i ≡ next_free fuel used' i
unfolding next_free
next_free-cong zero used used' i h = refl
next_free-cong (suc fuel) used used' i h =
    ground
      (arith, h i (omega arith), next_free-cong fuel used used' (suc i) (λ k l. h k (omega arith)))

module _ (used : List Bytes) (i : ℕ) where
  abbrev others : List Bytes
  others = erase (candidate i) used

  contains-others :
      (k : ℕ) → suc i ≤ k → contains used (candidate k) ≡ contains others (candidate k)
  contains-others k l = sym (
      contains-erase_ne (candidate i) (candidate k) used
        (λ e. absurd (later (candidate_inj i k e))))
    where
      later : i ≡ k → ⊥
      later e = omega arith

-- With fuel for each used name, the search ends at a name that is not used.
pub contains-next_free :
    (fuel : ℕ) (used : List Bytes) (i : ℕ)
    → length used ≤ fuel
    → contains used (candidate (next_free fuel used i)) ≡ false
unfolding next_free
contains-next_free zero [] i h = unfold contains in refl
contains-next_free zero (n ∷ used) i h = absurd (omega arith)
contains-next_free (suc fuel) used i h = elim (Bool-cases (contains used (candidate i))) [
  | inr free ↦ rw free free
  | inl taken ↦ rw taken (
      contains-others used i _ (next_free-ge fuel used (suc i))
      ∙ ap (λ k. contains (others used i) (candidate k))
          (next_free-cong fuel used (others used i) (suc i) (contains-others used i))
      ∙ contains-next_free fuel (others used i) (suc i)
          (omega (arith, length-erase (candidate i) used taken)))
]

-- Every earlier name of the search is used.
pub contains-before_next_free :
    (fuel : ℕ) (used : List Bytes) (i k : ℕ)
    → i ≤ k
    → k < next_free fuel used i
    → contains used (candidate k) ≡ true
unfolding next_free
contains-before_next_free zero used i k l h = absurd (omega arith)
contains-before_next_free (suc fuel) used i k l h =
    elim (Bool-cases (contains used (candidate i))) [
      | inr free ↦ absurd (ground arith)
      | inl taken ↦ elim (Bool-cases (k == i)) [
        | inl same ↦ rw ((==_iff k i).0 same) taken
        | inr other ↦ contains-before_next_free fuel used (suc i) k (ground arith) (ground arith)
      ]
    ]
