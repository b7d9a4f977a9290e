-- ===== src/Vm/DataDisk/Fresh.antt =====
-- `parseDataDisks` gives every disk a name of its own.
use cocoon_macos.Base.{
  ℕ, suc, ◌+◌, ◌≤◌, true, false, ◌||◌, List, [], ◌∷◌, ◌≡◌, arith, if◌then◌else◌, Bool-cases, inl,
  inr, length, ltb, ◌↔◌,
}
use cocoon_macos.Text.{Bytes, contains, text_eq, is_set}
use cocoon_macos.Text.Laws.{text_eq_iff, text_eq_refl, contains-cons, contains-nil}
use cocoon_macos.Fault.{Result, reject_if, ok, >>=-eq-ok, ◌>>◌}
use cocoon_macos.Vm.DataDisk.{
  DataDiskSpec, max_data_disks, candidate, next_free, parse_specs, claim_names, auto_names,
  parse_data_disks,
}
use cocoon_macos.Vm.DataDisk.Names.{contains-next_free}

-- Names in order: none is in `seen`, and none occurs before itself.
abbrev pub IsFresh : List Bytes → List Bytes → Type 0
IsFresh seen [] = Unit
IsFresh seen (n ∷ ns) = (contains seen n ≡ false) × IsFresh (n ∷ seen) ns

abbrev pub names : List DataDiskSpec → List Bytes
names [] = []
names (s ∷ specs) = s.name ∷ names specs

-- the names that specifications ask for
abbrev pub wanted : List DataDiskSpec → List Bytes
wanted [] = []
wanted (s ∷ specs) = if is_set s.name then s.name ∷ wanted specs else wanted specs

abbrev pub IsSubset : List Bytes → List Bytes → Type 0
IsSubset xs ys = (n : Bytes) → contains xs n ≡ true → contains ys n ≡ true

-- One more name is seen, which is none of these.
IsFresh-add :
    (c : Bytes) (seen seen' ns : List Bytes)
    → ((n : Bytes) → contains seen' n ≡ (text_eq n c || contains seen n))
    → contains ns c ≡ false
    → IsFresh seen ns
    → IsFresh seen' ns
IsFresh-add c seen seen' [] same out f = tt
IsFresh-add c seen seen' (n ∷ ns) same out f = (
  ground (arith, same n, text_eq_iff n c, text_eq_iff c n, contains-cons n c ns),
  IsFresh-add c (n ∷ seen) (n ∷ seen') ns
      (λ m. ground (arith, same m, contains-cons n m seen, contains-cons n m seen'))
      (ground (arith, contains-cons n c ns)) f.1,
)

IsFresh-set :
    (seen : List Bytes) (s : DataDiskSpec) (specs : List DataDiskSpec)
    → is_set s.name ≡ true
    → (IsFresh seen (wanted (s ∷ specs))) ↔ (IsFresh seen (s.name ∷ wanted specs))
IsFresh-set seen s specs h = rw h (λ f. f, λ f. f)

pub claim_names-IsFresh :
    (used used' : List Bytes) (specs : List DataDiskSpec)
    → claim_names used specs ≡ ok used'
    → IsFresh used (wanted specs)
      × ((n : Bytes) → contains used' n ≡ (contains used n || contains (wanted specs) n))
unfolding claim_names
claim_names-IsFresh used used' [] h = (tt, λ n. ground (arith, contains-nil n))
claim_names-IsFresh used used' (s ∷ specs) h = elim (Bool-cases (is_set s.name)) [
  | inr auto ↦ rw auto (claim_names-IsFresh used used' specs (ground arith))
  | inl set ↦ elim (Bool-cases (contains used s.name)) [
    | inl taken ↦ absurd (ground arith)
    | inr free ↦
        let (f, g) = claim_names-IsFresh (s.name ∷ used) used' specs (ground arith) in
        rw set (
          (free, f),
          λ n.
              ground
                (arith, g n, contains-cons s.name n used, contains-cons s.name n (wanted specs)),
        )
  ]
]

module _ (c : Bytes) (xs ys : List Bytes) (sub : IsSubset xs ys) where
  not_subset : contains ys c ≡ false → contains xs c ≡ false
  not_subset out = ground (arith, sub c)

  IsSubset-cons : IsSubset (c ∷ xs) (c ∷ ys)
  IsSubset-cons n h = ground (arith, sub n, contains-cons c n xs, contains-cons c n ys)

  IsSubset-weaken : IsSubset xs (c ∷ ys)
  IsSubset-weaken n h = ground (arith, sub n, contains-cons c n ys)

  IsSubset-add : contains ys c ≡ true → IsSubset (c ∷ xs) ys
  IsSubset-add here n h = ground (arith, sub n, contains-cons c n xs, text_eq_iff n c)

auto_names-IsFresh :
    (i : ℕ) (seen used : List Bytes) (specs : List DataDiskSpec)
    → IsSubset seen used
    → IsSubset (wanted specs) used
    → IsFresh seen (wanted specs)
    → IsFresh seen (names (auto_names i used specs))
unfolding auto_names
auto_names-IsFresh i seen used [] sub w f = tt
auto_names-IsFresh i seen used (s ∷ specs) sub w f = elim (Bool-cases (is_set s.name)) [
  | inl set ↦
      let w' : IsSubset (s.name ∷ wanted specs) used = (rw set at w) in
      let f' : IsFresh seen (s.name ∷ wanted specs) = (rw set at f) in
      let named =
        w' s.name
          (ground (arith, contains-cons s.name s.name (wanted specs), text_eq_refl s.name)) in
      rw set (
        f'.0,
        auto_names-IsFresh i (s.name ∷ seen) used specs (IsSubset-add s.name seen used sub named)
            (λ n h. w' n (ground (arith, h, contains-cons s.name n (wanted specs)))) f'.1,
      )
  | inr auto ↦
      let w' : IsSubset (wanted specs) used = (rw auto at w) in
      let f' : IsFresh seen (wanted specs) = (rw auto at f) in
      let k = next_free (length used) used i in
      let free = contains-next_free (length used) used i (omega arith) in
      rw auto (
        not_subset (candidate k) seen used sub free,
        auto_names-IsFresh (suc k) (candidate k ∷ seen) (candidate k ∷ used) specs
            (IsSubset-cons (candidate k) seen used sub)
            (IsSubset-weaken (candidate k) (wanted specs) used w')
            (IsFresh-add (candidate k) seen (candidate k ∷ seen) (wanted specs)
              (λ n. contains-cons (candidate k) n seen)
              (not_subset (candidate k) (wanted specs) used w' free) f'),
      )
]

within_limit :
    (reserved : List Bytes) (named specs : List DataDiskSpec)
    → (reject_if
          (ltb max_data_disks (length reserved + length named))
          "data disk: %d disks exceeds the limit"
        >> ok named)
      ≡ ok specs
    → (specs ≡ named) × (length reserved + length named ≤ max_data_disks)
within_limit reserved named specs h = ground arith

-- What an accepted list of specifications went through.
pub parse_data_disks_inv :
    (parse : Bytes → Result DataDiskSpec) (raw reserved : List Bytes) {specs : List DataDiskSpec}
    → parse_data_disks parse raw reserved ≡ ok specs
    → (parsed : List DataDiskSpec) × (used : List Bytes) × (parse_specs parse raw ≡ ok parsed)
      × (claim_names reserved parsed ≡ ok used)
      × (specs ≡ auto_names 1 used parsed)
      × (length reserved + length specs ≤ max_data_disks)
unfolding parse_data_disks
parse_data_disks_inv parse raw reserved {specs} h =
    let (parsed, p, h') = >>=-eq-ok (parse_specs parse raw) _ h in
    let (used, c, k) = >>=-eq-ok (claim_names reserved parsed) _ h' in
    let (e, l) = within_limit reserved (auto_names 1 used parsed) specs k in
    (parsed, used, p, c, e, rw e l)

-- If a clone's or a create's specifications are accepted, no disk has a reserved name and no two
-- disks have one name.
pub parse_data_disks-IsFresh :
    (parse : Bytes → Result DataDiskSpec) (raw reserved : List Bytes) {specs : List DataDiskSpec}
    → parse_data_disks parse raw reserved ≡ ok specs
    → IsFresh reserved (names specs)
parse_data_disks-IsFresh parse raw reserved h =
    let (parsed, used, p, c, e, l) = parse_data_disks_inv parse raw reserved h in
    let (f, g) = claim_names-IsFresh reserved used parsed c in
    rw e (
      auto_names-IsFresh 1 reserved used parsed (λ n m. ground (arith, g n))
        (λ n m. ground (arith, g n)) f)
