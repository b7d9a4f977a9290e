-- ===== src/Vm/DataDisk/Accept.antt =====
-- When `parseDataDisks` accepts, and that it keeps the order, the sizes and the names asked for.
use cocoon_macos.Base.{
  ℕ, suc, ◌+◌, ◌≤◌, true, false, List, [], ◌∷◌, ◌≡◌, refl, ap, arith, Bool-cases, inl, inr, length,
  ◌↔◌,
}
use cocoon_macos.Text.{Bytes, is_set}
use cocoon_macos.Fault.{Result, ok, >>=-eq-ok}
use cocoon_macos.Vm.DataDisk.{
  DataDiskSpec, max_data_disks, candidate, next_free, parse_data_disk_spec, parse_specs,
  claim_names, auto_names, parse_data_disks,
}
use cocoon_macos.Vm.DataDisk.Fresh.{IsFresh, wanted, claim_names-IsFresh, parse_data_disks_inv}

-- `spec` is what the text `raw` parses to, with a generated name if it asks for none.
pub record Answers (parse : Bytes → Result DataDiskSpec) (raw : Bytes) (spec : DataDiskSpec)
    : Type 0 where
  pub asked : DataDiskSpec
  pub parsed : parse_data_disk_spec parse raw ≡ ok asked
  pub same_size : spec.size ≡ asked.size
  pub same_name : is_set asked.name ≡ true → spec.name ≡ asked.name
  pub own_name : is_set asked.name ≡ false → (k : ℕ) × (spec.name ≡ candidate k)

abbrev pub AllAnswer : (Bytes → Result DataDiskSpec) → List Bytes → List DataDiskSpec → Type 0
AllAnswer parse [] [] = Unit
AllAnswer parse (r ∷ raw) (s ∷ specs) = Answers parse r s × AllAnswer parse raw specs
AllAnswer parse _ _ = ⊥

auto_names-AllAnswer :
    (parse : Bytes → Result DataDiskSpec) (i : ℕ) (used raw : List Bytes)
    (parsed : List DataDiskSpec)
    → parse_specs parse raw ≡ ok parsed
    → AllAnswer parse raw (auto_names i used parsed)
unfolding auto_names parse_specs
auto_names-AllAnswer parse i used [] [] h = tt
auto_names-AllAnswer parse i used [] (s ∷ parsed) h = absurd (ground arith)
auto_names-AllAnswer parse i used (r ∷ raw) parsed h =
    let (s, p, h') = >>=-eq-ok (parse_data_disk_spec parse r) _ h in
    let (rest, q, e) = >>=-eq-ok (parse_specs parse raw) _ h' in
    let e' : parsed ≡ s ∷ rest = ground arith in
    let k = next_free (length used) used i in
    rw e' (elim (Bool-cases (is_set s.name)) [
      | inl set ↦ rw set (
        record {
          asked = s;
          parsed = p;
          same_size = refl;
          same_name = λ _. refl;
          own_name = λ auto. absurd (ground arith);
        },
        auto_names-AllAnswer parse i used raw rest q,
      )
      | inr auto ↦ rw auto (
        record {
          asked = s;
          parsed = p;
          same_size = refl;
          same_name = λ set. absurd (ground arith);
          own_name = λ _. (k, refl);
        },
        auto_names-AllAnswer parse (suc k) (candidate k ∷ used) raw rest q,
      )
    ])

-- The accepted disks answer the specifications one by one and in order: each has the size that its
-- text asks for, and the name if it asks for one, else a generated name.
pub parse_data_disks-AllAnswer :
    (parse : Bytes → Result DataDiskSpec) (raw reserved : List Bytes) {specs : List DataDiskSpec}
    → parse_data_disks parse raw reserved ≡ ok specs
    → AllAnswer parse raw specs
parse_data_disks-AllAnswer parse raw reserved h =
    let (parsed, used, p, c, e, l) = parse_data_disks_inv parse raw reserved h in
    rw e (auto_names-AllAnswer parse 1 used raw parsed p)

length-auto_names :
    (i : ℕ) (used : List Bytes) (specs : List DataDiskSpec)
    → length (auto_names i used specs) ≡ length specs
unfolding auto_names
length-auto_names i used [] = refl
length-auto_names i used (s ∷ specs) =
    let k = next_free (length used) used i in
    elim (Bool-cases (is_set s.name)) [
      | inl set ↦ rw set (ap suc (length-auto_names i used specs))
      | inr auto ↦ rw auto (ap suc (length-auto_names (suc k) (candidate k ∷ used) specs))
    ]

IsFresh-claim_names :
    (used : List Bytes) (specs : List DataDiskSpec)
    → IsFresh used (wanted specs)
    → (used' : List Bytes) × (claim_names used specs ≡ ok used')
unfolding claim_names
IsFresh-claim_names used [] f = (used, refl)
IsFresh-claim_names used (s ∷ specs) f = elim (Bool-cases (is_set s.name)) [
  | inl set ↦
      let f' : IsFresh used (s.name ∷ wanted specs) = (rw set at f) in
      let (used', e) = IsFresh-claim_names (s.name ∷ used) specs f'.1 in (used', rw (set, f'.0) e)
  | inr auto ↦
      let f' : IsFresh used (wanted specs) = (rw auto at f) in
      let (used', e) = IsFresh-claim_names used specs f' in (used', rw auto e)
]

-- What the specifications of a command line have to be.
pub record IsAcceptable (parse : Bytes → Result DataDiskSpec) (raw reserved : List Bytes)
    : Type 0 where
  pub parsed : List DataDiskSpec
  pub all_parse : parse_specs parse raw ≡ ok parsed
  pub names_free : IsFresh reserved (wanted parsed)
  pub few : length reserved + length parsed ≤ max_data_disks

-- The specifications are accepted exactly if each of them parses, the names that they ask for
-- differ from each other and from the reserved ones, and there are at most four disks.
pub parse_data_disks_iff :
    (parse : Bytes → Result DataDiskSpec) (raw reserved : List Bytes)
    → ((specs : List DataDiskSpec) × (parse_data_disks parse raw reserved ≡ ok specs))
      ↔ IsAcceptable parse raw reserved
unfolding parse_data_disks
parse_data_disks_iff parse raw reserved = (
  (λ (specs, h).
      let (parsed, used, p, c, e, l) = parse_data_disks_inv parse raw reserved h in
      record {
        parsed = parsed;
        all_parse = p;
        names_free = (claim_names-IsFresh reserved used parsed c).0;
        few = omega (arith, ap length e, length-auto_names 1 used parsed, l);
      }),
  (λ a.
      let (used, c) = IsFresh-claim_names reserved a.parsed a.names_free in
      (
        auto_names 1 used a.parsed,
        rw (a.all_parse, c) (ground (arith, length-auto_names 1 used a.parsed, a.few)),
      )),
)
