-- ===== src/Qemu/Launch/Ports.antt =====
-- The SATA ports of a guest's disks, and the panic of a fifth data disk.
use cocoon_macos.Base.{
  ℕ, zero, suc, ◌+◌, ◌<◌, ◌≤◌, false, List, [], ◌∷◌, ◌++◌, Option, none, some, ◌≡◌, refl, ◌∙◌,
  arith, ap, if◌then◌else◌, Bool-cases, Option-cases, ltb, ltb→lt, inl, inr, ◌⊎◌, get_elem?, length,
  take, drop, append-nil, ltb_ℤ, pos,
}
use cocoon_macos.Text.{Bytes, codes, text_eq}
use cocoon_macos.Text.Decimal.{decimal, decimal-no_comma}
use cocoon_macos.Qemu.Launch.{
  Spec, args, base_args, smc_device, mem_backend, tail_args, data_disk_args, data_disk_ports,
  disk_drive, disk_device, disk_id, osk, nic, with_disks, attach,
}
use cocoon_macos.Qemu.Launch.Parts.{
  reboot_args, args_inv, values-args, attach-eq-some, values-tail_args,
}
use cocoon_macos.Qemu.Options.{values, fields, lookup_field, fields_plain, fields_plain_end}

abbrev paired : Option Bytes → Option Bytes → Option (Bytes × Bytes)
paired (some port) (some drive) = some (port, drive)
paired _ _ = none

abbrev port_fields : List Bytes → Option (Bytes × Bytes)
port_fields [] = none
port_fields (kind ∷ props) =
    if text_eq kind (codes "ide-hd")
    then paired (lookup_field (codes "bus=sata.") props) (lookup_field (codes "drive=") props)
    else none

abbrev onto : Option (Bytes × Bytes) → List (Bytes × Bytes) → List (Bytes × Bytes)
onto none rest = rest
onto (some p) rest = p ∷ rest

-- the SATA port and the drive of each disk among the values of `-device`
abbrev ports_of : List Bytes → List (Bytes × Bytes)
ports_of [] = []
ports_of (v ∷ vs) = onto (port_fields (fields false [] v)) (ports_of vs)

abbrev pub sata_ports : List Bytes → List (Bytes × Bytes)
sata_ports a = ports_of (values (codes "-device") none a)

-- the ports in the order in which the command line names them
abbrev pub six_ports : List (Bytes × Bytes)
six_ports =
    (codes "2", codes "OpenCoreBoot")
    ∷ (codes "4", codes "MacHDD")
    ∷ (codes "0", codes "DataDisk0")
    ∷ (codes "1", codes "DataDisk1")
    ∷ (codes "3", codes "DataDisk2")
    ∷ (codes "5", codes "DataDisk3")
    ∷ []

ports_of-append : (xs ys : List Bytes) → ports_of (xs ++ ys) ≡ ports_of xs ++ ports_of ys
ports_of-append [] ys = refl
ports_of-append (v ∷ xs) ys = elim (Option-cases (port_fields (fields false [] v))) [
  | inl other ↦ rw other (ports_of-append xs ys)
  | inr (p, disk) ↦ rw disk (ap (λ r. p ∷ r) (ports_of-append xs ys))
]

fields-disk_device :
    (port i : ℕ)
    → fields false [] (disk_device port i)
      ≡ codes "ide-hd" ∷ (codes "bus=sata." ++ decimal port) ∷ (codes "drive=" ++ disk_id i) ∷ []
unfolding disk_device disk_id fields
fields-disk_device port i =
    rw (fields_plain (decimal port) (codes "bus=sata.") _ (decimal-no_comma port)) (
      ap (λ r. codes "ide-hd" ∷ (codes "bus=sata." ++ decimal port) ∷ r)
        (fields_plain_end (decimal i) (codes "drive=DataDisk") (decimal-no_comma i)))

port_fields-disk_device :
    (port i : ℕ)
    → port_fields (fields false [] (disk_device port i)) ≡ some (decimal port, disk_id i)
unfolding lookup_field text_eq
port_fields-disk_device port i = rw (fields-disk_device port i)

ports-base_args : (s : Spec) → sata_ports (base_args s) ≡ take 2 six_ports
unfolding base_args values fields lookup_field smc_device osk
ports-base_args s = refl

ports-tail_args : (s : Spec) → sata_ports (tail_args s) ≡ []
ports-tail_args s =
    ap ports_of
      (values-tail_args (codes "-device") s (unfold text_eq in refl) (unfold text_eq in refl))
    ∙ elim (Bool-cases (ltb_ℤ s.vnc_disp (pos 0))) [
      | inl off ↦ rw off (unfold values nic fields lookup_field in refl)
      | inr on ↦ rw on (unfold values nic fields lookup_field in refl)
    ]

ports-mem_backend : (s : Spec) → sata_ports (mem_backend s) ≡ []
ports-mem_backend s = elim (Bool-cases s.hugepages) [
  | inl on ↦ rw on (unfold values in refl)
  | inr off ↦ rw off (unfold values in refl)
]

ports-reboot_args : (s : Spec) → sata_ports (reboot_args s) ≡ []
ports-reboot_args s = elim (Bool-cases s.exit_on_reboot) [
  | inl on ↦ rw on (unfold values in refl)
  | inr off ↦ rw off (unfold values in refl)
]

port_at :
    (i n port : ℕ)
    → get_elem? data_disk_ports i ≡ some port
    → (decimal port, disk_id i) ∷ take n (drop (suc i) (drop 2 six_ports))
      ≡ take (suc n) (drop i (drop 2 six_ports))
unfolding disk_id decimal
port_at zero n port h = ground arith
port_at (suc zero) n port h = ground arith
port_at (suc (suc zero)) n port h = ground arith
port_at (suc (suc (suc zero))) n port h = ground arith
port_at (suc (suc (suc (suc i)))) n port h = cc

ports-data_disk_args :
    (i : ℕ) (paths disks : List Bytes)
    → data_disk_args i paths ≡ some disks
    → sata_ports disks ≡ take (length paths) (drop i (drop 2 six_ports))
unfolding data_disk_args values
ports-data_disk_args i [] disks h = ground arith
ports-data_disk_args i (path ∷ paths) disks h =
    let (port, rest, at, more, e) = attach-eq-some i path _ _ h in
    rw (e, port_fields-disk_device port i, ports-data_disk_args (suc i) paths rest more)
      (port_at i (length paths) port at)

sata_ports-args :
    (s : Spec) {a : List Bytes}
    → args s ≡ some a
    → sata_ports a ≡ take (suc (suc (length s.data_disks))) six_ports
sata_ports-args s h =
    let (disks, d, e) = args_inv s h in
    ap ports_of (values-args (codes "-device") s d e)
    ∙ simp (
      ports_of-append,
      ports-mem_backend,
      ports-base_args,
      ports-reboot_args,
      ports-data_disk_args 0 s.data_disks disks d,
      ports-tail_args,
      append-nil,
    )

data_disk_args-some :
    (i : ℕ) (paths : List Bytes)
    → i + length paths ≤ 4
    → (disks : List Bytes) × (data_disk_args i paths ≡ some disks)
unfolding data_disk_args
data_disk_args-some i [] h = ([], refl)
data_disk_args-some i (path ∷ paths) h =
    let (rest, e) = data_disk_args-some (suc i) paths (omega arith) in
    let (port, at) = port_of i (omega arith) in
    (codes "-drive" ∷ disk_drive i path ∷ codes "-device" ∷ disk_device port i ∷ rest, rw (e, at))
  where
    port_of : (j : ℕ) → j < 4 → (port : ℕ) × (get_elem? data_disk_ports j ≡ some port)
    port_of zero k = (0, refl)
    port_of (suc zero) k = (1, refl)
    port_of (suc (suc zero)) k = (3, refl)
    port_of (suc (suc (suc zero))) k = (5, refl)
    port_of (suc (suc (suc (suc j)))) k = absurd (omega arith)

attach-none : (i : ℕ) (path : Bytes) (o : Option ℕ) → attach i path o none ≡ none
attach-none i path none = refl
attach-none i path (some port) = refl

data_disk_args-none :
    (i : ℕ) (paths : List Bytes) → 4 < i + length paths → i ≤ 4 → data_disk_args i paths ≡ none
unfolding data_disk_args
data_disk_args-none i [] h k = absurd (omega arith)
data_disk_args-none i (path ∷ paths) h k = elim (Bool-cases (ltb i 4)) [
  | inl free ↦
      rw (data_disk_args-none (suc i) paths (omega arith) (ltb→lt i 4 free))
        (attach-none i path (get_elem? data_disk_ports i))
  | inr taken ↦ let e : i ≡ 4 = ground arith in rw e
]

-- Building the command line runs past the table of ports exactly if there are more than four data
-- disks; else its disks sit on the SATA ports 2, 4, 0, 1, 3, 5 in this order, as far as there are
-- disks, so no port is taken twice.
pub args-ports :
    (s : Spec)
    → ((args s ≡ none) × (4 < length s.data_disks))
      ⊎ ((a : List Bytes) × (args s ≡ some a)
          × (length s.data_disks ≤ 4)
          × (sata_ports a ≡ take (suc (suc (length s.data_disks))) six_ports))
unfolding args
args-ports s = elim (Bool-cases (ltb 4 (length s.data_disks))) [
  | inl many ↦
      let h = ltb→lt 4 (length s.data_disks) many in
      inl (rw (data_disk_args-none 0 s.data_disks (omega arith) (omega arith)), h)
  | inr few ↦
      let (disks, e) = data_disk_args-some 0 s.data_disks (ground arith) in
      let built : args s ≡ with_disks s (some disks) = ap (with_disks s) e in
      inr (_, built, ground arith, sata_ports-args s built)
]
