-- ===== src/Qemu/Launch/Parts.antt =====
-- The command line by its parts: a value of the whole is a value of one part.
use cocoon_macos.Base.{
  ℕ, suc, true, false, List, [], ◌∷◌, ◌++◌, Option, none, some, ◌≡◌, refl, arith, if◌then◌else◌,
  Bool-cases, inl, inr, ltb_ℤ, pos, append-nil,
}
use cocoon_macos.Text.{Bytes, codes, text_eq}
use cocoon_macos.Qemu.Launch.{
  Spec, args, base_args, mem_backend, tail_args, data_disk_args, attach, vnc_args, net_args,
  monitor_args, disk_drive, disk_device,
}
use cocoon_macos.Qemu.Options.{values, has_no_value, is_complete, values-append}

abbrev pub reboot_args : Spec → List Bytes
reboot_args s = if s.exit_on_reboot then codes "-no-reboot" ∷ [] else []

is_complete-mem_backend : (s : Spec) → is_complete none (mem_backend s) ≡ true
unfolding is_complete
is_complete-mem_backend s = elim (Bool-cases s.hugepages) [ inl on ↦ rw on | inr off ↦ rw off ]

is_complete-reboot_args : (s : Spec) → is_complete none (reboot_args s) ≡ true
unfolding is_complete
is_complete-reboot_args s = elim (Bool-cases s.exit_on_reboot) [ inl on ↦ rw on | inr off ↦ rw off ]

is_complete-base_args : (s : Spec) → is_complete none (base_args s) ≡ true
unfolding is_complete base_args
is_complete-base_args s = refl

-- What a step of the loop over the data disks gives.
pub attach-eq-some :
    (i : ℕ) (path : Bytes) (o : Option ℕ) (r : Option (List Bytes)) {disks : List Bytes}
    → attach i path o r ≡ some disks
    → (port : ℕ) × (rest : List Bytes) × (o ≡ some port)
      × (r ≡ some rest)
      × (disks ≡ codes "-drive" ∷ disk_drive i path ∷ codes "-device" ∷ disk_device port i ∷ rest)
attach-eq-some i path (some port) (some rest) h = (port, rest, refl, refl, ground arith)
attach-eq-some i path (some port) none h = cc
attach-eq-some i path none r h = cc

is_complete-data_disk_args :
    (i : ℕ) (paths disks : List Bytes)
    → data_disk_args i paths ≡ some disks
    → is_complete none disks ≡ true
unfolding is_complete data_disk_args
is_complete-data_disk_args i [] disks h = ground arith
is_complete-data_disk_args i (path ∷ paths) disks h =
    let (port, rest, at, more, e) = attach-eq-some i path _ _ h in
    rw e (is_complete-data_disk_args (suc i) paths rest more)

-- The disk part of a command line that was built.
pub args_inv :
    (s : Spec) {a : List Bytes}
    → args s ≡ some a
    → (disks : List Bytes) × (data_disk_args 0 s.data_disks ≡ some disks)
      × (a ≡ mem_backend s ++ (base_args s ++ (reboot_args s ++ (disks ++ tail_args s))))
unfolding args
args_inv s h = ground arith

pub values-args :
    (wanted : Bytes) (s : Spec) {a disks : List Bytes}
    → data_disk_args 0 s.data_disks ≡ some disks
    → a ≡ mem_backend s ++ (base_args s ++ (reboot_args s ++ (disks ++ tail_args s)))
    → values wanted none a
      ≡ values wanted none (mem_backend s)
        ++ (values wanted none (base_args s)
            ++ (values wanted none (reboot_args s)
                ++ (values wanted none disks ++ values wanted none (tail_args s))))
values-args wanted s d e = rw (
  e,
  values-append wanted none (mem_backend s) _ (is_complete-mem_backend s),
  values-append wanted none (base_args s) _ (is_complete-base_args s),
  values-append wanted none (reboot_args s) _ (is_complete-reboot_args s),
  values-append wanted none _ (tail_args s) (is_complete-data_disk_args 0 s.data_disks _ d),
)

is_complete-vnc_args : (s : Spec) → is_complete none (vnc_args s) ≡ true
unfolding is_complete
is_complete-vnc_args s = elim (Bool-cases (ltb_ℤ s.vnc_disp (pos 0))) [
  | inl off ↦ rw off
  | inr on ↦ rw on
]

is_complete-monitor_args :
    (flag sock : Bytes)
    → has_no_value flag ≡ false
    → is_complete none (monitor_args flag sock) ≡ true
unfolding is_complete
is_complete-monitor_args flag [] h = refl
is_complete-monitor_args flag (c ∷ sock) h = rw (h, is_complete)

values-monitor_args :
    (wanted flag sock : Bytes)
    → has_no_value flag ≡ false
    → text_eq flag wanted ≡ false
    → values wanted none (monitor_args flag sock) ≡ []
unfolding values
values-monitor_args wanted flag [] h k = refl
values-monitor_args wanted flag (c ∷ sock) h k = rw (h, values) (rw (k, values))

-- The values of an option other than the monitors' stand in the network's and the display's part.
pub values-tail_args :
    (wanted : Bytes) (s : Spec)
    → text_eq (codes "-monitor") wanted ≡ false
    → text_eq (codes "-qmp") wanted ≡ false
    → values wanted none (tail_args s)
      ≡ values wanted none (net_args s) ++ values wanted none (vnc_args s)
unfolding tail_args
values-tail_args wanted s m q =
    rw
      (
        values-append wanted none (net_args s) _ (unfold is_complete in refl),
        values-append wanted none (vnc_args s) _ (is_complete-vnc_args s),
        values-append wanted none (monitor_args (codes "-monitor") s.mon_sock) _
            (is_complete-monitor_args _ s.mon_sock (unfold text_eq in refl)),
        values-monitor_args wanted (codes "-monitor") s.mon_sock (unfold text_eq in refl) m,
        values-monitor_args wanted (codes "-qmp") s.qmp_sock (unfold text_eq in refl) q,
      )
      (rw append-nil)
