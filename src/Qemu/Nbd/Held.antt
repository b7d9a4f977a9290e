-- ===== src/Qemu/Nbd/Held.antt =====
-- `processReferencesBlockDevice` (qemu/inject.go) finds what `qemuNBDConnectArgs` starts.
use cocoon_macos.Base.{
  Bool, true, false, ◌||◌, List, [], ◌∷◌, ◌++◌, ◌≡◌, refl, ◌∙◌, ap, arith, any, any-append, ◌==◌,
}
use cocoon_macos.Text.{Bytes, codes, split}
use cocoon_macos.Text.Laws.{text_eq_refl}
use cocoon_macos.Qemu.Nbd.{
  nbd_arg_references_device, process_references_block_device, qemu_nbd_connect_args,
}

-- a file of /proc with a command line: each argument ends in a zero byte
abbrev pub proc_cmdline : List Bytes → Bytes
proc_cmdline [] = []
proc_cmdline (a ∷ args) = a ++ (0 ∷ proc_cmdline args)

abbrev pub has_zero : Bytes → Bool
has_zero s = any (λ c. c == 0) s

split-zero : (a rest : Bytes) → has_zero a ≡ false → split 0 (a ++ (0 ∷ rest)) ≡ a ∷ split 0 rest
unfolding split
split-zero [] rest h = refl
split-zero (c ∷ a) rest h = ground (arith, split-zero a rest)

references-own :
    (device : Bytes) → nbd_arg_references_device (codes "--connect=" ++ device) device ≡ true
unfolding nbd_arg_references_device
references-own device = ground (arith, text_eq_refl (codes "--connect=" ++ device))

-- some argument of a command line refers to the device
abbrev refers : Bytes → Bytes → Bool
refers device cmdline = any (λ arg. nbd_arg_references_device arg device) (split 0 cmdline)

refers-cons :
    (device a : Bytes) (args : List Bytes)
    → has_zero a ≡ false
    → refers device (proc_cmdline (a ∷ args))
      ≡ (nbd_arg_references_device a device || refers device (proc_cmdline args))
refers-cons device a args h = rw (split-zero a (proc_cmdline args) h) refl

or-true : (b : Bool) {c : Bool} → c ≡ true → (b || c) ≡ true
or-true b h = ground arith

refers-later :
    (device a : Bytes) (args : List Bytes)
    → has_zero a ≡ false
    → refers device (proc_cmdline args) ≡ true
    → refers device (proc_cmdline (a ∷ args)) ≡ true
refers-later device a args h r =
    refers-cons device a args h ∙ or-true (nbd_arg_references_device a device) r

has_zero-append :
    (a b : Bytes) → has_zero a ≡ false → has_zero b ≡ false → has_zero (a ++ b) ≡ false
has_zero-append a b h g = ground (arith, any-append (λ c. c == 0) a b)

-- Among the command lines of a machine, the one of a qemu-nbd that `qemuNBDConnectArgs` started makes
-- its device count as held, if the paths of the device and of its pid file hold no zero byte.
pub process_references_block_device-connect :
    (before after : List Bytes) (nbd pid_file oc_path : Bytes)
    → has_zero nbd ≡ false
    → has_zero pid_file ≡ false
    → process_references_block_device
        (before
          ++ (proc_cmdline (codes "qemu-nbd" ∷ qemu_nbd_connect_args nbd pid_file oc_path) ∷ after))
        nbd
      ≡ true
unfolding process_references_block_device qemu_nbd_connect_args
process_references_block_device-connect before after nbd pid_file oc_path n p =
    any-append (refers nbd) before _
    ∙ or-true (any (refers nbd) before) (ap (λ b. b || any (refers nbd) after) found)
  where
    from_connect : List Bytes
    from_connect = (codes "--connect=" ++ nbd) ∷ codes "-f" ∷ codes "qcow2" ∷ oc_path ∷ []

    connect : refers nbd (proc_cmdline from_connect) ≡ true
    connect =
        refers-cons nbd (codes "--connect=" ++ nbd) (codes "-f" ∷ codes "qcow2" ∷ oc_path ∷ [])
          (has_zero-append (codes "--connect=") nbd refl n)
        ∙ rw (references-own nbd) refl

    found :
        refers nbd (proc_cmdline (codes "qemu-nbd" ∷ qemu_nbd_connect_args nbd pid_file oc_path))
        ≡ true
    found =
        refers-later nbd (codes "qemu-nbd")
          (codes "--fork" ∷ (codes "--pid-file=" ++ pid_file) ∷ from_connect) refl
          (refers-later nbd (codes "--fork") ((codes "--pid-file=" ++ pid_file) ∷ from_connect) refl
            (refers-later nbd (codes "--pid-file=" ++ pid_file) from_connect
              (has_zero-append (codes "--pid-file=") pid_file refl p) connect))
