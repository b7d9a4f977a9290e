-- ===== src/Qemu/Inject/Free.antt =====
-- qemu/inject.go: the device that `connectFreeNBD` takes is one that nothing uses.
use cocoon_macos.Base.{
  ℕ, zero, suc, ◌+◌, ◌≤◌, ◌<◌, Bool, true, false, List, Option, ◌++◌, ◌≡◌, refl, arith, ℤ, not,
  if◌then◌else◌, some, none, ◌∙◌, ap,
}
use cocoon_macos.Text.{Bytes, codes}
use cocoon_macos.Fault.{Error, Result, ok, err, wrapped, wrapped-eq-ok}
use cocoon_macos.Io.{Io, ◌>>=◌}
use cocoon_macos.Io.Ends.{after-eq-ok}
use cocoon_macos.Qemu.Nbd.{process_references_block_device, qemu_nbd_connect_args}
use cocoon_macos.Qemu.Inject.{NbdHost, NbdConnection, qemu_nbd, cleanup_nbd_for_path}
use cocoon_macos.Qemu.Inject.Connect.{
  Attempt, connected, failed, refused, nbd_device, nbd_owner_path, is_missing, read_proc_cmdlines,
  unowned, is_free_device, with_pid, with_server, refused_or_cancelled, connect_device,
  after_attempt, connect_from, connect_free_nbd,
}

module _ {W : Type 0} (host : NbdHost W) where
  open host use {stat, remove, run_command, read_pid_file, cancelled}

  unowned-eq-true :
      (cmdlines : List Bytes) (i : ℕ) (there : Result (Unit {0})) (w : W)
      → (unowned host cmdlines i there w).0 ≡ ok true
      → (there ≡ ok tt)
        × (is_missing (stat (nbd_owner_path i) w).0 ≡ true)
        × (process_references_block_device cmdlines (nbd_device i) ≡ false)
  unfolding unowned
  unowned-eq-true cmdlines i there w h = ground arith

  -- qemu-nbd was started on a device for an image, and its pid file read
  abbrev pub Connected : Bytes → Bytes → Bytes → NbdConnection → W → Type 0
  Connected nbd pid_file oc_path c w =
      (c.device ≡ nbd)
      × (c.oc_path ≡ oc_path)
      × (c.pid_file ≡ pid_file)
      × ((run_command qemu_nbd (qemu_nbd_connect_args nbd pid_file oc_path) w).0 ≡ ok tt)
      × ((read_pid_file pid_file
            (run_command qemu_nbd (qemu_nbd_connect_args nbd pid_file oc_path) w).1).0
          ≡ ok c.pid)

  with_pid-connected :
      (nbd pid_file oc_path : Bytes) (pid : Result ℤ) (w : W) {c : NbdConnection}
      → (with_pid host nbd pid_file oc_path pid w).0 ≡ ok (connected c)
      → (c.device ≡ nbd) × (c.oc_path ≡ oc_path) × (c.pid_file ≡ pid_file) × (pid ≡ ok c.pid)
  unfolding with_pid
  with_pid-connected nbd pid_file oc_path pid w {c} h = ground arith

  refused_or_cancelled-connected :
      {P : Type 0} (e : Error) (stop : Option Error) {c : NbdConnection}
      → refused_or_cancelled host e stop ≡ connected c
      → P
  unfolding refused_or_cancelled
  refused_or_cancelled-connected e none h = cc
  refused_or_cancelled-connected e (some f) h = cc

  with_server-connected :
      (nbd pid_file oc_path : Bytes) (out : Result (Unit {0})) (w : W) {c : NbdConnection}
      → (with_server host nbd pid_file oc_path out w).0 ≡ ok (connected c)
      → (c.device ≡ nbd)
        × (c.oc_path ≡ oc_path)
        × (c.pid_file ≡ pid_file)
        × (out ≡ ok tt)
        × ((read_pid_file pid_file w).0 ≡ ok c.pid)
  unfolding with_server
  with_server-connected nbd pid_file oc_path (ok u) w h =
      let t =
        with_pid-connected nbd pid_file oc_path (read_pid_file pid_file w).0
          (read_pid_file pid_file w).1 h in
      (t.0, t.1, t.2, refl, t.3)
  with_server-connected nbd pid_file oc_path (err e) w {c} h =
      refused_or_cancelled-connected e (cancelled (cleanup_nbd_for_path host oc_path w).1) {c = c}
        (cc)

  connect_device-connected :
      (nbd pid_file oc_path : Bytes) (w : W) {c : NbdConnection}
      → (connect_device host nbd pid_file oc_path w).0 ≡ ok (connected c)
      → Connected nbd pid_file oc_path c w
  unfolding connect_device
  connect_device-connected nbd pid_file oc_path w h =
      let started = run_command qemu_nbd (qemu_nbd_connect_args nbd pid_file oc_path) w in
      let t =
        with_server-connected nbd pid_file oc_path
          (wrapped "connect qemu-nbd %s (output: %s): %w" started.0) started.1 h in
      (t.0, t.1, t.2, wrapped-eq-ok _ started.0 t.3, t.4)

  -- a connection to device i, which was free, by a server that was started on it
  abbrev pub FreeAt : List Bytes → Bytes → Bytes → NbdConnection → ℕ → Type 0
  FreeAt cmdlines pid_file oc_path c i =
      (i < 16)
      × ((w : W) × (is_free_device host cmdlines i w).0 ≡ ok true)
      × ((w : W) × Connected (nbd_device i) pid_file oc_path c w)

  abbrev pub FoundFree : List Bytes → Bytes → Bytes → NbdConnection → Type 0
  FoundFree cmdlines pid_file oc_path c = (i : ℕ) × FreeAt cmdlines pid_file oc_path c i

  after_attempt-end :
      {P : Type 0} (tried : Attempt) (rest : Option Error → Io W NbdConnection) (w : W)
      {c : NbdConnection}
      → (tried ≡ connected c → P)
      → ((last : Option Error) (w' : W) → (rest last w').0 ≡ ok c → P)
      → (after_attempt host tried rest w).0 ≡ ok c
      → P
  unfolding after_attempt
  after_attempt-end (connected d) rest w here later h = here (cc)
  after_attempt-end (failed e) rest w here later h = cc
  after_attempt-end (refused e) rest w here later h = later (some e) w h

  -- one device of the search: it is taken if it is free, or the search goes on
  try_device :
      (cmdlines : List Bytes) (pid_file oc_path : Bytes) (i : ℕ)
      (rest : Option Error → Io W NbdConnection) (last : Option Error) (free : Bool) (w : W)
      {c : NbdConnection}
      → i < 16
      → ((w' : W) × (is_free_device host cmdlines i w').0 ≡ ok free)
      → ((last : Option Error) (w' : W)
          → (rest last w').0 ≡ ok c
          → FoundFree cmdlines pid_file oc_path c)
      → ((if not free
            then rest last
            else (connect_device host (nbd_device i) pid_file oc_path >>= λ t.
                after_attempt host t rest))
          w).0
        ≡ ok c
      → FoundFree cmdlines pid_file oc_path c
  try_device cmdlines pid_file oc_path i rest last false w lt free later h = later last w h
  try_device cmdlines pid_file oc_path i rest last true w {c} lt free later h =
      let t =
        after-eq-ok (connect_device host (nbd_device i) pid_file oc_path w)
          (λ t. after_attempt host t rest) h in
      after_attempt-end t.0 rest (connect_device host (nbd_device i) pid_file oc_path w).1
        (λ (e : t.0 ≡ connected c). (
          i,
          (
            lt,
            free,
            (w, connect_device-connected (nbd_device i) pid_file oc_path w (t.1 ∙ ap ok e)),
          ),
        ))
        later t.2

  connect_from-FoundFree :
      (cmdlines : List Bytes) (pid_file oc_path : Bytes) (left i : ℕ) (last : Option Error) (w : W)
      {c : NbdConnection}
      → left + i ≤ 16
      → (connect_from host cmdlines pid_file oc_path left i last w).0 ≡ ok c
      → FoundFree cmdlines pid_file oc_path c
  unfolding connect_from
  connect_from-FoundFree cmdlines pid_file oc_path zero i last w le h = cc
  connect_from-FoundFree cmdlines pid_file oc_path (suc left) i last w {c} le h =
      let rest = connect_from host cmdlines pid_file oc_path left (suc i) in
      let t =
        after-eq-ok (is_free_device host cmdlines i w)
          (λ free.
            if not free
            then rest last
            else (connect_device host (nbd_device i) pid_file oc_path >>= λ t.
                after_attempt host t rest))
          h in
      try_device cmdlines pid_file oc_path i rest last t.0 (is_free_device host cmdlines i w).1
        (omega arith) (w, t.1)
        (λ (last : Option Error) (w' : W) (e : (rest last w').0 ≡ ok c).
          connect_from-FoundFree cmdlines pid_file oc_path left (suc i) last w' (omega arith) e)
        t.2

  is_free_device-eq-true :
      (cmdlines : List Bytes) (i : ℕ) (w : W)
      → (is_free_device host cmdlines i w).0 ≡ ok true
      → ((w' : W) × (stat (nbd_device i) w').0 ≡ ok tt)
        × ((w' : W) × is_missing (stat (nbd_owner_path i) w').0 ≡ true)
        × (process_references_block_device cmdlines (nbd_device i) ≡ false)
  unfolding is_free_device
  is_free_device-eq-true cmdlines i w h =
      let there = stat (nbd_device i) w in
      let t = unowned-eq-true cmdlines i there.0 there.1 h in ((w, t.0), (there.1, t.1), t.2)

  -- a connection to /dev/nbd i for some i below 16, which no command line that was read from /proc
  -- mentions, which was seen to be there with its owner's file missing, and on which qemu-nbd was
  -- started
  abbrev pub TakenFree : Bytes → W → NbdConnection → Type 0
  TakenFree oc_path w c =
      (cmdlines : List Bytes) × (i : ℕ) × ((read_proc_cmdlines host (codes "/proc")
          (remove (oc_path ++ codes ".nbd.pid") w).1).0
        ≡ ok cmdlines)
      × (i < 16)
      × (process_references_block_device cmdlines (nbd_device i) ≡ false)
      × ((w' : W) × (stat (nbd_device i) w').0 ≡ ok tt)
      × ((w' : W) × is_missing (stat (nbd_owner_path i) w').0 ≡ true)
      × ((w' : W) × Connected (nbd_device i) (oc_path ++ codes ".nbd.pid") oc_path c w')

  -- If the search for a device succeeds, the device is /dev/nbd i for some i below 16, no command
  -- line that was read from /proc mentions it or a partition of it, it was seen to be there and its
  -- owner's file to be missing, qemu-nbd was started on it for the image, and the connection holds
  -- the process that qemu-nbd's pid file names.
  pub connect_free_nbd-takes_free :
      (oc_path : Bytes) (w : W) {c : NbdConnection}
      → (connect_free_nbd host oc_path w).0 ≡ ok c
      → TakenFree oc_path w c
  unfolding connect_free_nbd
  connect_free_nbd-takes_free oc_path w h =
      let pid_file = oc_path ++ codes ".nbd.pid" in
      let r = read_proc_cmdlines host (codes "/proc") (remove pid_file w).1 in
      let t = after-eq-ok r (λ cmdlines. connect_from host cmdlines pid_file oc_path 16 0 none) h in
      let f = connect_from-FoundFree t.0 pid_file oc_path 16 0 none r.1 (omega arith) t.2 in
      let g = is_free_device-eq-true t.0 f.0 f.1.1.0 f.1.1.1 in
      (t.0, f.0, t.1, f.1.0, g.2, g.0, g.1, f.1.2)
