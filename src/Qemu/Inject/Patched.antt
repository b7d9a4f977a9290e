-- ===== src/Qemu/Inject/Patched.antt =====
-- qemu/inject.go: what a run of `InjectConfig` that reports success has done.
use cocoon_macos.Base.{
  Bool, true, false, not, [], ◌∷◌, ◌++◌, Option, none, some, if◌then◌else◌, ◌≡◌, refl, ◌⊎◌, inl,
  inr, ◌∙◌, ap, sym, sym,
}
use cocoon_macos.Text.{Bytes, codes}
use cocoon_macos.Text.Hex.{decode}
use cocoon_macos.Fault.{Error, Result, ok, err, wrapped, wrapped-eq-ok}
use cocoon_macos.FilePath.{join_path}
use cocoon_macos.Io.{Io, both, ◌>>=◌, attempt, pure, ignore, ◌>>◌}
use cocoon_macos.Io.Ends.{after-eq-ok, after-run}
use cocoon_macos.Qemu.Smbios.{Smbios}
use cocoon_macos.Qemu.Plist.{Entries, patch_config}
use cocoon_macos.Qemu.Inject.{
  NbdHost, NbdConnection, is_file_held, killed_unless, released, disconnect, and_finally,
  with_nbd_lease, nbd_lease_path, qemu_nbd, cleanup_nbd_for_path,
}
use cocoon_macos.Qemu.Inject.Connect.{connect_free_nbd}
use cocoon_macos.Qemu.Inject.Config.{
  wait_for_part, cleanup_nbd_mount, succeeded, mount_first, decoded_rom, patch_plist, patch_mounted,
  patch_connected, inject_leased, inject_config,
}

both-eq-ok : (r s : Result (Unit {0})) → both r s ≡ ok tt → (r ≡ ok tt) × (s ≡ ok tt)
both-eq-ok (ok u) s h = (refl, h)
both-eq-ok (err e) (ok u) h = cc
both-eq-ok (err e) (err f) h = cc

decoded_rom-eq-ok : (r : Option Bytes) {rom : Bytes} → decoded_rom r ≡ ok rom → r ≡ some rom
decoded_rom-eq-ok none h = cc
decoded_rom-eq-ok (some rom) h = cc

ok-injective : {A : Type 0} {a b : A} → ok a ≡ ok b → a ≡ b
ok-injective h = cc

pair : {A W : Type 0} {p : Result A × W} {a : A} {w : W} → p.0 ≡ ok a → p.1 ≡ w → p ≡ (ok a, w)
pair e f = λ i. (e i, f i)

module _ {W : Type 0} (host : NbdHost W) where
  open host use {
    lock, remove, make_temp_dir, terminate_process, run_command, read_file, write_file, wait_for,
    unmarshal, marshal,
  }

  abbrev pub config_path : Bytes → Bytes
  config_path mnt =
      join_path (join_path (join_path mnt (codes "EFI")) (codes "OC")) (codes "config.plist")

  -- from one state to another, the file at a path is read as a property list, and what the patch makes
  -- of it is written back
  abbrev pub Patched : Bytes → Smbios → W → W → Type 0
  Patched path sm w w' =
      (b : Bytes) × (cfg : Entries) × (rom : Bytes) × (out : Bytes) × ((read_file path w).0 ≡ ok b)
      × (unmarshal b ≡ ok cfg)
      × (decode sm.rom ≡ some rom)
      × (marshal (patch_config sm rom cfg) ≡ ok out)
      × (write_file path out (read_file path w).1 ≡ (ok tt, w'))

  patch_plist-Patched :
      (path : Bytes) (sm : Smbios) (w : W)
      → (patch_plist host path sm w).0 ≡ ok tt
      → Patched path sm w (patch_plist host path sm w).1
  unfolding patch_plist
  patch_plist-Patched path sm w h =
      let r = read_file path w in
      let b = after-run (wrapped "read config.plist: %w" r.0, r.1) _ h in
      let cfg = after-run (wrapped "parse config.plist: %w" (unmarshal b.0), r.1) _ b.2 in
      let rom = after-run (decoded_rom (decode sm.rom), r.1) _ cfg.2 in
      let out =
        after-run (wrapped "encode config.plist: %w" (marshal (patch_config sm rom.0 cfg.0)), r.1) _
          rom.2 in
      (
        b.0,
        cfg.0,
        rom.0,
        out.0,
        wrapped-eq-ok _ r.0 b.1,
        wrapped-eq-ok _ (unmarshal b.0) cfg.1,
        decoded_rom-eq-ok (decode sm.rom) rom.1,
        wrapped-eq-ok _ (marshal (patch_config sm rom.0 cfg.0)) out.1,
        pair out.2 (ap (λ x. x.1) (sym (b.3 ∙ cfg.3 ∙ rom.3 ∙ out.3))),
      )

  -- the first partition of a device mounts, or it does not and the second does
  abbrev pub MountedFrom : Bytes → Bytes → W → W → Type 0
  MountedFrom device mnt w w' =
      let first = run_command (codes "mount") ((device ++ codes "p1") ∷ mnt ∷ []) w in
      (first ≡ (ok tt, w'))
      ⊎ ((e : Error) × (first.0 ≡ err e)
          × (run_command (codes "mount") ((device ++ codes "p2") ∷ mnt ∷ []) first.1 ≡ (ok tt, w')))

  mount_end :
      (P : W → Type 0) (this : Result (Unit {0}))
      (rest : Result (Unit {0}) → Io W (Result (Unit {0}))) (w : W)
      → (this ≡ ok tt → P w)
      → ((e : Error) → this ≡ err e → (rest (err e) w).0 ≡ ok (ok tt) → P (rest (err e) w).1)
      → ((if succeeded this then pure this else rest this) w).0 ≡ ok (ok tt)
      → P ((if succeeded this then pure this else rest this) w).1
  mount_end P (ok u) rest w f g h = f refl
  mount_end P (err e) rest w f g h = g e refl h

  mount_first-MountedFrom :
      (mnt device : Bytes) (w : W)
      → let parts = (device ++ codes "p1") ∷ (device ++ codes "p2") ∷ [] in
        (mount_first host mnt parts (ok tt) w).0 ≡ ok (ok tt)
        → MountedFrom device mnt w (mount_first host mnt parts (ok tt) w).1
  unfolding mount_first
  mount_first-MountedFrom mnt device w h =
      let first = run_command (codes "mount") ((device ++ codes "p1") ∷ mnt ∷ []) w in
      let second = run_command (codes "mount") ((device ++ codes "p2") ∷ mnt ∷ []) first.1 in
      mount_end (MountedFrom device mnt w) first.0
        (mount_first host mnt ((device ++ codes "p2") ∷ [])) first.1
        (λ e. inl (ap (λ (r : Result (Unit {0})). (r, first.1)) e))
        (λ e k.
          mount_end (MountedFrom device mnt w) second.0 (mount_first host mnt []) second.1
            (λ e'. inr (e, k, ap (λ (r : Result (Unit {0})). (r, second.1)) e')) (λ e' k' l. cc))
        h

  released-eq-ok :
      (errs : Result (Unit {0})) (held : Result Bool) (w : W)
      → (released host errs held w).0 ≡ ok tt
      → (held ≡ ok false) ⊎ (errs ≡ ok tt)
  unfolding released
  released-eq-ok errs (err e) w h = let t = both-eq-ok errs (err e) h in inr t.0
  released-eq-ok errs (ok false) w h = inl refl
  released-eq-ok errs (ok true) w h = inr h

  killed_unless-eq-ok :
      (c : NbdConnection) (command waited : Result (Unit {0})) (w : W)
      → (killed_unless host c command waited w).0 ≡ ok (ok tt)
      → (command ≡ ok tt) × (waited ≡ ok tt)
  unfolding killed_unless
  killed_unless-eq-ok c command (ok u) w h = (ok-injective h, refl)
  killed_unless-eq-ok c command (err e) w h =
      let killed = terminate_process c.pid qemu_nbd c.oc_path 1000 w in
      let cleaned = cleanup_nbd_for_path host c.oc_path killed.1 in
      let t = both-eq-ok (both command (err e)) (both killed.0 cleaned.0) (ok-injective h) in
      both-eq-ok command (err e) t.0

  -- the last thing that a disconnection did was to see that nothing holds the image, or its command
  -- succeeded and so did the wait for the image to be held no more
  abbrev pub Released : NbdConnection → W → W → Type 0
  Released c w w' =
      let command = run_command qemu_nbd (codes "--disconnect" ∷ c.device ∷ []) w in
      ((v : W) × (is_file_held host c.oc_path v ≡ (ok false, w')))
      ⊎ ((command.0 ≡ ok tt)
          × ((wait_for 10000 (is_file_held host c.oc_path >>= λ held. pure (not held)) command.1).0
              ≡ ok tt))

  released-state :
      (errs : Result (Unit {0})) (held : Result Bool) (w : W) → (released host errs held w).1 ≡ w
  unfolding released
  released-state errs (err e) w = refl
  released-state errs (ok false) w = refl
  released-state errs (ok true) w = refl

  disconnect-Released :
      (c : NbdConnection) (w : W)
      → (disconnect host c w).0 ≡ ok tt
      → Released c w (disconnect host c w).1
  unfolding disconnect
  disconnect-Released c w h =
      let command = run_command qemu_nbd (codes "--disconnect" ∷ c.device ∷ []) w in
      let command_err = wrapped "disconnect %s (output: %s): %w" command.0 in
      let waited =
        wait_for 10000 (is_file_held host c.oc_path >>= λ held. pure (not held)) command.1 in
      let k = killed_unless host c command_err waited.0 waited.1 in
      let t =
        after-run k
          (λ errs.
            ignore (remove c.pid_file)
            >> (attempt (is_file_held host c.oc_path) >>= released host errs))
          h in
      let gone = (remove c.pid_file k.1).1 in
      let held = is_file_held host c.oc_path gone in
      let same = ap (λ x. x.1) t.3 ∙ released-state t.0 held.0 held.1 in
      elim (released-eq-ok t.0 held.0 held.1 t.2) [
        | inl e ↦ inl (gone, pair e (sym same))
        | inr e ↦
            let done = killed_unless-eq-ok c command_err waited.0 waited.1 (t.1 ∙ ap ok e) in
            inr (wrapped-eq-ok _ command.0 done.0, done.1)
      ]

  patch_mounted-Patched :
      (mnt : Bytes) (sm : Smbios) (mounted : Result (Unit {0})) (w : W)
      → (patch_mounted host mnt sm mounted w).0 ≡ ok tt
      → (mounted ≡ ok tt) × Patched (config_path mnt) sm w (patch_mounted host mnt sm mounted w).1
  unfolding patch_mounted
  patch_mounted-Patched mnt sm (ok u) w h = (refl, patch_plist-Patched (config_path mnt) sm w h)
  patch_mounted-Patched mnt sm (err e) w h = cc

  cleanup-unmounted :
      (mnt : Bytes) (mounted : Result (Unit {0})) (w : W)
      → mounted ≡ ok tt
      → (cleanup_nbd_mount host mnt (succeeded mounted) w).0 ≡ ok tt
      → (run_command (codes "umount") (mnt ∷ []) w).0 ≡ ok tt
  unfolding cleanup_nbd_mount
  cleanup-unmounted mnt (err e) w m h = cc
  cleanup-unmounted mnt (ok u) w m h =
      let umounted = run_command (codes "umount") (mnt ∷ []) w in
      let t = after-eq-ok (wrapped "unmount %s (output: %s): %w" umounted.0, umounted.1) _ h in
      wrapped-eq-ok _ umounted.0 t.1

  -- on a device, from a state: its partition appears, it is mounted, the configuration on it is
  -- patched, and it is unmounted
  abbrev pub PatchedOn : Bytes → Smbios → W → Type 0
  PatchedOn device sm w =
      let made = make_temp_dir (codes "oc-efi-") (wait_for_part host device w).1 in
      (mnt : Bytes) × (mounted patched : W) × (made.0 ≡ ok mnt)
      × MountedFrom device mnt made.1 mounted
      × Patched (config_path mnt) sm mounted patched
      × ((run_command (codes "umount") (mnt ∷ []) patched).0 ≡ ok tt)

  patch_connected-PatchedOn :
      (device : Bytes) (sm : Smbios) (w : W)
      → (patch_connected host device sm w).0 ≡ ok tt
      → PatchedOn device sm w
  unfolding patch_connected and_finally
  patch_connected-PatchedOn device sm w h =
      let part = wait_for_part host device w in
      let t = after-eq-ok part _ h in
      let made = make_temp_dir (codes "oc-efi-") part.1 in
      let m = after-eq-ok (wrapped "create mount dir: %w" made.0, made.1) _ t.2 in
      let mounted =
        mount_first host m.0 ((device ++ codes "p1") ∷ (device ++ codes "p2") ∷ []) (ok tt)
          made.1 in
      let r = after-eq-ok mounted _ m.2 in
      let done = patch_mounted host m.0 sm r.0 mounted.1 in
      let cleaned = cleanup_nbd_mount host m.0 (succeeded r.0) done.1 in
      let b = both-eq-ok done.0 cleaned.0 r.2 in
      let p = patch_mounted-Patched m.0 sm r.0 mounted.1 b.0 in
      (
        m.0,
        mounted.1,
        done.1,
        wrapped-eq-ok _ made.0 m.1,
        mount_first-MountedFrom m.0 device made.1 (r.1 ∙ ap ok p.0),
        p.1,
        cleanup-unmounted m.0 r.0 done.1 p.0 b.1,
      )

  -- a run that took the lease, connected, patched on the device and released it
  abbrev pub PatchedRun : Bytes → Smbios → W → Type 0
  PatchedRun oc_path sm w =
      let leased = lock nbd_lease_path w in
      let probed =
        run_command (codes "modprobe") (codes "nbd" ∷ codes "max_part=8" ∷ []) leased.1 in
      let connection = connect_free_nbd host oc_path probed.1 in
      (leased.0 ≡ ok tt)
      × ((c : NbdConnection) × (connection.0 ≡ ok c)
          × PatchedOn c.device sm connection.1
          × (let patched = patch_connected host c.device sm connection.1 in
              Released c patched.1 (disconnect host c patched.1).1))

  -- If InjectConfig reports success: under the lease it had a connection to the image; on its device the
  -- first partition was mounted or, where that failed, the second; config.plist on it was read and
  -- parsed, and the patch of it by this identity was written back; after that the partition was
  -- unmounted; and the disconnection ended with nothing seen to hold the image, or with a disconnect
  -- command and a wait for that which succeeded.
  pub inject_config-patches :
      (oc_path : Bytes) (sm : Smbios) (w : W)
      → (inject_config host oc_path sm w).0 ≡ ok tt
      → PatchedRun oc_path sm w
  unfolding inject_config inject_leased with_nbd_lease and_finally
  inject_config-patches oc_path sm w h =
      let locked = lock nbd_lease_path w in
      let t = after-eq-ok (wrapped "lock qemu-nbd lease: %w" locked.0, locked.1) _ h in
      let probed =
        run_command (codes "modprobe") (codes "nbd" ∷ codes "max_part=8" ∷ []) locked.1 in
      let conn = connect_free_nbd host oc_path probed.1 in
      let c = after-eq-ok conn _ t.2 in
      let done = patch_connected host c.0.device sm conn.1 in
      let left = disconnect host c.0 done.1 in
      let b = both-eq-ok done.0 left.0 c.2 in
      (
        wrapped-eq-ok _ locked.0 t.1,
        (
          c.0,
          c.1,
          patch_connected-PatchedOn c.0.device sm conn.1 b.0,
          disconnect-Released c.0 done.1 b.1,
        ),
      )
