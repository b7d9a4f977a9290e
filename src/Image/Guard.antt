-- ===== src/Image/Guard.antt =====
-- cmd/image/handler.go: what Pull does to the image store.
use cocoon_macos.Base.{
  ℕ, zero, suc, ◌*◌, Bool, true, false, Option, none, some, if◌then◌else◌, ◌≡◌, refl, ◌⊎◌, inl, inr,
  ltb, ◌∙◌, ap,
}
use cocoon_macos.Text.{Bytes, codes}
use cocoon_macos.Fault.{Error, Result, ok, err}
use cocoon_macos.Io.{Io, pure, attempt, after, when, ◌>>=◌, ◌>>◌}
use cocoon_macos.Io.Keeps.{Keeps, keeps_rules}
use cocoon_macos.Image.Layer.{Descriptor}
use cocoon_macos.Image.Registry.{
  ImageHost, Repository, resolve_qcow2_layer, download_verified, pull_oci_blob,
}
use cocoon_macos.Image.Pull.{is_present, max_pull_attempts, imported_or, pull_from, pull_artifact}
use cocoon_macos.Image.Pull.{open_store, pull}
use cocoon_macos.Image.Verified.{Verified, pull_oci_blob-Verified}

module _ {W : Type 0} (host : ImageHost W) where
  -- the store was left alone, and an error is returned
  abbrev Failed : {V : Type 0} → (W → V) → W → Result (Unit {0}) × W → Type 0
  Failed view w run = (view run.1 ≡ view w) × ((e : Error) × (run.0 ≡ err e))

  -- a verified download, up to which the store was left alone, was imported
  abbrev ImportedFrom : {V : Type 0} → (W → V) → Bytes → Bytes → W → Result (Unit {0}) × W → Type 0
  ImportedFrom view ref tmp w run =
      (before : W) × Verified host ref tmp before
      × (let pulled = pull_oci_blob host ref tmp before in
          (view pulled.1 ≡ view w) × (run ≡ host.store_import ref tmp pulled.1))

  -- an image that was there already: nothing is done
  abbrev Present : {V : Type 0} → (W → V) → Bytes → Bool → W → Result (Unit {0}) × W → Type 0
  Present view ref force w run =
      (view run.1 ≡ view w)
      × (run.0 ≡ ok tt)
      × (force ≡ false)
      × ((v : W) × (id : Bytes) × ((host.store_inspect ref v).0 ≡ ok (some id)))

  -- the import of a verified download from a temporary file, which is removed then
  abbrev Imported : {V : Type 0} → (W → V) → Bytes → W → Result (Unit {0}) × W → Type 0
  Imported view ref w run =
      (tmp : Bytes) × (before : W) × Verified host ref tmp before
      × (let pulled = pull_oci_blob host ref tmp before in
          let imported = host.store_import ref tmp pulled.1 in
          (view pulled.1 ≡ view w) × (run ≡ (imported.0, (host.remove tmp imported.1).1)))

  -- how a pull of an artifact can end
  pub data PullEnd {V : Type 0} (view : W → V) (ref : Bytes) (force : Bool) (w : W)
      (run : Result (Unit {0}) × W) : Type 0 where
    was_failed : Failed view w run → PullEnd view ref force w run
    was_present : Present view ref force w run → PullEnd view ref force w run
    was_imported : Imported view ref w run → PullEnd view ref force w run

-- The calls that leave a view of the state alone: all but those that write to the image store.
module _ {W V : Type 0} (host : ImageHost W) (view : W → V)
    (keeps_resolve : (repo : Repository) (ref : Bytes) → Keeps view (host.resolve repo ref))
    (keeps_fetch_manifest : (repo : Repository) (desc : Bytes)
      → Keeps view (host.fetch_manifest repo desc))
    (keeps_create_file : (p : Bytes) → Keeps view (host.create_file p))
    (keeps_sync_file : (p : Bytes) → Keeps view (host.sync_file p))
    (keeps_close_file : (p : Bytes) → Keeps view (host.close_file p))
    (keeps_download_blob : (url p : Bytes) → Keeps view (host.download_blob url p))
    (keeps_wait : (seconds : ℕ) → Keeps view (host.wait seconds))
    (keeps_create_temp : (dir pattern : Bytes) → Keeps view (host.create_temp dir pattern))
    (keeps_remove : (p : Bytes) → Keeps view (host.remove p))
    (keeps_open_meta : (dir : Bytes) → Keeps view (host.open_meta dir))
    (keeps_new_store : (dir : Bytes) → Keeps view (host.new_store dir))
    (keeps_store_inspect : (ref : Bytes) → Keeps view (host.store_inspect ref)) where
  Keeps-resolve_qcow2_layer :
      (repo : Repository) (ref : Bytes) → Keeps view (resolve_qcow2_layer host repo ref)
  unfolding resolve_qcow2_layer
  Keeps-resolve_qcow2_layer repo ref = search keeps_rules depth 9

  Keeps-download_verified :
      (repo : Repository) (layer : Descriptor) (dest : Bytes)
      → Keeps view (download_verified host repo layer dest)
  unfolding download_verified
  Keeps-download_verified repo layer dest = search keeps_rules depth 9

  Keeps-pull_oci_blob : (ref dest : Bytes) → Keeps view (pull_oci_blob host ref dest)
  unfolding pull_oci_blob
  Keeps-pull_oci_blob ref dest =
      search (keeps_rules, Keeps-resolve_qcow2_layer, Keeps-download_verified) depth 12

  Keeps-wait :
      (number : ℕ) → Keeps view (when (ltb number max_pull_attempts) (host.wait (number * 10)))
  Keeps-wait number = search keeps_rules

  abbrev End : Bytes → Bytes → W → Result (Unit {0}) × W → Type 0
  End ref tmp w run = Failed host view w run ⊎ ImportedFrom host view ref tmp w run

  End-from :
      (ref tmp : Bytes) (v w : W) (run : Result (Unit {0}) × W)
      → view v ≡ view w
      → End ref tmp v run
      → End ref tmp w run
  End-from ref tmp v w run same (inl (k, e)) = inl (k ∙ same, e)
  End-from ref tmp v w run same (inr (u, verified, (k, e))) = inr (u, verified, (k ∙ same, e))

  waited-End :
      (ref tmp : Bytes) (w : W) (waited : Result (Unit {0}) × W) (rest : Io W (Unit {0}))
      → view waited.1 ≡ view w
      → ((v : W) → End ref tmp v (rest v))
      → End ref tmp w (after waited (λ u. rest))
  waited-End ref tmp w (ok u, v) rest same k = End-from ref tmp v w (rest v) same (k v)
  waited-End ref tmp w (err e, v) rest same k = inl (same, (e, refl))

  imported-End :
      (ref tmp : Bytes) (w : W) (number : ℕ) (done : Result (Unit {0}))
      (rest : Error → Io W (Unit {0}))
      → (pull_oci_blob host ref tmp w).0 ≡ done
      → ((e : Error) (v : W) → End ref tmp v (rest e v))
      → End ref tmp w (
          imported_or host ref tmp done
            (λ e. when (ltb number max_pull_attempts) (host.wait (number * 10)) >> rest e)
            (pull_oci_blob host ref tmp w).1)
  unfolding imported_or
  imported-End ref tmp w number (ok u) rest h k =
      inr (w, pull_oci_blob-Verified host ref tmp w h, ((Keeps-pull_oci_blob ref tmp).at w, refl))
  imported-End ref tmp w number (err e) rest h k =
      let pulled = pull_oci_blob host ref tmp w in
      waited-End ref tmp w (when (ltb number max_pull_attempts) (host.wait (number * 10)) pulled.1)
        (rest e) ((Keeps-wait number).at pulled.1 ∙ (Keeps-pull_oci_blob ref tmp).at w) (k e)

  pull_from-End :
      (ref tmp : Bytes) (left number : ℕ) (last : Result (Unit {0})) (w : W)
      → End ref tmp w (pull_from host ref tmp left number last w)
  unfolding pull_from
  pull_from-End ref tmp zero number last w = inl (refl, (_, refl))
  pull_from-End ref tmp (suc left) number last w =
      imported-End ref tmp w number (pull_oci_blob host ref tmp w).0
        (λ e. pull_from host ref tmp left (suc number) (err e)) refl
        (λ e v. pull_from-End ref tmp left (suc number) (err e) v)

  removed-End :
      (ref tmp : Bytes) (force : Bool) (w : W) (run : Result (Unit {0}) × W)
      → End ref tmp w run
      → PullEnd host view ref force w (run.0, (host.remove tmp run.1).1)
  removed-End ref tmp force w run (inl (k, e)) = was_failed ((keeps_remove tmp).at run.1 ∙ k, e)
  removed-End ref tmp force w run (inr (v, verified, (k, e))) =
      was_imported (
        tmp,
        v,
        verified,
        (k, ap (λ (r : Result (Unit {0}) × W). (r.0, (host.remove tmp r.1).1)) e),
      )

  PullEnd-from :
      (ref : Bytes) (force : Bool) (v w : W) (run : Result (Unit {0}) × W)
      → view v ≡ view w
      → PullEnd host view ref force v run
      → PullEnd host view ref force w run
  PullEnd-from ref force v w run same (was_failed (k, e)) = was_failed (k ∙ same, e)
  PullEnd-from ref force v w run same (was_present (k, o, f, found)) =
      was_present (k ∙ same, o, f, found)
  PullEnd-from ref force v w run same (was_imported (tmp, u, verified, (k, e))) =
      was_imported (tmp, u, verified, (k ∙ same, e))

  after-PullEnd :
      {A : Type 0} (ref : Bytes) (force : Bool) (w : W) (p : Result A × W) (f : A → Io W (Unit {0}))
      → view p.1 ≡ view w
      → ((a : A) (v : W) → p ≡ (ok a, v) → PullEnd host view ref force v (f a v))
      → PullEnd host view ref force w (after p f)
  after-PullEnd ref force w (ok a, v) f same k =
      PullEnd-from ref force v w (f a v) same (k a v refl)
  after-PullEnd ref force w (err e, v) f same k = was_failed (same, (e, refl))

  pull_artifact-PullEnd :
      (dir ref : Bytes) (force : Bool) (w : W)
      → PullEnd host view ref force w (pull_artifact host dir ref w)
  unfolding pull_artifact
  pull_artifact-PullEnd dir ref force w =
      after-PullEnd ref force w (host.create_temp dir (codes "pull-*.qcow2") w) _
        ((keeps_create_temp dir (codes "pull-*.qcow2")).at w)
        (λ tmp v e.
          let closed = host.close_file tmp v in
          PullEnd-from ref force closed.1 v _ ((keeps_close_file tmp).at v) (
            removed-End ref tmp force closed.1 (pull_from host ref tmp 3 1 (ok tt) closed.1)
              (pull_from-End ref tmp 3 1 (ok tt) closed.1)))

  Keeps-open_store : (dir : Bytes) → Keeps view (open_store host dir)
  unfolding open_store
  Keeps-open_store dir = search keeps_rules

  -- the part of a pull behind the look for the image
  looked-PullEnd :
      (dir ref : Bytes) (w : W) (img : Result (Option Bytes))
      → (host.store_inspect ref w).0 ≡ img
      → PullEnd host view ref false w (
          (if is_present img then pure tt else pull_artifact host dir ref)
            (host.store_inspect ref w).1)
  looked-PullEnd dir ref w (ok (some id)) h =
      was_present ((keeps_store_inspect ref).at w, refl, refl, (w, id, h))
  looked-PullEnd dir ref w (ok none) h =
      let looked = host.store_inspect ref w in
      PullEnd-from ref false looked.1 w _ ((keeps_store_inspect ref).at w)
        (pull_artifact-PullEnd dir ref false looked.1)
  looked-PullEnd dir ref w (err e) h =
      let looked = host.store_inspect ref w in
      PullEnd-from ref false looked.1 w _ ((keeps_store_inspect ref).at w)
        (pull_artifact-PullEnd dir ref false looked.1)

  behind-PullEnd :
      (dir ref : Bytes) (url force : Bool) (w : W)
      → url ≡ false
      → PullEnd host view ref force w (
          (if url
              then host.store_pull ref force
              else ((if force
                    then pure false
                    else (attempt (host.store_inspect ref) >>= λ img. pure (is_present img)))
                  >>= λ present. if present then pure tt else pull_artifact host dir ref))
            w)
  behind-PullEnd dir ref true force w h = cc
  behind-PullEnd dir ref false true w h = pull_artifact-PullEnd dir ref true w
  behind-PullEnd dir ref false false w h =
      looked-PullEnd dir ref w (host.store_inspect ref w).0 refl

  -- Where no call but the store's own Pull, Import and Delete writes to it, a pull of an artifact, that is
  -- of a reference that is no URL, ends in one of three ways: with an error and the store as it was; without --force with nothing done, because the store
  -- has the image; or with the import of a download that was verified, up to which the store was as it
  -- was, the removal of its temporary file last, and the import's result.
  pub pull-PullEnd :
      (dir ref : Bytes) (force : Bool) (w : W)
      → host.is_url ref ≡ false
      → PullEnd host view ref force w (pull host dir ref force w)
  unfolding pull
  pull-PullEnd dir ref force w h =
      after-PullEnd ref force w (open_store host dir w) _ ((Keeps-open_store dir).at w)
        (λ u v e. behind-PullEnd dir ref (host.is_url ref) force v h)
