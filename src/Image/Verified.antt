-- ===== src/Image/Verified.antt =====
-- cmd/image/oci.go: a download that succeeds is of the layer that was chosen, with its digest.
use cocoon_macos.Base.{◌≡◌}
use cocoon_macos.Text.{Bytes}
use cocoon_macos.Text.Laws.{text_eq_iff}
use cocoon_macos.Fault.{ok, wrapped, wrapped-eq-ok}
use cocoon_macos.Io.Ends.{reject-eq-ok, after-eq-ok}
use cocoon_macos.Image.Layer.{Descriptor}
use cocoon_macos.Image.Registry.{
  ImageHost, Repository, sha256_digest, resolve_qcow2_layer, blob_url, download_verified,
  pull_oci_blob,
}

module _ {W : Type 0} (host : ImageHost W) where
  -- a layer that is the choice among the layers of the manifest was downloaded, with its digest
  abbrev pub Verified : Bytes → Bytes → W → Type 0
  Verified ref dest w =
      (repo : Repository) × (layer : Descriptor) × (digest : Bytes) × (host.new_repository ref
        ≡ ok repo)
      × ((resolve_qcow2_layer host repo ref w).0 ≡ ok layer)
      × (let opened = host.create_file dest (resolve_qcow2_layer host repo ref w).1 in
          ((host.download_blob (blob_url host repo layer) dest opened.1).0 ≡ ok digest)
          × (sha256_digest digest ≡ layer.digest))

  download_verified-eq-ok :
      (repo : Repository) (layer : Descriptor) (dest : Bytes) (w : W)
      → (download_verified host repo layer dest w).0 ≡ ok tt
      → (digest : Bytes) × ((host.download_blob (blob_url host repo layer) dest w).0 ≡ ok digest)
        × (sha256_digest digest ≡ layer.digest)
  unfolding download_verified
  download_verified-eq-ok repo layer dest w h =
      let d = host.download_blob (blob_url host repo layer) dest w in
      let t = after-eq-ok d _ h in
      let s = host.sync_file dest d.1 in
      let u = after-eq-ok (wrapped "sync %s: %w" s.0, s.1) _ t.2 in
      (t.0, t.1, (text_eq_iff (sha256_digest t.0) layer.digest).0 (reject-eq-ok _ s.1 u.2))

  -- If `pullOCIBlob` succeeds, the reference was read, its manifest has a layer that the choice gives,
  -- and what was downloaded from that layer's URL to the file has the digest of the layer.
  pub pull_oci_blob-Verified :
      (ref dest : Bytes) (w : W) → (pull_oci_blob host ref dest w).0 ≡ ok tt → Verified ref dest w
  unfolding pull_oci_blob
  pull_oci_blob-Verified ref dest w h =
      let repo = after-eq-ok (wrapped "parse ref %s: %w" (host.new_repository ref), w) _ h in
      let layer = after-eq-ok (resolve_qcow2_layer host repo.0 ref w) _ repo.2 in
      let opened = host.create_file dest (resolve_qcow2_layer host repo.0 ref w).1 in
      let o = after-eq-ok opened _ layer.2 in
      let d = download_verified-eq-ok repo.0 layer.0 dest opened.1 o.2 in
      (repo.0, layer.0, d.0, wrapped-eq-ok _ (host.new_repository ref) repo.1, layer.1, (d.1, d.2))
