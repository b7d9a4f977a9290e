-- ===== src/Image/Tests.antt =====
-- Examples: the choice of a layer, and a pull.
use cocoon_macos.Base.{List, [], ◌∷◌, ◌≡◌, refl, pos, none, false}
use cocoon_macos.Text.{Bytes, codes}
use cocoon_macos.Fault.{Result, ok}
use cocoon_macos.Io.{pure, lift}
use cocoon_macos.Io.Keeps.{Keeps}
use cocoon_macos.Image.Registry.{ImageHost, pull_oci_blob}
use cocoon_macos.Image.Pull.{pull}
use cocoon_macos.Image.Verified.{Verified, pull_oci_blob-Verified}
use cocoon_macos.Image.Guard.{PullEnd, pull-PullEnd}
use cocoon_macos.Image.Layer.{Descriptor, pick_qcow2_layer}
use cocoon_macos.Image.Layer.Pick.{IsPicked, pick_qcow2_layer-IsPicked}

abbrev config : Descriptor
config = record { title = codes "config.json"; size = pos 100; digest = codes "sha256:0" }

abbrev disk : Descriptor
disk = record { title = codes "sonoma.qcow2"; size = pos 7; digest = codes "sha256:ab" }

pick_qcow2_layer-IsPicked_example :
    (picked : Descriptor) × (pick_qcow2_layer (config ∷ disk ∷ []) ≡ ok picked)
    × IsPicked picked (config ∷ disk ∷ [])
pick_qcow2_layer-IsPicked_example = pick_qcow2_layer-IsPicked config (disk ∷ [])

-- A registry with one artifact, and a store that is the list of what was imported.
abbrev registry : ImageHost (List Bytes)
registry = record {
  new_repository = λ ref. ok (record { host = codes "ghcr.io"; repository = codes "acme/macos" });
  resolve = λ repo ref. pure (codes "manifest");
  fetch_manifest = λ repo desc. pure desc;
  unmarshal = λ raw. ok (config ∷ disk ∷ []);
  create_file = λ x0. pure tt;
  sync_file = λ x0. pure tt;
  close_file = λ x0. pure tt;
  create_temp = λ x0 x1. pure (codes "/s/pull-1.qcow2");
  remove = λ x0. pure tt;
  download_blob = λ x0 x1. pure (codes "ab");
  open_meta = λ x0. pure tt;
  new_store = λ x0. pure tt;
  store_pull = λ ref force. pure tt;
  store_inspect = λ ref. pure none;
  store_import = λ ref path w. (ok tt, ref ∷ w);
  store_delete = λ refs w. (ok refs, []);
  store_list = λ w. (ok w, w);
  is_url = λ ref. false;
  wait = λ x0. pure tt;
  print = λ x0. pure tt;
}

abbrev artifact : Bytes
artifact = codes "ghcr.io/acme/macos:26"

pulls : pull registry (codes "/s") artifact false [] ≡ (ok tt, artifact ∷ [])
unfolding pull cocoon_macos.Image.Pull.open_store cocoon_macos.Image.Pull.pull_artifact
    cocoon_macos.Image.Pull.pull_from cocoon_macos.Image.Pull.imported_or pull_oci_blob
    cocoon_macos.Image.Registry.resolve_qcow2_layer pick_qcow2_layer
    cocoon_macos.Image.Registry.download_verified cocoon_macos.Text.text_eq
    cocoon_macos.Image.Registry.sha256_digest cocoon_macos.Image.Layer.first_titled
    cocoon_macos.Image.Layer.is_qcow2 cocoon_macos.Text.has_suffix
pulls = refl

downloads : (pull_oci_blob registry artifact (codes "/s/pull-1.qcow2") []).0 ≡ ok tt
unfolding pull_oci_blob cocoon_macos.Image.Registry.resolve_qcow2_layer pick_qcow2_layer
    cocoon_macos.Image.Registry.download_verified cocoon_macos.Text.text_eq
    cocoon_macos.Image.Registry.sha256_digest cocoon_macos.Image.Layer.first_titled
    cocoon_macos.Image.Layer.is_qcow2 cocoon_macos.Text.has_suffix
downloads = refl

pull_oci_blob-Verified_example : Verified registry artifact (codes "/s/pull-1.qcow2") []
pull_oci_blob-Verified_example =
    pull_oci_blob-Verified registry artifact (codes "/s/pull-1.qcow2") [] downloads

still : {A : Type 0} (r : Result A) → Keeps (λ (w : List Bytes). w) (lift r)
still r = record { at = λ w. refl }

pull-PullEnd_example :
    PullEnd registry (λ w. w) artifact false [] (pull registry (codes "/s") artifact false [])
pull-PullEnd_example =
    pull-PullEnd registry (λ w. w) (λ x0 x1. still _) (λ x0 x1. still _) (λ x0. still _)
      (λ x0. still _) (λ x0. still _) (λ x0 x1. still _) (λ x0. still _) (λ x0 x1. still _)
      (λ x0. still _) (λ x0. still _) (λ x0. still _) (λ x0. still _) (codes "/s") artifact false []
      refl
