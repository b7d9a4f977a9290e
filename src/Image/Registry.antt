-- ===== src/Image/Registry.antt =====
-- cmd/image/oci.go: the download of the qcow2 layer of an artifact.
use cocoon_macos.Base.{ℕ, Bool, List, ◌++◌, Option, not}
use cocoon_macos.Text.{Bytes, codes, text_eq}
use cocoon_macos.Fault.{Result, wrapped}
use cocoon_macos.Io.{Io, lift, rewrap, reject, finally, ◌>>=◌, ◌>>◌}
use cocoon_macos.Image.Layer.{Descriptor, pick_qcow2_layer}

-- a reference to an artifact, as `remote.NewRepository` reads it
pub record Repository : Type 0 where
  pub host : Bytes
  pub repository : Bytes

-- What is called outside the repository: the registry client, cocoon's download, the file system, and
-- cocoon's image store.
pub record ImageHost (W : Type 0) : Type 0 where
  pub new_repository : Bytes → Result Repository
  -- `repo.Resolve` and `content.FetchAll`: the descriptor of a reference, and the manifest it names
  pub resolve : Repository → Bytes → Io W Bytes
  pub fetch_manifest : Repository → Bytes → Io W Bytes
  -- `json.Unmarshal` of a manifest: its layers
  pub unmarshal : Bytes → Result (List Descriptor)
  -- `os.Create`, `f.Sync`, `f.Close`, `os.CreateTemp`, `os.Remove`
  pub create_file : Bytes → Io W (Unit {0})
  pub sync_file : Bytes → Io W (Unit {0})
  pub close_file : Bytes → Io W (Unit {0})
  pub create_temp : Bytes → Bytes → Io W Bytes
  pub remove : Bytes → Io W (Unit {0})
  -- `cloudimg.DownloadBlob`, from a URL to a file: the digest of what it wrote
  pub download_blob : Bytes → Bytes → Io W Bytes
  -- `metajson.Open` and `cloudimg.New`
  pub open_meta : Bytes → Io W (Unit {0})
  pub new_store : Bytes → Io W (Unit {0})
  -- the image store: `Pull`, `Inspect`, `Import`, `Delete`, `List`
  pub store_pull : Bytes → Bool → Io W (Unit {0})
  pub store_inspect : Bytes → Io W (Option Bytes)
  pub store_import : Bytes → Bytes → Io W (Unit {0})
  pub store_delete : List Bytes → Io W (List Bytes)
  pub store_list : Io W (List Bytes)
  -- `cliutil.IsURL`
  pub is_url : Bytes → Bool
  -- the wait between two attempts, in seconds, which fails if the command is cancelled
  pub wait : ℕ → Io W (Unit {0})
  -- standard output
  pub print : Bytes → Io W (Unit {0})

-- the digest of a download, as a manifest writes it
unfoldable pub sha256_digest : Bytes → Bytes
sha256_digest digest = codes "sha256:" ++ digest

module _ {W : Type 0} (host : ImageHost W) where
  open host use {
    new_repository, resolve, fetch_manifest, unmarshal, create_file, sync_file, close_file,
    download_blob,
  }

  -- `resolveQcow2Layer`
  unfoldable pub resolve_qcow2_layer : Repository → Bytes → Io W Descriptor
  resolve_qcow2_layer repo ref = do
    desc ← rewrap "resolve %s: %w" (resolve repo ref)
    raw ← rewrap "fetch manifest %s: %w" (fetch_manifest repo desc)
    layers ← lift (wrapped "parse manifest %s: %w" (unmarshal raw))
    lift (wrapped "%s: %w" (pick_qcow2_layer layers))

  unfoldable pub blob_url : Repository → Descriptor → Bytes
  blob_url repo layer =
      codes "https://"
      ++ (repo.host ++ (codes "/v2/" ++ (repo.repository ++ (codes "/blobs/" ++ layer.digest))))

  -- the download of `pullOCIBlob` to an open file
  unfoldable pub download_verified : Repository → Descriptor → Bytes → Io W (Unit {0})
  download_verified repo layer dest = do
    digest ← download_blob (blob_url repo layer) dest
    rewrap "sync %s: %w" (sync_file dest)
    reject (not (text_eq (sha256_digest digest) layer.digest)) "digest mismatch: got %s want %s"

  -- `pullOCIBlob`
  unfoldable pub pull_oci_blob : Bytes → Bytes → Io W (Unit {0})
  pull_oci_blob ref dest = do
    repo ← lift (wrapped "parse ref %s: %w" (new_repository ref))
    layer ← resolve_qcow2_layer repo ref
    create_file dest
    finally (download_verified repo layer dest) (close_file dest)
