-- ===== src/Image/Pull.antt =====
-- cmd/image/handler.go: Pull.
use cocoon_macos.Base.{ℕ, zero, suc, ◌*◌, Bool, true, false, Option, none, some, if◌then◌else◌, ltb}
use cocoon_macos.Text.{Bytes, codes}
use cocoon_macos.Fault.{Error, Result, ok, err, fault, wrap}
use cocoon_macos.Io.{Io, pure, throw, rewrap, attempt, ignore, when, finally, ◌>>=◌, ◌>>◌}
use cocoon_macos.Image.Registry.{ImageHost, pull_oci_blob}

abbrev pub max_pull_attempts : ℕ
max_pull_attempts = 3

abbrev pub is_present : Result (Option Bytes) → Bool
is_present (ok (some id)) = true
is_present (ok none) = false
is_present (err e) = false

-- the error of a pull whose last attempt failed
abbrev pub pull_failed : Result (Unit {0}) → Error
pull_failed (ok u) = fault "pull %s after %d attempts: %w"
pull_failed (err e) = wrap "pull %s after %d attempts: %w" e

module _ {W : Type 0} (host : ImageHost W) where
  open host use {
    create_temp, close_file, remove, open_meta, new_store, store_pull, store_inspect, store_import,
    is_url, wait,
  }

  -- `home.OpenStore`
  unfoldable pub open_store : Bytes → Io W (Unit {0})
  open_store dir = do
    rewrap "open meta store: %w" (open_meta dir)
    rewrap "init cloudimg store: %w" (new_store dir)

  -- what an attempt leads to: the import, or what is done after a failure
  unfoldable pub imported_or :
      Bytes → Bytes → Result (Unit {0}) → (Error → Io W (Unit {0})) → Io W (Unit {0})
  imported_or ref tmp (ok u) again = store_import ref tmp
  imported_or ref tmp (err e) again = again e

  -- the loop of `Pull` from an attempt on, with the attempts that are left and the last error
  unfoldable pub pull_from : Bytes → Bytes → ℕ → ℕ → Result (Unit {0}) → Io W (Unit {0})
  pull_from ref tmp zero number last = throw (pull_failed last)
  pull_from ref tmp (suc left) number last = do
    let rest = pull_from ref tmp left (suc number)
    done ← attempt (pull_oci_blob host ref tmp)
    imported_or ref tmp done
        (λ e. do when (ltb number max_pull_attempts) (wait (number * 10)); rest (err e))

  -- the end of `Pull`: an artifact goes to a temporary file and from there into the store
  unfoldable pub pull_artifact : Bytes → Bytes → Io W (Unit {0})
  pull_artifact dir ref = do
    tmp ← create_temp dir (codes "pull-*.qcow2")
    ignore (close_file tmp)
    finally (pull_from ref tmp max_pull_attempts 1 (ok tt)) (remove tmp)

  -- `Pull`, of the state root, the reference and the flag --force
  unfoldable pub pull : Bytes → Bytes → Bool → Io W (Unit {0})
  pull dir ref force = do
    open_store dir
    if is_url ref then store_pull ref force else do
      present ←
          if force
          then pure false
          else (do img ← attempt (store_inspect ref); pure (is_present img))
      if present then pure tt else pull_artifact dir ref
