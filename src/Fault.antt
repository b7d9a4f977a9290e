-- ===== src/Fault.antt =====
-- Go's `error`, and a result that may be one. A message keeps the fixed text of its format.
use Prim.Native.String.{String}
use cocoon_macos.Base.{ℕ, Bool, true, false, ◌||◌, ◌≡◌, refl}

pub data Error : Type 0 where
  -- `errors.New`, or `fmt.Errorf` with no error inside
  fault : String → Error
  -- `fmt.Errorf` with `%w`
  wrap : String → Error → Error
  -- `errors.Join` of two errors
  join : Error → Error → Error
  -- `os.ErrNotExist`
  not_exist : Error
  -- a panic, such as an index out of range: what is deferred still runs
  panic : Error
  -- an error of a call outside the repository
  outside : ℕ → Error

-- `errors.Is(err, os.ErrNotExist)`
unfoldable pub is_not_exist : Error → Bool
is_not_exist not_exist = true
is_not_exist (wrap s e) = is_not_exist e
is_not_exist (join e f) = is_not_exist e || is_not_exist f
is_not_exist (fault s) = false
is_not_exist panic = false
is_not_exist (outside n) = false

pub data Result {ℓ} (A : Type ℓ) : Type ℓ where
  ok : A → Result A
  err : Error → Result A

-- `if bad { return fmt.Errorf(message) }`
abbrev pub reject_if : Bool → String → Result (Unit {0})
reject_if true message = err (fault message)
reject_if false message = ok tt

-- `if err != nil { return fmt.Errorf(message, err) }`
abbrev pub wrapped {ℓ} : {A : Type ℓ} → String → Result A → Result A
wrapped message (ok a) = ok a
wrapped message (err e) = err (wrap message e)

-- `if err != nil { return err }` before the code that goes on
infixl 5 ◌>>=◌
abbrev pub ◌>>=◌ {ℓ κ} : {X : Type ℓ} {Y : Type κ} → Result X → (X → Result Y) → Result Y
err e >>= rest = err e
ok x >>= rest = rest x

-- the same for a call with no result of its own
infixl 5 ◌>>◌
abbrev pub ◌>>◌ {κ} : {Y : Type κ} → Result (Unit {0}) → Result Y → Result Y
check >> rest = check >>= λ u. rest

-- A sequence that succeeds has a first part that does.
pub >>=-eq-ok {ℓ κ} :
    {X : Type ℓ} {Y : Type κ} (first : Result X) (rest : X → Result Y) {y : Y}
    → (first >>= rest) ≡ ok y
    → (x : X) × (first ≡ ok x) × (rest x ≡ ok y)
>>=-eq-ok (err e) rest h = cc
>>=-eq-ok (ok x) rest h = (x, refl, h)

pub wrapped-eq-ok {ℓ} :
    {A : Type ℓ} (message : String) (r : Result A) {a : A} → wrapped message r ≡ ok a → r ≡ ok a
wrapped-eq-ok message (ok b) h = h
wrapped-eq-ok message (err e) h = cc
