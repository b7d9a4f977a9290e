-- ===== src/Io.antt =====
-- Effects: a state, and an error that leaves the state as it is at that point.
pub mod Keeps
pub mod Ends
use Prim.Native.String.{String}
use cocoon_macos.Base.{Bool, true, false, ◌≡◌, refl, List, [], ◌∷◌}
use cocoon_macos.Fault.{Error, Result, ok, err, wrap, join, fault, wrapped}

abbrev pub Io {ℓ κ} : Type ℓ → Type κ → Type (ℓ ⊔ κ)
Io W A = W → Result A × W

module _ {ℓ} {W : Type ℓ} where
  abbrev pub pure {κ} : {A : Type κ} → A → Io W A
  pure a w = (ok a, w)

  abbrev pub throw {κ} : {A : Type κ} → Error → Io W A
  throw e w = (err e, w)

  abbrev pub after {κ μ} : {A : Type κ} {B : Type μ} → Result A × W → (A → Io W B) → Result B × W
  after (ok a, w) f = f a w
  after (err e, w) f = (err e, w)

  infixl 5 ◌>>=◌ ◌>>◌
  abbrev pub ◌>>=◌ {κ μ} : {A : Type κ} {B : Type μ} → Io W A → (A → Io W B) → Io W B
  ◌>>=◌ m f w = after (m w) f

  abbrev pub ◌>>◌ {κ} : {B : Type κ} → Io W (Unit {0}) → Io W B → Io W B
  m >> k = m >>= λ _. k

  -- a result that was computed without effects
  abbrev pub lift {κ} : {A : Type κ} → Result A → Io W A
  lift r w = (r, w)

  -- `if bad { return fmt.Errorf(message) }`
  abbrev pub reject : Bool → String → Io W (Unit {0})
  reject true message = throw (fault message)
  reject false message = pure tt

  -- `if err != nil { return fmt.Errorf(message, err) }`
  abbrev pub rewrap {κ} : {A : Type κ} → String → Io W A → Io W A
  rewrap message m w = (wrapped message (m w).0, (m w).1)

  -- a call whose error the caller looks at
  abbrev pub attempt {κ} : {A : Type κ} → Io W A → Io W (Result A)
  attempt m w = (ok (m w).0, (m w).1)

  -- `_ = f()`
  abbrev pub ignore {κ} : {A : Type κ} → Io W A → Io W (Unit {0})
  ignore m w = (ok tt, (m w).1)

  -- `defer cleanup()`, of a clean-up whose error is dropped
  abbrev pub finally {κ} : {A : Type κ} → Io W A → Io W (Unit {0}) → Io W A
  finally m cleanup w = ((m w).0, (cleanup (m w).1).1)

  -- a fact about the state that a caller reads
  abbrev pub ask {κ} : {A : Type κ} → (W → A) → Io W A
  ask f w = (ok (f w), w)

  abbrev pub when : Bool → Io W (Unit {0}) → Io W (Unit {0})
  when true m = m
  when false m = pure tt

-- `errors.Join` of two errors that may be nil
abbrev pub both : Result (Unit {0}) → Result (Unit {0}) → Result (Unit {0})
both (ok u) s = s
both (err e) (ok u) = err e
both (err e) (err f) = err (join e f)

-- effects on the second part of a pair of states, and the first part
module _ {R W : Type 0} where
  abbrev pub inner {κ} : {A : Type κ} → Io W A → Io (R × W) A
  inner m (r, w) = ((m w).0, (r, (m w).1))

  abbrev pub get : Io (R × W) R
  get (r, w) = (ok r, (r, w))

  abbrev pub put : R → Io (R × W) (Unit {0})
  put r' (r, w) = (ok tt, (r', w))
