-- ===== src/Io/Ends.antt =====
-- What a sequence of effects ends in, by what its calls return.
use Prim.Native.String.{String}
use cocoon_macos.Base.{Bool, true, false, not, ◌≡◌, refl}
use cocoon_macos.Fault.{Error, Result, ok, err}
use cocoon_macos.Io.{Io, after, reject}

-- what holds of every end of the continuation and of every error holds of the whole
pub after-end :
    {A B W : Type 0} (Q : Result B × W → Type 0) (p : Result A × W) (f : A → Io W B)
    → ((e : Error) (w : W) → Q (err e, w))
    → ((a : A) (w : W) → Q (f a w))
    → Q (after p f)
after-end Q (ok a, w) f bad good = good a w
after-end Q (err e, w) f bad good = bad e w

-- a sequence that succeeds has a first call that does
pub after-eq-ok :
    {A B W : Type 0} (p : Result A × W) (f : A → Io W B) {b : B}
    → (after p f).0 ≡ ok b
    → (a : A) × (p.0 ≡ ok a) × ((f a p.1).0 ≡ ok b)
after-eq-ok (ok a, w) f h = (a, refl, h)
after-eq-ok (err e, w) f h = cc

-- the same, and the sequence then runs as its continuation does
pub after-run :
    {A B W : Type 0} (p : Result A × W) (f : A → Io W B) {b : B}
    → (after p f).0 ≡ ok b
    → (a : A) × (p.0 ≡ ok a) × ((f a p.1).0 ≡ ok b) × (after p f ≡ f a p.1)
after-run (ok a, w) f h = (a, refl, h, refl)
after-run (err e, w) f h = cc

-- a rejection that does not happen
pub reject-eq-ok :
    {W : Type 0} {b : Bool} (message : String) (w : W)
    → (reject (not b) message w).0 ≡ ok tt
    → b ≡ true
reject-eq-ok {b = true} message w h = refl
reject-eq-ok {b = false} message w h = cc

-- what holds of the state of each end holds of the end of a sequence
pub through :
    {A B W : Type 0} (X : W → Type 0) (p : Result A × W) (f : A → Io W B)
    → X p.1
    → ((a : A) (v : W) → X v → X (f a v).1)
    → X (after p f).1
through X (err e, v) f h k = h
through X (ok a, v) f h k = k a v h

-- what holds of an error in the state of the first call, and of what follows its success, holds of the whole
pub after-ends :
    {A B W : Type 0} (Q : Result B × W → Type 0) (p : Result A × W) (f : A → Io W B)
    → ((e : Error) → Q (err e, p.1))
    → ((a : A) → p.0 ≡ ok a → Q (f a p.1))
    → Q (after p f)
after-ends Q (err e, w) f bad good = bad e
after-ends Q (ok a, w) f bad good = good a refl

-- the same, by what is known of the ends of the first call
pub after-by :
    {A B W : Type 0} (P : Result A × W → Type 0) (Q : Result B × W → Type 0) (p : Result A × W)
    (f : A → Io W B)
    → P p
    → ((e : Error) (w : W) → P (err e, w) → Q (err e, w))
    → ((a : A) (w : W) → P (ok a, w) → Q (f a w))
    → Q (after p f)
after-by P Q (err e, w) f h bad good = bad e w h
after-by P Q (ok a, w) f h bad good = good a w h
