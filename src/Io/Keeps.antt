-- ===== src/Io/Keeps.antt =====
-- Effects that leave a view of the state as it is, by the shape of the code.
use Prim.Native.String.{String}
use cocoon_macos.Base.{Bool, true, false, ◌≡◌, refl, ◌∙◌, ◌⊎◌, inl, if◌then◌else◌}
use cocoon_macos.Fault.{Error, Result, ok, err}
use cocoon_macos.Io.{
  Io, pure, throw, after, lift, reject, rewrap, attempt, ignore, finally, ask, when, ◌>>=◌, ◌>>◌,
}

module _ {W V : Type 0} (view : W → V) where
  pub record Keeps {A : Type 0} (m : Io W A) : Type 0 where
    pub at : (w : W) → view (m w).1 ≡ view w

  after-view :
      {A B : Type 0} (p : Result A × W) (f : A → Io W B)
      → ((a : A) → Keeps (f a))
      → view (after p f).1 ≡ view p.1
  after-view (ok a, w) f h = (h a).at w
  after-view (err e, w) f h = refl

  pub Keeps-bind :
      {A B : Type 0} (m : Io W A) (f : A → Io W B)
      → Keeps m
      → ((a : A) → Keeps (f a))
      → Keeps (m >>= f)
  Keeps-bind m f k h = record { at = λ w. after-view (m w) f h ∙ k.at w }

  pub Keeps-then :
      {B : Type 0} (m : Io W (Unit {0})) (k : Io W B) → Keeps m → Keeps k → Keeps (m >> k)
  Keeps-then m k h h' = Keeps-bind m (λ _. k) h (λ _. h')

  pub Keeps-pure : {A : Type 0} (a : A) → Keeps (pure a)
  Keeps-pure a = record { at = λ w. refl }

  pub Keeps-throw : {A : Type 0} (e : Error) → Keeps (throw {A = A} e)
  Keeps-throw e = record { at = λ w. refl }

  pub Keeps-lift : {A : Type 0} (r : Result A) → Keeps (lift r)
  Keeps-lift r = record { at = λ w. refl }

  pub Keeps-ask : {A : Type 0} (f : W → A) → Keeps (ask f)
  Keeps-ask f = record { at = λ w. refl }

  pub Keeps-reject : (b : Bool) (message : String) → Keeps (reject b message)
  Keeps-reject true message = record { at = λ w. refl }
  Keeps-reject false message = record { at = λ w. refl }

  pub Keeps-rewrap :
      {A : Type 0} (message : String) (m : Io W A) → Keeps m → Keeps (rewrap message m)
  Keeps-rewrap message m k = record { at = k.at }

  pub Keeps-attempt : {A : Type 0} (m : Io W A) → Keeps m → Keeps (attempt m)
  Keeps-attempt m k = record { at = k.at }

  pub Keeps-ignore : {A : Type 0} (m : Io W A) → Keeps m → Keeps (ignore m)
  Keeps-ignore m k = record { at = k.at }

  pub Keeps-finally :
      {A : Type 0} (m : Io W A) (c : Io W (Unit {0})) → Keeps m → Keeps c → Keeps (finally m c)
  Keeps-finally m c k k' = record { at = λ w. k'.at (m w).1 ∙ k.at w }

  pub Keeps-when : (b : Bool) (m : Io W (Unit {0})) → Keeps m → Keeps (when b m)
  Keeps-when true m k = k
  Keeps-when false m k = record { at = λ w. refl }

  pub Keeps-if :
      {A : Type 0} (b : Bool) (m n : Io W A) → Keeps m → Keeps n → Keeps (if b then m else n)
  Keeps-if true m n k k' = k
  Keeps-if false m n k k' = k'

pub ruleset keeps_rules = (
  Keeps-bind, Keeps-then, Keeps-pure, Keeps-throw, Keeps-lift, Keeps-ask, Keeps-reject,
  Keeps-rewrap, Keeps-attempt, Keeps-ignore, Keeps-finally, Keeps-when, Keeps-if,
)

-- A sequence leaves the view alone, or something holds, if its first call leaves it alone and what
-- follows a success does.
pub after-kept :
    {W V A B : Type 0} (view : W → V) (P : Type 0) (w : W) (p : Result A × W) (f : A → Io W B)
    → view p.1 ≡ view w
    → ((a : A) (v : W) → p ≡ (ok a, v) → view v ≡ view w → (view (f a v).1 ≡ view w) ⊎ P)
    → (view (after p f).1 ≡ view w) ⊎ P
after-kept view P w (ok a, v) f k next = next a v refl k
after-kept view P w (err e, v) f k next = inl k
