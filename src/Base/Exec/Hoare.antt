-- ===== src/Base/Exec/Hoare.antt =====
-- What holds after code, by the way it is built.
use mathlib.Core.Path.{◌≡◌, refl}
use mathlib.Core.Bool.{Bool, true, false}
use mathlib.Core.List.{List, [], ◌∷◌}
use g502x_onboard.Base.Compare.{if◌then◌else◌}
use g502x_onboard.Base.Lists.{All}
use g502x_onboard.Base.Results.{Result, ok, err}
use g502x_onboard.Base.Exec.{
  Exec, pure, raise, lift, proceed, ◌>>=◌, check, for_each, collect, try_finally, attempt,
}

-- `m` keeps `P`, whether it returns or raises.
pub record Keeps {ℓ} {W E A : Type ℓ} (P : W → Type ℓ) (m : Exec W E A) : Type ℓ where
  pub at : (w : W) → P w → P (m w).1

module _ {W E : Type 0} {P : W → Type 0} where
  pub Keeps-pure : {A : Type 0} → (a : A) → Keeps P (pure {W = W} {E = E} a)
  unfolding pure
  Keeps-pure a = record { at = λ w h. h }

  pub Keeps-raise : {A : Type 0} → (e : E) → Keeps P (raise {W = W} {A = A} e)
  unfolding raise
  Keeps-raise e = record { at = λ w h. h }

  pub Keeps-lift : {A : Type 0} → (r : Result E A) → Keeps P (lift {W = W} r)
  unfolding lift
  Keeps-lift r = record { at = λ w h. h }

  pub Keeps-check : (b : Bool) (e : E) → Keeps P (check {W = W} b e)
  unfolding check
  Keeps-check true e = record { at = λ w h. h }
  Keeps-check false e = record { at = λ w h. h }

  pub Keeps-if :
      {A : Type 0}
      → (b : Bool) (m n : Exec W E A) → Keeps P m
      → Keeps P n
      → Keeps P (if b then m else n)
  Keeps-if true m n km kn = km
  Keeps-if false m n km kn = kn

  proceed-Keeps :
      {A B : Type 0}
      → (r : Result E A) (f : A → Exec W E B) (w : W) → ((a : A) → Keeps P (f a))
      → P w
      → P (proceed r f w).1
  proceed-Keeps (ok a) f w kf h = (kf a).at w h
  proceed-Keeps (err e) f w kf h = h

  pub Keeps-bind :
      {A B : Type 0}
      → (m : Exec W E A) (f : A → Exec W E B) → Keeps P m
      → ((a : A) → Keeps P (f a))
      → Keeps P (m >>= f)
  unfolding ◌>>=◌
  Keeps-bind m f km kf = record {
    at = λ w h. let (r, w') = m w in proceed-Keeps r f w' kf (km.at w h);
  }

  -- What is kept by the first part holds `P`, which the second one keeps.
  pub Keeps-then :
      {A B : Type 0} {R : W → Type 0} (m : Exec W E A) (f : A → Exec W E B)
      → Keeps R m
      → ((w : W) → R w → P w)
      → ((a : A) → Keeps P (f a))
      → (w : W) → R w
      → P ((m >>= f) w).1
  unfolding ◌>>=◌
  Keeps-then m f km weak kf w h = let (r, w') = m w in proceed-Keeps r f w' kf (weak w' (km.at w h))

  -- What follows a check may use it.
  pub Keeps-check-bind :
      {A : Type 0} (b : Bool) (e : E) (m : Exec W E A)
      → (b ≡ true → Keeps P m)
      → Keeps P (check b e >>= λ _. m)
  unfolding check ◌>>=◌
  Keeps-check-bind true e m k = record { at = λ w h. (k refl).at w h }
  Keeps-check-bind false e m k = record { at = λ w h. h }

  pub Keeps-for_each :
      {A : Type 0}
      → (xs : List A) (body : A → Exec W E (Unit {0})) → ((x : A) → Keeps P (body x))
      → Keeps P (for_each xs body)
  unfolding for_each
  Keeps-for_each [] body k = Keeps-pure tt
  Keeps-for_each (x ∷ xs) body k =
      Keeps-bind (body x) (λ _. for_each xs body) (k x) (λ _. Keeps-for_each xs body k)

  pub Keeps-for_each_All :
      {A : Type 0} (xs : List A) (body : A → Exec W E (Unit {0}))
      → All (λ x. Keeps P (body x)) xs
      → Keeps P (for_each xs body)
  unfolding for_each
  Keeps-for_each_All [] body k = Keeps-pure tt
  Keeps-for_each_All (x ∷ xs) body k =
      Keeps-bind (body x) (λ _. for_each xs body) k.0 (λ _. Keeps-for_each_All xs body k.1)

  pub Keeps-collect :
      {A B : Type 0}
      → (xs : List A) (body : A → Exec W E B) → ((x : A) → Keeps P (body x))
      → Keeps P (collect xs body)
  unfolding collect
  Keeps-collect [] body k = Keeps-pure []
  Keeps-collect (x ∷ xs) body k =
      Keeps-bind (body x) _ (k x)
        (λ y. Keeps-bind (collect xs body) _ (Keeps-collect xs body k) (λ ys. Keeps-pure (y ∷ ys)))

  pub Keeps-try_finally :
      {A : Type 0}
      → (m : Exec W E A) (close : W → W) → Keeps P m
      → ((w : W) → P w → P (close w))
      → Keeps P (try_finally m close)
  unfolding try_finally
  Keeps-try_finally m close km kc = record { at = λ w h. kc (m w).1 (km.at w h) }

  pub Keeps-attempt : {A : Type 0} → (m : Exec W E A) → Keeps P m → Keeps P (attempt m)
  unfolding attempt
  Keeps-attempt m km = record { at = λ w h. km.at w h }

pub ruleset keeps_rules = (
  Keeps-pure, Keeps-raise, Keeps-lift, Keeps-check, Keeps-if, Keeps-bind, Keeps-for_each,
  Keeps-collect, Keeps-attempt,
)
