-- ===== src/Base/Exec/Yields.antt =====
-- What holds after code that returns, by the way it is built.
use mathlib.Core.Path.{◌≡◌, refl}
use mathlib.Core.Bool.{Bool, true, false}
use mathlib.Core.List.{List, [], ◌∷◌, map}
use g502x_onboard.Base.Compare.{if◌then◌else◌}
use g502x_onboard.Base.Lists.{All}
use g502x_onboard.Base.Results.{Result, ok, err}
use g502x_onboard.Base.Exec.{
  Exec, pure, raise, lift, proceed, ◌>>=◌, check, for_each, collect, try_finally, attempt,
}
use g502x_onboard.Base.Exec.Hoare.{Keeps}

-- Of the worlds after a return.
abbrev pub Returned {ℓ} : {W E A : Type ℓ} → (A → W → Type ℓ) → Result E A × W → Type ℓ
Returned Q (ok a, w) = Q a w
Returned Q (err e, w) = Unit

-- If `m` starts where `P` holds and returns, `Q` holds of the result.
pub record Yields {ℓ} {W E A : Type ℓ} (P : W → Type ℓ) (m : Exec W E A) (Q : A → W → Type ℓ)
    : Type ℓ where
  pub at : (w : W) → P w → Returned Q (m w)

module _ {W E A : Type 0} where
  proceed-Yields :
      {B : Type 0} {Q : A → W → Type 0} {R : B → W → Type 0} (r : Result E A) (f : A → Exec W E B)
      (w : W)
      → ((a : A) → Yields (Q a) (f a) R)
      → Returned Q (r, w)
      → Returned R (proceed r f w)
  proceed-Yields (ok a) f w yf h = (yf a).at w h
  proceed-Yields (err e) f w yf h = tt

  weakened :
      {Q R : A → W → Type 0} (r : Result E A) (w : W)
      → ((a : A) (v : W) → Q a v → R a v)
      → Returned Q (r, w)
      → Returned R (r, w)
  weakened (ok a) w k h = k a w h
  weakened (err e) w k h = tt

  closed_after :
      {Q : A → W → Type 0} (close : W → W) (r : Result E A) (w : W)
      → ((a : A) (v : W) → Q a v → Q a (close v))
      → Returned Q (r, w)
      → Returned Q (r, close w)
  closed_after close (ok a) w k h = k a w h
  closed_after close (err e) w k h = tt

  known :
      (Q : A → W → Type 0) (r : Result E A) (w : W)
      → ((a : A) → r ≡ ok a → Q a w)
      → Returned Q (r, w)
  known Q (ok a) w h = h a refl
  known Q (err e) w h = tt

  both :
      (P : W → Type 0) (C : A → Type 0) (r : Result E A) (w : W)
      → P w
      → Returned (λ a v. C a) (r, w)
      → Returned (λ a v. P v × C a) (r, w)
  both P C (ok a) w h c = (h, c)
  both P C (err e) w h c = tt

module _ {W E : Type 0} {P : W → Type 0} where
  pub Yields-pure :
      {A : Type 0} {Q : A → W → Type 0} (a : A)
      → ((w : W) → P w → Q a w)
      → Yields P (pure {W = W} {E = E} a) Q
  unfolding pure
  Yields-pure a h = record { at = h }

  pub Yields-raise :
      {A : Type 0} {Q : A → W → Type 0} (e : E) → Yields P (raise {W = W} {A = A} e) Q
  unfolding raise
  Yields-raise e = record { at = λ w h. tt }

  pub Yields-lift :
      {A : Type 0} (r : Result E A) → Yields P (lift {W = W} r) (λ a w. P w × (r ≡ ok a))
  unfolding lift
  Yields-lift r = record { at = λ w h. known _ r w (λ a s. (h, s)) }

  pub Yields-check : (b : Bool) (e : E) → Yields P (check {W = W} b e) (λ u w. P w × (b ≡ true))
  unfolding check pure raise
  Yields-check true e = record { at = λ w h. (h, refl) }
  Yields-check false e = record { at = λ w h. tt }

  pub Yields-if :
      {A : Type 0} {Q : A → W → Type 0} (b : Bool) (m n : Exec W E A)
      → (b ≡ true → Yields P m Q)
      → (b ≡ false → Yields P n Q)
      → Yields P (if b then m else n) Q
  Yields-if true m n f g = f refl
  Yields-if false m n f g = g refl

  pub Yields-bind :
      {A B : Type 0} {Q : A → W → Type 0} {R : B → W → Type 0} (m : Exec W E A) (f : A → Exec W E B)
      → Yields P m Q
      → ((a : A) → Yields (Q a) (f a) R)
      → Yields P (m >>= f) R
  unfolding ◌>>=◌
  Yields-bind m f ym yf = record {
    at = λ w h. let (r, w') = m w in proceed-Yields r f w' yf (ym.at w h);
  }

  pub Yields-Keeps : {A : Type 0} (m : Exec W E A) → Keeps P m → Yields P m (λ a w. P w)
  Yields-Keeps m k = record { at = λ w h. known _ (m w).0 (m w).1 (λ a s. k.at w h) }

  -- Nothing is known of what came before.
  pub Yields-any : {A : Type 0} (m : Exec W E A) → Yields P m (λ a w. Unit {0})
  Yields-any m = record { at = λ w h. known _ (m w).0 (m w).1 (λ a s. tt) }

  pub Yields-try_finally :
      {A : Type 0} {Q : A → W → Type 0} (m : Exec W E A) (close : W → W)
      → Yields P m Q
      → ((a : A) (w : W) → Q a w → Q a (close w))
      → Yields P (try_finally m close) Q
  unfolding try_finally
  Yields-try_finally m close ym k = record {
    at = λ w h. closed_after close (m w).0 (m w).1 k (ym.at w h);
  }

  pub Yields-attempt :
      {A : Type 0} {Q : A → W → Type 0} (m : Exec W E A)
      → Yields P m Q
      → Yields P (attempt m) (λ r w. Returned Q (r, w))
  unfolding attempt
  Yields-attempt m y = record { at = y.at }

  pub Yields-weaken :
      {A : Type 0} {Q R : A → W → Type 0} (m : Exec W E A)
      → ((a : A) (w : W) → Q a w → R a w)
      → Yields P m Q
      → Yields P m R
  Yields-weaken m k y = record { at = λ w h. weakened (m w).0 (m w).1 k (y.at w h) }

  -- A fact that does not depend on the world may be used in the rest.
  pub Yields-fact :
      {A : Type 0} {C : Type 0} {R : A → W → Type 0} (m : Exec W E A)
      → (C → Yields P m R)
      → Yields (λ w. P w × C) m R
  Yields-fact m y = record { at = λ w h. (y h.1).at w h.0 }

  pub Yields-anywhere :
      {A : Type 0} {Q : A → W → Type 0} (m : Exec W E A) → Yields (λ w. Unit {0}) m Q → Yields P m Q
  Yields-anywhere m y = record { at = λ w h. y.at w tt }

  -- What holds before, with what the result shows of itself.
  pub Yields-both :
      {A : Type 0} {C : A → Type 0} (m : Exec W E A)
      → Keeps P m
      → Yields (λ w. Unit {0}) m (λ a w. C a)
      → Yields P m (λ a w. P w × C a)
  Yields-both m k y = record { at = λ w h. both _ _ (m w).0 (m w).1 (k.at w h) (y.at w tt) }

  -- So may what `P` implies.
  pub Yields-uses :
      {A : Type 0} {C : Type 0} {R : A → W → Type 0} (m : Exec W E A)
      → ((w : W) → P w → C)
      → (C → Yields P m R)
      → Yields P m R
  Yields-uses m f y = record { at = λ w h. (y (f w h)).at w h }

module _ {W E : Type 0} {P : W → Type 0} where
  -- A loop of which each round shows `C` of its element, and `P` holds throughout.
  pub Yields-for_each :
      {A : Type 0} {C : A → Type 0} (xs : List A) (body : A → Exec W E (Unit {0}))
      → ((x : A) → Yields P (body x) (λ u w. P w × C x))
      → Yields P (for_each xs body) (λ u w. P w × All C xs)
  unfolding for_each
  Yields-for_each [] body y = Yields-pure tt (λ w h. (h, tt))
  Yields-for_each (x ∷ xs) body y = Yields-bind _ _ (y x) (λ u.
      Yields-fact _ (λ c. Yields-weaken _ (λ v w h. (h.0, (c, h.1))) (Yields-for_each xs body y)))

  -- Each element has one result, and `f` says which.
  pub Yields-collect :
      {A B : Type 0} {f : A → B} (xs : List A) (body : A → Exec W E B)
      → ((x : A) → Yields P (body x) (λ b w. P w × (b ≡ f x)))
      → Yields P (collect xs body) (λ bs w. P w × (bs ≡ map f xs))
  unfolding collect
  Yields-collect [] body y = Yields-pure [] (λ w h. (h, refl))
  Yields-collect (x ∷ xs) body y = Yields-bind _ _ (y x) (λ b. Yields-fact _ (λ c.
      Yields-bind _ _ (Yields-collect xs body y)
        (λ bs. Yields-pure (b ∷ bs) (λ w h. (h.0, rw (c, h.1) refl)))))

both_at :
    {W E A : Type 0} (P : W → Type 0) (Q : A → W → Type 0) (r : Result E A) (w : W)
    → P w
    → Returned Q (r, w)
    → Returned (λ a w. P w × Q a w) (r, w)
both_at P Q (ok a) w p q = (p, q)
both_at P Q (err e) w p q = tt

proceed_from :
    {W E A B : Type 0} (P : W → Type 0) (R : A → W → Type 0) (r : Result E A) (f : A → Exec W E B)
    (w : W)
    → P w
    → Returned R (r, w)
    → ((a : A) (w : W) → R a w → P (f a w).1)
    → P (proceed r f w).1
proceed_from P R (ok a) f w p q k = k a w q
proceed_from P R (err e) f w p q k = p

module _ {W E : Type 0} {P : W → Type 0} where
  -- What holds before is kept, and `Q` holds beside it.
  pub Yields-beside :
      {A : Type 0} {Q : A → W → Type 0} (m : Exec W E A)
      → Keeps P m
      → Yields (λ w. Unit {0}) m Q
      → Yields P m (λ a w. P w × Q a w)
  Yields-beside m k y = record { at = λ w h. both_at P _ (m w).0 (m w).1 (k.at w h) (y.at w tt) }

  -- `m` keeps `P`, and what follows it may use what a return shows.
  pub Keeps-bind-Yields :
      {A B : Type 0} {R : A → W → Type 0} (m : Exec W E A) (f : A → Exec W E B)
      → Keeps P m
      → Yields P m R
      → ((a : A) (w : W) → R a w → P (f a w).1)
      → Keeps P (m >>= f)
  unfolding ◌>>=◌
  Keeps-bind-Yields m f k y rest = record {
    at = λ w h. proceed_from P _ (m w).0 f (m w).1 (k.at w h) (y.at w h) rest;
  }
