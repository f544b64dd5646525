-- ===== src/Base/Exec.antt =====
-- Code that acts on a world and may raise: what was done before the exception stays done.
pub mod Hoare
pub mod Yields
use mathlib.Core.Bool.{Bool, true, false}
use mathlib.Core.List.{List, [], ◌∷◌}
use g502x_onboard.Base.Results.{Result, ok, err}

abbrev pub Exec {ℓ} : Type ℓ → Type ℓ → Type ℓ → Type ℓ
Exec W E A = W → Result E A × W

module _ {ℓ} {W E A : Type ℓ} where
  unfoldable pub pure : A → Exec W E A
  pure a w = (ok a, w)

  unfoldable pub raise : E → Exec W E A
  raise e w = (err e, w)

  -- A computation that does not touch the world.
  unfoldable pub lift : Result E A → Exec W E A
  lift r w = (r, w)

module _ {ℓ} {W E A B : Type ℓ} where
  abbrev pub proceed : Result E A → (A → Exec W E B) → Exec W E B
  proceed (ok a) f w = f a w
  proceed (err e) f w = (err e, w)

  infixl 10 ◌>>=◌ ◌>>◌
  unfoldable pub ◌>>=◌ : Exec W E A → (A → Exec W E B) → Exec W E B
  unfolding pure raise lift
  ◌>>=◌ m f w = let (r, w') = m w in proceed r f w'

  abbrev pub ◌>>◌ : Exec W E A → Exec W E B → Exec W E B
  m >> n = m >>= λ _. n

module _ {W E : Type 0} where
  -- `if not b: raise e`
  unfoldable pub check : Bool → E → Exec W E (Unit {0})
  unfolding pure raise
  check true e = pure tt
  check false e = raise e

  -- `for x in xs: body(x)`
  unfoldable pub for_each : {A : Type 0} → List A → (A → Exec W E (Unit {0})) → Exec W E (Unit {0})
  for_each [] body = pure tt
  for_each (x ∷ xs) body = body x >> for_each xs body

  -- `[body(x) for x in xs]`
  unfoldable pub collect : {A B : Type 0} → List A → (A → Exec W E B) → Exec W E (List B)
  collect [] body = pure []
  collect (x ∷ xs) body = do y ← body x; ys ← collect xs body; pure (y ∷ ys)

  -- `try: m finally: close()`
  unfoldable pub try_finally : {A : Type 0} → Exec W E A → (W → W) → Exec W E A
  try_finally m close w = let (r, w') = m w in (r, close w')

  -- Runs `m` and hands its exception over as a value.
  unfoldable pub attempt : {A : Type 0} → Exec W E A → Exec W E (Result E A)
  attempt m w = let (r, w') = m w in (ok r, w')
