-- ===== src/Base/Bits.antt =====
-- Exclusive or at variables, digit by digit, and checks of every number below a bound.
use Prim.Native.Nat.{bit_xor-bitwise, digits, differ}
use native.Mathlib.Nat.{le_refl, pow-suc}
use g502x_onboard.Base.{
  ℕ, zero, suc, ◌+◌, ◌*◌, ◌/◌, ◌%◌, ◌^◌, ◌≤◌, ◌<◌, ◌≡◌, refl, ap, ◌∙◌, Bool, true, ◌&&◌, arith,
  bit_xor,
}
use mathlib.Core.WellFounded.{Acc, WellFounded}

unfoldable pub all_below : ℕ → (ℕ → Bool) → Bool
all_below zero p = true
all_below (suc n) p = p n && all_below n p

pub all_below-holds :
    (bound : ℕ) (test : ℕ → Bool) (i : ℕ) → i < bound → all_below bound test ≡ true → test i ≡ true
unfolding all_below
all_below-holds zero test i below h = absurd (omega arith)
all_below-holds (suc bound) test i below h = ground (arith, all_below-holds bound test i)

Acc-below : (k n : ℕ) → n < k → Acc ◌<◌ n
Acc-below zero n h = elim h [ ]
Acc-below (suc k) n h = Acc.intro n (λ m hm. Acc-below k m (omega arith))

lt_wf : WellFounded ◌<◌
lt_wf = record { apply = λ n. Acc-below (suc n) n (omega arith) }

abbrev xor_digits : ℕ → ℕ → ℕ → ℕ
xor_digits n a b = digits (λ b. b) differ n a b

xor_digits_fuel : (n m a b : ℕ) → a ≤ n → a ≤ m → xor_digits n a b ≡ xor_digits m a b
xor_digits_fuel zero zero a b p q = refl
xor_digits_fuel zero (suc m) zero b p q = refl
xor_digits_fuel zero (suc m) (suc a) b p q = absurd (omega arith)
xor_digits_fuel (suc n) zero zero b p q = refl
xor_digits_fuel (suc n) zero (suc a) b p q = absurd (omega arith)
xor_digits_fuel (suc n) (suc m) zero b p q = refl
xor_digits_fuel (suc n) (suc m) (suc a) b p q =
    rw (xor_digits_fuel n m (suc a / 2) (b / 2) (omega arith) (omega arith))

pub zero-bit_xor : (b : ℕ) → bit_xor 0 b ≡ b
zero-bit_xor b = bit_xor-bitwise 0 b

pub bit_xor_step : (a b : ℕ) → bit_xor a b ≡ bit_xor (a / 2) (b / 2) * 2 + differ (a % 2) (b % 2)
bit_xor_step zero b = omega (arith, zero-bit_xor b, zero-bit_xor (b / 2))
bit_xor_step (suc a) b =
    simp bit_xor-bitwise
      (omega (arith, xor_digits_fuel a (suc a / 2) (suc a / 2) (b / 2) (omega arith) (le_refl _)))

differ_digits :
    (x y : ℕ)
    → x < 2
    → y < 2
    → (differ x y < 2) × (differ (differ x y) y ≡ x) × (differ x (differ x y) ≡ y)
differ_digits zero zero hx hy = (omega arith, refl, refl)
differ_digits zero (suc zero) hx hy = (omega arith, refl, refl)
differ_digits zero (suc (suc y)) hx hy = absurd (omega arith)
differ_digits (suc zero) zero hx hy = (omega arith, refl, refl)
differ_digits (suc zero) (suc zero) hx hy = (omega arith, refl, refl)
differ_digits (suc zero) (suc (suc y)) hx hy = absurd (omega arith)
differ_digits (suc (suc x)) y hx hy = absurd (omega arith)

-- Halves and lowest digit of an exclusive or.
bit_xor_parts :
    (a b : ℕ)
    → (bit_xor a b / 2 ≡ bit_xor (a / 2) (b / 2)) × (bit_xor a b % 2 ≡ differ (a % 2) (b % 2))
bit_xor_parts a b =
    omega (arith, bit_xor_step a b, (differ_digits (a % 2) (b % 2) (omega arith) (omega arith)).0)

-- Two numbers below `2 ^ k` have an exclusive or below it.
pub bit_xor-lt : (k a b : ℕ) → a < 2 ^ k → b < 2 ^ k → bit_xor a b < 2 ^ k
bit_xor-lt zero a b ha hb =
    let ea : a ≡ 0 = omega arith in let eb : b ≡ 0 = omega arith in rw (ea, eb) (omega arith)
bit_xor-lt (suc k) a b ha hb = omega (
  arith,
  pow-suc 2 k,
  bit_xor-lt k (a / 2) (b / 2) (omega (arith, pow-suc 2 k)) (omega (arith, pow-suc 2 k)),
  bit_xor_parts a b,
  (differ_digits (a % 2) (b % 2) (omega arith) (omega arith)).0,
)

-- Exclusive or with the same number again takes it away.
pub bit_xor_cancel : (k a b : ℕ) → a < 2 ^ k → b < 2 ^ k → bit_xor (bit_xor a b) b ≡ a
bit_xor_cancel zero a b ha hb =
    let ea : a ≡ 0 = omega arith in let eb : b ≡ 0 = omega arith in rw (ea, eb) refl
bit_xor_cancel (suc k) a b ha hb =
    let c = bit_xor a b in
    let ih =
      bit_xor_cancel k (a / 2) (b / 2) (omega (arith, pow-suc 2 k)) (omega (arith, pow-suc 2 k)) in
    let (halves, digit) = bit_xor_parts a b in
    let e : bit_xor (c / 2) (b / 2) ≡ a / 2 = ap (λ t. bit_xor t (b / 2)) halves ∙ ih in
    let d : differ (c % 2) (b % 2) ≡ a % 2 =
      ap (λ t. differ t (b % 2)) digit
      ∙ (differ_digits (a % 2) (b % 2) (omega arith) (omega arith)).1 in
    omega (arith, bit_xor_step c b, e, d)

pub bit_xor_cancel_left : (k a b : ℕ) → a < 2 ^ k → b < 2 ^ k → bit_xor a (bit_xor a b) ≡ b
bit_xor_cancel_left zero a b ha hb =
    let ea : a ≡ 0 = omega arith in let eb : b ≡ 0 = omega arith in rw (ea, eb) refl
bit_xor_cancel_left (suc k) a b ha hb =
    let c = bit_xor a b in
    let ih =
      bit_xor_cancel_left k (a / 2) (b / 2) (omega (arith, pow-suc 2 k))
        (omega (arith, pow-suc 2 k)) in
    let (halves, digit) = bit_xor_parts a b in
    let e : bit_xor (a / 2) (c / 2) ≡ b / 2 = ap (λ t. bit_xor (a / 2) t) halves ∙ ih in
    let d : differ (a % 2) (c % 2) ≡ b % 2 =
      ap (λ t. differ (a % 2) t) digit
      ∙ (differ_digits (a % 2) (b % 2) (omega arith) (omega arith)).2 in
    omega (arith, bit_xor_step a c, e, d)
