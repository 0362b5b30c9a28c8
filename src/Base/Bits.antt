-- ===== src/Base/Bits.antt =====
-- Laws of `&`, `|` and `^` at variables: the equation of the lowest digit, and the masks and
-- disjoint fields that the instruction words are made of.
use Prim.Native.Nat.{ℕ, zero, suc, ◌+◌, ◌-◌, ◌*◌, ◌/◌, ◌%◌, ◌^◌, ◌≤◌, ◌<◌, min, max}
use Prim.Native.Nat.{bit_and, bit_or, bit_xor, digits, bitwise, differ}
use Prim.Native.Nat.{bit_and-bitwise, bit_or-bitwise, bit_xor-bitwise}
use mathlib.Core.Path.{◌≡◌, refl, ap, ◌∙◌}
use riscv_simulator_pipeline.Base.Tests.{ltb, if◌then◌else◌}
use native.Mathlib.Omega.{arith}
use native.Mathlib.Nat.{
  pow-suc, div-div-eq-div-mul, one-le-pow, mod-eq-sub-div-mul, add-zero, add-suc, mul-one,
}

-- An operation on digits whose value past the first number, `rest`, agrees with the digit 0.
module _ (rest : ℕ → ℕ) (op : ℕ → ℕ → ℕ)
    (at_zero : (b : ℕ) → rest b ≡ rest (b / 2) * 2 + op 0 (b % 2)) where
  -- More digits than the first number has change nothing.
  enough_digits : (n m a b : ℕ) → a ≤ n → a ≤ m → digits rest op n a b ≡ digits rest op m a b
  enough_digits zero zero a b p q = refl
  enough_digits zero (suc m) zero b p q = refl
  enough_digits zero (suc m) (suc a) b p q = elim p [ ]
  enough_digits (suc n) zero zero b p q = refl
  enough_digits (suc n) zero (suc a) b p q = elim q [ ]
  enough_digits (suc n) (suc m) zero b p q = refl
  enough_digits (suc n) (suc m) (suc a) b p q =
      ap (λ (t : ℕ). t * 2 + op (suc a % 2) (b % 2))
        (enough_digits n m (suc a / 2) (b / 2) (omega arith) (omega arith))

  bitwise_step :
      (a b : ℕ) → bitwise rest op a b ≡ bitwise rest op (a / 2) (b / 2) * 2 + op (a % 2) (b % 2)
  bitwise_step zero b = at_zero b
  bitwise_step (suc a) b =
      ap (λ (t : ℕ). t * 2 + op (suc a % 2) (b % 2))
        (enough_digits a (suc a / 2) (suc a / 2) (b / 2) (omega arith) (omega arith))

pub bit_and_step : (a b : ℕ) → bit_and a b ≡ bit_and (a / 2) (b / 2) * 2 + min (a % 2) (b % 2)
bit_and_step a b = simp bit_and-bitwise (bitwise_step (λ b. zero) min (λ b. omega arith) a b)

pub bit_or_step : (a b : ℕ) → bit_or a b ≡ bit_or (a / 2) (b / 2) * 2 + max (a % 2) (b % 2)
bit_or_step a b = simp bit_or-bitwise (bitwise_step (λ b. b) max (λ b. omega arith) a b)

pub bit_xor_step : (a b : ℕ) → bit_xor a b ≡ bit_xor (a / 2) (b / 2) * 2 + differ (a % 2) (b % 2)
bit_xor_step a b = simp bit_xor-bitwise (bitwise_step (λ b. b) differ (λ b. omega arith) a b)

zero-bit_and : (b : ℕ) → bit_and 0 b ≡ 0
zero-bit_and b = bit_and-bitwise 0 b

zero-bit_or : (b : ℕ) → bit_or 0 b ≡ b
zero-bit_or b = bit_or-bitwise 0 b

zero-bit_xor : (b : ℕ) → bit_xor 0 b ≡ b
zero-bit_xor b = bit_xor-bitwise 0 b

double-pow : (q k : ℕ) → q * 2 ^ suc k ≡ 2 * (q * 2 ^ k)
double-pow q k = omega (arith, ap (λ (t : ℕ). q * t) (pow-suc 2 k))

-- `r | (q << k)` is a sum when `r` fits `k` bits.
pub bit_or_fields : (k q r : ℕ) → r < 2 ^ k → bit_or r (q * 2 ^ k) ≡ q * 2 ^ k + r
bit_or_fields zero q r fits = ground (arith, zero-bit_or q)
bit_or_fields (suc k) q r fits = ground (
  arith,
  bit_or_step r (q * 2 ^ suc k),
  double-pow q k,
  pow-suc 2 k,
  bit_or_fields k q (r / 2) (omega (arith, pow-suc 2 k)),
)

-- A mask with `k` zeros at its end ignores the last `k` digits.
pub bit_and_shifted : (k a m : ℕ) → bit_and a (m * 2 ^ k) ≡ bit_and (a / 2 ^ k) m * 2 ^ k
bit_and_shifted zero a m = ground arith
bit_and_shifted (suc k) a m = ground (
  arith,
  bit_and_step a (m * 2 ^ suc k),
  double-pow m k,
  double-pow (bit_and (a / 2 ^ suc k) m) k,
  div-div-eq-div-mul a 2 (2 ^ k),
  pow-suc 2 k,
  bit_and_shifted k (a / 2) m,
)

differ-zero : (a : ℕ) → differ a 0 ≡ a
differ-zero zero = refl
differ-zero (suc a) = refl

xor_step_pow : (k a : ℕ) → bit_xor a (2 ^ suc k) ≡ bit_xor (a / 2) (2 ^ k) * 2 + a % 2
xor_step_pow k a =
    let half : 2 ^ suc k / 2 ≡ 2 ^ k = omega (arith, pow-suc 2 k) in
    let even : 2 ^ suc k % 2 ≡ 0 = omega (arith, pow-suc 2 k) in
    rw half at (rw (even, differ-zero (a % 2)) at (bit_xor_step a (2 ^ suc k)))

-- Flipping the digit `k` of a number with no higher digits.
pub bit_xor_high :
    (k a : ℕ) → a < 2 ^ suc k → bit_xor a (2 ^ k) ≡ (if ltb a (2 ^ k) then a + 2 ^ k else a - 2 ^ k)
bit_xor_high zero zero h = zero-bit_xor 1
bit_xor_high zero (suc zero) h = refl
bit_xor_high zero (suc (suc a)) h = absurd (omega arith)
bit_xor_high (suc k) a h = ground (
  arith,
  xor_step_pow k a,
  pow-suc 2 k,
  bit_xor_high k (a / 2) (omega (arith, pow-suc 2 (suc k))),
)

-- By halving the first number.
and_or_zero : (n a : ℕ) → a ≤ n → (bit_and a 0 ≡ 0) × (bit_or a 0 ≡ a)
and_or_zero zero zero h = (refl, refl)
and_or_zero zero (suc a) h = elim h [ ]
and_or_zero (suc n) a h =
    ground (arith, bit_and_step a 0, bit_or_step a 0, and_or_zero n (a / 2) (omega arith))

-- A mask of `k` ones keeps the last `k` digits.
pub bit_and_ones : (k a : ℕ) → bit_and a (2 ^ k - 1) ≡ a % 2 ^ k
bit_and_ones zero a = ground (arith, (and_or_zero a a (omega arith)).0)
bit_and_ones (suc k) a =
    let some_ones : 1 ≤ 2 ^ k = one-le-pow k 2 (omega arith) in
    let half : (2 ^ suc k - 1) / 2 ≡ 2 ^ k - 1 = omega (arith, pow-suc 2 k) in
    let odd : (2 ^ suc k - 1) % 2 ≡ 1 = omega (arith, pow-suc 2 k) in
    let step = rw half at (rw odd at (bit_and_step a (2 ^ suc k - 1))) in
    ground (
      arith,
      step,
      bit_and_ones k (a / 2),
      mod-eq-sub-div-mul a (2 ^ suc k),
      mod-eq-sub-div-mul (a / 2) (2 ^ k),
      div-div-eq-div-mul a 2 (2 ^ k),
      double-pow (a / 2 ^ suc k) k,
      pow-suc 2 k,
    )

-- `(q << k) | r` is a sum when `r` fits `k` bits.
pub bit_or_shifted : (k q r : ℕ) → r < 2 ^ k → bit_or (q * 2 ^ k) r ≡ q * 2 ^ k + r
bit_or_shifted zero q r fits = ground (arith, (and_or_zero q q (omega arith)).1)
bit_or_shifted (suc k) q r fits = ground (
  arith,
  bit_or_step (q * 2 ^ suc k) r,
  double-pow q k,
  pow-suc 2 k,
  bit_or_shifted k q (r / 2) (omega (arith, pow-suc 2 k)),
)

bit_or_double : (a b : ℕ) → bit_or (2 * a) (2 * b) ≡ 2 * bit_or a b
bit_or_double a b =
    let half : (c : ℕ) → 2 * c / 2 ≡ c = λ c. omega arith in
    let even : (c : ℕ) → 2 * c % 2 ≡ 0 = λ c. omega arith in
    rw (half a, half b, even a, even b) at (bit_or_step (2 * a) (2 * b)) ∙ omega arith

-- A field of `n` bits goes into the zeros that end `j` bits above it.
pub bit_or_append :
    (n j q v : ℕ) → v < 2 ^ n → bit_or (q * 2 ^ (n + j)) (v * 2 ^ j) ≡ (q * 2 ^ n + v) * 2 ^ j
bit_or_append n zero q v fits =
    rw (add-zero n, mul-one v, mul-one (q * 2 ^ n + v)) (bit_or_shifted n q v fits)
bit_or_append n (suc j) q v fits =
    rw
      (
        add-suc n j,
        double-pow q (n + j),
        double-pow v j,
        double-pow (q * 2 ^ n + v) j,
        bit_or_double (q * 2 ^ (n + j)) (v * 2 ^ j),
        bit_or_append n j q v fits,
      )
      refl
