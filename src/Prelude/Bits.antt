-- ===== src/Prelude/Bits.antt =====
-- `&` with a low mask and `|` of disjoint fields, as arithmetic. The native operations stand for
-- `digits`, a recursion on binary digits; the steps below drop its fuel.
use Prim.Native.Nat.{
  ℕ, zero, suc, ◌+◌, ◌-◌, ◌*◌, ◌/◌, ◌%◌, ◌^◌, ◌≤◌, ◌<◌, min, max, bit_and, bit_or, digits,
  bit_and-bitwise, bit_or-bitwise,
}
use mathlib.Core.Path.{◌≡◌, refl, ap}
use native.Mathlib.Nat.{pow-suc, one-le-pow}
use native.Mathlib.Omega.{arith}

-- `x << k` and `x >> k`.
abbrev pub shl : ℕ → ℕ → ℕ
shl x k = x * 2 ^ k

abbrev pub shr : ℕ → ℕ → ℕ
shr x k = x / 2 ^ k

-- What an operation gives for the digits of `y` once `x` has no more.
abbrev keep : ℕ → ℕ
keep y = y

abbrev drop : ℕ → ℕ
drop y = 0

digits-zero : (rest : ℕ → ℕ) (bit : ℕ → ℕ → ℕ) (y fuel : ℕ) → digits rest bit fuel zero y ≡ rest y
digits-zero rest bit y zero = refl
digits-zero rest bit y (suc fuel) = refl

-- Fuel above the number itself changes nothing.
digits_surplus :
    (rest : ℕ → ℕ) (bit : ℕ → ℕ → ℕ) (x y more fuel : ℕ)
    → x ≤ fuel
    → fuel ≤ more
    → digits rest bit more x y ≡ digits rest bit fuel x y
digits_surplus rest bit zero y more fuel fits above =
    rw (digits-zero rest bit y more, digits-zero rest bit y fuel)
digits_surplus rest bit (suc x) y more zero fits above = absurd (omega arith)
digits_surplus rest bit (suc x) y zero (suc fuel) fits above = absurd (omega arith)
digits_surplus rest bit (suc x) y (suc more) (suc fuel) fits above =
    let half = digits_surplus rest bit (suc x / 2) (y / 2) more fuel (omega arith) (omega arith) in
    rw half

-- The recursion reaches the half of `suc x` with the fuel `x`, which does as well as the half.
digits_half :
    (rest : ℕ → ℕ) (bit : ℕ → ℕ → ℕ) (x y : ℕ)
    → digits rest bit x (suc x / 2) y ≡ digits rest bit (suc x / 2) (suc x / 2) y
digits_half rest bit x y =
    digits_surplus rest bit (suc x / 2) y x (suc x / 2) (omega arith) (omega arith)

-- The operations on two numbers are the ones on their halves, then on their last digits.
bit_or_halves : (x y : ℕ) → bit_or x y ≡ bit_or (x / 2) (y / 2) * 2 + max (x % 2) (y % 2)
bit_or_halves zero y = simp bit_or-bitwise (omega arith)
bit_or_halves (suc x) y = simp bit_or-bitwise (omega (arith, digits_half keep max x (y / 2)))

bit_and_halves : (x y : ℕ) → bit_and x y ≡ bit_and (x / 2) (y / 2) * 2 + min (x % 2) (y % 2)
bit_and_halves zero y = simp bit_and-bitwise (omega arith)
bit_and_halves (suc x) y = simp bit_and-bitwise (omega (arith, digits_half drop min x (y / 2)))

-- Below `2 ^ n`, `& 0` clears and `| 0` keeps, by `n` halvings.
clear_below : (n x : ℕ) → x < 2 ^ n → bit_and x 0 ≡ 0
clear_below zero x small = let none : x ≡ 0 = omega arith in rw none
clear_below (suc n) x small =
    let half = clear_below n (x / 2) (omega (arith, pow-suc 2 n)) in
    omega (arith, half, bit_and_halves x 0)

keep_below : (n x : ℕ) → x < 2 ^ n → bit_or x 0 ≡ x
keep_below zero x small = let none : x ≡ 0 = omega arith in rw none
keep_below (suc n) x small =
    let half = keep_below n (x / 2) (omega (arith, pow-suc 2 n)) in
    omega (arith, half, bit_or_halves x 0)

below_pow : (x : ℕ) → x < 2 ^ x
below_pow zero = omega arith
below_pow (suc x) = omega (arith, below_pow x, pow-suc 2 x)

pub bit_or-zero : (x : ℕ) → bit_or x 0 ≡ x
bit_or-zero x = keep_below x x (below_pow x)

-- A shift by one more place is twice the shift.
shl-suc : (q k : ℕ) → shl q (suc k) ≡ shl q k * 2
shl-suc q k = omega (arith, ap (λ (p : ℕ). q * p) (pow-suc 2 k))

-- `(q << k) | r` is a sum where `r` fits in `k` bits.
pub bit_or_fields : (k q r : ℕ) → r < 2 ^ k → bit_or (shl q k) r ≡ shl q k + r
bit_or_fields zero q r small = ground (arith, keep_below q q (below_pow q))
bit_or_fields (suc k) q r small =
    let fits : r / 2 < 2 ^ k = omega (arith, pow-suc 2 k) in
    ground (arith, shl-suc q k, bit_or_halves (shl q (suc k)) r, bit_or_fields k q (r / 2) fits)

-- A mask of `k` ones is the remainder by `2 ^ k`, as its half is one of the half.
mask_field : (k a q r : ℕ) → a ≡ shl q k + r → r < 2 ^ k → bit_and a (2 ^ k - 1) ≡ r
mask_field zero a q r split small = ground (arith, clear_below a a (below_pow a))
mask_field (suc k) a q r split small =
    let fits : r / 2 < 2 ^ k = omega (arith, pow-suc 2 k) in
    let half : a / 2 ≡ shl q k + r / 2 = omega (arith, split, shl-suc q k) in
    ground (
      arith,
      one-le-pow k 2,
      pow-suc 2 k,
      shl-suc q k,
      bit_and_halves a (2 ^ suc k - 1),
      mask_field k (a / 2) q (r / 2) half fits,
    )

pub bit_and_mask : (k a : ℕ) → bit_and a (2 ^ k - 1) ≡ a % 2 ^ k
bit_and_mask k a =
    mask_field k a (a / 2 ^ k) (a % 2 ^ k) (ground (arith, one-le-pow k 2))
      (ground (arith, one-le-pow k 2))

-- The bit number `k` is not set in a number below `2 ^ k`.
pub bit_and_above : (k x : ℕ) → x < 2 ^ k → bit_and x (2 ^ k) ≡ 0
bit_and_above zero x small = let none : x ≡ 0 = omega arith in rw none (bit_and-bitwise 0 1)
bit_and_above (suc k) x small =
    let fits : x / 2 < 2 ^ k = omega (arith, pow-suc 2 k) in
    ground (arith, pow-suc 2 k, bit_and_above k (x / 2) fits, bit_and_halves x (2 ^ suc k))

-- A mask that is shifted by `k` only meets what is above the low field.
pub bit_and-shl :
    (k a b r q : ℕ) → a ≡ shl b k + r → r < 2 ^ k → bit_and a (shl q k) ≡ shl (bit_and b q) k
bit_and-shl zero a b r q split small =
    let same : a ≡ b = omega (arith, split) in
    let one : q * 1 ≡ q = omega arith in rw same (rw one (omega arith))
bit_and-shl (suc k) a b r q split small =
    let fits : r / 2 < 2 ^ k = omega (arith, pow-suc 2 k) in
    let half : a / 2 ≡ shl b k + r / 2 = omega (arith, split, shl-suc b k) in
    ground (
      arith,
      shl-suc q k,
      shl-suc (bit_and b q) k,
      bit_and_halves a (shl q (suc k)),
      bit_and-shl k (a / 2) b (r / 2) q half fits,
    )
