-- ===== src/Prelude/Bits/Fields.antt =====
-- Numbers as bit fields: an operation on `q * 2 ^ k + r` works on the two parts by themselves.
use Prim.Native.Nat.{
  ℕ, zero, suc, ◌+◌, ◌-◌, ◌*◌, ◌/◌, ◌%◌, ◌^◌, ◌≤◌, ◌<◌, min, max, bit_and, bit_or, bit_xor,
  bit_and-bitwise, bit_or-bitwise,
}
use mathlib.Core.Path.{◌≡◌, refl, ap, ap₂, ◌∙◌}
use native.Mathlib.Nat.{pow-suc, one-le-pow, mod-lt}
use native.Mathlib.Omega.{arith}
use ex3_rust.Prelude.Bits.Digits.{bit_and_halves, bit_or_halves, bit_xor_halves}

double_pow : (q k : ℕ) → q * 2 ^ suc k ≡ 2 * (q * 2 ^ k)
double_pow q k = omega (arith, ap (λ (t : ℕ). q * t) (pow-suc 2 k))

-- Any operation that has an equation for the lowest digit.
module _ (op f : ℕ → ℕ → ℕ) (step : (a b : ℕ) → op a b ≡ f (a % 2) (b % 2) + 2 * op (a / 2) (b / 2))
    (nil : op 0 0 ≡ 0) where
  op_fields :
      (k q r p s : ℕ)
      → r < 2 ^ k
      → s < 2 ^ k
      → op (q * 2 ^ k + r) (p * 2 ^ k + s) ≡ op q p * 2 ^ k + op r s
  op_fields zero q r p s hr hs = ground (arith, nil)
  op_fields (suc k) q r p s hr hs = ground (
    arith,
    step (q * 2 ^ suc k + r) (p * 2 ^ suc k + s),
    step r s,
    double_pow q k,
    double_pow p k,
    double_pow (op q p) k,
    op_fields k q (r / 2) p (s / 2) (omega arith) (omega arith),
  )

  op-lt_pow :
      ((x y : ℕ) → x < 2 → y < 2 → f x y < 2) → (k a b : ℕ) → a < 2 ^ k → b < 2 ^ k → op a b < 2 ^ k
  op-lt_pow small zero a b ha hb = ground (arith, nil)
  op-lt_pow small (suc k) a b ha hb = omega (
    arith,
    step a b,
    pow-suc 2 k,
    small (a % 2) (b % 2) (omega arith) (omega arith),
    op-lt_pow small k (a / 2) (b / 2) (omega arith) (omega arith),
  )

  -- Digits that meet 0 stay as they are, or vanish.
  op_unit : ((x : ℕ) → x < 2 → f x 0 ≡ x) → (n a : ℕ) → a ≤ n → op a 0 ≡ a
  op_unit unit n zero h = nil
  op_unit unit zero (suc a) h = absurd (omega arith)
  op_unit unit (suc n) (suc a) h = omega (
    arith,
    step (suc a) 0,
    unit (suc a % 2) (omega arith),
    op_unit unit n (suc a / 2) (omega arith),
  )

  op_annihilates : ((x : ℕ) → x < 2 → f x 0 ≡ 0) → (n a : ℕ) → a ≤ n → op a 0 ≡ 0
  op_annihilates none n zero h = nil
  op_annihilates none zero (suc a) h = absurd (omega arith)
  op_annihilates none (suc n) (suc a) h = omega (
    arith,
    step (suc a) 0,
    none (suc a % 2) (omega arith),
    op_annihilates none n (suc a / 2) (omega arith),
  )

pub bit_or-zero : (a : ℕ) → bit_or a 0 ≡ a
bit_or-zero a = op_unit bit_or max bit_or_halves refl (λ x h. omega arith) a a (omega arith)

pub zero-bit_or : (a : ℕ) → bit_or 0 a ≡ a
zero-bit_or a = bit_or-bitwise 0 a

pub bit_and-zero : (a : ℕ) → bit_and a 0 ≡ 0
bit_and-zero a =
    op_annihilates bit_and min bit_and_halves refl (λ x h. omega arith) a a (omega arith)

pub zero-bit_and : (a : ℕ) → bit_and 0 a ≡ 0
zero-bit_and a = bit_and-bitwise 0 a

pub bit_and-lt : (k a b : ℕ) → a < 2 ^ k → b < 2 ^ k → bit_and a b < 2 ^ k
bit_and-lt = op-lt_pow bit_and min bit_and_halves refl (λ x y p q. omega arith)

pub bit_or-lt : (k a b : ℕ) → a < 2 ^ k → b < 2 ^ k → bit_or a b < 2 ^ k
bit_or-lt = op-lt_pow bit_or max bit_or_halves refl (λ x y p q. omega arith)

pub bit_xor-lt : (k a b : ℕ) → a < 2 ^ k → b < 2 ^ k → bit_xor a b < 2 ^ k
bit_xor-lt = op-lt_pow bit_xor (λ x y. (x + y) % 2) bit_xor_halves refl (λ x y p q. omega arith)

module _ (k q r p s : ℕ) (hr : r < 2 ^ k) (hs : s < 2 ^ k) where
  pub bit_and_fields : bit_and (q * 2 ^ k + r) (p * 2 ^ k + s) ≡ bit_and q p * 2 ^ k + bit_and r s
  bit_and_fields = op_fields bit_and min bit_and_halves refl k q r p s hr hs

  pub bit_or_fields : bit_or (q * 2 ^ k + r) (p * 2 ^ k + s) ≡ bit_or q p * 2 ^ k + bit_or r s
  bit_or_fields = op_fields bit_or max bit_or_halves refl k q r p s hr hs

  pub bit_xor_fields : bit_xor (q * 2 ^ k + r) (p * 2 ^ k + s) ≡ bit_xor q p * 2 ^ k + bit_xor r s
  bit_xor_fields = op_fields bit_xor (λ x y. (x + y) % 2) bit_xor_halves refl k q r p s hr hs

-- A field shifted above a number that does not reach it is added to it.
pub bit_or-shift : (k q r : ℕ) → r < 2 ^ k → bit_or (q * 2 ^ k) r ≡ q * 2 ^ k + r
bit_or-shift k q r h =
    ground (
      arith,
      bit_or_fields k q 0 0 r (omega (arith, one-le-pow k 2)) h,
      bit_or-zero q,
      zero-bit_or r,
    )

bit_and-low_of_lt : (k r : ℕ) → r < 2 ^ k → bit_and r (2 ^ k - 1) ≡ r
bit_and-low_of_lt zero r h = ground (arith, bit_and-zero r)
bit_and-low_of_lt (suc k) r h = ground (
  arith,
  bit_and_halves r (2 ^ suc k - 1),
  pow-suc 2 k,
  one-le-pow k 2,
  bit_and-low_of_lt k (r / 2) (omega (arith, pow-suc 2 k)),
)

-- A mask of the `k` low bits is the remainder by `2 ^ k`.
pub bit_and-low_mask : (k a : ℕ) → bit_and a (2 ^ k - 1) ≡ a % 2 ^ k
bit_and-low_mask k a = ground (
  arith,
  one-le-pow k 2,
  bit_and_fields k (a / 2 ^ k) (a % 2 ^ k) 0 (2 ^ k - 1),
  bit_and-zero (a / 2 ^ k),
  bit_and-low_of_lt k (a % 2 ^ k),
)

-- A mask whose lowest `k` bits are clear acts on what stands above them.
pub bit_and-high_mask : (k a m : ℕ) → bit_and a (m * 2 ^ k) ≡ bit_and (a / 2 ^ k) m * 2 ^ k
bit_and-high_mask k a m =
    ground (
      arith,
      one-le-pow k 2,
      bit_and_fields k (a / 2 ^ k) (a % 2 ^ k) m 0,
      bit_and-zero (a % 2 ^ k),
    )

-- A mask of one bit.
pub bit_and-bit : (k a : ℕ) → bit_and a (2 ^ k) ≡ a / 2 ^ k % 2 * 2 ^ k
bit_and-bit k a = ground (arith, bit_and-high_mask k a 1, bit_and-low_mask 1 (a / 2 ^ k))

split_at : (k a : ℕ) → a ≡ a / 2 ^ k * 2 ^ k + a % 2 ^ k
split_at k a = grind arith

high_part : (k h l : ℕ) → l < 2 ^ k → (h * 2 ^ k + l) / 2 ^ k ≡ h
high_part k h l hl = grind arith

-- The bits from `k` upwards.
pub bit_and-div : (k a b : ℕ) → bit_and a b / 2 ^ k ≡ bit_and (a / 2 ^ k) (b / 2 ^ k)
bit_and-div k a b =
    let small : (x : ℕ) → x % 2 ^ k < 2 ^ k = λ x. mod-lt x (one-le-pow k 2 (omega arith)) in
    ap₂ (λ x y. bit_and x y / 2 ^ k) (split_at k a) (split_at k b)
    ∙ ap (λ t. t / 2 ^ k) (bit_and_fields k _ (a % 2 ^ k) _ (b % 2 ^ k) (small a) (small b))
    ∙ high_part k _ _ (bit_and-lt k _ _ (small a) (small b))

pub bit_xor-div : (k a b : ℕ) → bit_xor a b / 2 ^ k ≡ bit_xor (a / 2 ^ k) (b / 2 ^ k)
bit_xor-div k a b =
    let small : (x : ℕ) → x % 2 ^ k < 2 ^ k = λ x. mod-lt x (one-le-pow k 2 (omega arith)) in
    ap₂ (λ x y. bit_xor x y / 2 ^ k) (split_at k a) (split_at k b)
    ∙ ap (λ t. t / 2 ^ k) (bit_xor_fields k _ (a % 2 ^ k) _ (b % 2 ^ k) (small a) (small b))
    ∙ high_part k _ _ (bit_xor-lt k _ _ (small a) (small b))

-- The same with the operands exchanged.
pub low_or_high : (q r : ℕ) → r < 2 ^ 16 → bit_or r (q * 2 ^ 16) ≡ q * 2 ^ 16 + r
low_or_high q r h =
    ground (arith, bit_or_fields 16 0 r q 0 h (omega arith), zero-bit_or q, bit_or-zero r)
