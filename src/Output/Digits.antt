-- ===== src/Output/Digits.antt =====
-- A number that is written in hexadecimal reads back.
use Prim.Native.Char.{code}
use Prim.Native.String.{String}
use native.Mathlib.Nat.{
  pow-suc, one-le-pow, div-add-mod', mul-le-mul_right, mod-lt, add-mul-mod_self_right, mod-eq_of_lt,
}
use ex3_rust.Prelude.{
  ℕ, zero, suc, ◌+◌, ◌*◌, ◌/◌, ◌%◌, ◌^◌, ◌<◌, ◌≤◌, ◌≡◌, refl, sym, ap, ◌∙◌, arith, Bool, true,
  false, not, ltb, IsU16, IsU32, ok, ok_or, if_true, if_false, ◌==◌, Option, none, some, all_below,
  all_below-at,
}
use ex3_rust.Prelude.Text.{digit_value, digits_value, unsigned_from_str_radix, within, some_digits}
use ex3_rust.Output.{hex_digit, hex_digits, hex_field}

abbrev reads_back : Option ℕ → ℕ → Bool
reads_back none d = Bool.false
reads_back (some v) d = v == d

digit_table : all_below 16 (λ d. reads_back (digit_value 16 (code (hex_digit d))) d) ≡ true
unfolding all_below digit_value
digit_table = refl

reads_back_sound : (o : Option ℕ) (d : ℕ) → reads_back o d ≡ true → o ≡ some d
reads_back_sound none d h = cc h
reads_back_sound (some v) d h = ground arith

digit_value-hex_digit : (d : ℕ) → d < 16 → digit_value 16 (code (hex_digit d)) ≡ some d
digit_value-hex_digit d h = reads_back_sound _ d (all_below-at d 16 _ digit_table h)

digits_value-cons :
    (v d : ℕ) (s : String)
    → d < 16
    → digits_value 16 v (String.◌∷◌ (hex_digit d) s) ≡ digits_value 16 (v * 16 + d) s
unfolding digits_value
digits_value-cons v d s h =
    ap (λ o. elim o [ none ↦ none | some e ↦ digits_value 16 (v * 16 + e) s ])
      (digit_value-hex_digit d h)

split_mod : (p n : ℕ) → 0 < p → n / p % 16 * p + n % p ≡ n % (p * 16)
split_mod p n h =
    let q = n / p in
    let a = q % 16 in
    let b = q / 16 in
    let small = a * p + n % p in
    let digits : q ≡ b * 16 + a = omega arith in
    let whole : n ≡ small + b * (p * 16) =
      omega (arith, div-add-mod' n p, ap (λ (t : ℕ). t * p) digits) in
    let low : a ≤ 15 = omega arith in
    let bound : small < p * 16 = omega (arith, mul-le-mul_right p low, mod-lt n h) in
    sym
      (ap (λ t. t % (p * 16)) whole ∙ add-mul-mod_self_right small b (p * 16) ∙ mod-eq_of_lt bound)

regroup : (v d p r : ℕ) → (v * 16 + d) * p + r ≡ v * (p * 16) + (d * p + r)
regroup v d p r = omega arith

digits_value-hex_digits :
    (k v n : ℕ) → digits_value 16 v (hex_digits k n) ≡ some (v * 16 ^ k + n % 16 ^ k)
unfolding digits_value hex_digits
digits_value-hex_digits zero v n = ap some (omega arith)
digits_value-hex_digits (suc k) v n =
    let d = n / 16 ^ k % 16 in
    digits_value-cons v d (hex_digits k n) (omega arith)
    ∙ digits_value-hex_digits k (v * 16 + d) n
    ∙ ap some (
        regroup v d (16 ^ k) (n % 16 ^ k)
        ∙ ap (λ t. v * (16 ^ k * 16) + t) (split_mod (16 ^ k) n (one-le-pow k 16 (omega arith)))
        ∙ ap (λ p. v * p + n % p) (sym (pow-suc 16 k)))

no_sign_table : all_below 16 (λ d. not (code (hex_digit d) == b'+')) ≡ true
unfolding all_below
no_sign_table = refl

not_false : (b : Bool) → not b ≡ true → b ≡ false
not_false b h = ground arith

no_sign : (d : ℕ) → d < 16 → (code (hex_digit d) == b'+') ≡ false
no_sign d h = not_false _ (all_below-at d 16 _ no_sign_table h)

ltb-true : (a b : ℕ) → a < b → ltb a b ≡ true
ltb-true a b h = ground arith

unsigned_from_str_radix-hex_digits :
    (k width n : ℕ)
    → n < 16 ^ suc k
    → n < 2 ^ width
    → unsigned_from_str_radix width 16 (hex_digits (suc k) n) ≡ some n
unfolding unsigned_from_str_radix hex_digits digits_value
unsigned_from_str_radix-hex_digits k width n h fits =
    let d = n / 16 ^ k % 16 in
    let rest = hex_digits k n in
    let whole : some_digits 16 (String.◌∷◌ (hex_digit d) rest) ≡ some n =
      digits_value-hex_digits (suc k) 0 n ∙ ap some (omega (arith, mod-eq_of_lt h)) in
    ap (within (2 ^ width)) (if_false (some_digits 16 rest) (no_sign d (omega arith)) ∙ whole)
    ∙ if_true none (ltb-true n (2 ^ width) fits)

-- The field parser of `parse_mem` takes the four hexadecimal digits of a 16-bit address to the address,
-- and the eight of a 32-bit word to the word.
pub hex_field-hex_digits :
    (line : ℕ) (message : String) (address word : ℕ)
    → IsU16 address
    → IsU32 word
    → (hex_field line message 16 (hex_digits 4 address) ≡ ok address)
      × (hex_field line message 32 (hex_digits 8 word) ≡ ok word)
hex_field-hex_digits line message address word ha hw = (
  ap (λ o. ok_or o (record { line = line; message = message }))
      (unsigned_from_str_radix-hex_digits 3 16 address ha ha),
  ap (λ o. ok_or o (record { line = line; message = message }))
      (unsigned_from_str_radix-hex_digits 7 32 word hw hw),
)
