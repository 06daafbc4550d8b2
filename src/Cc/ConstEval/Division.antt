-- ===== src/Cc/ConstEval/Division.antt =====
-- Signed and unsigned division of the constant evaluator, by sign and magnitude.
use ex3_rust.Prelude.{ℕ, ◌-◌, ◌%◌, ◌^◌, ◌≤◌, ◌<◌, Bool, true, false, ℤ, pos}
use ex3_rust.Cc.ConstEval.{negated}

-- The 32-bit word of a magnitude with a sign; `true` is minus.
abbrev pub word_of : Bool → ℕ → ℕ
word_of false n = n
word_of true n = (2 ^ 32 - n) % 2 ^ 32

-- The magnitudes of the 32-bit integers of a sign.
abbrev pub IsMagnitude : Bool → ℕ → Type 0
IsMagnitude false n = n < 2 ^ 31
IsMagnitude true n = n ≤ 2 ^ 31

abbrev pub opposite : Bool → Bool → Bool
opposite false t = t
opposite true false = true
opposite true true = false

signed : Bool → ℕ → ℤ
signed false n = pos n
signed true n = negated n
