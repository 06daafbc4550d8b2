-- ===== src/Debugger/Breakpoints.antt =====
-- The breakpoints as a set of addresses.
use ex3_rust.Prelude.{ℕ, Bool, true, false, not, ◌==◌, if◌then◌else◌, List, [], ◌∷◌, ◌≡◌, arith}
use ex3_rust.Debugger.{
  Debugger, contains, insert, remove, toggle_breakpoint, add_breakpoint, remove_breakpoint,
}

contains-insert :
    (a b : ℕ) (bs : List ℕ) → contains (insert a bs) b ≡ (if a == b then true else contains bs b)
unfolding insert contains
contains-insert a b bs = grind arith

contains-remove :
    (a b : ℕ) (bs : List ℕ) → contains (remove a bs) b ≡ (if a == b then false else contains bs b)
unfolding remove contains
contains-remove a b [] = ground arith
contains-remove a b (x ∷ bs) = ground (arith, contains-remove a b bs)

abbrev pub has : Debugger → ℕ → Bool
has d b = contains d.breakpoints b

-- `toggle_breakpoint` flips the membership of its address, answers with the new membership, and
-- leaves every other address.
pub toggle_breakpoint_lem :
    (a b : ℕ) (d : Debugger)
    → let (answer, d') = toggle_breakpoint a d in
      (answer ≡ not (has d a)) × (has d' b ≡ (if a == b then answer else has d b))
unfolding toggle_breakpoint
toggle_breakpoint_lem a b d =
    ground (arith, contains-insert a b d.breakpoints, contains-remove a b d.breakpoints)

-- `add_breakpoint` and `remove_breakpoint` set and clear one membership.
pub add-remove_breakpoint :
    (a b : ℕ) (d : Debugger)
    → (has (add_breakpoint a d) b ≡ (if a == b then true else has d b))
      × (has (remove_breakpoint a d) b ≡ (if a == b then false else has d b))
unfolding add_breakpoint remove_breakpoint
add-remove_breakpoint a b d = (contains-insert a b d.breakpoints, contains-remove a b d.breakpoints)
