-- ===== src/Debugger/Runs.antt =====
-- `Debugger::run` ends, and stops before the first breakpoint that it meets.
use ex3_rust.Prelude.{
  ℕ, zero, suc, ◌+◌, ◌*◌, ◌^◌, ◌≤◌, ◌<◌, ◌≡◌, refl, sym, ap, ◌∙◌, subst, true, false, inl, inr,
  arith, Bool-cases, Option, some, Result, ok, err, Result-cases, leb, wrapping_add, wrapping_sub,
  if_true, if_false, IsU64,
}
use ex3_rust.Isa.{DecodeError}
use ex3_rust.Emulator.Bus.{IoBus, IsByteBus}
use ex3_rust.Emulator.State.{Machine, StepOutcome, CpuError}
use ex3_rust.Emulator.Step.{Stepped}
use ex3_rust.Emulator.Step as Cpu
use ex3_rust.Emulator.Invariant.{IsMachine, step-IsMachine}
use ex3_rust.Emulator.Run.{
  count, Counted, entered, fetched, step-Counted, step-err, done, turns, Counted-turns, Undecoded,
}
use ex3_rust.Debugger.{RunStop, halted, breakpoint, step_limit, Debugger, run_loop, run}
use ex3_rust.Debugger.Breakpoints.{has}

-- A machine that the loop reaches: it steps only from machines that run and whose next instruction
-- has no breakpoint.
pub data Passes {B : Type 0} (bus : IoBus B) (d : Debugger) (final : Machine B)
    : Machine B → Type 0 where
  here : Passes bus d final final
  onward :
      {m : Machine B}
      → m.state.halted ≡ false
      → has d m.state.pc ≡ false
      → Passes bus d final (Cpu.step bus m).machine
      → Passes bus d final m

-- What `run` may return.
pub data IsStop {B : Type 0} (bus : IoBus B) (d : Debugger) (start max_steps : ℕ) (m : Machine B)
    : Result RunStop CpuError → Type 0 where
  stopped :
      m.state.halted ≡ true → done start m ≤ max_steps → IsStop bus d start max_steps m (ok halted)
  at_breakpoint :
      m.state.halted ≡ false
      → has d m.state.pc ≡ true
      → done start m ≤ max_steps
      → IsStop bus d start max_steps m (ok (breakpoint m.state.pc))
  limited :
      m.state.halted ≡ false
      → has d m.state.pc ≡ false
      → done start m ≡ max_steps
      → IsStop bus d start max_steps m (ok step_limit)
  failed :
      (before : Machine B) (e : DecodeError)
      → has d before.state.pc ≡ false
      → Undecoded bus e before m
      → done start m ≤ max_steps
      → IsStop bus d start max_steps m (err (CpuError.decode e))

-- The loop's `steps` is the number of instructions since the start.
pub Counted-steps :
    {B : Type 0} {bus : IoBus B} (start : ℕ) (m : Machine B) (r : Stepped B)
    → start < 2 ^ 64
    → IsU64 (count m)
    → Counted bus m r
    → wrapping_add 64 (done start m) (wrapping_sub 64 (count r.machine) (count m))
      ≡ done start r.machine
Counted-steps start m r hs hc (entered _ same on off) = ground arith
Counted-steps start m r hs hc (fetched up) = ground arith

module _ {B : Type 0} (bus : IoBus B) (Good : B → Type 0) (laws : IsByteBus bus Good) (d : Debugger)
    (start max_steps : ℕ) (hs : start < 2 ^ 64) (hm : max_steps < 2 ^ 64) where
  abbrev Returns : Machine B → Option (Machine B × Result RunStop CpuError) → Type 0
  Returns m outcome =
      (final : Machine B) × (result : Result RunStop CpuError) × (outcome ≡ some (final, result))
      × IsStop bus d start max_steps final result
      × Passes bus d final m
      × IsMachine Good final

  abbrev pub executed : Machine B → ℕ
  executed m = wrapping_sub 64 (count (Cpu.step bus m).machine) (count m)

  pub turn_halted :
      (fuel steps : ℕ) (m : Machine B)
      → m.state.halted ≡ true
      → run_loop bus (suc fuel) steps max_steps d m ≡ some (m, ok halted)
  unfolding run_loop
  turn_halted fuel steps m stop = if_true _ stop

  turn_breakpoint :
      (fuel steps : ℕ) (m : Machine B)
      → m.state.halted ≡ false
      → has d m.state.pc ≡ true
      → run_loop bus (suc fuel) steps max_steps d m ≡ some (m, ok (breakpoint m.state.pc))
  unfolding run_loop
  turn_breakpoint fuel steps m going hit = if_false _ going ∙ if_true _ hit

  pub turn_limited :
      (fuel steps : ℕ) (m : Machine B)
      → m.state.halted ≡ false
      → has d m.state.pc ≡ false
      → leb max_steps steps ≡ true
      → run_loop bus (suc fuel) steps max_steps d m ≡ some (m, ok step_limit)
  unfolding run_loop
  turn_limited fuel steps m going miss full = if_false _ going ∙ if_false _ miss ∙ if_true _ full

  pub turn_failed :
      (fuel steps : ℕ) (m : Machine B) (e : CpuError)
      → m.state.halted ≡ false
      → has d m.state.pc ≡ false
      → leb max_steps steps ≡ false
      → (Cpu.step bus m).result ≡ err e
      → run_loop bus (suc fuel) steps max_steps d m ≡ some ((Cpu.step bus m).machine, err e)
  unfolding run_loop
  turn_failed fuel steps m e going miss room bad =
      if_false _ going ∙ if_false _ miss ∙ if_false _ room ∙ (rw bad)

  pub turn_next :
      (fuel steps : ℕ) (m : Machine B) (o : StepOutcome)
      → m.state.halted ≡ false
      → has d m.state.pc ≡ false
      → leb max_steps steps ≡ false
      → (Cpu.step bus m).result ≡ ok o
      → run_loop bus (suc fuel) steps max_steps d m
        ≡ run_loop bus fuel
            (wrapping_add 64 steps (executed m))
            max_steps
            d
            (Cpu.step bus m).machine
  unfolding run_loop
  turn_next fuel steps m o going miss room good =
      if_false _ going ∙ if_false _ miss ∙ if_false _ room ∙ (rw good)

  turn_steps :
      (fuel steps : ℕ) (m : Machine B)
      → IsMachine Good m
      → m.state.halted ≡ false
      → has d m.state.pc ≡ false
      → leb max_steps steps ≡ false
      → done start (Cpu.step bus m).machine ≤ max_steps
      → Returns (Cpu.step bus m).machine (
          run_loop bus fuel
            (wrapping_add 64 steps (executed m))
            max_steps
            d
            (Cpu.step bus m).machine)
      → Returns m (run_loop bus (suc fuel) steps max_steps d m)
  turn_steps fuel steps m h going miss room within rest =
      elim (Result-cases (Cpu.step bus m).result) [
        | inl (o, good) ↦
            let (final, result, e, is_stop, passes, valid) = rest in
            (
              final,
              result,
              turn_next fuel steps m o going miss room good ∙ e,
              is_stop,
              onward going miss passes,
              valid,
            )
        | inr (e, bad) ↦
            let (x, word, named, stop) = step-err bus m e going bad in
            (
              (Cpu.step bus m).machine,
              err e,
              turn_failed fuel steps m e going miss room bad,
              subst (λ y. IsStop bus d start max_steps (Cpu.step bus m).machine (err y)) (sym named)
                  (failed m x miss
                    (record { going = going; word = word; stepped = refl; stopped = stop }) within),
              onward going miss here,
              step-IsMachine bus Good laws m h,
            )
      ]

  run_loop-Returns :
      (fuel steps : ℕ) (m : Machine B)
      → IsMachine Good m
      → steps ≡ done start m
      → done start m ≤ max_steps
      → turns start max_steps m < fuel
      → Returns m (run_loop bus fuel steps max_steps d m)
  run_loop-Returns zero steps m h tally within enough = absurd (omega arith)
  run_loop-Returns (suc fuel) steps m h tally within enough = elim (Bool-cases m.state.halted) [
    | inl stop ↦ (m, ok halted, turn_halted fuel steps m stop, stopped stop within, here, h)
    | inr going ↦ elim (Bool-cases (has d m.state.pc)) [
      | inl hit ↦ (
        m,
        ok (breakpoint m.state.pc),
        turn_breakpoint fuel steps m going hit,
        at_breakpoint going hit within,
        here,
        h,
      )
      | inr miss ↦ elim (Bool-cases (leb max_steps steps)) [
        | inl full ↦ (
          m,
          ok step_limit,
          turn_limited fuel steps m going miss full,
          limited going miss (ground arith),
          here,
          h,
        )
        | inr room ↦
            let s = h.state-IsState in
            let counted = step-Counted bus m going s.psr-lt in
            let (fewer, within') =
              Counted-turns start max_steps m (Cpu.step bus m) hs hm s.count-IsU64 (ground arith)
                counted in
            let tally' : wrapping_add 64 steps (executed m) ≡ done start (Cpu.step bus m).machine =
              ap (λ t. wrapping_add 64 t (executed m)) tally
              ∙ Counted-steps start m (Cpu.step bus m) hs s.count-IsU64 counted in
            turn_steps fuel steps m h going miss room within' (
              run_loop-Returns fuel (wrapping_add 64 steps (executed m)) (Cpu.step bus m).machine
                (step-IsMachine bus Good laws m h) tally' within' (omega arith))
      ]
    ]
  ]

-- From a machine in range `Debugger::run` returns within `2 * max_steps + 2` turns of its loop:
-- halted within the limit, at a breakpoint before its instruction is fetched and within the limit,
-- after exactly `max_steps` instructions, or with a decode error within the limit, halted by the
-- step of a machine without a breakpoint whose program counter was at a word that does not decode;
-- every machine that it stepped from was running and had no breakpoint at its program counter; and
-- the machine is still in range.
pub debugger-run_returns :
    {B : Type 0} (bus : IoBus B) (Good : B → Type 0) (laws : IsByteBus bus Good) (d : Debugger)
    (max_steps : ℕ) (m : Machine B)
    → IsU64 max_steps
    → IsMachine Good m
    → (final : Machine B) × (result : Result RunStop CpuError) × (run bus
          (2 * max_steps + 2)
          max_steps
          d
          m
        ≡ some (final, result))
      × IsStop bus d (count m) max_steps final result
      × Passes bus d final m
      × IsMachine Good final
unfolding run
debugger-run_returns bus Good laws d max_steps m hm h =
    let s = h.state-IsState in
    run_loop-Returns bus Good laws d (count m) max_steps s.count-IsU64 hm (2 * max_steps + 2) 0 m h
      (omega arith) (omega arith) (ground arith)
