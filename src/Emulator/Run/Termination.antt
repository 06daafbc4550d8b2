-- ===== src/Emulator/Run/Termination.antt =====
-- `run` ends: each turn of its loop either counts an instruction, or turns interrupts off, so that
-- `2 * max_steps + 2` turns are enough; and what it returns.
use ex3_rust.Prelude.{
  ℕ, zero, suc, ◌+◌, ◌-◌, ◌*◌, ◌%◌, ◌^◌, ◌≤◌, ◌<◌, ◌≡◌, refl, ◌∙◌, true, false, inl, inr, arith,
  Bool-cases, Option, some, Result, ok, err, Result-cases, if◌then◌else◌, leb, wrapping_sub,
  if_true, if_false, IsU64, subst, sym,
}
use ex3_rust.Isa.{DecodeError, decode}
use ex3_rust.Emulator.Bus.{IoBus, IsByteBus}
use ex3_rust.Emulator.State.{Machine, StepOutcome, CpuError, step_limit_exceeded, interrupt_enabled}
use ex3_rust.Emulator.Step.{Stepped, step, run_loop, run}
use ex3_rust.Emulator.Invariant.{IsMachine, step-IsMachine}
use ex3_rust.Emulator.Run.Counting.{count, Counted, entered, fetched, step-Counted, step-err}

-- `executed_instructions.wrapping_sub(start)`.
abbrev pub done : {B : Type 0} → ℕ → Machine B → ℕ
done start m = wrapping_sub 64 (count m) start

-- A machine that is reached by steps that succeed, each from a machine that runs.
pub data Steps {B : Type 0} (bus : IoBus B) (final : Machine B) : Machine B → Type 0 where
  here : Steps bus final final
  onward :
      {m : Machine B} (o : StepOutcome)
      → m.state.halted ≡ false
      → (step bus m).result ≡ ok o
      → Steps bus final (step bus m).machine
      → Steps bus final m

-- A machine that is halted by the step of another, which runs and whose program counter is at a word
-- that does not decode.
pub record Undecoded {B : Type 0} (bus : IoBus B) (e : DecodeError) (before after : Machine B)
    : Type 0 where
  pub going : before.state.halted ≡ false
  pub word : decode (before.memory before.state.pc) ≡ err e
  pub stepped : after ≡ (step bus before).machine
  pub stopped : after.state.halted ≡ true

-- What `run` may return from a machine and a count of instructions: the processor has halted by
-- steps that succeed, after as many instructions as it reports, or it runs on and the limit is
-- reached exactly, or the last step met a word that does not decode.
pub data IsRunResult {B : Type 0} (bus : IoBus B) (start max_steps : ℕ) (m final : Machine B)
    : Result ℕ CpuError → Type 0 where
  finished :
      Steps bus final m
      → final.state.halted ≡ true
      → done start final ≤ max_steps
      → IsRunResult bus start max_steps m final (ok (done start final))
  limited :
      Steps bus final m
      → final.state.halted ≡ false
      → done start final ≡ max_steps
      → IsRunResult bus start max_steps m final (err step_limit_exceeded)
  failed :
      (before : Machine B) (e : DecodeError)
      → Steps bus before m
      → Undecoded bus e before final
      → done start final ≤ max_steps
      → IsRunResult bus start max_steps m final (err (CpuError.decode e))

-- A step that succeeds in front of a run.
IsRunResult-step :
    {B : Type 0} (bus : IoBus B) (start max_steps : ℕ) (m final : Machine B)
    (result : Result ℕ CpuError) (o : StepOutcome)
    → m.state.halted ≡ false
    → (step bus m).result ≡ ok o
    → IsRunResult bus start max_steps (step bus m).machine final result
    → IsRunResult bus start max_steps m final result
IsRunResult-step bus start max_steps m final _ o going good (finished steps stopped within) =
    finished (Steps.onward o going good steps) stopped within
IsRunResult-step bus start max_steps m final _ o going good (limited steps on full) =
    limited (Steps.onward o going good steps) on full
IsRunResult-step bus start max_steps m final _ o going good (failed before e steps bad within) =
    failed before e (Steps.onward o going good steps) bad within

-- The turns that are left at most.
abbrev pub turns : {B : Type 0} → ℕ → ℕ → Machine B → ℕ
turns start max_steps m =
    2 * (max_steps - done start m) + (if interrupt_enabled m.state then 1 else 0)

-- One more instruction is one more below the limit: the count cannot wrap past its start.
done-suc :
    (start max_steps n n' : ℕ)
    → start < 2 ^ 64
    → max_steps < 2 ^ 64
    → n < 2 ^ 64
    → wrapping_sub 64 n start < max_steps
    → n' ≡ (n + 1) % 2 ^ 64
    → wrapping_sub 64 n' start ≡ wrapping_sub 64 n start + 1
done-suc start max_steps n n' hs hm hn h e = omega arith

module _ {B : Type 0} {bus : IoBus B} (start max_steps : ℕ) (m : Machine B) (r : Stepped B) where
  pub Counted-turns :
      start < 2 ^ 64
      → max_steps < 2 ^ 64
      → IsU64 (count m)
      → done start m < max_steps
      → Counted bus m r
      → (turns start max_steps r.machine < turns start max_steps m)
        × (done start r.machine ≤ max_steps)
  Counted-turns hs hm hc h (entered _ same on off) = ground arith
  Counted-turns hs hm hc h (fetched up) =
      let next = done-suc start max_steps (count m) (count r.machine) hs hm hc h up in ground arith

module _ {B : Type 0} (bus : IoBus B) (Good : B → Type 0) (laws : IsByteBus bus Good)
    (start max_steps : ℕ) (hs : start < 2 ^ 64) (hm : max_steps < 2 ^ 64) where
  -- A returned result with all that is known of it.
  abbrev Returns : Machine B → Option (Machine B × Result ℕ CpuError) → Type 0
  Returns m outcome =
      (final : Machine B) × (result : Result ℕ CpuError) × (outcome ≡ some (final, result))
      × IsRunResult bus start max_steps m final result
      × IsMachine Good final

  -- The three ways in which a turn of the loop ends the run, and the way in which it goes on.
  pub turn_halted :
      (fuel : ℕ) (m : Machine B)
      → m.state.halted ≡ true
      → run_loop bus (suc fuel) start max_steps m ≡ some (m, ok (done start m))
  unfolding run_loop
  turn_halted fuel m stopped = if_true _ stopped

  pub turn_limited :
      (fuel : ℕ) (m : Machine B)
      → m.state.halted ≡ false
      → leb max_steps (done start m) ≡ true
      → run_loop bus (suc fuel) start max_steps m ≡ some (m, err step_limit_exceeded)
  unfolding run_loop
  turn_limited fuel m going full = if_false _ going ∙ if_true _ full

  pub turn_failed :
      (fuel : ℕ) (m : Machine B) (e : CpuError)
      → m.state.halted ≡ false
      → leb max_steps (done start m) ≡ false
      → (step bus m).result ≡ err e
      → run_loop bus (suc fuel) start max_steps m ≡ some ((step bus m).machine, err e)
  unfolding run_loop
  turn_failed fuel m e going room bad = if_false _ going ∙ if_false _ room ∙ (rw bad)

  pub turn_next :
      (fuel : ℕ) (m : Machine B) (o : StepOutcome)
      → m.state.halted ≡ false
      → leb max_steps (done start m) ≡ false
      → (step bus m).result ≡ ok o
      → run_loop bus (suc fuel) start max_steps m
        ≡ run_loop bus fuel start max_steps (step bus m).machine
  unfolding run_loop
  turn_next fuel m o going room good = if_false _ going ∙ if_false _ room ∙ (rw good)

  -- A turn that steps: the step fails, or the loop goes on from the machine after it.
  turn_steps :
      (fuel : ℕ) (m : Machine B)
      → IsMachine Good m
      → m.state.halted ≡ false
      → leb max_steps (done start m) ≡ false
      → done start (step bus m).machine ≤ max_steps
      → Returns (step bus m).machine (run_loop bus fuel start max_steps (step bus m).machine)
      → Returns m (run_loop bus (suc fuel) start max_steps m)
  turn_steps fuel m h going room within rest = elim (Result-cases (step bus m).result) [
    | inl (o, good) ↦
        let (final, result, e, is_result, valid) = rest in
        (
          final,
          result,
          turn_next fuel m o going room good ∙ e,
          IsRunResult-step bus start max_steps m final result o going good is_result,
          valid,
        )
    | inr (e, bad) ↦
        let (d, word, named, stopped) = step-err bus m e going bad in
        (
          (step bus m).machine,
          err e,
          turn_failed fuel m e going room bad,
          subst (λ x. IsRunResult bus start max_steps m (step bus m).machine (err x)) (sym named)
              (failed m d Steps.here
                (record { going = going; word = word; stepped = refl; stopped = stopped }) within),
          step-IsMachine bus Good laws m h,
        )
  ]

  run_loop-Returns :
      (fuel : ℕ) (m : Machine B)
      → IsMachine Good m
      → done start m ≤ max_steps
      → turns start max_steps m < fuel
      → Returns m (run_loop bus fuel start max_steps m)
  run_loop-Returns zero m h within enough = absurd (omega arith)
  run_loop-Returns (suc fuel) m h within enough = elim (Bool-cases m.state.halted) [
    | inl stopped ↦
        (m, ok (done start m), turn_halted fuel m stopped, finished Steps.here stopped within, h)
    | inr going ↦ elim (Bool-cases (leb max_steps (done start m))) [
      | inl full ↦ (
        m,
        err step_limit_exceeded,
        turn_limited fuel m going full,
        limited Steps.here going (ground arith),
        h,
      )
      | inr room ↦
          let s = h.state-IsState in
          let counted = step-Counted bus m going s.psr-lt in
          let (fewer, within') =
            Counted-turns start max_steps m (step bus m) hs hm s.count-IsU64 (ground arith)
              counted in
          turn_steps fuel m h going room within' (
            run_loop-Returns fuel (step bus m).machine (step-IsMachine bus Good laws m h) within'
              (omega arith))
    ]
  ]

-- From a machine whose registers, memory and bus are in range, `Cpu::run` returns within `2 *
-- max_steps + 2` turns of its loop, on any bus that delivers bytes: it has halted within the limit
-- by steps that all succeed, or has executed exactly `max_steps` instructions by such steps and
-- runs on, or such steps lead to a machine whose program counter is at a word that does not
-- decode, and the step from there returned the decode error and halted; and the machine is still
-- in range.
pub run_returns :
    {B : Type 0} (bus : IoBus B) (Good : B → Type 0) (laws : IsByteBus bus Good) (max_steps : ℕ)
    (m : Machine B)
    → IsU64 max_steps
    → IsMachine Good m
    → (final : Machine B) × (result : Result ℕ CpuError) × (run bus (2 * max_steps + 2) max_steps m
        ≡ some (final, result))
      × IsRunResult bus (count m) max_steps m final result
      × IsMachine Good final
unfolding run
run_returns bus Good laws max_steps m hm h =
    let s = h.state-IsState in
    run_loop-Returns bus Good laws (count m) max_steps s.count-IsU64 hm (2 * max_steps + 2) m h
      (omega arith) (ground arith)
