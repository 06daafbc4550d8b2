-- ===== src/Emulator/LegacyBus.antt =====
-- `emulator::LegacyIoBus`: input waits in a pending queue and moves to the ready queue after a
-- pseudo-random delay, while the program listens for it. The `interrupt_pending` of the bus is the
-- trait's default.
pub mod Delivery
use ex3_rust.Prelude.{
  ℕ, zero, suc, ◌+◌, ◌*◌, ◌%◌, ◌^◌, Bool, true, false, not, ◌&&◌, ◌==◌, if◌then◌else◌, Option, none,
  some, List, [], ◌∷◌, ◌++◌, u8, bit_and, ◌>>>◌,
}
use ex3_rust.Emulator.Bus.{IoBus, IoKind, serial, parallel, IoTickContext}
use ex3_rust.Emulator.DeterministicBus
use ex3_rust.Emulator.DeterministicBus.{DeterministicIoBus, default_bus, is_empty}

pub record LegacyIoBus : Type 0 where
  pub inner : DeterministicIoBus
  pub rng : ℕ
  pub serial_pending : List ℕ
  pub parallel_pending : List ℕ
  pub serial_delay : Option ℕ
  pub parallel_delay : Option ℕ

unfoldable pub new : ℕ → LegacyIoBus
new seed = record {
  inner = default_bus;
  rng = seed;
  serial_pending = [];
  parallel_pending = [];
  serial_delay = none;
  parallel_delay = none;
}

unfoldable pub push_input : IoKind → ℕ → LegacyIoBus → LegacyIoBus
push_input serial v b = record b { serial_pending = b.serial_pending ++ v ∷ [] }
push_input parallel v b = record b { parallel_pending = b.parallel_pending ++ v ∷ [] }

-- The generator's next state, and the delay that `delay` takes from it.
unfoldable pub next_rng : ℕ → ℕ
next_rng rng = (rng * 6364136223846793005 + 1) % 2 ^ 64

unfoldable pub delay_of : ℕ → ℕ
delay_of rng = u8 ((rng >>> 32) % 50 + 1)

-- One input line: its delay, its pending bytes and its ready bytes.
pub record Line : Type 0 where
  pub delay : Option ℕ
  pub pending : List ℕ
  pub ready : List ℕ

unfoldable pub deliver : List ℕ → List ℕ → Line
deliver [] ready = record { delay = none; pending = []; ready = ready }
deliver (v ∷ pending) ready = record { delay = none; pending = pending; ready = ready ++ v ∷ [] }

unfoldable pub advance_input : Option ℕ → List ℕ → List ℕ → ℕ → Line
unfolding deliver
advance_input none pending ready new_delay = record {
  delay = some new_delay;
  pending = pending;
  ready = ready;
}
advance_input (some zero) pending ready new_delay = deliver pending ready
advance_input (some (suc n)) pending ready new_delay = record {
  delay = some n;
  pending = pending;
  ready = ready;
}

-- The two `if` blocks of `tick`, one for each line: whether the program waits for input that has
-- not arrived, and what the block does.
unfoldable pub serial_waits : IoTickContext → LegacyIoBus → Bool
serial_waits c b =
    c.interrupt_enabled
    && not (bit_and c.interrupt_mask 8 == 0)
    && not (is_empty b.serial_pending)
    && is_empty b.inner.serial_input

unfoldable pub advance_serial : LegacyIoBus → LegacyIoBus
unfolding next_rng delay_of
advance_serial b =
    let rng = next_rng b.rng in
    let line = advance_input b.serial_delay b.serial_pending b.inner.serial_input (delay_of rng) in
    record b {
      rng = rng;
      serial_delay = line.delay;
      serial_pending = line.pending;
      inner = record (b.inner) { serial_input = line.ready };
    }

unfoldable pub parallel_waits : IoTickContext → LegacyIoBus → Bool
parallel_waits c b =
    c.interrupt_enabled
    && not (bit_and c.interrupt_mask 2 == 0)
    && not (is_empty b.parallel_pending)
    && is_empty b.inner.parallel_input

unfoldable pub advance_parallel : LegacyIoBus → LegacyIoBus
unfolding next_rng delay_of
advance_parallel b =
    let rng = next_rng b.rng in
    let line =
      advance_input b.parallel_delay b.parallel_pending b.inner.parallel_input (delay_of rng) in
    record b {
      rng = rng;
      parallel_delay = line.delay;
      parallel_pending = line.pending;
      inner = record (b.inner) { parallel_input = line.ready };
    }

unfoldable pub tick : IoTickContext → LegacyIoBus → LegacyIoBus
tick c b =
    let b₁ = record b { inner = DeterministicBus.tick c b.inner } in
    let b₂ = if serial_waits c b₁ then advance_serial b₁ else b₁ in
    if parallel_waits c b₂ then advance_parallel b₂ else b₂

unfoldable pub read_input : IoKind → LegacyIoBus → Option ℕ × LegacyIoBus
read_input k b =
    let (v, inner) = DeterministicBus.read_input k b.inner in (v, record b { inner = inner })

unfoldable pub write_output : IoKind → ℕ → LegacyIoBus → LegacyIoBus
write_output k v b = record b { inner = DeterministicBus.write_output k v b.inner }

abbrev pub legacy_io_bus : IoBus LegacyIoBus
legacy_io_bus = record {
  tick = tick;
  interrupt_pending = λ b. false;
  read_input = read_input;
  write_output = write_output;
  input_ready = λ k b. DeterministicBus.input_ready k b.inner;
  output_ready = λ k b. DeterministicBus.output_ready k b.inner;
}
