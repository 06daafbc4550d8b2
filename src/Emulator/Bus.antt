-- ===== src/Emulator/Bus.antt =====
-- The trait `emulator::IoBus` as an interface over the bus's state, with `NullIoBus`. A method that
-- takes `&mut self` returns the new state.
use ex3_rust.Prelude.{ℕ, Bool, true, false, Option, none, some, ◌≡◌, IsU8}

pub data IoKind : Type 0 where
  serial parallel : IoKind

pub record IoTickContext : Type 0 where
  pub interrupt_enabled : Bool
  pub interrupt_mask : ℕ

pub record IoBus (B : Type 0) : Type 0 where
  pub tick : IoTickContext → B → B
  pub interrupt_pending : B → Bool
  pub read_input : IoKind → B → Option ℕ × B
  pub write_output : IoKind → ℕ → B → B
  pub input_ready : IoKind → B → Bool
  pub output_ready : IoKind → B → Bool

-- What a bus whose input is of type `u8` promises: `Good` holds of its states, and a byte that is
-- read fits 8 bits.
pub record IsByteBus {B : Type 0} (bus : IoBus B) (Good : B → Type 0) : Type 0 where
  pub tick-Good : (c : IoTickContext) (b : B) → Good b → Good (bus.tick c b)
  pub read_input-Good : (k : IoKind) (b : B) → Good b → Good (bus.read_input k b).1
  pub write_output-Good :
      (k : IoKind) (v : ℕ) (b : B) → IsU8 v → Good b → Good (bus.write_output k v b)
  pub read_input-IsU8 :
      (k : IoKind) (b : B) (v : ℕ) → Good b → (bus.read_input k b).0 ≡ some v → IsU8 v

abbrev pub NullIoBus : Type 0
NullIoBus = Unit {0}

-- `tick` and `interrupt_pending` are the trait's defaults.
abbrev pub null_io_bus : IoBus NullIoBus
null_io_bus = record {
  tick = λ c b. b;
  interrupt_pending = λ b. false;
  read_input = λ k b. (none, b);
  write_output = λ k v b. b;
  input_ready = λ k b. false;
  output_ready = λ k b. true;
}

pub null_io_bus-IsByteBus : IsByteBus null_io_bus (λ b. Unit {0})
null_io_bus-IsByteBus = record {
  tick-Good = λ c b g. g;
  read_input-Good = λ k b g. g;
  write_output-Good = λ k v b h g. g;
  read_input-IsU8 = λ k b v g h. cc;
}
