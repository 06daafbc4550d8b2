-- ===== src/Emulator/DeterministicBus/Queues.antt =====
-- The input queues are first in, first out, the outputs are logs, and the bus keeps bytes.
use mathlib.Core.List.{append-nil, append_assoc}
use ex3_rust.Prelude.{
  ℕ, sym, ap, ◌∙◌, map, true, false, Option, none, some, List, [], ◌∷◌, ◌++◌, ◌≡◌, refl, IsU8,
  arith, All,
}
use ex3_rust.Emulator.Bus.{IoKind, serial, parallel, IoTickContext, IsByteBus}
use ex3_rust.Emulator.DeterministicBus.{
  DeterministicIoBus, push_input, pop_front, output, tick, read_input, write_output, input_ready,
  output_ready, deterministic_io_bus,
}

-- The bytes that wait on a port, oldest first, and the other port.
abbrev pub queue : IoKind → DeterministicIoBus → List ℕ
queue serial b = b.serial_input
queue parallel b = b.parallel_input

abbrev pub other : IoKind → IoKind
other serial = parallel
other parallel = serial

-- A pushed byte goes to the end of its own queue.
pub queue-push_input :
    (k : IoKind) (v : ℕ) (b : DeterministicIoBus)
    → (queue k (push_input k v b) ≡ queue k b ++ v ∷ [])
      × (queue (other k) (push_input k v b) ≡ queue (other k) b)
unfolding push_input
queue-push_input serial v b = (refl, refl)
queue-push_input parallel v b = (refl, refl)

-- Reading a port of the deterministic bus whose queue is not empty: the port is ready, its oldest
-- byte is returned and removed, and the other queue and both logs stay.
pub read_input-cons :
    (k : IoKind) (b : DeterministicIoBus) (v : ℕ) (q : List ℕ)
    → queue k b ≡ v ∷ q
    → let (got, b') = read_input k b in
      (input_ready k b ≡ true)
      × (got ≡ some v)
      × (queue k b' ≡ q)
      × (queue (other k) b' ≡ queue (other k) b)
      × ((j : IoKind) → output j b' ≡ output j b)
unfolding read_input input_ready output
read_input-cons serial b v q e =
    (ground arith, ground arith, ground arith, ground arith, λ j. same_output j)
  where
    same_output : (j : IoKind) → output j (read_input serial b).1 ≡ output j b
    same_output serial = refl
    same_output parallel = refl
read_input-cons parallel b v q e =
    (ground arith, ground arith, ground arith, ground arith, λ j. same_output j)
  where
    same_output : (j : IoKind) → output j (read_input parallel b).1 ≡ output j b
    same_output serial = refl
    same_output parallel = refl

-- Reading an empty port: it is not ready, nothing is returned and the bus stays as it is.
pub read_input-nil :
    (k : IoKind) (b : DeterministicIoBus)
    → queue k b ≡ []
    → (input_ready k b ≡ false) × (read_input k b ≡ (none, b))
unfolding read_input input_ready
read_input-nil serial b e = ground arith
read_input-nil parallel b e = ground arith

-- Input that was pushed is read back in the order of the pushes.
unfoldable pub push_all : IoKind → List ℕ → DeterministicIoBus → DeterministicIoBus
push_all k [] b = b
push_all k (v ∷ vs) b = push_all k vs (push_input k v b)

unfoldable pub read_all : IoKind → List ℕ → DeterministicIoBus → List (Option ℕ)
read_all k [] b = []
read_all k (v ∷ vs) b = let (got, b') = read_input k b in got ∷ read_all k vs b'

queue-push_all :
    (k : IoKind) (vs : List ℕ) (b : DeterministicIoBus)
    → queue k (push_all k vs b) ≡ queue k b ++ vs
unfolding push_all
queue-push_all k [] b = sym (append-nil _)
queue-push_all k (v ∷ vs) b =
    queue-push_all k vs (push_input k v b)
    ∙ ap (λ q. q ++ vs) (queue-push_input k v b).0
    ∙ append_assoc (queue k b) (v ∷ []) vs

reads_queue :
    (k : IoKind) (vs : List ℕ) (b : DeterministicIoBus)
    → queue k b ≡ vs
    → read_all k vs b ≡ map some vs
unfolding read_all
reads_queue k [] b e = refl
reads_queue k (v ∷ vs) b e =
    let (_, got, left, _, _) = read_input-cons k b v vs e in
    cc (got, reads_queue k vs (read_input k b).1 left)

-- Bytes pushed to an empty port of the deterministic bus are read back by as many reads, each once
-- and in the order of the pushes.
pub read_all-push_all :
    (k : IoKind) (vs : List ℕ) (b : DeterministicIoBus)
    → queue k b ≡ []
    → read_all k vs (push_all k vs b) ≡ map some vs
read_all-push_all k vs b e =
    reads_queue k vs (push_all k vs b) (queue-push_all k vs b ∙ ap (λ q. q ++ vs) e)

-- A write is logged at the end of its own port's output, leaves the other port's log and
-- readiness, and makes the port not ready, until the next tick makes both ports ready.
pub write_output_lem :
    (k : IoKind) (v : ℕ) (c : IoTickContext) (b : DeterministicIoBus)
    → let b' = write_output k v b in
      (output k b' ≡ output k b ++ v ∷ [])
      × (output (other k) b' ≡ output (other k) b)
      × (output_ready k b' ≡ false)
      × (output_ready (other k) b' ≡ output_ready (other k) b)
      × (output_ready k (tick c b') ≡ true)
      × (output_ready (other k) (tick c b') ≡ true)
unfolding write_output output output_ready tick
write_output_lem serial v c b = (refl, refl, refl, refl, refl, refl)
write_output_lem parallel v c b = (refl, refl, refl, refl, refl, refl)

-- The bus's queues hold bytes.
abbrev pub HoldsBytes : DeterministicIoBus → Type 0
HoldsBytes b = All IsU8 b.serial_input × All IsU8 b.parallel_input

pop_front-All : (q : List ℕ) → All IsU8 q → All IsU8 (pop_front q).1
pop_front-All [] h = h
pop_front-All (v ∷ q) h = h.1

pop_front-IsU8 : (q : List ℕ) (v : ℕ) → All IsU8 q → (pop_front q).0 ≡ some v → IsU8 v
pop_front-IsU8 [] v h e = cc
pop_front-IsU8 (w ∷ q) v h e = ground arith

read_input-HoldsBytes :
    (k : IoKind) (b : DeterministicIoBus) → HoldsBytes b → HoldsBytes (read_input k b).1
unfolding read_input
read_input-HoldsBytes serial b g = (pop_front-All b.serial_input g.0, g.1)
read_input-HoldsBytes parallel b g = (g.0, pop_front-All b.parallel_input g.1)

read_input-IsU8 :
    (k : IoKind) (b : DeterministicIoBus) (v : ℕ)
    → HoldsBytes b
    → (read_input k b).0 ≡ some v
    → IsU8 v
unfolding read_input
read_input-IsU8 serial b v g e = pop_front-IsU8 b.serial_input v g.0 e
read_input-IsU8 parallel b v g e = pop_front-IsU8 b.parallel_input v g.1 e

write_output-HoldsBytes :
    (k : IoKind) (v : ℕ) (b : DeterministicIoBus) → HoldsBytes b → HoldsBytes (write_output k v b)
unfolding write_output
write_output-HoldsBytes serial v b g = g
write_output-HoldsBytes parallel v b g = g

pub deterministic_io_bus-IsByteBus : IsByteBus deterministic_io_bus HoldsBytes
unfolding tick
deterministic_io_bus-IsByteBus = record {
  tick-Good = λ c b g. g;
  read_input-Good = read_input-HoldsBytes;
  write_output-Good = λ k v b h g. write_output-HoldsBytes k v b g;
  read_input-IsU8 = read_input-IsU8;
}
