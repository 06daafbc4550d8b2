-- ===== src/Emulator/LegacyBus/Delivery.antt =====
-- Input of the legacy bus arrives: while the program listens to a port, its oldest pending byte
-- becomes ready within 52 ticks, and no tick loses, repeats or reorders a byte.
use mathlib.Core.List.{append_assoc}
use ex3_rust.Prelude.{
  ℕ, zero, suc, ◌≤◌, ◌≡◌, refl, ap, ◌∙◌, Bool, true, not, ◌&&◌, ◌==◌, if◌then◌else◌, Option, none,
  some, List, [], ◌∷◌, ◌++◌, arith, bit_and, either_branch,
}
use ex3_rust.Emulator.Bus.{IoKind, serial, parallel, IoTickContext}
use ex3_rust.Emulator.DeterministicBus
use ex3_rust.Emulator.DeterministicBus.{DeterministicIoBus, is_empty}
use ex3_rust.Emulator.LegacyBus.{
  LegacyIoBus, next_rng, delay_of, Line, advance_input, serial_waits, advance_serial,
  parallel_waits, advance_parallel, tick,
}

-- The bytes of a port that have not been read, oldest first.
abbrev pub unread : IoKind → LegacyIoBus → List ℕ
unread serial b = b.inner.serial_input ++ b.serial_pending
unread parallel b = b.inner.parallel_input ++ b.parallel_pending

advance_input-keeps :
    (delay : Option ℕ) (pending ready : List ℕ) (n : ℕ)
    → let line = advance_input delay pending ready n in
      line.ready ++ line.pending ≡ ready ++ pending
unfolding advance_input
advance_input-keeps none pending ready n = refl
advance_input-keeps (some zero) [] ready n = refl
advance_input-keeps (some zero) (v ∷ pending) ready n = append_assoc ready (v ∷ []) pending
advance_input-keeps (some (suc d)) pending ready n = refl

advance_serial-unread : (b : LegacyIoBus) (k : IoKind) → unread k (advance_serial b) ≡ unread k b
unfolding advance_serial
advance_serial-unread b serial = advance_input-keeps b.serial_delay b.serial_pending _ _
advance_serial-unread b parallel = refl

advance_parallel-unread :
    (b : LegacyIoBus) (k : IoKind) → unread k (advance_parallel b) ≡ unread k b
unfolding advance_parallel
advance_parallel-unread b serial = refl
advance_parallel-unread b parallel = advance_input-keeps b.parallel_delay b.parallel_pending _ _

inner_tick-unread :
    (c : IoTickContext) (b : LegacyIoBus) (k : IoKind)
    → unread k (record b { inner = DeterministicBus.tick c b.inner }) ≡ unread k b
unfolding DeterministicBus.tick
inner_tick-unread c b serial = refl
inner_tick-unread c b parallel = refl

-- A tick of the legacy bus leaves the unread bytes of each port, the ready ones followed by the
-- pending ones, as they are: none is lost, repeated or overtaken.
pub tick-unread :
    (c : IoTickContext) (b : LegacyIoBus) (k : IoKind) → unread k (tick c b) ≡ unread k b
unfolding tick
tick-unread c b k =
    let b₁ = record b { inner = DeterministicBus.tick c b.inner } in
    let b₂ = if serial_waits c b₁ then advance_serial b₁ else b₁ in
    let first : unread k b₂ ≡ unread k b₁ =
      either_branch (λ x. unread k x ≡ unread k b₁) (serial_waits c b₁) (advance_serial-unread b₁ k)
        refl in
    either_branch (λ x. unread k x ≡ unread k b) (parallel_waits c b₂)
      (advance_parallel-unread b₂ k ∙ first ∙ inner_tick-unread c b k)
      (first ∙ inner_tick-unread c b k)

-- The line of a port.
abbrev pub line : IoKind → LegacyIoBus → Line
line serial b = record {
  delay = b.serial_delay;
  pending = b.serial_pending;
  ready = b.inner.serial_input;
}
line parallel b = record {
  delay = b.parallel_delay;
  pending = b.parallel_pending;
  ready = b.inner.parallel_input;
}

abbrev pub input_bit : IoKind → ℕ
input_bit serial = 8
input_bit parallel = 2

-- The program listens to a port: interrupts are on and the mask lets the port's input through.
abbrev pub listens : IoKind → IoTickContext → Bool
listens k c = c.interrupt_enabled && not (bit_and c.interrupt_mask (input_bit k) == 0)

-- A port waits: a byte is pending, with others behind it, and none is ready.
pub record IsWaiting (k : IoKind) (b : LegacyIoBus) (v : ℕ) (rest : List ℕ) : Type 0 where
  pub pending : (line k b).pending ≡ v ∷ rest
  pub nothing_ready : (line k b).ready ≡ []

delay_of-le : (rng : ℕ) → delay_of rng ≤ 50
unfolding delay_of
delay_of-le rng = omega arith

-- A tick advances the line of a port that waits and is listened to, with some new delay.
tick-line :
    (k : IoKind) (c : IoTickContext) (b : LegacyIoBus) (v : ℕ) (rest : List ℕ)
    → listens k c ≡ true
    → IsWaiting k b v rest
    → (seed : ℕ) × (line k (tick c b)
        ≡ advance_input (line k b).delay (v ∷ rest) [] (delay_of (next_rng seed)))
unfolding tick DeterministicBus.tick serial_waits parallel_waits advance_serial advance_parallel
tick-line serial c b v rest on w =
    let p = w.pending in let r = w.nothing_ready in (b.rng, ground arith)
tick-line parallel c b v rest on w =
    let b₁ = record b { inner = DeterministicBus.tick c b.inner } in
    let b₂ = if serial_waits c b₁ then advance_serial b₁ else b₁ in
    let p = w.pending in let r = w.nothing_ready in (b₂.rng, ground arith)

abbrev pub ticks : ℕ → IoTickContext → LegacyIoBus → LegacyIoBus
ticks zero c b = b
ticks (suc n) c b = ticks n c (tick c b)

module _ (k : IoKind) (c : IoTickContext) (v : ℕ) (rest : List ℕ) (on : listens k c ≡ true) where
  abbrev delivered : Line
  delivered = record { delay = none; pending = rest; ready = v ∷ [] }

  -- A delay of `d` lasts `d + 1` ticks.
  count_down :
      (d : ℕ) (b : LegacyIoBus)
      → (line k b).delay ≡ some d
      → IsWaiting k b v rest
      → line k (ticks (suc d) c b) ≡ delivered
  unfolding advance_input
  count_down zero b e w = let (seed, next) = tick-line k c b v rest on w in ground arith
  count_down (suc d) b e w =
      let (seed, next) = tick-line k c b v rest on w in
      let next' : line k (tick c b) ≡ record { delay = some d; pending = v ∷ rest; ready = [] } =
        ground arith in
      count_down d (tick c b) (ap (λ (l : Line). l.delay) next') (record {
        pending = ap (λ (l : Line). l.pending) next';
        nothing_ready = ap (λ (l : Line). l.ready) next';
      })

  start_delay :
      (b : LegacyIoBus)
      → (line k b).delay ≡ none
      → IsWaiting k b v rest
      → (d : ℕ) × (d ≤ 50)
        × (line k (tick c b) ≡ record { delay = some d; pending = v ∷ rest; ready = [] })
  unfolding advance_input
  start_delay b e w =
      let (seed, next) = tick-line k c b v rest on w in
      (delay_of (next_rng seed), delay_of-le (next_rng seed), ground arith)

  -- What the delay of a port may be: none, or at most 50.
  abbrev pub ShortDelay : Option ℕ → Type 0
  ShortDelay none = Unit
  ShortDelay (some d) = d ≤ 50

  -- While the program listens to a port of the legacy bus that has pending bytes, none ready, and
  -- a delay that is unset or at most 50, its oldest pending byte and no other becomes ready within
  -- 52 ticks.
  pub delivered_within :
      (b : LegacyIoBus) (delay : Option ℕ)
      → (line k b).delay ≡ delay
      → ShortDelay delay
      → IsWaiting k b v rest
      → (n : ℕ) × (n ≤ 52)
        × (line k (ticks n c b) ≡ record { delay = none; pending = rest; ready = v ∷ [] })
  delivered_within b none e short w =
      let (d, le, next) = start_delay b e w in
      (
        suc (suc d),
        omega arith,
        count_down d (tick c b) (ap (λ (l : Line). l.delay) next) (record {
          pending = ap (λ (l : Line). l.pending) next;
          nothing_ready = ap (λ (l : Line). l.ready) next;
        }),
      )
  delivered_within b (some d) e short w = (suc d, omega arith, count_down d b e w)
