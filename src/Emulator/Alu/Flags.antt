-- ===== src/Emulator/Alu/Flags.antt =====
-- The status register as five independent flags: what `set_flag` and `update_nz` write and what
-- they leave. The register holds five bits, so every law is checked over its 32 values.
use ex3_rust.Prelude.{
  ℕ, ◌∙◌, ◌-◌, ◌^◌, ◌<◌, ◌≡◌, refl, Bool, true, false, ◌&&◌, ◌==◌, bool_eq, if◌then◌else◌, bit_and,
  bit_or, arith, all_below, all_below-at, leb,
}
use ex3_rust.Prelude.Bits.{bit_and-bit, bit_and-low_mask}
use ex3_rust.Emulator.State.{CpuState, psr_v, psr_c, psr_z, psr_n, psr_ien, psr_mask, test_flag}
use ex3_rust.Emulator.Alu.{set_flag, update_nz}

pub data Flag : Type 0 where
  v c z n ien : Flag

abbrev pub bit_of : Flag → ℕ
bit_of v = psr_v
bit_of c = psr_c
bit_of z = psr_z
bit_of n = psr_n
bit_of ien = psr_ien

abbrev pub same : Flag → Flag → Bool
same v v = true
same c c = true
same z z = true
same n n = true
same ien ien = true
same _ _ = false

abbrev pub flag : Flag → CpuState → Bool
flag f s = test_flag s.psr (bit_of f)

-- The register holds no bits but the five flags.
abbrev pub IsPsr : CpuState → Type 0
IsPsr s = s.psr < 32

abbrev written : Flag → Bool → ℕ → ℕ
written g b p =
    bit_and (if b then bit_or p (bit_of g) else bit_and p (2 ^ 32 - 1 - bit_of g)) psr_mask

every_flag : (Flag → Bool) → Bool
every_flag p = p v && p c && p z && p n && p ien

every_flag_sound : (p : Flag → Bool) (f : Flag) → every_flag p ≡ true → p f ≡ true
unfolding every_flag
every_flag_sound p v h = ground arith
every_flag_sound p _ h = ground arith

abbrev read_after_write : Bool → ℕ → Flag → Flag → Bool
read_after_write b p f g =
    bool_eq (test_flag (written g b p) (bit_of f)) (if same f g then b else test_flag p (bit_of f))

flag_table :
    (b : Bool)
    → all_below 32 (λ p. every_flag (λ f. every_flag (λ g. read_after_write b p f g))) ≡ true
unfolding all_below every_flag
flag_table true = refl
flag_table false = refl

bool_eq_sound : (a b : Bool) → bool_eq a b ≡ true → a ≡ b
bool_eq_sound a b h = ground arith

-- Reading any of the five flags after one was written gives the written value for that flag and
-- the old value for the others, when the status register has no other bits.
pub flag-set_flag :
    (f g : Flag) (b : Bool) (s : CpuState)
    → IsPsr s
    → flag f (set_flag (bit_of g) b s) ≡ (if same f g then b else flag f s)
unfolding set_flag
flag-set_flag f g b s h =
    let row = all_below-at s.psr 32 _ (flag_table b) h in
    let column = every_flag_sound _ f row in bool_eq_sound _ _ (every_flag_sound _ g column)

-- What `set_flag` writes has no other bits, whatever the register held.
pub set_flag-IsPsr : (mask : ℕ) (b : Bool) (s : CpuState) → IsPsr (set_flag mask b s)
unfolding set_flag
set_flag-IsPsr mask b s =
    omega (
      arith,
      bit_and-low_mask 5 (if b then bit_or s.psr mask else bit_and s.psr (2 ^ 32 - 1 - mask)),
    )

-- The sign bit of a word.
pub test_flag-sign : (w : ℕ) → w < 2 ^ 32 → test_flag w 0x8000_0000 ≡ leb (2 ^ 31) w
test_flag-sign w h = ground (arith, bit_and-bit 31 w)

pub update_nz-IsPsr : (w : ℕ) (s : CpuState) → IsPsr (update_nz w s)
unfolding update_nz
update_nz-IsPsr w s = set_flag-IsPsr psr_z (w == 0) (set_flag psr_n (test_flag w 0x8000_0000) s)

written_both :
    (f : Flag) (w : ℕ) (s : CpuState)
    → IsPsr s
    → flag f (update_nz w s)
      ≡ (if same f z then w == 0 else if same f n then test_flag w 0x8000_0000 else flag f s)
unfolding update_nz
written_both f w s hs =
    let s' = set_flag psr_n (test_flag w 0x8000_0000) s in
    rw (
      flag-set_flag f z (w == 0) s' (set_flag-IsPsr _ _ s),
      flag-set_flag f n (test_flag w 0x8000_0000) s hs,
    )

-- What the flags are after `update_nz` of a word: N is its sign, Z tells that it is 0, and the other
-- flags are left.
abbrev pub after_nz : ℕ → Flag → CpuState → Bool
after_nz w n s = leb (2 ^ 31) w
after_nz w z s = w == 0
after_nz w f s = flag f s

pub flag-update_nz :
    (f : Flag) (w : ℕ) (s : CpuState)
    → w < 2 ^ 32
    → IsPsr s
    → flag f (update_nz w s) ≡ after_nz w f s
flag-update_nz v w s hw hs = written_both v w s hs
flag-update_nz n w s hw hs = written_both n w s hs ∙ test_flag-sign w hw
flag-update_nz z w s hw hs = written_both z w s hs
flag-update_nz f w s hw hs = written_both f w s hs
