-- ===== src/Isa/Legality.antt =====
-- `decode` accepts a word only if it is the encoding of what it returns: the encoding is unique,
-- and every other word is an error.
use ex3_rust.Isa.RoundTrip.{decode_of_fields, decode-encode}
use ex3_rust.Prelude.{
  ℕ, find-passes, Result-cases, sym, subst, zero, suc, ◌≡◌, ok, err, arith, refl, Result, ap, ◌∙◌,
  ◌^◌, ◌<◌, ◌/◌, bit_and, ◌>>>◌, u8, u16, find, Bool, true, false, some, none, Option, ok_or, ◌>>=◌,
  inl, inr, not, if◌then◌else◌, ◌==◌, ◌≢◌, ◌↔◌,
}
use ex3_rust.Prelude.Bits.{bit_and-low_mask, bit_and-high_mask}
use ex3_rust.Isa.Ops.{
  Instruction, memory_ops, immediate_ops, sp_relative_ops, branch_ops, system_ops,
}
use ex3_rust.Isa.Codec.{
  memory_opcode, immediate_opcode, sp_opcode, branch_opcode, system_opcode, encode, decode,
  decode_memory, decode_immediate, decode_sp_relative, decode_branch, decode_system, DecodeError,
}
use ex3_rust.Isa.Layout.{
  word_of, word_of_parts, low_bits_of_word, OperandFits, layout, encode-layout,
}

abbrev Decoded : Type 0
Decoded = Result Instruction DecodeError

guard-eq-ok :
    (b : Bool) (e : DecodeError) {r : Decoded} {i : Instruction}
    → (if b then err e else r) ≡ ok i
    → (b ≡ false) × (r ≡ ok i)
guard-eq-ok true e h = cc
guard-eq-ok false e h = (refl, h)

-- An arm that searches for the operation returns what it makes of an operation that was found.
found-eq-ok {ℓ} :
    {A : Type ℓ} (o : Option A) (e : DecodeError) (make : A → Instruction) {i : Instruction}
    → (ok_or o e >>= λ op. ok (make op)) ≡ ok i
    → (op : A) × (o ≡ some op) × (i ≡ make op)
found-eq-ok none e make h = cc
found-eq-ok (some op) e make h = (op, refl, cc)

-- A word that an arm accepts is laid out as the instruction that it returns.
abbrev IsLayoutOf : ℕ → Instruction → Type 0
IsLayoutOf w i = OperandFits i × (layout i ≡ w)

module _ (o m x : ℕ) (ho : o < 32) (hm : m < 256) (hx : x < 2 ^ 16) (i : Instruction) where
  memory-IsLayoutOf : decode_memory (word_of 0 o m x) o m ≡ ok i → IsLayoutOf (word_of 0 o m x) i
  unfolding decode_memory
  memory-IsLayoutOf h =
      let (direct, found) = guard-eq-ok (not (bit_and m 254 == 0)) _ h in
      let (op, hit, e) = found-eq-ok (find (λ y. memory_opcode y == o) memory_ops) _ _ found in
      let code = find-passes (λ y. memory_opcode y == o) memory_ops op hit in
      let small : m < 2 = ground (arith, bit_and-high_mask 1 m 127, bit_and-low_mask 7 (m / 2)) in
      rw e (omega arith, ground arith)

  immediate-IsLayoutOf :
      decode_immediate (word_of 1 o m x) o m ≡ ok i → IsLayoutOf (word_of 1 o m x) i
  unfolding decode_immediate
  immediate-IsLayoutOf h =
      let (unmodified, found) = guard-eq-ok (not (m == 0)) _ h in
      let (op, hit, e) =
        found-eq-ok (find (λ y. immediate_opcode y == o) immediate_ops) _ _ found in
      let code = find-passes (λ y. immediate_opcode y == o) immediate_ops op hit in
      rw e (omega arith, ground arith)

  sp_relative-IsLayoutOf :
      decode_sp_relative (word_of 2 o m x) o m ≡ ok i → IsLayoutOf (word_of 2 o m x) i
  unfolding decode_sp_relative
  sp_relative-IsLayoutOf h =
      let (unmodified, found) = guard-eq-ok (not (m == 0)) _ h in
      let (op, hit, e) = found-eq-ok (find (λ y. sp_opcode y == o) sp_relative_ops) _ _ found in
      let code = find-passes (λ y. sp_opcode y == o) sp_relative_ops op hit in
      rw e (omega arith, ground arith)

  branch-IsLayoutOf : decode_branch (word_of 3 o m x) o m ≡ ok i → IsLayoutOf (word_of 3 o m x) i
  unfolding decode_branch
  branch-IsLayoutOf h =
      let (unmodified, found) = guard-eq-ok (not (m == 0)) _ h in
      let (op, hit, e) = found-eq-ok (find (λ y. branch_opcode y == o) branch_ops) _ _ found in
      let code = find-passes (λ y. branch_opcode y == o) branch_ops op hit in
      rw e (omega arith, ground arith)

  system-IsLayoutOf : decode_system (word_of 4 o m x) o ≡ ok i → IsLayoutOf (word_of 4 o m x) i
  unfolding decode_system
  system-IsLayoutOf h =
      let (bare, found) = guard-eq-ok (not (bit_and (word_of 4 o m x) 0x00ff_ffff == 0)) _ h in
      let (op, hit, e) = found-eq-ok (find (λ y. system_opcode y == o) system_ops) _ _ found in
      let code = find-passes (λ y. system_opcode y == o) system_ops op hit in
      rw e (tt, ground (arith, low_bits_of_word 4 o m x ho hm hx))

  fields-IsLayoutOf : (f : ℕ) → decode (word_of f o m x) ≡ ok i → IsLayoutOf (word_of f o m x) i
  fields-IsLayoutOf zero h = memory-IsLayoutOf (rw (decode_of_fields 0 o m x ho hm hx) at h)
  fields-IsLayoutOf (suc zero) h =
      immediate-IsLayoutOf (rw (decode_of_fields 1 o m x ho hm hx) at h)
  fields-IsLayoutOf (suc (suc zero)) h =
      sp_relative-IsLayoutOf (rw (decode_of_fields 2 o m x ho hm hx) at h)
  fields-IsLayoutOf (suc (suc (suc zero))) h =
      branch-IsLayoutOf (rw (decode_of_fields 3 o m x ho hm hx) at h)
  fields-IsLayoutOf (suc (suc (suc (suc zero)))) h =
      system-IsLayoutOf (rw (decode_of_fields 4 o m x ho hm hx) at h)
  fields-IsLayoutOf (suc (suc (suc (suc (suc f))))) h =
      let e = decode_of_fields (suc (suc (suc (suc (suc f))))) o m x ho hm hx in ground (arith, e)

decode-IsLayoutOf : (w : ℕ) (i : Instruction) → decode w ≡ ok i → IsLayoutOf w i
decode-IsLayoutOf w i h =
    let o = bit_and (w >>> 24) 0x1f in
    let m = u8 (bit_and (w >>> 16) 0xff) in
    let e : w ≡ word_of (w >>> 29) o m (u16 w) = word_of_parts w in
    subst (λ v. IsLayoutOf v i) (sym e)
      (fields-IsLayoutOf o m (u16 w) (omega (arith, bit_and-low_mask 5 (w >>> 24))) (omega arith)
        (omega arith) i (w >>> 29) (subst (λ v. decode v ≡ ok i) e h))

-- A 32-bit word decodes to an instruction exactly when that instruction's operand is of 16 bits
-- and the word is its encoding.
pub decode-eq-ok_iff :
    (w : ℕ) (i : Instruction) → (decode w ≡ ok i) ↔ (OperandFits i × (encode i ≡ w))
decode-eq-ok_iff w i = (
  λ h. let (fits, e) = decode-IsLayoutOf w i h in (fits, encode-layout i fits ∙ e),
  λ (fits, e). subst (λ v. decode v ≡ ok i) e (decode-encode i fits),
)

-- An arm that refuses a word names the word.
abbrev Refuses : ℕ → Decoded → Type 0
Refuses w r = (e : DecodeError) → r ≡ err e → e ≡ record { word = w }

module _ (w o m : ℕ) where
  decode_memory-Refuses : Refuses w (decode_memory w o m)
  unfolding decode_memory
  decode_memory-Refuses e h = ground arith

  decode_immediate-Refuses : Refuses w (decode_immediate w o m)
  unfolding decode_immediate
  decode_immediate-Refuses e h = ground arith

  decode_sp_relative-Refuses : Refuses w (decode_sp_relative w o m)
  unfolding decode_sp_relative
  decode_sp_relative-Refuses e h = ground arith

  decode_branch-Refuses : Refuses w (decode_branch w o m)
  unfolding decode_branch
  decode_branch-Refuses e h = ground arith

  decode_system-Refuses : Refuses w (decode_system w o)
  unfolding decode_system
  decode_system-Refuses e h = ground arith

decode-Refuses : (w : ℕ) → Refuses w (decode w)
unfolding decode
decode-Refuses w e h =
    let o = bit_and (w >>> 24) 0x1f in
    let m = u8 (bit_and (w >>> 16) 0xff) in
    ground (
      arith,
      decode_memory-Refuses w o m e,
      decode_immediate-Refuses w o m e,
      decode_sp_relative-Refuses w o m e,
      decode_branch-Refuses w o m e,
      decode_system-Refuses w o m e,
    )

-- A 32-bit word is refused by `decode`, with an error that names the word, exactly when no
-- instruction with a 16-bit operand is encoded by it.
pub decode-eq-err_iff :
    (w : ℕ)
    → (decode w ≡ err (record { word = w })) ↔ ((i : Instruction) → OperandFits i → encode i ≢ w)
decode-eq-err_iff w = (
  λ h i fits e. let accepted = (decode-eq-ok_iff w i).1 (fits, e) in cc,
  λ unused. elim (Result-cases (decode w)) [
    | inl (i, h) ↦ let legal = (decode-eq-ok_iff w i).0 h in absurd (unused i legal.0 legal.1)
    | inr (e, h) ↦ h ∙ ap err (decode-Refuses w e h)
  ],
)
