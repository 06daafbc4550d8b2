-- ===== src/Assembler/Resolved/Instructions.antt =====
-- What `resolve_instruction` returns: the number of machine instructions and their operands.
use Prim.Native.String.{String}
use text.Mathlib.Text.{◌==◌ as str_eq}
use ex3_rust.Prelude.{
  ℕ, ◌≡◌, refl, arith, Bool, true, false, if◌then◌else◌, either_branch, Option, none, some, ok, err,
  List, [], ◌∷◌, length, All, IsU16, ℤ, pos, negsuc, leb_ℤ, ◌&&◌, OnOk, OnOk-ok_or, OnOk-map_err,
  OnOk-map_ok, OnOk-and_then, OnOk-elim, passes, fails, map_ok, map_err,
}
use ex3_rust.Isa.Address.{Address, i16_as_u16}
use ex3_rust.Isa.{
  ImmediateOp, SpRelativeOp, BranchOp, SystemOp, Instruction, memory, immediate, sp_relative,
  branch,
}
use ex3_rust.Isa.Mnemonics.{
  parse_memory_op, parse_immediate_op, parse_sp_relative_op, parse_branch_op, parse_system_op,
}
use ex3_rust.Isa.Layout.{OperandFits}
use ex3_rust.Assembler.{
  Symbols, get, symbol_or_address, parse_address_number, in_address_range, parse_i64,
  parse_signed16, parse_raw16, checked_immediate, looks_number, immediate_value, resolve_immediate,
  error_at, undefined_symbol, unknown_mnemonic, signed16_fits, raw16_fits, is_some,
  strip_hex_prefix, resolve_pseudo, push_words, pop_words, resolve_system, resolve_branch,
  resolve_sp_relative, resolve_own_immediate, resolve_memory, resolve_shared_immediate,
  resolve_plain, resolve_operand, resolve_operands, resolve_instruction, own_immediate,
  names_memory, is_pseudo, is_partial_load, is_bitwise, trim_at,
}

i16_as_u16-IsU16 : (v : ℤ) → IsU16 (i16_as_u16 v)
i16_as_u16-IsU16 (pos n) = omega arith
i16_as_u16-IsU16 (negsuc n) = omega arith

abbrev pub HasAddresses : Symbols → Type 0
HasAddresses symbols = All (λ (entry : String × Address). IsU16 entry.1) symbols

pub get-IsU16 :
    (name : String) (symbols : Symbols) (a : ℕ)
    → HasAddresses symbols
    → get name symbols ≡ some a
    → IsU16 a
unfolding get
get-IsU16 name [] a h e = cc
get-IsU16 name ((key, address) ∷ symbols) a (h, hs) e = ground (arith, get-IsU16 name symbols a hs)

checked_immediate-IsU16 :
    (line : ℕ) (fits : Bool) (v : ℤ) → OnOk IsU16 (checked_immediate line fits v)
checked_immediate-IsU16 line true v = passes (i16_as_u16-IsU16 v)
checked_immediate-IsU16 line false v = fails

in_address_range-IsU16 : (v : ℤ) → OnOk IsU16 (in_address_range v)
in_address_range-IsU16 v =
    either_branch (OnOk IsU16) (leb_ℤ (pos 0) v && leb_ℤ v (pos 0xffff))
      (passes (i16_as_u16-IsU16 v)) fails

parse_signed16-IsU16 : (s : String) (line : ℕ) → OnOk IsU16 (parse_signed16 s line)
unfolding parse_signed16
parse_signed16-IsU16 s line =
    let fits = signed16_fits (is_some (strip_hex_prefix s)) in
    OnOk-and_then (map_err (error_at line) (parse_i64 s)) (λ v. checked_immediate line (fits v) v)
      (λ v e. checked_immediate-IsU16 line (fits v) v)

parse_raw16-IsU16 : (s : String) (line : ℕ) → OnOk IsU16 (parse_raw16 s line)
unfolding parse_raw16
parse_raw16-IsU16 s line =
    OnOk-and_then (map_err (error_at line) (parse_i64 s))
      (λ v. checked_immediate line (raw16_fits v) v)
      (λ v e. checked_immediate-IsU16 line (raw16_fits v) v)

pub symbol_or_address-IsU16 :
    (symbols : Symbols) (name : String) (line : ℕ)
    → HasAddresses symbols
    → OnOk IsU16 (symbol_or_address symbols name line)
unfolding symbol_or_address parse_address_number
symbol_or_address-IsU16 symbols name line h =
    either_branch (OnOk IsU16) (looks_number name)
      (OnOk-map_err (error_at line)
        (OnOk-and_then (parse_i64 name) in_address_range (λ v e. in_address_range-IsU16 v)))
      (OnOk-ok_or (get name symbols) (error_at line (undefined_symbol name))
        (λ a e. get-IsU16 name symbols a h e))

-- `n` instructions whose operands are of 16 bits.
abbrev pub Fit : ℕ → List Instruction → Type 0
Fit n is = (length is ≡ n) × All OperandFits is

immediate_value-IsU16 :
    (raw : Bool) (operand : String) (line : ℕ) → OnOk IsU16 (immediate_value raw operand line)
immediate_value-IsU16 true operand line = parse_raw16-IsU16 operand line
immediate_value-IsU16 false operand line = parse_signed16-IsU16 operand line

module _ (line : ℕ) where
  resolve_immediate-Fit :
      (raw : Bool) (op : ImmediateOp) (operand : String)
      → OnOk (Fit 1) (resolve_immediate raw op operand line)
  resolve_immediate-Fit raw op operand =
      OnOk-map_ok (λ v. immediate op v ∷ []) (immediate_value-IsU16 raw operand line)
        (λ v h. (refl, (h, tt)))

  resolve_own_immediate-Fit :
      (op : ImmediateOp) (operand : String) (indirect : Bool)
      → OnOk (Fit 1) (resolve_own_immediate op operand indirect line)
  resolve_own_immediate-Fit op operand true = fails
  resolve_own_immediate-Fit op operand false = resolve_immediate-Fit (is_partial_load op) op operand

  resolve_shared_immediate-Fit :
      (m operand : String) → OnOk (Fit 1) (resolve_shared_immediate m operand line)
  unfolding resolve_shared_immediate
  resolve_shared_immediate-Fit m operand =
      OnOk-and_then (map_err (λ e. error_at line (unknown_mnemonic m)) (parse_immediate_op m))
        (λ op. resolve_immediate (is_bitwise op) op operand line)
        (λ op e. resolve_immediate-Fit (is_bitwise op) op operand)

  resolve_sp_relative-Fit :
      (op : SpRelativeOp) (operand : String) (indirect : Bool)
      → OnOk (Fit 1) (resolve_sp_relative op operand indirect line)
  resolve_sp_relative-Fit op operand true = fails
  resolve_sp_relative-Fit op operand false =
      OnOk-map_ok (λ v. sp_relative op v ∷ []) (parse_signed16-IsU16 operand line)
        (λ v h. (refl, (h, tt)))

  module _ (symbols : Symbols) (h : HasAddresses symbols) where
    resolve_branch-Fit :
        (op : BranchOp) (operand : String) (indirect : Bool)
        → OnOk (Fit 1) (resolve_branch symbols op operand indirect line)
    resolve_branch-Fit op operand true = fails
    resolve_branch-Fit op operand false =
        OnOk-map_ok (λ v. branch op v ∷ []) (symbol_or_address-IsU16 symbols operand line h)
          (λ v h. (refl, (h, tt)))

    resolve_memory-Fit :
        (m operand : String) (indirect : Bool)
        → OnOk (Fit 1) (resolve_memory symbols m operand indirect line)
    unfolding resolve_memory
    resolve_memory-Fit m operand indirect =
        OnOk-and_then (map_err (λ e. error_at line (unknown_mnemonic m)) (parse_memory_op m))
          (λ op.
            map_ok (λ address. memory op address indirect ∷ [])
              (symbol_or_address symbols (trim_at operand) line))
          (λ op e.
            OnOk-map_ok (λ v. memory op v indirect ∷ [])
              (symbol_or_address-IsU16 symbols (trim_at operand) line h) (λ v h. (refl, (h, tt))))

    resolve_plain-Fit :
        (m operand : String) (indirect : Bool)
        → OnOk (Fit 1) (resolve_plain symbols m operand indirect line)
    unfolding resolve_plain
    resolve_plain-Fit m operand indirect = by_own (own_immediate m)
      where
        by_own :
            (own : Option ImmediateOp)
            → OnOk (Fit 1) (elim own [
              | some op ↦ resolve_own_immediate op operand indirect line
              | none ↦
                  if names_memory m operand indirect
                  then resolve_memory symbols m operand indirect line
                  else resolve_shared_immediate m operand line
            ])
        by_own (some op) = resolve_own_immediate-Fit op operand indirect
        by_own none =
            either_branch (OnOk (Fit 1)) (names_memory m operand indirect)
              (resolve_memory-Fit m operand indirect) (resolve_shared_immediate-Fit m operand)

    resolve_operand-Fit :
        (m operand : String) (indirect : Bool)
        → OnOk (Fit 1) (resolve_operand symbols m operand indirect line)
    unfolding resolve_operand
    resolve_operand-Fit m operand indirect =
        OnOk-elim (parse_branch_op m) (λ op. resolve_branch-Fit op operand indirect)
          (λ e.
            OnOk-elim (parse_sp_relative_op m) (λ op. resolve_sp_relative-Fit op operand indirect)
              (λ e. resolve_plain-Fit m operand indirect))

    resolve_operands-Fit :
        (m : String) (o : List String) → OnOk (Fit 1) (resolve_operands symbols m o line)
    unfolding resolve_operands
    resolve_operands-Fit m [] = fails
    resolve_operands-Fit m (operand ∷ []) = resolve_operand-Fit m operand false
    resolve_operands-Fit m (operand ∷ marker ∷ []) =
        either_branch (OnOk (Fit 1)) (str_eq marker "I") (resolve_operand-Fit m operand true) fails
    resolve_operands-Fit m (a ∷ b ∷ c ∷ o) = fails

    resolve_system-Fit :
        (m : String) (op : SystemOp) (o : List String) → OnOk (Fit 1) (resolve_system m op o line)
    resolve_system-Fit m op [] = passes (refl, (tt, tt))
    resolve_system-Fit m op (a ∷ o) = fails

    resolve_pseudo-Fit : (m : String) (o : List String) → OnOk (Fit 2) (resolve_pseudo m o line)
    resolve_pseudo-Fit m [] = passes (
        either_branch (Fit 2) (str_eq m "PUSH") {yes = push_words} {no = pop_words}
          (refl, (omega arith, (omega arith, tt))) (refl, (omega arith, (omega arith, tt))))
    resolve_pseudo-Fit m (a ∷ o) = fails

    -- An instruction is resolved to one machine instruction, PUSH and POP to two, with operands of
    -- 16 bits.
    pub resolve_instruction-Fit :
        (m : String) (o : List String)
        → OnOk (Fit (if is_pseudo m then 2 else 1)) (resolve_instruction m o symbols line)
    unfolding resolve_instruction
    resolve_instruction-Fit m o = by_pseudo (is_pseudo m)
      where
        by_pseudo :
            (pseudo : Bool)
            → OnOk (Fit (if pseudo then 2 else 1)) (
                if pseudo then resolve_pseudo m o line else elim (parse_system_op m) [
                  | ok op ↦ resolve_system m op o line
                  | err e ↦ resolve_operands symbols m o line
                ])
        by_pseudo true = resolve_pseudo-Fit m o
        by_pseudo false =
            OnOk-elim (parse_system_op m) (λ op. resolve_system-Fit m op o)
              (λ e. resolve_operands-Fit m o)
