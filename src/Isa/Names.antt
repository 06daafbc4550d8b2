-- ===== src/Isa/Names.antt =====
-- A mnemonic names one operation of its set: parsing a name gives the operation back, and a text
-- that parses is the name of the result.
use Prim.Native.String.{String}
use text.Mathlib.Text.{◌==◌ as str_eq}
use text.Mathlib.TextEquality.{eq_iff}
use ex3_rust.Prelude.{◌≡◌, ◌↔◌, refl, subst, find, Option, some, none, ok, ok_or, find-passes}
use ex3_rust.Isa.Ops.{
  MemoryOp, ImmediateOp, SpRelativeOp, BranchOp, SystemOp, memory_ops, immediate_ops,
  sp_relative_ops, branch_ops, system_ops,
}
use ex3_rust.Isa.Mnemonics.{
  memory_name, immediate_name, sp_relative_name, branch_name, system_name, parse_memory_op,
  parse_immediate_op, parse_sp_relative_op, parse_branch_op, parse_system_op,
}

ok_or-eq-ok {ℓ κ} :
    {A : Type ℓ} {E : Type κ} (o : Option A) (e : E) (a : A) → ok_or o e ≡ ok a → o ≡ some a
ok_or-eq-ok none e a h = cc
ok_or-eq-ok (some b) e a h = cc

parse_memory_op-name : (op : MemoryOp) → parse_memory_op (memory_name op) ≡ ok op
unfolding parse_memory_op memory_name find
parse_memory_op-name MemoryOp.add = refl
parse_memory_op-name _ = refl

pub parse_memory_op_iff :
    (s : String) (op : MemoryOp) → (parse_memory_op s ≡ ok op) ↔ (memory_name op ≡ s)
unfolding parse_memory_op
parse_memory_op_iff s op = (
  λ h.
      (eq_iff (memory_name op) s).0
        (find-passes (λ x. str_eq (memory_name x) s) memory_ops op (ok_or-eq-ok _ _ op h)),
  λ e. subst (λ t. parse_memory_op t ≡ ok op) e (parse_memory_op-name op),
)

parse_immediate_op-name : (op : ImmediateOp) → parse_immediate_op (immediate_name op) ≡ ok op
unfolding parse_immediate_op immediate_name find
parse_immediate_op-name ImmediateOp.add = refl
parse_immediate_op-name _ = refl

pub parse_immediate_op_iff :
    (s : String) (op : ImmediateOp) → (parse_immediate_op s ≡ ok op) ↔ (immediate_name op ≡ s)
unfolding parse_immediate_op
parse_immediate_op_iff s op = (
  λ h.
      (eq_iff (immediate_name op) s).0
        (find-passes (λ x. str_eq (immediate_name x) s) immediate_ops op (ok_or-eq-ok _ _ op h)),
  λ e. subst (λ t. parse_immediate_op t ≡ ok op) e (parse_immediate_op-name op),
)

parse_sp_relative_op-name : (op : SpRelativeOp) → parse_sp_relative_op (sp_relative_name op) ≡ ok op
unfolding parse_sp_relative_op sp_relative_name find
parse_sp_relative_op-name SpRelativeOp.addsp = refl
parse_sp_relative_op-name _ = refl

pub parse_sp_relative_op_iff :
    (s : String) (op : SpRelativeOp) → (parse_sp_relative_op s ≡ ok op) ↔ (sp_relative_name op ≡ s)
unfolding parse_sp_relative_op
parse_sp_relative_op_iff s op = (
  λ h.
      (eq_iff (sp_relative_name op) s).0 (
        find-passes (λ x. str_eq (sp_relative_name x) s) sp_relative_ops op (ok_or-eq-ok _ _ op h)),
  λ e. subst (λ t. parse_sp_relative_op t ≡ ok op) e (parse_sp_relative_op-name op),
)

parse_branch_op-name : (op : BranchOp) → parse_branch_op (branch_name op) ≡ ok op
unfolding parse_branch_op branch_name find
parse_branch_op-name BranchOp.jmp = refl
parse_branch_op-name _ = refl

pub parse_branch_op_iff :
    (s : String) (op : BranchOp) → (parse_branch_op s ≡ ok op) ↔ (branch_name op ≡ s)
unfolding parse_branch_op
parse_branch_op_iff s op = (
  λ h.
      (eq_iff (branch_name op) s).0
        (find-passes (λ x. str_eq (branch_name x) s) branch_ops op (ok_or-eq-ok _ _ op h)),
  λ e. subst (λ t. parse_branch_op t ≡ ok op) e (parse_branch_op-name op),
)

parse_system_op-name : (op : SystemOp) → parse_system_op (system_name op) ≡ ok op
unfolding parse_system_op system_name find
parse_system_op-name SystemOp.cla = refl
parse_system_op-name _ = refl

pub parse_system_op_iff :
    (s : String) (op : SystemOp) → (parse_system_op s ≡ ok op) ↔ (system_name op ≡ s)
unfolding parse_system_op
parse_system_op_iff s op = (
  λ h.
      (eq_iff (system_name op) s).0
        (find-passes (λ x. str_eq (system_name x) s) system_ops op (ok_or-eq-ok _ _ op h)),
  λ e. subst (λ t. parse_system_op t ≡ ok op) e (parse_system_op-name op),
)

-- In each of the five sets of operations a text parses to an operation exactly when it is the
-- operation's name.
pub parse_op_iff :
    (s : String)
    → ((op : MemoryOp) → (parse_memory_op s ≡ ok op) ↔ (memory_name op ≡ s))
      × ((op : ImmediateOp) → (parse_immediate_op s ≡ ok op) ↔ (immediate_name op ≡ s))
      × ((op : SpRelativeOp) → (parse_sp_relative_op s ≡ ok op) ↔ (sp_relative_name op ≡ s))
      × ((op : BranchOp) → (parse_branch_op s ≡ ok op) ↔ (branch_name op ≡ s))
      × ((op : SystemOp) → (parse_system_op s ≡ ok op) ↔ (system_name op ≡ s))
parse_op_iff s = (
  parse_memory_op_iff s,
  parse_immediate_op_iff s,
  parse_sp_relative_op_iff s,
  parse_branch_op_iff s,
  parse_system_op_iff s,
)
