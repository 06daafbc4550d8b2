-- ===== src/Cc/Parser/Operators.antt =====
-- The operators of crates/ex3-core/src/cc/parser.rs and their precedence.
use ex3_rust.Prelude.{ℕ, Option, none, some}
use ex3_rust.Cc.Ast.{UnOp, BinOp}
use ex3_rust.Cc.Lexer.Words.{Symbol}
use ex3_rust.Cc.Lexer.{TokenKind}

pub data Precedence : Type 0 where
  logical_or logical_and bitwise_or bitwise_xor bitwise_and equality relational additive
        multiplicative primary :
      Precedence

-- The derived order is that of the declaration.
abbrev pub rank : Precedence → ℕ
rank Precedence.logical_or = 0
rank Precedence.logical_and = 1
rank Precedence.bitwise_or = 2
rank Precedence.bitwise_xor = 3
rank Precedence.bitwise_and = 4
rank Precedence.equality = 5
rank Precedence.relational = 6
rank Precedence.additive = 7
rank Precedence.multiplicative = 8
rank Precedence.primary = 9

-- `Precedence::next`.
abbrev pub next : Precedence → Precedence
next Precedence.logical_or = Precedence.logical_and
next Precedence.logical_and = Precedence.bitwise_or
next Precedence.bitwise_or = Precedence.bitwise_xor
next Precedence.bitwise_xor = Precedence.bitwise_and
next Precedence.bitwise_and = Precedence.equality
next Precedence.equality = Precedence.relational
next Precedence.relational = Precedence.additive
next Precedence.additive = Precedence.multiplicative
next Precedence.multiplicative = Precedence.primary
next Precedence.primary = Precedence.primary

-- `BinOp::from_symbol`.
abbrev pub from_symbol : Symbol → Option BinOp
from_symbol Symbol.logical_or = some BinOp.or
from_symbol Symbol.logical_and = some BinOp.and
from_symbol Symbol.pipe = some BinOp.bit_or
from_symbol Symbol.caret = some BinOp.bit_xor
from_symbol Symbol.ampersand = some BinOp.bit_and
from_symbol Symbol.equal_equal = some BinOp.eq
from_symbol Symbol.bang_equal = some BinOp.ne
from_symbol Symbol.less = some BinOp.lt
from_symbol Symbol.less_equal = some BinOp.le
from_symbol Symbol.greater = some BinOp.gt
from_symbol Symbol.greater_equal = some BinOp.ge
from_symbol Symbol.plus = some BinOp.add
from_symbol Symbol.minus = some BinOp.sub
from_symbol Symbol.star = some BinOp.mul
from_symbol Symbol.slash = some BinOp.div
from_symbol Symbol.percent = some BinOp.mod_op
from_symbol symbol = none

-- `BinOp::precedence`.
abbrev pub precedence : BinOp → Precedence
precedence BinOp.or = Precedence.logical_or
precedence BinOp.and = Precedence.logical_and
precedence BinOp.bit_or = Precedence.bitwise_or
precedence BinOp.bit_xor = Precedence.bitwise_xor
precedence BinOp.bit_and = Precedence.bitwise_and
precedence BinOp.eq = Precedence.equality
precedence BinOp.ne = Precedence.equality
precedence BinOp.lt = Precedence.relational
precedence BinOp.le = Precedence.relational
precedence BinOp.gt = Precedence.relational
precedence BinOp.ge = Precedence.relational
precedence BinOp.add = Precedence.additive
precedence BinOp.sub = Precedence.additive
precedence BinOp.mul = Precedence.multiplicative
precedence BinOp.div = Precedence.multiplicative
precedence BinOp.mod_op = Precedence.multiplicative

-- `Parser::binary_operator`, at a token.
abbrev pub binary_operator : TokenKind → Option BinOp
binary_operator (TokenKind.symbol symbol) = from_symbol symbol
binary_operator kind = none

-- The tests at the head of `Parser::unary`.
abbrev pub unary_operator : TokenKind → Option UnOp
unary_operator (TokenKind.symbol Symbol.tilde) = some UnOp.bit_not
unary_operator (TokenKind.symbol Symbol.bang) = some UnOp.not
unary_operator (TokenKind.symbol Symbol.plus) = some UnOp.plus
unary_operator (TokenKind.symbol Symbol.minus) = some UnOp.neg
unary_operator kind = none
