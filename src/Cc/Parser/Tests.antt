-- ===== src/Cc/Parser/Tests.antt =====
-- Tests of the parser.
use ex3_rust.Prelude.{◌≡◌, refl, Option, some, List, [], ◌∷◌, Result, ok, err}
use ex3_rust.Prelude.Maps.{lookup}
use ex3_rust.Prelude.Text.{unsigned_from_str_radix}
use ex3_rust.Cc.Ast.{signed, int_type, BinOp, Expr, Stmt, Stmts, Item, Program}
use ex3_rust.Cc.Diagnostic.{CcError}
use ex3_rust.Cc.Lexer.{Token, lex}
use ex3_rust.Cc.Lexer.Words.{find_two, find_one}
use ex3_rust.Cc.Parser.State.{Stop}
use ex3_rust.Cc.Parser.{parse}

abbrev parse_tokens : Option (Result (List Token) (List CcError)) → Result Program Stop
parse_tokens (some (ok tokens)) = parse tokens
parse_tokens r = err Stop.out_of_range

parses :
    parse_tokens (lex "int f(void) { a = 1 + b * c == d; }")
    ≡ ok (record {
      items =
          Item.function (record {
            name = "f";
            ret = int_type;
            params = [];
            body = some (
                Stmt.block
                  (Stmts.cons
                    (Stmt.expression
                      (Expr.assign "a"
                        (Expr.binary BinOp.eq
                          (Expr.binary BinOp.add
                            (Expr.integer
                              (record { value = 1; kind = signed })
                              (record { line = 1; column = 19 }))
                            (Expr.binary BinOp.mul
                              (Expr.variable "b" (record { line = 1; column = 23 }))
                              (Expr.variable "c" (record { line = 1; column = 27 }))
                              (record { line = 1; column = 23 }))
                            (record { line = 1; column = 19 }))
                          (Expr.variable "d" (record { line = 1; column = 32 }))
                          (record { line = 1; column = 19 }))
                        (record { line = 1; column = 15 }))
                      (record { line = 1; column = 15 }))
                    Stmts.nil)
                  (record { line = 1; column = 13 }));
            span = record { line = 1; column = 1 };
          })
          ∷ [];
    })
unfolding parse lex find_two find_one unsigned_from_str_radix lookup
parses = refl
