-- ===== src/Cc/Lexer/Tests.antt =====
-- Tests of the lexer.
use ex3_rust.Prelude.{◌≡◌, refl, Option, some, List, [], ◌∷◌, map, Result, ok, OnOk}
use ex3_rust.Prelude.Maps.{lookup}
use ex3_rust.Prelude.Text.{unsigned_from_str_radix}
use ex3_rust.Cc.Ast.{unsigned}
use ex3_rust.Cc.Diagnostic.{CcError}
use ex3_rust.Cc.Lexer.{TokenKind, Token, lex}
use ex3_rust.Cc.Lexer.Words.{int, greater_equal, semicolon, find_two, find_one}
use ex3_rust.Cc.Lexer.Tokens.{AreTokens, lex-AreTokens}

abbrev kinds : Option (Result (List Token) (List CcError)) → List TokenKind
kinds (some (ok tokens)) = map (λ (t : Token). t.kind) tokens
kinds o = []

lexes : kinds (lex "int x_1/* */>=0x8000U; // c") ≡ (
    TokenKind.keyword int
    ∷ TokenKind.identifier "x_1"
    ∷ TokenKind.symbol greater_equal
    ∷ TokenKind.integer (record { value = 0x8000; kind = unsigned })
    ∷ TokenKind.symbol semicolon
    ∷ TokenKind.eof
    ∷ [])
unfolding lex find_two find_one unsigned_from_str_radix lookup
lexes = refl

lex-AreTokens_example :
    (r : Result (List Token) (List CcError)) × (lex "x = 4294967295 / 2;" ≡ some r)
    × OnOk AreTokens r
lex-AreTokens_example = lex-AreTokens "x = 4294967295 / 2;"
