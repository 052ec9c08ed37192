-- ===== src/StringPiece/Tests.antt =====
-- Pieces, for examples.
use event_loop.Prelude.{◌≡◌, ◌↔◌, true, not, [], ◌∷◌, arith}
use event_loop.StringPiece.{StringPiece, as_string, is_lt, is_gt, equals, lt, le, ge, gt, compare}
use event_loop.StringPiece.Order.{lex, compare-lex}

-- `ab` and `abc`.
abbrev short : StringPiece
short = record { ptr = b'a' ∷ b'b' ∷ b'z' ∷ []; size = 2 }

abbrev long : StringPiece
long = record { ptr = b'a' ∷ b'b' ∷ b'c' ∷ 0 ∷ []; size = 3 }

compare-lex_example :
    (compare short long ≡ lex (as_string short) (as_string long))
    × (lt short long ≡ is_lt (lex (as_string short) (as_string long)))
    × (le short long ≡ not (is_gt (lex (as_string short) (as_string long))))
    × (ge short long ≡ not (is_lt (lex (as_string short) (as_string long))))
    × (gt short long ≡ is_gt (lex (as_string short) (as_string long)))
    × ((equals short long ≡ true) ↔ (as_string short ≡ as_string long))
compare-lex_example = compare-lex short long (omega arith) (omega arith)
