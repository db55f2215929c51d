-- ===== src/Parser/Space.antt =====
-- parser/src/lib.rs: white space and comments, on the rest of the buffer.
pub mod Skipped
use zust.Prelude.{ℕ, zero, suc, ◌+◌, Bool, ◌&&◌, List, [], ◌∷◌, length, ◌==◌, if◌then◌else◌}
use zust.Prelude.Outcome.{Outcome, ok, err, stuck, ◌>>=◌}
use zust.Dynamic.Value.{Bytes}
use zust.Parser.Reading.{contains}

pub data ParseErr : Type 0 where
  ended open_comment not_expected not_text bad_raw open_text bad_escape bad_unicode bad_utf8 :
      ParseErr
  found_keyword not_number bad_number out_of_range bad_suffix : ParseErr
  too_deep missing_left need_left unexpected expect_expr : ParseErr

abbrev pub white_space : List ℕ
white_space = 32 ∷ 9 ∷ 10 ∷ 13 ∷ []

-- The loop of a `//` comment.
unfoldable pub line_end : Bytes → Bytes
line_end [] = []
line_end (c ∷ rest) = let more = line_end rest in if c == b'\n' then c ∷ rest else more

-- The loop of a `/*` comment at the byte `c`.
unfoldable pub block_end : ℕ → Bytes → Outcome ParseErr Bytes
block_end c [] = err open_comment
block_end c (d ∷ rest) =
    let more = block_end d rest in if c == b'*' && d == b'/' then ok rest else more

unfoldable pub block_start : Bytes → Outcome ParseErr Bytes
block_start [] = err open_comment
block_start (c ∷ rest) = block_end c rest

-- Behind a slash.
unfoldable pub after_slash : Bytes → Outcome ParseErr Bytes
after_slash [] = err ended
after_slash (d ∷ rest) =
    if d == b'/'
    then ok (line_end rest)
    else if d == b'*'
    then block_start rest
    else ok (b'/' ∷ d ∷ rest)

unfoldable pub comment : Bytes → Outcome ParseErr Bytes
comment [] = err ended
comment (c ∷ rest) = if c == b'/' then after_slash rest else ok (c ∷ rest)

-- One round of the loop of `whitespace`, behind the comment.
unfoldable pub next_space : (Bytes → Outcome ParseErr Bytes) → Bytes → Outcome ParseErr Bytes
next_space more [] = ok []
next_space more (c ∷ rest) = if contains white_space c then more rest else ok (c ∷ rest)

unfoldable pub whitespace_loop : ℕ → Bytes → Outcome ParseErr Bytes
whitespace_loop zero input = stuck
whitespace_loop (suc fuel) [] = ok []
whitespace_loop (suc fuel) (c ∷ input) = comment (c ∷ input) >>= next_space (whitespace_loop fuel)

-- Each round takes a byte at least.
unfoldable pub whitespace : Bytes → Outcome ParseErr Bytes
unfolding whitespace_loop
whitespace input = whitespace_loop (length input + 1) input
