-- ===== src/E2e/Lines.antt =====
-- `splitlines`, `strip` and `split`, as run_e2e.py uses them on the output of a process.
use delayed_order_sms_flink.Base.{
  ℕ, Bool, false, ◌&&◌, ◌||◌, List, [], ◌∷◌, Text, ◌==◌, leb, if◌then◌else◌,
}
use delayed_order_sms_flink.Number.{is_space, strip}

-- A character that ends a line
unfoldable pub is_line_end : ℕ → Bool
is_line_end c =
    (leb 0x0a c && leb c 0x0d)
    || (leb 0x1c c && leb c 0x1e)
    || (c == 0x85)
    || (c == 0x2028)
    || (c == 0x2029)

-- A character in front of the rest, which is its first line and the others.
abbrev pub onto_first : ℕ → List Text → List Text
onto_first c [] = (c ∷ []) ∷ []
onto_first c (line ∷ lines) = (c ∷ line) ∷ lines

-- `s.splitlines()`. The flag is set behind a carriage return, whose line feed is part of it.
unfoldable pub lines_from : Bool → Text → List Text
lines_from after_return [] = []
lines_from after_return (c ∷ s) =
    let rest = lines_from (c == 0x0d) s in
    if c == 0x0a && after_return
    then lines_from false s
    else if is_line_end c
    then [] ∷ rest
    else onto_first c rest

unfoldable pub splitlines : Text → List Text
splitlines = lines_from false

-- `[l.strip() for l in s.splitlines() if l.strip()]`
unfoldable pub stripped : List Text → List Text
stripped [] = []
stripped (l ∷ lines) =
    let rest = stripped lines in elim (strip l) [ [] ↦ rest | c ∷ cs ↦ (c ∷ cs) ∷ rest ]

unfoldable pub filled_lines : Text → List Text
filled_lines s = stripped (splitlines s)

-- A token in front of the others, where it is one.
abbrev pub onto_tokens : Text → List Text → List Text
onto_tokens [] tokens = tokens
onto_tokens (c ∷ token) tokens = (c ∷ token) ∷ tokens

-- `s.split()`: the token that the text starts with, which may be empty, and the others.
unfoldable pub tokens_of : Text → Text × List Text
tokens_of [] = ([], [])
tokens_of (c ∷ s) =
    let (token, tokens) = tokens_of s in
    if is_space c then ([], onto_tokens token tokens) else (c ∷ token, tokens)

unfoldable pub split : Text → List Text
split s = let (token, tokens) = tokens_of s in onto_tokens token tokens
