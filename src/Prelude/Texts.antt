-- ===== src/Prelude/Texts.antt =====
-- Texts as lists of code points: comparison, blanks, words.
use Prim.Native.Nat.{ℕ, ◌+◌, ◌-◌}
use mathlib.Core.Bool.{Bool, true, false, not, ◌&&◌, ◌||◌}
use mathlib.Core.List.{List, [], ◌∷◌, ◌++◌}
use swedesweets_ops.Prelude.Lists.{is_empty}
use swedesweets_ops.Prelude.Tests.{ltb, leb, ◌==◌, if◌then◌else◌}

abbrev pub Text : Type 0
Text = List ℕ

unfoldable pub text_eq : Text → Text → Bool
text_eq [] [] = true
text_eq [] (y ∷ ys) = false
text_eq (x ∷ xs) [] = false
text_eq (x ∷ xs) (y ∷ ys) = x == y && text_eq xs ys

-- Python's `<=` on strings: by code points, the shorter first.
unfoldable pub text_le : Text → Text → Bool
text_le [] t = true
text_le (x ∷ xs) [] = false
text_le (x ∷ xs) (y ∷ ys) = ltb x y || (x == y && text_le xs ys)

-- Python's blanks, for `strip` and `split`.
unfoldable pub is_space : ℕ → Bool
is_space c =
    (leb 9 c && leb c 13)
    || (leb 28 c && leb c 32)
    || c == 0x85
    || c == 0xa0
    || c == 0x1680
    || (leb 0x2000 c && leb c 0x200a)
    || c == 0x2028
    || c == 0x2029
    || c == 0x202f
    || c == 0x205f
    || c == 0x3000

unfoldable pub strip_left : Text → Text
strip_left [] = []
strip_left (c ∷ t) = if is_space c then strip_left t else c ∷ t

-- A blank counts only before another character.
unfoldable pub strip_right : Text → Text
strip_right [] = []
strip_right (c ∷ t) =
    let rest = strip_right t in if is_space c && is_empty rest then [] else c ∷ rest

-- `t.strip()`
unfoldable pub strip : Text → Text
unfolding is_space strip_left strip_right
strip t = strip_right (strip_left t)

-- The upper case of a code point, for ASCII and Latin-1; the others stay.
unfoldable pub upper_code : ℕ → Text
upper_code c =
    if leb b'a' c && leb c b'z'
    then (c - 32) ∷ []
    else if c == 0xdf
    then b'S' ∷ b'S' ∷ []
    else if c == 0xff
    then 0x178 ∷ []
    else if c == 0xb5
    then 0x39c ∷ []
    else if leb 0xe0 c && not (c == 0xf7) && leb c 0xfe
    then (c - 32) ∷ []
    else c ∷ []

-- `t.upper()`
unfoldable pub upper : Text → Text
unfolding upper_code
upper [] = []
upper (c ∷ t) = upper_code c ++ upper t

-- `t.split()`, with the letters of the word that is being read.
unfoldable pub words_from : Text → Text → List Text
words_from word [] = if is_empty word then [] else word ∷ []
words_from word (c ∷ t) =
    let split = words_from [] t in
    let more = words_from (word ++ c ∷ []) t in
    if is_space c then (if is_empty word then split else word ∷ split) else more

-- `" ".join(words)`
unfoldable pub join_words : List Text → Text
join_words [] = []
join_words (w ∷ []) = w
join_words (w ∷ v ∷ ws) = w ++ b' ' ∷ join_words (v ∷ ws)

-- `" ".join(t.strip().split())`
unfoldable pub squeeze : Text → Text
unfolding is_space strip words_from join_words
squeeze t = join_words (words_from [] (strip t))

-- The lower case of a code point, for ASCII and Latin-1; the others stay.
unfoldable pub lower_code : ℕ → ℕ
lower_code c =
    if (leb b'A' c && leb c b'Z') || (leb 0xc0 c && leb c 0xde && not (c == 0xd7))
    then c + 32
    else c

-- `t.lower()`
unfoldable pub lower : Text → Text
unfolding lower_code
lower [] = []
lower (c ∷ t) = lower_code c ∷ lower t
