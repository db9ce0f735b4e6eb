-- ===== src/Gpu/Text.antt =====
-- What src/gpu.rs uses of Rust's `str`, on texts as lists of code points.
use Prim.Native.Char.{code}
use Prim.Native.String as S
use Prim.Native.String.{String}
use vugva.Common.{
  ℕ, ◌+◌, ◌-◌, ◌*◌, ◌==◌, ltb, leb, Bool, true, false, ◌&&◌, ◌||◌, Option, none, some, List, [],
  ◌∷◌, ◌++◌, if◌then◌else◌,
}

abbrev pub chars : String → List ℕ
chars S.[] = []
chars (S.◌∷◌ c s) = code c ∷ chars s

-- The characters of Unicode's White_Space.
unfoldable pub is_whitespace : ℕ → Bool
is_whitespace c =
    (leb 9 c && leb c 13)
    || (c == 32)
    || (c == 133)
    || (c == 160)
    || (c == 5760)
    || (leb 8192 c && leb c 8202)
    || (c == 8232)
    || (c == 8233)
    || (c == 8239)
    || (c == 8287)
    || (c == 12288)

-- `lines`. A carriage return before the newline stays: each line is trimmed after.
abbrev extend_first : ℕ → List (List ℕ) → List (List ℕ)
extend_first c [] = (c ∷ []) ∷ []
extend_first c (l ∷ ls) = (c ∷ l) ∷ ls

unfoldable pub lines : List ℕ → List (List ℕ)
lines [] = []
lines (c ∷ cs) = let rest = lines cs in if c == 10 then [] ∷ rest else extend_first c rest

unfoldable pub trim_start : List ℕ → List ℕ
unfolding is_whitespace
trim_start [] = []
trim_start (c ∷ cs) = let rest = trim_start cs in if is_whitespace c then rest else c ∷ cs

-- A character stays before others that stay.
abbrev keep_before : ℕ → List ℕ → List ℕ
keep_before c [] = if is_whitespace c then [] else c ∷ []
keep_before c (d ∷ ds) = c ∷ d ∷ ds

unfoldable pub trim_end : List ℕ → List ℕ
unfolding is_whitespace
trim_end [] = []
trim_end (c ∷ cs) = keep_before c (trim_end cs)

unfoldable pub trim : List ℕ → List ℕ
unfolding trim_start trim_end
trim cs = trim_start (trim_end cs)

unfoldable pub starts_with : List ℕ → List ℕ → Bool
starts_with cs [] = true
starts_with [] (p ∷ ps) = false
starts_with (c ∷ cs) (p ∷ ps) = (c == p) && starts_with cs ps

unfoldable pub contains : List ℕ → List ℕ → Bool
unfolding starts_with
contains [] ps = starts_with [] ps
contains (c ∷ cs) ps = starts_with (c ∷ cs) ps || contains cs ps

-- What follows the first `c`, if there is one: `find(c)` and the slice past it.
unfoldable pub after : ℕ → List ℕ → Option (List ℕ)
after c [] = none
after c (d ∷ ds) = if d == c then some ds else after c ds

-- `split_whitespace`, with the word that is being read.
abbrev finish : List ℕ → List (List ℕ) → List (List ℕ)
finish [] ws = ws
finish (c ∷ cs) ws = (c ∷ cs) ∷ ws

unfoldable pub words_from : List ℕ → List ℕ → List (List ℕ)
unfolding is_whitespace
words_from word [] = finish word []
words_from word (c ∷ cs) =
    let next = words_from [] cs in
    let more = words_from (word ++ c ∷ []) cs in if is_whitespace c then finish word next else more

unfoldable pub split_whitespace : List ℕ → List (List ℕ)
unfolding words_from
split_whitespace cs = words_from [] cs

-- `parse` of an unsigned number below `bound`: digits, after `+` if need be, and no overflow.
unfoldable pub digits_from : ℕ → ℕ → List ℕ → Option ℕ
digits_from bound n [] = some n
digits_from bound n (c ∷ cs) =
    let m = n * 10 + (c - 48) in
    let rest = digits_from bound m cs in
    if leb 48 c && (leb c 57 && ltb m bound) then rest else none

-- The digits of a number: none at all is an error.
unfoldable pub parse_digits : ℕ → List ℕ → Option ℕ
unfolding digits_from
parse_digits bound [] = none
parse_digits bound (c ∷ cs) = digits_from bound 0 (c ∷ cs)

unfoldable pub parse_unsigned : ℕ → List ℕ → Option ℕ
unfolding parse_digits
parse_unsigned bound [] = none
parse_unsigned bound (c ∷ cs) =
    if c == 43 then parse_digits bound cs else parse_digits bound (c ∷ cs)
