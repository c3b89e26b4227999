-- ===== src/Channels/Config/Text.antt =====
-- The texts of a configuration: `split_strip` (queue_job/jobrunner/channels.py), and Python's `split`,
-- `strip`, `replace` and `int`. Of the digits and the spaces that Python knows, `int` takes the digits 0 to 9.
use Prim.Native.Char.{Char, char, code}
use Prim.Native.String.{String, [] as end, ◌∷◌ as char_then}
use others_addons.Base.{
  ℕ, zero, suc, ◌+◌, ◌-◌, ◌*◌, Bool, true, false, ◌&&◌, ◌||◌, List, [], ◌∷◌, map, Option, none,
  some, ℤ, pos, negsuc, if◌then◌else◌, ◌==◌, leb, ◌>>=◌,
}

-- A list of the first character on.
abbrev pub push : Char → List String → List String
push c [] = (char_then c end) ∷ []
push c (part ∷ parts) = (char_then c part) ∷ parts

-- `s.split(sep)` for one character
unfoldable pub split : ℕ → String → List String
split sep end = end ∷ []
split sep (char_then c s) =
    let parts = split sep s in if code c == sep then end ∷ parts else push c parts

abbrev between : ℕ → ℕ → ℕ → Bool
between first last n = leb first n && leb n last

-- `str.isspace` of one character
abbrev pub is_space : Char → Bool
is_space c =
    let n = code c in
    between 9 13 n
    || between 28 32 n
    || n == 133
    || n == 160
    || n == 5760
    || between 8192 8202 n
    || n == 8232
    || n == 8233
    || n == 8239
    || n == 8287
    || n == 12288

unfoldable pub lstrip : String → String
lstrip end = end
lstrip (char_then c s) = let rest = lstrip s in if is_space c then rest else char_then c s

abbrev pub is_empty_text : String → Bool
is_empty_text end = true
is_empty_text (char_then c s) = false

unfoldable pub rstrip : String → String
rstrip end = end
rstrip (char_then c s) =
    let rest = rstrip s in if is_empty_text rest && is_space c then end else char_then c rest

unfoldable pub strip : String → String
unfolding lstrip rstrip
strip s = rstrip (lstrip s)

unfoldable pub split_strip : ℕ → String → List String
unfolding split strip
split_strip sep s = map strip (split sep s)

-- `s.replace("\n", ",")`
abbrev pub as_comma : Char → Char
as_comma c = if code c == 10 then char 44 tt else c

unfoldable pub replace_newlines : String → String
replace_newlines end = end
replace_newlines (char_then c s) = char_then (as_comma c) (replace_newlines s)

abbrev digit : Char → Option ℕ
digit c = if between 48 57 (code c) then some (code c - 48) else none

-- Digits, with single `_` between them; the flag tells whether the last character was a digit.
unfoldable pub digits : ℕ → Bool → String → Option ℕ
digits n ended end = if ended then some n else none
digits n ended (char_then c s) = elim (digit c) [
  | some d ↦ digits (n * 10 + d) true s
  | none ↦ let rest = digits n false s in if ended && code c == 95 then rest else none
]

abbrev negate : ℕ → ℤ
negate zero = pos 0
negate (suc n) = negsuc n

-- The sign and the digits of a text without spaces around it.
unfoldable pub signed : String → Option ℤ
unfolding digits
signed end = none
signed (char_then c s) =
    let plain = (digits zero false (char_then c s) >>= (λ n. some (pos n))) in
    if code c == 45
    then (digits zero false s >>= (λ n. some (negate n)))
    else if code c == 43
    then (digits zero false s >>= (λ n. some (pos n)))
    else plain

-- `int(s)`; none is a `ValueError`.
unfoldable pub int : String → Option ℤ
unfolding signed strip
int s = signed (strip s)
