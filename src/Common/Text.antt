-- ===== src/Common/Text.antt =====
-- The functions of Go's packages strings and strconv that the program uses, on texts as sequences of
-- characters. A text that the program only compares stays a `String` as well.
use Prim.Native.Nat.{ℕ, zero, suc, ◌+◌, ◌-◌, ◌*◌, ◌/◌, ◌%◌, ◌^◌}
use Prim.Native.Char.{Char, code}
use Prim.Native.String.{String, ◌++◌}
use mathlib.Core.Bool.{Bool, ◌&&◌, ◌||◌}
use mathlib.Core.Option.{Option, none, some}
use mathlib.Core.List.{List, [], ◌∷◌}
use text.Mathlib.Text.{◌==◌ as str_eq}
use sprawler.Common.Tests.{leb, ltb, ◌==◌, if◌then◌else◌}
use sprawler.Common.Int.{ℤ, pos, negsuc}

-- What follows a prefix.
unfoldable pub strip : String → String → Option String
strip String.[] s = some s
strip (String.◌∷◌ c p) String.[] = none
strip (String.◌∷◌ c p) (String.◌∷◌ d s) = if code c == code d then strip p s else none

-- What stands before a suffix.
unfoldable pub strip_end : String → String → Option String
strip_end suffix String.[] = if str_eq "" suffix then some "" else none
strip_end suffix (String.◌∷◌ c s) =
    let rest = strip_end suffix s in
    if str_eq (String.◌∷◌ c s) suffix
    then some ""
    else elim rest [ none ↦ none | some r ↦ some (String.◌∷◌ c r) ]

abbrev pub or_whole : String → Option String → String
or_whole s none = s
or_whole s (some r) = r

unfoldable pub trim_prefix : String → String → String
unfolding strip
trim_prefix s prefix = or_whole s (strip prefix s)

unfoldable pub trim_suffix : String → String → String
unfolding strip_end
trim_suffix s suffix = or_whole s (strip_end suffix s)

-- `strings.Replace(s, p, "", 1)` for a p that is not empty.
unfoldable pub remove_first : String → String → String
unfolding strip
remove_first p String.[] = ""
remove_first p (String.◌∷◌ c s) =
    let rest = remove_first p s in
    elim (strip p (String.◌∷◌ c s)) [ some r ↦ r | none ↦ String.◌∷◌ c rest ]

-- `unicode.IsSpace`.
abbrev pub is_space : ℕ → Bool
is_space c =
    leb 9 c && leb c 13
    || c == 32
    || c == 0x85
    || c == 0xa0
    || c == 0x1680
    || leb 0x2000 c && leb c 0x200a
    || c == 0x2028
    || c == 0x2029
    || c == 0x202f
    || c == 0x205f
    || c == 0x3000

unfoldable pub trim_left : String → String
trim_left String.[] = ""
trim_left (String.◌∷◌ c s) =
    let rest = trim_left s in if is_space (code c) then rest else String.◌∷◌ c s

unfoldable pub trim_right : String → String
trim_right String.[] = ""
trim_right (String.◌∷◌ c s) =
    let rest = trim_right s in if is_space (code c) && str_eq rest "" then "" else String.◌∷◌ c rest

unfoldable pub trim_space : String → String
unfolding trim_left trim_right
trim_space s = trim_right (trim_left s)

abbrev pub push_first : Char → List String → List String
push_first c [] = String.◌∷◌ c "" ∷ []
push_first c (s ∷ ss) = String.◌∷◌ c s ∷ ss

-- `strings.Split` at a single character, here by its code: never the empty list.
unfoldable pub split : ℕ → String → List String
split sep String.[] = "" ∷ []
split sep (String.◌∷◌ c s) =
    let rest = split sep s in if code c == sep then "" ∷ rest else push_first c rest

-- The part before the first occurrence of a character, or the whole text (`strings.Cut`).
unfoldable pub before : ℕ → String → String
before sep String.[] = ""
before sep (String.◌∷◌ c s) =
    let rest = before sep s in if code c == sep then "" else String.◌∷◌ c rest

-- `strings.ReplaceAll(s, "'", "''")`.
unfoldable pub double_quotes : String → String
double_quotes String.[] = ""
double_quotes (String.◌∷◌ c s) =
    let rest = double_quotes s in
    if code c == b'\'' then String.◌∷◌ c (String.◌∷◌ c rest) else String.◌∷◌ c rest

-- The value of one or more decimal digits.
unfoldable pub digits : ℕ → String → Option ℕ
digits acc String.[] = some acc
digits acc (String.◌∷◌ c s) =
    let rest = digits (10 * acc + (code c - b'0')) s in
    if leb b'0' (code c) && leb (code c) b'9' then rest else none

unfoldable pub unsigned : String → Option ℕ
unfolding digits
unsigned String.[] = none
unsigned (String.◌∷◌ c s) = digits 0 (String.◌∷◌ c s)

abbrev pub positive : Option ℕ → Option ℤ
positive none = none
positive (some n) = if ltb n (2 ^ 63) then some (pos n) else none

abbrev pub negative : Option ℕ → Option ℤ
negative none = none
negative (some zero) = some (pos 0)
negative (some (suc n)) = if ltb n (2 ^ 63) then some (negsuc n) else none

-- `strconv.Atoi`: a sign, digits, and the range of an int64.
unfoldable pub atoi : String → Option ℤ
unfolding unsigned
atoi String.[] = none
atoi (String.◌∷◌ c s) =
    if code c == b'-'
    then negative (unsigned s)
    else if code c == b'+'
    then positive (unsigned s)
    else positive (unsigned (String.◌∷◌ c s))

abbrev pub digit_text : ℕ → String
digit_text n =
    if n == 0
    then "0"
    else if n == 1
    then "1"
    else if n == 2
    then "2"
    else if n == 3
    then "3"
    else if n == 4
    then "4"
    else if n == 5
    then "5"
    else if n == 6
    then "6"
    else if n == 7
    then "7"
    else if n == 8
    then "8"
    else "9"

-- `strconv.Itoa` of a number of at most `suc fuel` digits.
unfoldable pub itoa_on : ℕ → ℕ → String
itoa_on zero n = digit_text (n % 10)
itoa_on (suc fuel) n =
    let rest = itoa_on fuel (n / 10) in
    if ltb n 10 then digit_text n else rest ++ digit_text (n % 10)

-- An HTTP status has three digits; twenty are enough for every int64.
abbrev pub itoa : ℕ → String
itoa n = itoa_on 19 n

-- `%d` of an integer.
unfoldable pub show_int : ℤ → String
unfolding itoa_on
show_int (pos n) = itoa n
show_int (negsuc n) = "-" ++ itoa (suc n)
