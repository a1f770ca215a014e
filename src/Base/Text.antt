-- ===== src/Base/Text.antt =====
-- What the code uses of Rust's strings, as lists of code points.
use Prim.Native.Nat.{ℕ, ◌+◌, ◌/◌, ◌%◌}
use mathlib.Core.Bool.{Bool, false, ◌&&◌, ◌||◌}
use mathlib.Core.List.{List, [], ◌∷◌, ◌++◌}
use Prim.Native.String.{String}
use Prim.Native.Char.{code}
use mathlib.Core.Option.{Option, none, some}
use kairos_engine.Base.Tests.{ltb, leb, ◌==◌, if◌then◌else◌}

-- The code points of an ASCII literal, which are its bytes.
abbrev pub codes : String → List ℕ
codes String.[] = []
codes (String.◌∷◌ c s) = code c ∷ codes s

-- The UTF-8 bytes of a code point, and of a string.
char_bytes : ℕ → List ℕ
char_bytes c =
    if ltb c 128
    then c ∷ []
    else if ltb c 2048
    then (192 + c / 64) ∷ (128 + c % 64) ∷ []
    else if ltb c 65536
    then (224 + c / 4096) ∷ (128 + c / 64 % 64) ∷ (128 + c % 64) ∷ []
    else (240 + c / 262144) ∷ (128 + c / 4096 % 64) ∷ (128 + c / 64 % 64) ∷ (128 + c % 64) ∷ []

unfoldable pub utf8 : List ℕ → List ℕ
unfolding char_bytes
utf8 [] = []
utf8 (c ∷ cs) = char_bytes c ++ utf8 cs

-- `char::is_whitespace`
abbrev pub is_whitespace : ℕ → Bool
is_whitespace c =
    leb 9 c && leb c 13
    || c == 32
    || c == 0x85
    || c == 0xA0
    || c == 0x1680
    || leb 0x2000 c && leb c 0x200A
    || c == 0x2028
    || c == 0x2029
    || c == 0x202F
    || c == 0x205F
    || c == 0x3000

unfoldable pub trim_start : List ℕ → List ℕ
trim_start [] = []
trim_start (c ∷ cs) = let rest = trim_start cs in if is_whitespace c then rest else c ∷ cs

abbrev pub trim_end_cons : ℕ → List ℕ → List ℕ
trim_end_cons c [] = if is_whitespace c then [] else c ∷ []
trim_end_cons c (d ∷ ds) = c ∷ d ∷ ds

unfoldable pub trim_end : List ℕ → List ℕ
trim_end [] = []
trim_end (c ∷ cs) = trim_end_cons c (trim_end cs)

unfoldable pub trim : List ℕ → List ℕ
unfolding trim_start trim_end
trim cs = trim_end (trim_start cs)

-- `str::lines`: the line feeds are cut off, each with one carriage return before it.
abbrev pub push_char : ℕ → List (List ℕ) → List (List ℕ)
push_char c [] = (c ∷ []) ∷ []
push_char c (l ∷ ls) = (c ∷ l) ∷ ls

abbrev pub feeds : List ℕ → Bool
feeds [] = false
feeds (c ∷ cs) = c == 10

abbrev pub in_line : ℕ → List ℕ → List (List ℕ) → List (List ℕ)
in_line c cs ls = if c == 10 then [] ∷ ls else if c == 13 && feeds cs then ls else push_char c ls

unfoldable pub lines : List ℕ → List (List ℕ)
lines [] = []
lines (c ∷ cs) = in_line c cs (lines cs)

-- `split_once` at a character.
abbrev pub before_also : ℕ → Option (List ℕ × List ℕ) → Option (List ℕ × List ℕ)
before_also c none = none
before_also c (some (before, after)) = some (c ∷ before, after)

unfoldable pub split_once : ℕ → List ℕ → Option (List ℕ × List ℕ)
split_once sep [] = none
split_once sep (c ∷ cs) =
    let rest = split_once sep cs in if c == sep then some ([], cs) else before_also c rest

-- `split` at a character.
unfoldable pub split : ℕ → List ℕ → List (List ℕ)
split sep [] = [] ∷ []
split sep (c ∷ cs) = let rest = split sep cs in if c == sep then [] ∷ rest else push_char c rest
