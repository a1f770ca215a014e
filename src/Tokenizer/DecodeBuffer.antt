-- ===== src/Tokenizer/DecodeBuffer.antt =====
-- `TokenDecodeBuffer` of tools/sp_daemon/src/tokenizer.rs: the bytes of the sampled tokens, held
-- back until no stop string can begin in them, and cut to whole UTF-8 characters. A byte is a
-- number below 256. `std::str::from_utf8` is `valid_utf8_up_to`, by the table of well-formed
-- sequences.
pub mod Stop
pub mod Utf8
pub mod Hold
pub mod Stream
use kairos_engine.Base.{
  ℕ, zero, suc, ◌+◌, ◌-◌, max, Bool, true, false, ◌&&◌, ◌||◌, Option, none, some, List, [], ◌∷◌,
  ◌++◌, map, length, take, drop, list_beq, ltb, leb, ◌==◌, if◌then◌else◌,
}

pub data PushResult : Type 0 where
  emit : List ℕ → PushResult
  stopped : List ℕ → PushResult

pub record TokenDecodeBuffer : Type 0 where
  pub buf : List ℕ
  pub stop_bytes : List (List ℕ)
  pub hold : ℕ

-- The greatest length of a stop string, 0 without one.
abbrev pub max_len : List (List ℕ) → ℕ
max_len [] = 0
max_len (s ∷ ss) = max (length s) (max_len ss)

-- TokenDecodeBuffer::new
abbrev pub new : List (List ℕ) → TokenDecodeBuffer
new stops = record { buf = []; stop_bytes = stops; hold = max_len stops - 1 }

-- The first window of the haystack that is the needle.
unfoldable pub position : List ℕ → ℕ → List ℕ → Option ℕ
position needle i [] = none
position needle i (b ∷ bs) =
    let rest = position needle (i + 1) bs in
    if list_beq (take (length needle) (b ∷ bs)) needle then some i else rest

unfoldable pub memmem : List ℕ → List ℕ → Option ℕ
unfolding position
memmem haystack [] = some 0
memmem haystack (n ∷ needle) = position (n ∷ needle) 0 haystack

-- `low ≤ b ≤ high`
abbrev pub within : ℕ → ℕ → ℕ → Bool
within low high b = leb low b && leb b high

abbrev pub tail_bytes : ℕ → List ℕ → Bool
tail_bytes zero bs = true
tail_bytes (suc n) [] = false
tail_bytes (suc n) (b ∷ bs) = if within 0x80 0xBF b then tail_bytes n bs else false

-- A lead byte, the range of the byte after it, and the number of bytes after that one.
abbrev pub sequence : ℕ → ℕ → ℕ → List ℕ → ℕ
sequence low high more [] = 0
sequence low high more (b ∷ bs) =
    if within low high b then (if tail_bytes more bs then more + 2 else 0) else 0

-- The width of the character at the head of the bytes; 0 where none stands there.
unfoldable pub char_width : List ℕ → ℕ
char_width [] = 0
char_width (b ∷ bs) =
    if ltb b 0x80
    then 1
    else if within 0xC2 0xDF b
    then sequence 0x80 0xBF 0 bs
    else if b == 0xE0
    then sequence 0xA0 0xBF 1 bs
    else if b == 0xED
    then sequence 0x80 0x9F 1 bs
    else if within 0xE1 0xEF b
    then sequence 0x80 0xBF 1 bs
    else if b == 0xF0
    then sequence 0x90 0xBF 2 bs
    else if within 0xF1 0xF3 b
    then sequence 0x80 0xBF 2 bs
    else if b == 0xF4
    then sequence 0x80 0x8F 2 bs
    else 0

-- A character has a byte at least, so that the length of the bytes is fuel enough.
unfoldable pub valid_loop : ℕ → List ℕ → ℕ
unfolding char_width
valid_loop zero bs = 0
valid_loop (suc fuel) bs =
    let w = char_width bs in
    let rest = valid_loop fuel (drop w bs) in if w == 0 then 0 else w + rest

unfoldable pub valid_utf8_up_to : List ℕ → ℕ
unfolding valid_loop
valid_utf8_up_to bs = valid_loop (length bs) bs

-- The loop of `push` over the stop strings, in their order.
unfoldable pub find_stop : List (List ℕ) → List ℕ → Option ℕ
unfolding memmem
find_stop [] buf = none
find_stop (stop ∷ stops) buf =
    let rest = find_stop stops buf in elim (memmem buf stop) [ none ↦ rest | some pos ↦ some pos ]

-- How many bytes of a buffer without a stop string leave it.
unfoldable pub emit_end : ℕ → List ℕ → ℕ
unfolding valid_utf8_up_to
emit_end hold buf =
    if leb (length buf) hold then 0 else valid_utf8_up_to (take (length buf - hold) buf)

abbrev pub settle : TokenDecodeBuffer → List ℕ → Option ℕ → PushResult × TokenDecodeBuffer
settle s buf (some pos) = (stopped (take pos buf), record s { buf = [] })
settle s buf none =
    (emit (take (emit_end s.hold buf) buf), record s { buf = drop (emit_end s.hold buf) buf })

-- TokenDecodeBuffer::push
unfoldable pub push : TokenDecodeBuffer → List ℕ → PushResult × TokenDecodeBuffer
unfolding find_stop emit_end
push s bytes = settle s (s.buf ++ bytes) (find_stop s.stop_bytes (s.buf ++ bytes))

-- TokenDecodeBuffer::flush
abbrev pub flush : TokenDecodeBuffer → List ℕ × TokenDecodeBuffer
flush s = (s.buf, record s { buf = [] })

-- The pushes of a turn: what they emit together, up to the first stop.
unfoldable pub feed : TokenDecodeBuffer → List ℕ → List (List ℕ) → PushResult × TokenDecodeBuffer
unfolding push
feed s out [] = (emit out, s)
feed s out (bytes ∷ rest) = elim (push s bytes).0 [
  | emit e ↦ feed (push s bytes).1 (out ++ e) rest
  | stopped before ↦ (stopped (out ++ before), (push s bytes).1)
]
