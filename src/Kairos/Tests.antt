-- ===== src/Kairos/Tests.antt =====
-- A short tape. An `f32` is a number of hundredths here.
use kairos_engine.Base.{ℕ, ◌≡◌, refl, List, [], ◌∷◌, leb, list_beq}
use kairos_engine.Kairos.{Float, TapeEvent, noop, run_kairos_heartbeat, fnv1a64}
use kairos_engine.Kairos.Tape.{parsed, refused, fields, parse_u64, parse_tape, tokenize_line}

abbrev hundredths : Float
hundredths = record {
  F32 = ℕ;
  parse = parse_u64;
  at_least_half = λ s. leb 50 s;
  two_decimals = λ s. s ∷ [];
}

abbrev idle : TapeEvent hundredths
idle = record { tick_idx = 0; kind = 73 ∷ []; payload = []; salience = 10; expect = noop }

abbrev alarm : TapeEvent hundredths
alarm = record { tick_idx = 1; kind = 65 ∷ []; payload = 100 ∷ []; salience = 90; expect = noop }

abbrev tape : List (TapeEvent hundredths)
tape = idle ∷ alarm ∷ idle ∷ []

abbrev still : ℕ → ℕ
still i = 0

one_false_action : (run_kairos_heartbeat hundredths still tape).0.false_actions ≡ 1
unfolding run_kairos_heartbeat
one_false_action = refl

-- `fnv1a64(b"a")`
hash_of_a : fnv1a64 (97 ∷ []) ≡ 0xaf63dc4c8601ec8c
unfolding fnv1a64
hash_of_a = refl

-- An empty quoted field is dropped, so a line with one has four fields.
empty_quoted_dropped : tokenize_line (97 ∷ 32 ∷ 34 ∷ 34 ∷ 32 ∷ 98 ∷ []) ≡ (97 ∷ []) ∷ (98 ∷ []) ∷ []
unfolding tokenize_line
empty_quoted_dropped = refl

-- "0 I - 10 NOOP", a comment, and a line of one field.
tape_line :
    parse_tape hundredths
      (48 ∷ 32 ∷ 73 ∷ 32 ∷ 45 ∷ 32 ∷ 49 ∷ 48 ∷ 32 ∷ 78 ∷ 79 ∷ 79 ∷ 80 ∷ 10 ∷ 35 ∷ [])
    ≡ parsed (idle ∷ [])
unfolding parse_tape list_beq
tape_line = refl

short_line : parse_tape hundredths (35 ∷ 10 ∷ 48 ∷ []) ≡ refused (fields 2 1)
unfolding parse_tape list_beq
short_line = refl
