-- ===== src/Kairos/Runner/Tests.antt =====
-- A toy model that always answers `NO_OP`, and its run over a short tape.
use kairos_engine.Base.{
  ℕ, ◌+◌, ◌-◌, ◌≡◌, refl, true, false, some, none, List, [], ◌∷◌, ◌++◌, length, take, replicate,
  leb, ◌==◌, if◌then◌else◌, arith,
}
use kairos_engine.Base.Text.{codes, utf8, trim, trim_start, trim_end}
use kairos_engine.Kairos.{Float, TapeEvent, noop, action}
use kairos_engine.Recall.Lexical.Evidence.{find}
use kairos_engine.Kairos.Runner.{
  AlphaCounters, AlphaTick, Mode, Lane, action_parse, malformed, parse_decision, alpha_loop,
  is_loggable, logged,
}
use kairos_engine.Kairos.Runner.Grown.{Laws}
use kairos_engine.Kairos.Runner.Flat.{decoder-IsLogged, AddsUp, IsFlat, alpha_loop-IsFlat}

abbrev hundreds : Float
hundreds = record {
  F32 = ℕ;
  parse = λ s. none;
  at_least_half = λ s. leb 50 s;
  two_decimals = λ s. s ∷ [];
}

-- The row is greatest at 1, and the token 1 is the whole answer.
abbrev silent : Lane
silent = record {
  Session = List ℕ;
  prefill_chunk = λ s ts. some (s ++ ts, some 1 ∷ some 2 ∷ []);
  decode_step = λ s t. some (s ++ (t ∷ []), some 1 ∷ some 2 ∷ []);
  rewind = λ s n. some (take (length s - n) s);
  position = λ s. some (length s);
  encode = λ text. some (9 ∷ 9 ∷ []);
  decode_token = λ t. if t == 1 then codes "NO_OP" else [];
  eos_ids = 0 ∷ [];
  from_utf8_lossy = λ bs. codes "NO_OP";
}

silent_laws : Laws silent
silent_laws = record {
  tokens = λ s. s;
  room = 200;
  prefills = λ s ts h. (s ++ ts, some 1 ∷ some 2 ∷ [], refl, refl);
  decodes = λ s t h. (s ++ (t ∷ []), some 1 ∷ some 2 ∷ [], refl, refl);
  rewinds = λ s n h. (take (length s - n) s, refl, refl);
  positions = λ s. refl;
}

abbrev pruned : Mode
pruned = record { chatml = true; prune = true; nothink = false; use_gemma = false }

abbrev no_ticks : AlphaCounters
no_ticks = record {
  ticks = 0;
  noop_correct = 0;
  action_correct = 0;
  false_actions = 0;
  missed_events = 0;
  malformed_count = 0;
}

abbrev quiet : TapeEvent hundreds
quiet = record { tick_idx = 0; kind = 73 ∷ []; payload = []; salience = 10; expect = noop }

abbrev loud : TapeEvent hundreds
loud = record { tick_idx = 1; kind = 65 ∷ []; payload = 100 ∷ []; salience = 90; expect = action }

alpha_loop-IsFlat_example :
    (s' : List ℕ) × (log : List AlphaTick) × (c' : AlphaCounters) × (alpha_loop hundreds silent
        pruned
        (4 ∷ 5 ∷ [])
        no_ticks
        (quiet ∷ loud ∷ [])
      ≡ some (s', log, c'))
    × (length log ≡ 2)
    × (c'.ticks ≡ 0 + 2)
    × AddsUp c'
    × IsFlat true 2 log
unfolding silent_laws is_loggable utf8 trim trim_start trim_end
alpha_loop-IsFlat_example =
    alpha_loop-IsFlat hundreds silent silent_laws pruned (λ ev. 9 ∷ 9 ∷ []) (4 ∷ 5 ∷ []) no_ticks
      (quiet ∷ loud ∷ []) (refl, (refl, tt))
      (decoder-IsLogged hundreds silent silent_laws (λ bytes. refl) pruned (4 ∷ 5 ∷ [])
        (quiet ∷ loud ∷ []))
      (omega arith) refl

-- A reply of 25 characters of two bytes has its byte 48 at a start, and one more byte before them
-- puts it inside one.
cut_at_start : is_loggable (replicate 25 233) ≡ true
unfolding is_loggable utf8
cut_at_start = refl

cut_inside : logged {A = ℕ} (33 ∷ replicate 25 233) 0 ≡ none
unfolding logged is_loggable utf8
cut_inside = refl

reads_an_action : parse_decision (codes " <action>open</action>") ≡ action_parse
unfolding parse_decision find trim
reads_an_action = refl

reads_neither : parse_decision (codes "I think that") ≡ malformed
unfolding parse_decision find trim
reads_neither = refl
