-- ===== src/Kairos.antt =====
-- tools/sp_daemon/src/kairos.rs: the heartbeat over an event tape. A string is its list of code
-- points. An `f32` is a parameter: its type, its parser, the test against the stub's threshold
-- 0.5, and its text with two decimals. The clock is a function from the tick's place in the tape
-- to the microseconds measured; waiting (the yield, the back-off, the tick interval) changes
-- nothing of the run and is left out. The handoff types of the file's first part have no
-- operation yet.
pub mod Tape
pub mod Handoff
pub mod Heartbeat
pub mod Runner
mod Tests
use Prim.Native.Nat.{bit_xor, min}
use kairos_engine.Base.Text.{utf8}
use kairos_engine.Base.{
  ℕ, zero, suc, ◌+◌, ◌*◌, ◌/◌, ◌%◌, ◌^◌, ◌-◌, Bool, true, false, List, [], ◌∷◌, ◌++◌, length, ltb,
  ◌==◌, if◌then◌else◌, Option,
}

pub data Decision : Type 0 where
  noop : Decision
  action : Decision

pub record GateCounters : Type 0 where
  pub ticks : ℕ
  pub false_actions : ℕ
  pub missed_events : ℕ

pub record TickRecord : Type 0 where
  pub tick_idx : ℕ
  pub frame_hash : ℕ
  pub decision : Decision
  pub expect : Decision
  pub latency_us : ℕ
  pub state_size : ℕ

-- GateCounters::observe. A `u64` holds the number of ticks of every tape that fits in memory.
abbrev pub observe : GateCounters → Decision → Decision → GateCounters
observe c action noop = record {
  ticks = c.ticks + 1;
  false_actions = c.false_actions + 1;
  missed_events = c.missed_events;
}
observe c noop action = record {
  ticks = c.ticks + 1;
  false_actions = c.false_actions;
  missed_events = c.missed_events + 1;
}
observe c action action = record {
  ticks = c.ticks + 1;
  false_actions = c.false_actions;
  missed_events = c.missed_events;
}
observe c noop noop = record {
  ticks = c.ticks + 1;
  false_actions = c.false_actions;
  missed_events = c.missed_events;
}

pub fnv1a64_loop : ℕ → List ℕ → ℕ
fnv1a64_loop h [] = h
fnv1a64_loop h (b ∷ bs) = fnv1a64_loop (bit_xor h b * 0x100000001b3 % 2 ^ 64) bs

pub fnv1a64 : List ℕ → ℕ
unfolding fnv1a64_loop
fnv1a64 bytes = fnv1a64_loop 0xcbf29ce484222325 bytes

-- The decimal digits of a number; a `u64` has at most twenty.
pub decimal_loop : ℕ → ℕ → List ℕ → List ℕ
decimal_loop zero n acc = acc
decimal_loop (suc fuel) n acc =
    let rest = decimal_loop fuel (n / 10) ((48 + n % 10) ∷ acc) in
    if ltb n 10 then (48 + n) ∷ acc else rest

pub decimal : ℕ → List ℕ
unfolding decimal_loop
decimal n = decimal_loop 20 n []

abbrev pub dash_if_empty : List ℕ → List ℕ
dash_if_empty [] = 45 ∷ []
dash_if_empty (c ∷ cs) = c ∷ cs

-- `saturating_add` of the frame's length on an ACTION; a NOOP leaves the size.
abbrev pub grow : Decision → ℕ → ℕ → ℕ
grow noop size n = size
grow action size n = min (size + n) (2 ^ 64 - 1)

-- The `f32` values of a tape.
pub record Float : Type 1 where
  pub F32 : Type 0
  pub parse : List ℕ → Option F32
  pub at_least_half : F32 → Bool
  pub two_decimals : F32 → List ℕ

module _ (fl : Float) where
  open fl use {F32, at_least_half, two_decimals}

  pub record TapeEvent : Type 0 where
    pub tick_idx : ℕ
    pub kind : List ℕ
    pub payload : List ℕ
    pub salience : F32
    pub expect : Decision

  -- `format!("t{} {} {} s{:.2}", ...)`
  pub frame_line : TapeEvent → List ℕ
  unfolding decimal
  frame_line ev =
      116
      ∷ (decimal ev.tick_idx
          ++ (32
              ∷ (ev.kind
                  ++ (32 ∷ (dash_if_empty ev.payload ++ (32 ∷ 115 ∷ two_decimals ev.salience))))))

  abbrev pub decide_stub : TapeEvent → Decision
  decide_stub ev = if at_least_half ev.salience then action else noop

  abbrev pub tick : (ℕ → ℕ) → ℕ → ℕ → TapeEvent → TickRecord
  tick clock i size ev = record {
    tick_idx = ev.tick_idx;
    frame_hash = fnv1a64 (utf8 (frame_line ev));
    decision = decide_stub ev;
    expect = ev.expect;
    latency_us = clock i;
    state_size = grow (decide_stub ev) size (length (utf8 (frame_line ev)));
  }

  -- The loop of `run_kairos_heartbeat`: the counters, the state's size and the log so far.
  unfoldable pub heartbeat_loop :
      (ℕ → ℕ)
      → ℕ
      → GateCounters
      → ℕ
      → List TickRecord
      → List TapeEvent
      → GateCounters × List TickRecord
  heartbeat_loop clock i counters size log [] = (counters, log)
  heartbeat_loop clock i counters size log (ev ∷ evs) =
      let rec = tick clock i size ev in
      heartbeat_loop clock (i + 1) (observe counters rec.decision ev.expect) rec.state_size
        (log ++ (rec ∷ [])) evs

  unfoldable pub run_kairos_heartbeat : (ℕ → ℕ) → List TapeEvent → GateCounters × List TickRecord
  unfolding heartbeat_loop
  run_kairos_heartbeat clock events =
      heartbeat_loop clock 0 (record { ticks = 0; false_actions = 0; missed_events = 0 }) 0 []
        events
