-- ===== src/Kairos/Heartbeat.antt =====
-- The log and the counters of a run of the heartbeat.
use mathlib.Core.List.{append_assoc, append-nil}
use kairos_engine.Base.{
  ℕ, ◌+◌, ◌^◌, ◌≤◌, ◌<◌, ◌≡◌, refl, ap, sym, ◌∙◌, List, [], ◌∷◌, ◌++◌, length, arith,
}
use kairos_engine.Base.Text.{utf8}
use kairos_engine.Kairos.{
  Float, Decision, noop, action, GateCounters, observe, TickRecord, TapeEvent, decide_stub, grow,
  tick, frame_line, heartbeat_loop, run_kairos_heartbeat,
}

abbrev pub false_action : Decision → Decision → ℕ
false_action action noop = 1
false_action action action = 0
false_action noop d = 0

abbrev pub missed_event : Decision → Decision → ℕ
missed_event noop action = 1
missed_event noop noop = 0
missed_event action d = 0

-- The records of a log whose decision is ACTION where NOOP was expected, and the reverse.
abbrev pub false_count : List TickRecord → ℕ
false_count [] = 0
false_count (r ∷ rs) = false_action r.decision r.expect + false_count rs

abbrev pub missed_count : List TickRecord → ℕ
missed_count [] = 0
missed_count (r ∷ rs) = missed_event r.decision r.expect + missed_count rs

-- From a size on: an idle tick keeps the size, no tick lowers it, and it stays a `u64`.
abbrev pub IsMetered : ℕ → List TickRecord → Type 0
IsMetered size [] = Unit
IsMetered size (r ∷ rs) =
    (r.decision ≡ noop → r.state_size ≡ size)
    × (size ≤ r.state_size)
    × (r.state_size < 2 ^ 64)
    × IsMetered r.state_size rs

observed :
    (c : GateCounters) (d e : Decision)
    → ((observe c d e).ticks ≡ c.ticks + 1)
      × ((observe c d e).false_actions ≡ c.false_actions + false_action d e)
      × ((observe c d e).missed_events ≡ c.missed_events + missed_event d e)
observed c noop noop = (refl, omega arith, omega arith)
observed c noop action = (refl, omega arith, omega arith)
observed c action noop = (refl, omega arith, omega arith)
observed c action action = (refl, omega arith, omega arith)

grow-metered :
    (d : Decision) (size n : ℕ)
    → size < 2 ^ 64
    → (d ≡ noop → grow d size n ≡ size) × (size ≤ grow d size n) × (grow d size n < 2 ^ 64)
grow-metered noop size n h = (λ e. refl, omega arith, h)
grow-metered action size n h = (λ e. absurd (cc e), omega (arith, h), omega (arith, h))

module _ (fl : Float) where
  ticks : (ℕ → ℕ) → ℕ → ℕ → List (TapeEvent fl) → List TickRecord
  ticks clock i size [] = []
  ticks clock i size (ev ∷ evs) =
      tick fl clock i size ev ∷ ticks clock (i + 1) (tick fl clock i size ev).state_size evs

  count_all : GateCounters → List (TapeEvent fl) → GateCounters
  count_all c [] = c
  count_all c (ev ∷ evs) = count_all (observe c (decide_stub fl ev) ev.expect) evs

  heartbeat_loop-eq :
      (clock : ℕ → ℕ) (i : ℕ) (c : GateCounters) (size : ℕ) (log : List TickRecord)
      (evs : List (TapeEvent fl))
      → heartbeat_loop fl clock i c size log evs ≡ (count_all c evs, log ++ ticks clock i size evs)
  unfolding heartbeat_loop ticks count_all
  heartbeat_loop-eq clock i c size log [] =
      ap (λ (l : List TickRecord). (c, l)) (sym (append-nil log))
  heartbeat_loop-eq clock i c size log (ev ∷ evs) =
      let r = tick fl clock i size ev in
      heartbeat_loop-eq clock (i + 1) (observe c r.decision ev.expect) r.state_size
        (log ++ (r ∷ [])) evs
      ∙ ap (λ (l : List TickRecord). (count_all (observe c r.decision ev.expect) evs, l))
          (append_assoc log (r ∷ []) (ticks clock (i + 1) r.state_size evs))

  count_all-counts :
      (clock : ℕ → ℕ) (i size : ℕ) (c : GateCounters) (evs : List (TapeEvent fl))
      → ((count_all c evs).ticks ≡ c.ticks + length evs)
        × ((count_all c evs).false_actions ≡ c.false_actions + false_count (ticks clock i size evs))
        × ((count_all c evs).missed_events
            ≡ c.missed_events + missed_count (ticks clock i size evs))
  unfolding ticks count_all
  count_all-counts clock i size c [] = (omega arith, omega arith, omega arith)
  count_all-counts clock i size c (ev ∷ evs) =
      let (t, f, m) = observed c (decide_stub fl ev) ev.expect in
      let (t', f', m') =
        count_all-counts clock (i + 1) (tick fl clock i size ev).state_size
          (observe c (decide_stub fl ev) ev.expect) evs in
      (omega (arith, t, t'), omega (arith, f, f'), omega (arith, m, m'))

  ticks-IsMetered :
      (clock : ℕ → ℕ) (i size : ℕ) (evs : List (TapeEvent fl))
      → size < 2 ^ 64
      → IsMetered size (ticks clock i size evs)
  unfolding ticks
  ticks-IsMetered clock i size [] h = tt
  ticks-IsMetered clock i size (ev ∷ evs) h =
      let (idle, up, fits) =
        grow-metered (decide_stub fl ev) size (length (utf8 (frame_line fl ev))) h in
      (idle, up, fits, ticks-IsMetered clock (i + 1) (tick fl clock i size ev).state_size evs fits)

  -- One record for each event, in the tape's order, with the event's index and expectation.
  abbrev pub InOrder : List TickRecord → List (TapeEvent fl) → Type 0
  InOrder [] [] = Unit
  InOrder [] (ev ∷ evs) = ⊥
  InOrder (r ∷ rs) [] = ⊥
  InOrder (r ∷ rs) (ev ∷ evs) =
      (r.tick_idx ≡ ev.tick_idx)
      × (r.expect ≡ ev.expect)
      × (r.decision ≡ decide_stub fl ev)
      × InOrder rs evs

  ticks-InOrder :
      (clock : ℕ → ℕ) (i size : ℕ) (evs : List (TapeEvent fl))
      → InOrder (ticks clock i size evs) evs
  unfolding ticks
  ticks-InOrder clock i size [] = tt
  ticks-InOrder clock i size (ev ∷ evs) =
      (refl, refl, refl, ticks-InOrder clock (i + 1) (tick fl clock i size ev).state_size evs)

  -- A run of the heartbeat logs one record for each event, in the tape's order, and its counters
  -- are counts over that log: the ticks, the ACTIONs where NOOP was expected, and the reverse.
  pub heartbeat_accounts :
      (clock : ℕ → ℕ) (evs : List (TapeEvent fl))
      → InOrder (run_kairos_heartbeat fl clock evs).1 evs
        × ((run_kairos_heartbeat fl clock evs).0.ticks ≡ length evs)
        × ((run_kairos_heartbeat fl clock evs).0.false_actions
            ≡ false_count (run_kairos_heartbeat fl clock evs).1)
        × ((run_kairos_heartbeat fl clock evs).0.missed_events
            ≡ missed_count (run_kairos_heartbeat fl clock evs).1)
  unfolding run_kairos_heartbeat
  heartbeat_accounts clock evs =
      let zeros : GateCounters = record { ticks = 0; false_actions = 0; missed_events = 0 } in
      let (t, f, m) = count_all-counts clock 0 0 zeros evs in
      rw (heartbeat_loop-eq clock 0 zeros 0 [] evs)
        (ticks-InOrder clock 0 0 evs, omega (arith, t), omega (arith, f), omega (arith, m))

  -- Along the log of a run, from size 0 on, a NOOP tick leaves the state's size as it was, no tick
  -- lowers it, and it stays below 2 ^ 64.
  pub heartbeat_idle_keeps_size :
      (clock : ℕ → ℕ) (evs : List (TapeEvent fl))
      → IsMetered 0 (run_kairos_heartbeat fl clock evs).1
  unfolding run_kairos_heartbeat
  heartbeat_idle_keeps_size clock evs =
      let zeros : GateCounters = record { ticks = 0; false_actions = 0; missed_events = 0 } in
      rw (heartbeat_loop-eq clock 0 zeros 0 [] evs) (ticks-IsMetered clock 0 0 evs (omega arith))
