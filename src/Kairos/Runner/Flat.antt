-- ===== src/Kairos/Runner/Flat.antt =====
-- The run over a tape returns, and an idle tick leaves the session as it found it.
use mathlib.Core.Option.{some-injective}
use kairos_engine.Base.{
  >>=-eq-some, All, ℕ, suc, ◌+◌, ◌≤◌, ◌≡◌, refl, ap, sym, ◌∙◌, Bool, true, Option, some, ◌>>=◌,
  List, [], ◌∷◌, length, length-append, subst, arith,
}
use kairos_engine.Base.Text.{trim}
use kairos_engine.Argmax.{Logit, dialogue_argmax}
use kairos_engine.Kairos.{Decision, noop, action, Float, TapeEvent}
use kairos_engine.Kairos.Runner.Grown.{Laws, Grown, decode_decision-total, prune_idle-total}
use kairos_engine.Kairos.Runner.{
  DecisionParse, noop_parse, action_parse, malformed, parse_decision, AlphaCounters, observe,
  AlphaTick, Mode, Lane, or_default, max_decision_tokens, frame_for, decision_loop, decode_decision,
  is_loggable, logged, alpha_tick, alpha_loop,
}

-- The counters are all the ticks.
abbrev pub AddsUp : AlphaCounters → Type 0
AddsUp c =
    c.ticks
    ≡ c.noop_correct + c.action_correct + c.false_actions + c.missed_events + c.malformed_count

observe-AddsUp :
    (c : AlphaCounters) (e : Decision) (d : DecisionParse) → AddsUp c → AddsUp (observe c e d)
unfolding observe
observe-AddsUp c noop noop_parse h = omega (arith, h)
observe-AddsUp c noop action_parse h = omega (arith, h)
observe-AddsUp c noop malformed h = omega (arith, h)
observe-AddsUp c action noop_parse h = omega (arith, h)
observe-AddsUp c action action_parse h = omega (arith, h)
observe-AddsUp c action malformed h = omega (arith, h)

observe-ticks :
    (c : AlphaCounters) (e : Decision) (d : DecisionParse) → (observe c e d).ticks ≡ c.ticks + 1
unfolding observe
observe-ticks c noop noop_parse = refl
observe-ticks c noop action_parse = refl
observe-ticks c noop malformed = refl
observe-ticks c action noop_parse = refl
observe-ticks c action action_parse = refl
observe-ticks c action malformed = refl

-- The positions after the ticks, from one before: an idle tick that is pruned keeps the position,
-- and no tick goes back behind it.
abbrev pub IsFlat : Bool → ℕ → List AlphaTick → Type 0
IsFlat prune pos [] = Unit
IsFlat prune pos (t ∷ log) =
    (prune ≡ true → t.decided ≡ noop_parse → t.session_pos ≡ pos)
    × (pos ≤ t.session_pos)
    × IsFlat prune t.session_pos log

module _ (fl : Float) (lane : Lane) (laws : Laws lane) where
  open lane use {
    Session, prefill_chunk, decode_step, rewind, position, encode, decode_token, eos_ids,
    from_utf8_lossy,
  }

  abbrev tick_of : TapeEvent fl → List ℕ → Session → AlphaTick
  tick_of ev out s = record {
    tick_idx = ev.tick_idx;
    expect = ev.expect;
    decided = parse_decision out;
    raw = out;
    session_pos = or_default 0 (position s);
  }

  -- The log line's cut of the reply to this frame is safe.
  abbrev pub Loggable : Session → List ℕ → Type 0
  Loggable s frame =
      (s' : Session) (out : List ℕ)
      → decode_decision fl lane s frame ≡ some (s', out)
      → is_loggable out ≡ true

  -- The cuts of all replies of a run are safe.
  unfoldable pub IsLogged : Mode → Session → List (TapeEvent fl) → Type 0
  IsLogged mode s [] = Unit
  IsLogged mode s (ev ∷ evs) =
      ((frame : List ℕ) → encode (frame_for fl mode ev) ≡ some frame → Loggable s frame)
      × ((s' : Session) (t : AlphaTick)
          → alpha_tick fl lane mode s ev ≡ some (s', t)
          → IsLogged mode s' evs)

  -- Over a decoder that gives only texts whose cut is safe, those of every run are.
  decoder-Loggable :
      ((bytes : List ℕ) → is_loggable (trim (from_utf8_lossy bytes)) ≡ true)
      → (s : Session) (frame : List ℕ) → Loggable s frame
  unfolding decode_decision is_loggable
  decoder-Loggable h s [] s' out run =
      ap is_loggable
        (sym (ap (λ (p : Session × List ℕ). p.1) (some-injective (s, []) (s', out) run)))
  decoder-Loggable h s (t ∷ frame) s' out run =
      let read : Session × List ℕ → Option (Session × List ℕ) =
        λ q. some (q.0, trim (from_utf8_lossy q.1)) in
      let (p, filled, rest) =
        >>=-eq-some (prefill_chunk s (t ∷ frame))
          (λ (r : Session × List Logit).
            decision_loop fl lane max_decision_tokens r.0 (dialogue_argmax r.1) [] >>= read)
          run in
      let (q, replied, ends) =
        >>=-eq-some (decision_loop fl lane max_decision_tokens p.0 (dialogue_argmax p.1) []) read
          rest in
      ap is_loggable (
        sym (
          ap (λ (r : Session × List ℕ). r.1)
            (some-injective (q.0, trim (from_utf8_lossy q.1)) (s', out) ends)))
      ∙ h q.1

  pub decoder-IsLogged :
      ((bytes : List ℕ) → is_loggable (trim (from_utf8_lossy bytes)) ≡ true)
      → (mode : Mode) (s : Session) (evs : List (TapeEvent fl)) → IsLogged mode s evs
  unfolding IsLogged
  decoder-IsLogged h mode s [] = tt
  decoder-IsLogged h mode s (ev ∷ evs) =
      ((λ frame e. decoder-Loggable h s frame), (λ s' t e. decoder-IsLogged h mode s' evs))

  alpha_tick-total :
      (mode : Mode) (s : Session) (ev : TapeEvent fl) (frame : List ℕ)
      → encode (frame_for fl mode ev) ≡ some frame
      → Loggable s frame
      → length (laws.tokens s) + (length frame + max_decision_tokens) ≤ laws.room
      → (s' : Session) × (t : AlphaTick) × (alpha_tick fl lane mode s ev ≡ some (s', t))
        × Grown fl lane laws (length frame + max_decision_tokens) s s'
        × (t.session_pos ≡ length (laws.tokens s'))
        × (mode.prune ≡ true → t.decided ≡ noop_parse → laws.tokens s' ≡ laws.tokens s)
  unfolding alpha_tick logged
  alpha_tick-total mode s ev frame encoded in_log fits =
      let (s', out, run, grown) = decode_decision-total fl lane laws s frame fits in
      let (s'', evicted, grown', idle) =
        prune_idle-total fl lane laws mode.prune (length frame + max_decision_tokens) s s'
          (parse_decision out) grown in
      (
        s'',
        tick_of ev out s'',
        rw (encoded, run, evicted, in_log s' out run) refl,
        grown',
        ap (or_default 0) (laws.positions s''),
        idle,
      )

  -- What the tape can take of the room, each reply at its longest.
  abbrev pub need : (TapeEvent fl → List ℕ) → List (TapeEvent fl) → ℕ
  need ids [] = 0
  need ids (ev ∷ evs) = (length (ids ev) + max_decision_tokens) + need ids evs

  -- The run over a tape whose frames the tokenizer encodes, in a session with room for them and for
  -- the longest replies, returns a tick for each event, if no reply of the run, trimmed, has more
  -- than 48 bytes with its byte 48 inside a character: there the log line panics. Its counters count
  -- every tick once, no tick goes back behind the session that it found, and one that is idle and
  -- pruned leaves it so.
  pub alpha_loop-IsFlat :
      (mode : Mode) (ids : TapeEvent fl → List ℕ) (s : Session) (c : AlphaCounters)
      (evs : List (TapeEvent fl))
      → All (λ (ev : TapeEvent fl). encode (frame_for fl mode ev) ≡ some (ids ev)) evs
      → IsLogged mode s evs
      → length (laws.tokens s) + need ids evs ≤ laws.room
      → AddsUp c
      → (s' : Session) × (log : List AlphaTick) × (c' : AlphaCounters) × (alpha_loop fl lane mode s
            c evs
          ≡ some (s', log, c'))
        × (length log ≡ length evs)
        × (c'.ticks ≡ c.ticks + length evs)
        × AddsUp c'
        × IsFlat mode.prune (length (laws.tokens s)) log
  unfolding alpha_loop IsLogged
  alpha_loop-IsFlat mode ids s c [] encoded in_log fits adds =
      (s, [], c, refl, refl, omega arith, adds, tt)
  alpha_loop-IsFlat mode ids s c (ev ∷ evs) (encoded, later) (in_log, later_log) fits adds =
      let (s', t, ran, grown, at, idle) =
        alpha_tick-total mode s ev (ids ev) encoded (in_log (ids ev) encoded)
          (omega (arith, fits)) in
      let longer : length (laws.tokens s') ≡ length (laws.tokens s) + length grown.added =
        omega (arith, ap length grown.with_added, length-append (laws.tokens s) grown.added) in
      let (s'', log, c', run, len, count, adds', flat) =
        alpha_loop-IsFlat mode ids s' (observe c ev.expect t.decided) evs later (later_log s' t ran)
          (omega (arith, fits, longer, grown.at_most))
          (observe-AddsUp c ev.expect t.decided adds) in
      (
        s'',
        t ∷ log,
        c',
        rw (ran, run) refl,
        ap suc len,
        omega (arith, count, observe-ticks c ev.expect t.decided),
        adds',
        (
          (λ p q. at ∙ ap length (idle p q)),
          omega (arith, at, longer),
          subst (λ (n : ℕ). IsFlat mode.prune n log) (sym at) flat,
        ),
      )
