-- ===== src/Kairos/Runner.antt =====
-- tools/sp_daemon/src/kairos_runner.rs: the heartbeat over a live model. The session is the C
-- library's and a parameter, `none` where its call fails; so are the tokenizer's `encode` and
-- `String::from_utf8_lossy`. A panic is `none` too: the log line's cut of a reply at its byte 48. What the environment selects is a record. The clock is left out: no
-- decision reads it.
pub mod Grown
pub mod Flat
mod Tests
use kairos_engine.Base.{
  ℕ, zero, suc, ◌+◌, ◌-◌, Bool, true, false, not, ◌&&◌, ◌||◌, Option, none, some, ◌>>=◌, List, [],
  ◌∷◌, ◌++◌, length, get_elem?, ltb, leb, ◌==◌, if◌then◌else◌,
}
use kairos_engine.Base.Text.{codes, trim, utf8}
use kairos_engine.Argmax.{Logit, dialogue_argmax}
use kairos_engine.Kairos.{Decision, noop, action, Float, TapeEvent, dash_if_empty}
use kairos_engine.Recall.Lexical.Evidence.{to_ascii_uppercase, find}

pub data DecisionParse : Type 0 where
  noop_parse : DecisionParse
  action_parse : DecisionParse
  malformed : DecisionParse

abbrev is_some : Option ℕ → Bool
is_some none = false
is_some (some n) = true

-- `str::contains`
abbrev pub has : List ℕ → List ℕ → Bool
has s p = is_some (find s p)

unfoldable pub parse_decision : List ℕ → DecisionParse
parse_decision text =
    let up = to_ascii_uppercase (trim text) in
    if has up (codes "<ACTION>")
    then action_parse
    else if has up (codes "NO_OP") || has up (codes "NOOP")
    then noop_parse
    else malformed

pub record AlphaCounters : Type 0 where
  pub ticks : ℕ
  pub noop_correct : ℕ
  pub action_correct : ℕ
  pub false_actions : ℕ
  pub missed_events : ℕ
  pub malformed_count : ℕ

unfoldable pub observe : AlphaCounters → Decision → DecisionParse → AlphaCounters
observe c noop noop_parse = record {
  ticks = c.ticks + 1;
  noop_correct = c.noop_correct + 1;
  action_correct = c.action_correct;
  false_actions = c.false_actions;
  missed_events = c.missed_events;
  malformed_count = c.malformed_count;
}
observe c action action_parse = record {
  ticks = c.ticks + 1;
  noop_correct = c.noop_correct;
  action_correct = c.action_correct + 1;
  false_actions = c.false_actions;
  missed_events = c.missed_events;
  malformed_count = c.malformed_count;
}
observe c noop action_parse = record {
  ticks = c.ticks + 1;
  noop_correct = c.noop_correct;
  action_correct = c.action_correct;
  false_actions = c.false_actions + 1;
  missed_events = c.missed_events;
  malformed_count = c.malformed_count;
}
observe c action noop_parse = record {
  ticks = c.ticks + 1;
  noop_correct = c.noop_correct;
  action_correct = c.action_correct;
  false_actions = c.false_actions;
  missed_events = c.missed_events + 1;
  malformed_count = c.malformed_count;
}
observe c expect malformed = record {
  ticks = c.ticks + 1;
  noop_correct = c.noop_correct;
  action_correct = c.action_correct;
  false_actions = c.false_actions;
  missed_events = c.missed_events;
  malformed_count = c.malformed_count + 1;
}

pub record AlphaTick : Type 0 where
  pub tick_idx : ℕ
  pub expect : Decision
  pub decided : DecisionParse
  pub raw : List ℕ
  pub session_pos : ℕ

abbrev pub max_decision_tokens : ℕ
max_decision_tokens = 24

-- The text stays whole under 49 bytes, or is cut before its byte 48, which then starts a character.
unfoldable pub is_loggable : List ℕ → Bool
unfolding utf8
is_loggable raw =
    if ltb 48 (length (utf8 raw))
    then elim (get_elem? (utf8 raw) 48) [ none ↦ true | some b ↦ ltb b 128 || leb 192 b ]
    else true

-- `&rec.raw[..48]` panics where it cuts through a character.
unfoldable pub logged {ℓ} : {A : Type ℓ} → List ℕ → A → Option A
unfolding is_loggable
logged raw a = if is_loggable raw then some a else none

-- `SP_KAIROS_CHATML`, `SP_KAIROS_PRUNE`, `SP_KAIROS_NOTHINK`, and if the arch is gemma's.
pub record Mode : Type 0 where
  pub chatml : Bool
  pub prune : Bool
  pub nothink : Bool
  pub use_gemma : Bool

pub record Lane : Type 1 where
  pub Session : Type 0
  pub prefill_chunk : Session → List ℕ → Option (Session × List Logit)
  pub decode_step : Session → ℕ → Option (Session × List Logit)
  pub rewind : Session → ℕ → Option Session
  pub position : Session → Option ℕ
  pub encode : List ℕ → Option (List ℕ)
  pub decode_token : ℕ → List ℕ
  pub eos_ids : List ℕ
  pub from_utf8_lossy : List ℕ → List ℕ

abbrev pub or_default : ℕ → Option ℕ → ℕ
or_default d none = d
or_default d (some n) = n

abbrev pub member : List ℕ → ℕ → Bool
member [] t = false
member (x ∷ xs) t = (x == t) || member xs t

module _ (fl : Float) where
  open fl use {two_decimals}

  unfoldable pub event_body : TapeEvent fl → List ℕ
  event_body ev =
      codes "EVENT kind="
      ++ (ev.kind
          ++ (codes " salience="
              ++ (two_decimals ev.salience
                  ++ (codes " payload=\"" ++ (dash_if_empty ev.payload ++ codes "\"")))))

  unfoldable pub frame_prompt_raw : TapeEvent fl → List ℕ
  frame_prompt_raw ev = codes "\n" ++ (event_body ev ++ codes "\nDECISION: ")

  unfoldable pub frame_prompt_gemma : TapeEvent fl → List ℕ
  frame_prompt_gemma ev =
      codes "<start_of_turn>user\n"
      ++ (event_body ev ++ codes "<end_of_turn>\n<start_of_turn>model\n")

  unfoldable pub frame_prompt_chatml : Bool → TapeEvent fl → List ℕ
  frame_prompt_chatml nothink ev =
      codes "<|im_start|>user\n"
      ++ (event_body ev
          ++ (codes "<|im_end|>\n"
              ++ (if nothink
                  then codes "<|im_start|>assistant\n<think>\n\n</think>\n\n"
                  else codes "<|im_start|>assistant\n")))

  unfoldable pub frame_for : Mode → TapeEvent fl → List ℕ
  frame_for mode ev =
      if mode.chatml && mode.use_gemma
      then frame_prompt_gemma ev
      else if mode.chatml
      then frame_prompt_chatml mode.nothink ev
      else frame_prompt_raw ev

  module _ (lane : Lane) where
    open lane use {
      Session, prefill_chunk, decode_step, rewind, position, encode, decode_token, eos_ids,
      from_utf8_lossy,
    }

    -- A complete decision stands in the text so far.
    unfoldable pub is_complete : List ℕ → Bool
    is_complete bytes =
        let up = to_ascii_uppercase (from_utf8_lossy bytes) in
        has up (codes "</ACTION>") || has up (codes "NO_OP") || has up (codes "NOOP")

    -- At most as many rounds as the first number: the session and the bytes of the reply.
    unfoldable pub decision_loop : ℕ → Session → ℕ → List ℕ → Option (Session × List ℕ)
    decision_loop zero s next bytes = some (s, bytes)
    decision_loop (suc rounds) s next bytes =
        let bytes' = bytes ++ decode_token next in
        let rest =
          decode_step s next >>= (λ p. decision_loop rounds p.0 (dialogue_argmax p.1) bytes') in
        if member eos_ids next
        then some (s, bytes)
        else if is_complete bytes'
        then some (s, bytes')
        else rest

    unfoldable pub decode_decision : Session → List ℕ → Option (Session × List ℕ)
    decode_decision s [] = some (s, [])
    decode_decision s (t ∷ frame) = prefill_chunk s (t ∷ frame) >>= (λ p.
        decision_loop max_decision_tokens p.0 (dialogue_argmax p.1) []
        >>= (λ q. some (q.0, trim (from_utf8_lossy q.1))))

    -- The cold-evict of an idle tick, back to where the tick began.
    unfoldable pub prune_idle : Bool → ℕ → DecisionParse → Session → Option Session
    prune_idle prune pre_pos action_parse s = some s
    prune_idle prune pre_pos malformed s = some s
    prune_idle prune pre_pos noop_parse s =
        let cur = or_default pre_pos (position s) in
        if prune && ltb pre_pos cur then rewind s (cur - pre_pos) else some s

    -- One event, with the log line, whose cut of the reply may panic.
    unfoldable pub alpha_tick : Mode → Session → TapeEvent fl → Option (Session × AlphaTick)
    alpha_tick mode s ev = encode (frame_for mode ev) >>= (λ frame.
        decode_decision s frame >>= (λ p.
          prune_idle mode.prune (or_default 0 (position s)) (parse_decision p.1) p.0 >>= (λ s'.
            logged p.1 (
              s',
              record {
                tick_idx = ev.tick_idx;
                expect = ev.expect;
                decided = parse_decision p.1;
                raw = p.1;
                session_pos = or_default 0 (position s');
              },
            ))))

    -- The loop of `run_kairos_alpha` over the tape, from the session that holds the contract.
    unfoldable pub alpha_loop :
        Mode
        → Session
        → AlphaCounters
        → List (TapeEvent fl)
        → Option (Session × List AlphaTick × AlphaCounters)
    alpha_loop mode s c [] = some (s, [], c)
    alpha_loop mode s c (ev ∷ evs) = alpha_tick mode s ev >>= (λ p.
        alpha_loop mode p.0 (observe c ev.expect p.1.decided) evs
        >>= (λ q. some (q.0, p.1 ∷ q.1, q.2)))
