-- ===== src/Kairos/Runner/Grown.antt =====
-- The contract of the session, and what a reply and the cold-evict add to it.
use mathlib.Core.List.{append_assoc, append-nil}
use kairos_engine.Base.{
  ℕ, zero, suc, ◌+◌, ◌-◌, ◌<◌, ◌≤◌, ◌≡◌, refl, ap, sym, ◌∙◌, Bool, true, false, ◌&&◌, Option, some,
  ◌>>=◌, List, [], ◌∷◌, ◌++◌, length, take, length-append, take-append, ltb, if◌then◌else◌, arith,
}
use kairos_engine.Base.Text.{trim}
use kairos_engine.Argmax.{Logit, dialogue_argmax}
use kairos_engine.Kairos.{Float}
use kairos_engine.Kairos.Runner.{
  DecisionParse, noop_parse, action_parse, malformed, Lane, or_default, member, max_decision_tokens,
  is_complete, decision_loop, decode_decision, prune_idle,
}

-- The contract of the session: it has the tokens it was given, it takes more while there is room,
-- gives back as many as it has, and knows how many they are.
pub record Laws (lane : Lane) : Type 0 where
  pub tokens : lane.Session → List ℕ
  pub room : ℕ
  pub prefills :
      (s : lane.Session) (ts : List ℕ)
      → length (tokens s) + length ts ≤ room
      → (s' : lane.Session) × (row : List Logit) × (lane.prefill_chunk s ts ≡ some (s', row))
        × (tokens s' ≡ tokens s ++ ts)
  pub decodes :
      (s : lane.Session) (t : ℕ)
      → length (tokens s) < room
      → (s' : lane.Session) × (row : List Logit) × (lane.decode_step s t ≡ some (s', row))
        × (tokens s' ≡ tokens s ++ (t ∷ []))
  pub rewinds :
      (s : lane.Session) (n : ℕ)
      → n ≤ length (tokens s)
      → (s' : lane.Session) × (lane.rewind s n ≡ some s')
        × (tokens s' ≡ take (length (tokens s) - n) (tokens s))
  pub positions : (s : lane.Session) → lane.position s ≡ some (length (tokens s))

module _ (fl : Float) (lane : Lane) (laws : Laws lane) where
  open lane use {
    Session, prefill_chunk, decode_step, rewind, position, encode, decode_token, eos_ids,
    from_utf8_lossy,
  }

  -- A session that has been given at most so many tokens more.
  pub record Grown (bound : ℕ) (s s' : Session) : Type 0 where
    pub added : List ℕ
    pub with_added : laws.tokens s' ≡ laws.tokens s ++ added
    pub at_most : length added ≤ bound

  decision_loop-total :
      (rounds : ℕ) (s : Session) (next : ℕ) (bytes : List ℕ)
      → length (laws.tokens s) + rounds ≤ laws.room
      → (s' : Session) × (out : List ℕ) × (decision_loop fl lane rounds s next bytes
          ≡ some (s', out))
        × Grown rounds s s'
  unfolding decision_loop
  decision_loop-total zero s next bytes fits = (
    s,
    bytes,
    refl,
    record { added = []; with_added = sym (append-nil (laws.tokens s)); at_most = omega arith },
  )
  decision_loop-total (suc rounds) s next bytes fits =
      let (s', row, step, on) = laws.decodes s next (omega (arith, fits)) in
      let more : length (laws.tokens s') + rounds ≤ laws.room =
        omega (arith, fits, ap length on, length-append (laws.tokens s) (next ∷ [])) in
      let (s'', out, run, grown) =
        decision_loop-total rounds s' (dialogue_argmax row) (bytes ++ decode_token next) more in
      go (member eos_ids next) (is_complete fl lane (bytes ++ decode_token next)) s'' out
        (ap
            (λ (o : Option (Session × List Logit)). o >>= (λ p.
              decision_loop fl lane rounds p.0 (dialogue_argmax p.1) (bytes ++ decode_token next)))
            step
          ∙ run)
        record {
          added = next ∷ grown.added;
          with_added =
              grown.with_added
              ∙ ap (λ (l : List ℕ). l ++ grown.added) on
              ∙ append_assoc (laws.tokens s) (next ∷ []) grown.added;
          at_most = omega (arith, grown.at_most);
        }
    where
      still : Grown (suc rounds) s s
      still = record {
        added = [];
        with_added = sym (append-nil (laws.tokens s));
        at_most = omega arith;
      }

      rest : Option (Session × List ℕ)
      rest = decode_step s next >>= (λ p.
          decision_loop fl lane rounds p.0 (dialogue_argmax p.1) (bytes ++ decode_token next))

      go :
          (a b : Bool) (s'' : Session) (out : List ℕ)
          → rest ≡ some (s'', out)
          → Grown (suc rounds) s s''
          → (s' : Session) × (o : List ℕ) × ((if a
                then some (s, bytes)
                else if b
                then some (s, bytes ++ decode_token next)
                else rest)
              ≡ some (s', o))
            × Grown (suc rounds) s s'
      go true b s'' out run grown = (s, bytes, refl, still)
      go false true s'' out run grown = (s, bytes ++ decode_token next, refl, still)
      go false false s'' out run grown = (s'', out, run, grown)

  pub decode_decision-total :
      (s : Session) (frame : List ℕ)
      → length (laws.tokens s) + (length frame + max_decision_tokens) ≤ laws.room
      → (s' : Session) × (out : List ℕ) × (decode_decision fl lane s frame ≡ some (s', out))
        × Grown (length frame + max_decision_tokens) s s'
  unfolding decode_decision
  decode_decision-total s [] fits = (
    s,
    [],
    refl,
    record { added = []; with_added = sym (append-nil (laws.tokens s)); at_most = omega arith },
  )
  decode_decision-total s (t ∷ frame) fits =
      let (s', row, fill, on) = laws.prefills s (t ∷ frame) (omega (arith, fits)) in
      let (s'', bytes, run, grown) =
        decision_loop-total max_decision_tokens s' (dialogue_argmax row) []
          (omega (arith, fits, ap length on, length-append (laws.tokens s) (t ∷ frame))) in
      (
        s'',
        trim (from_utf8_lossy bytes),
        rw (fill, run) refl,
        record {
          added = (t ∷ frame) ++ grown.added;
          with_added =
              grown.with_added
              ∙ ap (λ (l : List ℕ). l ++ grown.added) on
              ∙ append_assoc (laws.tokens s) (t ∷ frame) grown.added;
          at_most = omega (arith, grown.at_most, length-append (t ∷ frame) grown.added);
        },
      )

  -- A pruned session has the tokens from before, if the tick was idle.
  pub prune_idle-total :
      (prune : Bool) (bound : ℕ) (s s' : Session) (d : DecisionParse)
      → Grown bound s s'
      → (s'' : Session) × (prune_idle fl lane prune (or_default 0 (position s)) d s' ≡ some s'')
        × Grown bound s s''
        × (prune ≡ true → d ≡ noop_parse → laws.tokens s'' ≡ laws.tokens s)
  unfolding prune_idle
  prune_idle-total prune bound s s' action_parse grown = (s', refl, grown, λ p q. absurd (cc q))
  prune_idle-total prune bound s s' malformed grown = (s', refl, grown, λ p q. absurd (cc q))
  prune_idle-total prune bound s s' noop_parse grown =
      let pre = or_default 0 (position s) in
      let cur = or_default pre (position s') in
      go pre cur (ap (or_default 0) (laws.positions s)) (ap (or_default pre) (laws.positions s'))
        prune refl (ltb pre cur) refl
    where
      longer : length (laws.tokens s') ≡ length (laws.tokens s) + length grown.added
      longer = omega (arith, ap length grown.with_added, length-append (laws.tokens s) grown.added)

      go :
          (pre cur : ℕ)
          → pre ≡ length (laws.tokens s)
          → cur ≡ length (laws.tokens s')
          → (p : Bool) → prune ≡ p
          → (l : Bool) → ltb pre cur ≡ l
          → (s'' : Session) × ((if p && l then rewind s' (cur - pre) else some s') ≡ some s'')
            × Grown bound s s''
            × (prune ≡ true → noop_parse ≡ noop_parse → laws.tokens s'' ≡ laws.tokens s)
      go pre cur is_pre is_cur false ep l el = (s', refl, grown, λ p q. absurd (cc (sym ep ∙ p)))
      go pre cur is_pre is_cur true ep false el =
          (s', refl, grown, λ p q. same grown.added grown.with_added none_added)
        where
          none_added : length grown.added ≡ 0
          none_added = ground (arith, el, is_pre, is_cur, longer)

          same :
              (l : List ℕ)
              → laws.tokens s' ≡ laws.tokens s ++ l
              → length l ≡ 0
              → laws.tokens s' ≡ laws.tokens s
          same [] e h = e ∙ append-nil (laws.tokens s)
          same (x ∷ l) e h = absurd (omega (arith, h))
      go pre cur is_pre is_cur true ep true el =
          let (s'', run, on) =
            laws.rewinds s' (cur - pre) (omega (arith, is_pre, is_cur, longer)) in
          let back : laws.tokens s'' ≡ laws.tokens s =
            on
            ∙ ap (λ (n : ℕ). take n (laws.tokens s')) (kept cur pre is_pre is_cur longer)
            ∙ ap (take (length (laws.tokens s))) grown.with_added
            ∙ take-append (laws.tokens s) grown.added in
          (
            s'',
            run,
            record {
              added = [];
              with_added = back ∙ sym (append-nil (laws.tokens s));
              at_most = omega arith;
            },
            λ p q. back,
          )
        where
          kept :
              (cur pre : ℕ)
              → pre ≡ length (laws.tokens s)
              → cur ≡ length (laws.tokens s')
              → length (laws.tokens s') ≡ length (laws.tokens s) + length grown.added
              → length (laws.tokens s') - (cur - pre) ≡ length (laws.tokens s)
          kept cur pre ip ic lg = omega (arith, ip, ic, lg)
