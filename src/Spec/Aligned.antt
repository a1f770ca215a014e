-- ===== src/Spec/Aligned.antt =====
-- The step returns, and leaves the two sessions in step, over an engine that keeps its contract.
use mathlib.Core.List.{append_assoc, append-nil}
use kairos_engine.Base.{
  ℕ, zero, suc, ◌+◌, ◌-◌, ◌^◌, ◌≤◌, ◌<◌, ◌≡◌, refl, ap, sym, ◌∙◌, ◌⊎◌, inl, inr, Bool, true, false,
  Option, some, none, List, [], ◌∷◌, ◌++◌, length, take, length-append, length-take, take-append,
  take-append_add, take-take_le, ltb, ◌>>=◌, ◌==◌, if◌then◌else◌, subst, arith,
}
use kairos_engine.Argmax.{Logit, argmax}
use kairos_engine.Spec.{
  Engine, SpecOut, spec_step, verify_loop, reject, accept_all, draft_loop, last_of, rewind_by,
  spec_out, take_back,
}

-- The contract of the engine: a session has the tokens that it was given, it takes another while
-- there is room, and gives back as many as it has.
pub record Laws (e : Engine) : Type 0 where
  pub tokens : e.Session → List ℕ
  pub room : ℕ
  pub decodes :
      (s : e.Session) (t : ℕ)
      → length (tokens s) < room
      → (s' : e.Session) × (row : List Logit) × (e.decode_step s t ≡ some (s', row))
        × (tokens s' ≡ tokens s ++ (t ∷ []))
  pub rewinds :
      (s : e.Session) (n : ℕ)
      → n ≤ length (tokens s)
      → (s' : e.Session) × (e.rewind s n ≡ some s')
        × (tokens s' ≡ take (length (tokens s) - n) (tokens s))

-- A first part and one more element of a list.
take_suc :
    (n : ℕ) (x : ℕ) (xs : List ℕ) → length xs ≡ n → take n (x ∷ xs) ++ (last_of x xs ∷ []) ≡ x ∷ xs
take_suc zero x [] h = refl
take_suc zero x (y ∷ xs) h = absurd (omega (arith, h))
take_suc (suc n) x [] h = absurd (omega (arith, h))
take_suc (suc n) x (y ∷ xs) h = ap (λ (l : List ℕ). x ∷ l) (take_suc n y xs (omega (arith, h)))

module _ (e : Engine) (laws : Laws e) where
  open e use {Session, decode_step, rewind}

  draft_loop-total :
      (n : ℕ) (d : Session) (last : ℕ)
      → length (laws.tokens d) + n ≤ laws.room
      → (ts : List ℕ) × (d' : Session) × (draft_loop e n d last ≡ some (ts, d'))
        × (length ts ≡ n)
        × (laws.tokens d' ≡ laws.tokens d ++ take n (last ∷ ts))
  unfolding draft_loop
  draft_loop-total zero d last fits = ([], d, refl, refl, sym (append-nil (laws.tokens d)))
  draft_loop-total (suc n) d last fits =
      let (d', row, step, is_d') = laws.decodes d last (omega (arith, fits)) in
      let (ts, d'', run, len, is_d'') =
        draft_loop-total n d' (argmax row)
          (omega (arith, fits, ap length is_d', length-append (laws.tokens d) (last ∷ []))) in
      (
        argmax row ∷ ts,
        d'',
        rw (step, run) refl,
        ap suc len,
        is_d''
            ∙ ap (λ (l : List ℕ). l ++ take n (argmax row ∷ ts)) is_d'
            ∙ append_assoc (laws.tokens d) (last ∷ []) (take n (argmax row ∷ ts)),
      )

  -- Both sessions have gone forward by the accepted tokens, at most `k`; the draft's row is there
  -- exactly if all `k` are accepted.
  pub record IsAligned (k : ℕ) (target draft : Session) (out : SpecOut e) : Type 0 where
    pub target_on : laws.tokens out.target ≡ laws.tokens target ++ out.accepted
    pub draft_on : laws.tokens out.draft ≡ laws.tokens draft ++ out.accepted
    pub all_or_less :
        ((length out.accepted ≡ k) × (row : List Logit) × (out.next_draft_logits ≡ some row))
        ⊎ ((length out.accepted < k) × (out.next_draft_logits ≡ none))

  module _ (k last : ℕ) (proposed : List ℕ) (target draft draft' : Session)
      (size : length proposed ≡ k) (pos : 1 ≤ k) (word : k < 2 ^ 64)
      (drafted : laws.tokens draft' ≡ laws.tokens draft ++ take (k - 1) proposed)
      (ended : take (k - 1) proposed ++ (last ∷ []) ≡ proposed)
      (target_room : length (laws.tokens target) + k ≤ laws.room)
      (draft_room : length (laws.tokens draft) + k ≤ laws.room) where
    abbrev Good : Option (SpecOut e) → Type 0
    Good r = (out : SpecOut e) × (r ≡ some out) × IsAligned k target draft out

    draft_length : length (laws.tokens draft') ≡ length (laws.tokens draft) + (k - 1)
    draft_length = omega (
      arith,
      ap length drafted,
      length-append (laws.tokens draft) (take (k - 1) proposed),
      length-take (k - 1) proposed,
      size,
    )

    accept_all-Good :
        (t : Session) (logits : List Logit) (acc : List ℕ)
        → acc ≡ proposed
        → laws.tokens t ≡ laws.tokens target ++ acc
        → Good (accept_all e last t draft' logits acc)
    unfolding accept_all
    accept_all-Good t logits acc whole on =
        let (d, row, step, is_d) =
          laws.decodes draft' last (omega (arith, draft_length, draft_room, pos)) in
        (
          spec_out e acc logits (some row) t d,
          rw (step) refl,
          record {
            target_on = on;
            draft_on =
                is_d
                ∙ ap (λ (l : List ℕ). l ++ (last ∷ [])) drafted
                ∙ append_assoc (laws.tokens draft) (take (k - 1) proposed) (last ∷ [])
                ∙ ap (λ (l : List ℕ). laws.tokens draft ++ l) (ended ∙ sym whole);
            all_or_less = inl (omega (arith, ap length whole, size), row, refl);
          },
        )

    -- The draft session after it has given back what is not accepted.
    take_back-on :
        (acc ds : List ℕ)
        → acc ++ ds ≡ proposed
        → length acc < k
        → (d : Session) × (take_back e (rewind_by k (length acc)) draft' ≡ some d)
          × (laws.tokens d ≡ laws.tokens draft ++ acc)
    unfolding take_back
    take_back-on acc ds split less = go (ltb 0 (rewind_by k (length acc))) refl
      where
        i : ℕ
        i = length acc

        by : rewind_by k i ≡ k - 1 - i
        by = omega (arith, less, word)

        kept : take i proposed ≡ acc
        kept = ap (take i) (sym split) ∙ take-append acc ds

        go :
            (b : Bool)
            → ltb 0 (rewind_by k i) ≡ b
            → (d : Session) × ((if b then rewind draft' (rewind_by k i) else some draft') ≡ some d)
              × (laws.tokens d ≡ laws.tokens draft ++ acc)
        go true h =
            let (d, run, is_d) =
              laws.rewinds draft' (rewind_by k i) (omega (arith, by, draft_length)) in
            (
              d,
              run,
              is_d
                  ∙ ap (λ (l : List ℕ). take (length (laws.tokens draft') - rewind_by k i) l)
                      drafted
                  ∙ ap (λ (n : ℕ). take n (laws.tokens draft ++ take (k - 1) proposed))
                      (remaining by draft_length)
                  ∙ take-append_add (laws.tokens draft) (take (k - 1) proposed) i
                  ∙ ap (λ (l : List ℕ). laws.tokens draft ++ l)
                      (take-take_le i (k - 1) proposed (omega (arith, less)) ∙ kept),
            )
          where
            remaining :
                rewind_by k i ≡ k - 1 - i
                → length (laws.tokens draft') ≡ length (laws.tokens draft) + (k - 1)
                → length (laws.tokens draft') - rewind_by k i ≡ length (laws.tokens draft) + i
            remaining by len = omega (arith, by, len, less)
        go false h =
            let at_end : k - 1 ≡ i = ground (arith, h, by, less) in
            (
              draft',
              refl,
              drafted
                  ∙ ap (λ (n : ℕ). laws.tokens draft ++ take n proposed) at_end
                  ∙ ap (λ (l : List ℕ). laws.tokens draft ++ l) kept,
            )

    reject-Good :
        (t : Session) (logits : List Logit) (acc ds : List ℕ)
        → acc ++ ds ≡ proposed
        → length acc < k
        → laws.tokens t ≡ laws.tokens target ++ acc
        → Good (reject e k (length acc) t draft' logits acc)
    unfolding reject
    reject-Good t logits acc ds split less on =
        let (d, run, is_d) = take_back-on acc ds split less in
        (
          spec_out e acc logits none t d,
          rw (run) refl,
          record { target_on = on; draft_on = is_d; all_or_less = inr (less, refl) },
        )

    verify_loop-Good :
        (ds : List ℕ) (t : Session) (logits : List Logit) (acc : List ℕ)
        → acc ++ ds ≡ proposed
        → laws.tokens t ≡ laws.tokens target ++ acc
        → Good (verify_loop e k (length acc) last ds t draft' logits acc)
    unfolding verify_loop
    verify_loop-Good [] t logits acc split on =
        accept_all-Good t logits acc (sym (append-nil acc) ∙ split) on
    verify_loop-Good (d ∷ ds) t logits acc split on =
        go (argmax logits == d) (laws.decodes t d room_left)
          (λ (t' : Session) (logits' : List Logit)
              (on' : laws.tokens t' ≡ laws.tokens t ++ (d ∷ [])).
            subst_index t' logits' (
              verify_loop-Good ds t' logits' (acc ++ (d ∷ []))
                (append_assoc acc (d ∷ []) ds ∙ split)
                (on'
                  ∙ ap (λ (l : List ℕ). l ++ (d ∷ [])) on
                  ∙ append_assoc (laws.tokens target) acc (d ∷ []))))
      where
        less : length acc < k
        less = omega (arith, ap length split, length-append acc (d ∷ ds), size)

        room_left : length (laws.tokens t) < laws.room
        room_left =
            omega (arith, less, ap length on, length-append (laws.tokens target) acc, target_room)

        subst_index :
            (t' : Session) (logits' : List Logit)
            → Good (
                verify_loop e k
                  (length (acc ++ (d ∷ [])))
                  last
                  ds
                  t'
                  draft'
                  logits'
                  (acc ++ (d ∷ [])))
            → Good (verify_loop e k (length acc + 1) last ds t' draft' logits' (acc ++ (d ∷ [])))
        subst_index t' logits' h =
            subst (λ (n : ℕ). Good (verify_loop e k n last ds t' draft' logits' (acc ++ (d ∷ []))))
              (length-append acc (d ∷ [])) h

        go :
            (b : Bool)
            → (t' : Session) × (row : List Logit) × (decode_step t d ≡ some (t', row))
              × (laws.tokens t' ≡ laws.tokens t ++ (d ∷ []))
            → ((t' : Session) (logits' : List Logit)
                → laws.tokens t' ≡ laws.tokens t ++ (d ∷ [])
                → Good
                    (verify_loop e k (length acc + 1) last ds t' draft' logits' (acc ++ (d ∷ []))))
            → Good (
                if b
                then decode_step t d >>= (λ (p : Session × List Logit).
                  verify_loop e k (length acc + 1) last ds p.0 draft' p.1 (acc ++ (d ∷ [])))
                else reject e k (length acc) t draft' logits acc)
        go true (t', row, step, on') rest = rw (step) (rest t' row on')
        go false more rest = reject-Good t logits acc (d ∷ ds) split less on

  -- For a `k` of at least 1 and below 2 ^ 64, over an engine that keeps its contract and has room
  -- for `k` more tokens in both sessions, the step returns, with both sessions gone forward by the accepted tokens: all `k` and the draft's
  -- next row, or fewer and none.
  pub spec_step-IsAligned :
      (target draft : Session) (target_logits draft_logits : List Logit) (k : ℕ)
      → 1 ≤ k
      → k < 2 ^ 64
      → length (laws.tokens target) + k ≤ laws.room
      → length (laws.tokens draft) + k ≤ laws.room
      → (out : SpecOut e) × (spec_step e target draft target_logits draft_logits k ≡ some out)
        × IsAligned k target draft out
  unfolding spec_step
  spec_step-IsAligned target draft target_logits draft_logits k pos word target_room draft_room =
      let (ts, draft', run, len, drafted) =
        draft_loop-total (k - 1) draft (argmax draft_logits) (omega (arith, draft_room, pos)) in
      let (out, ran, good) =
        verify_loop-Good k (last_of (argmax draft_logits) ts) (argmax draft_logits ∷ ts) target
          draft draft' (omega (arith, len, pos)) pos word drafted
          (take_suc (k - 1) (argmax draft_logits) ts len) target_room draft_room
          (argmax draft_logits ∷ ts) target target_logits [] refl
          (sym (append-nil (laws.tokens target))) in
      (out, rw (run) ran, good)
