-- ===== src/Spec/Greedy.antt =====
-- The accepted tokens against plain greedy decoding of the target.
use mathlib.Core.List.{append_assoc, append-nil}
use mathlib.Core.Option.{some-injective}
use kairos_engine.Base.{
  ℕ, zero, suc, ◌+◌, ◌-◌, ◌≡◌, refl, ap, sym, ◌∙◌, Bool, true, false, Option, some, none, List, [],
  ◌∷◌, ◌++◌, length, ◌>>=◌, >>=-eq-some, ◌==◌, ==_iff, if◌then◌else◌,
}
use kairos_engine.Argmax.{Logit, argmax}
use kairos_engine.Spec.{
  Engine, SpecOut, spec_step, verify_loop, reject, accept_all, draft_loop, last_of, rewind_by,
  spec_out, take_back,
}

module _ (e : Engine) where
  open e use {Session, decode_step, rewind}

  -- Plain greedy decoding of `n` tokens: the tokens, the session and the row after them.
  unfoldable pub greedy : ℕ → Session → List Logit → Option (List ℕ × Session × List Logit)
  greedy zero s logits = some ([], s, logits)
  greedy (suc n) s logits = decode_step s (argmax logits) >>= λ (s', logits').
      greedy n s' logits' >>= λ (ts, s'', logits''). some (argmax logits ∷ ts, s'', logits'')

  data Verified (t : Session) (logits : List Logit) (acc : List ℕ) (out : SpecOut e) : Type 0 where
    verified :
        (ts : List ℕ)
        → out.accepted ≡ acc ++ ts
        → greedy (length ts) t logits ≡ some (ts, out.target, out.next_target_logits)
        → Verified t logits acc out

  of_spec_out :
      (t d : Session) (logits : List Logit) (acc : List ℕ) (row : Option (List Logit))
      (out : SpecOut e)
      → some (spec_out e acc logits row t d) ≡ some out
      → Verified t logits acc out
  unfolding greedy
  of_spec_out t d logits acc row out h =
      verified []
        (ap (λ (o : SpecOut e). o.accepted) (sym (some-injective _ _ h)) ∙ sym (append-nil acc))
        (ap (λ (o : SpecOut e). some ([], o.target, o.next_target_logits)) (some-injective _ _ h))

  -- One accepted token in front of what the rest of the loop accepts.
  one_more :
      (d : ℕ) (t t' : Session) (logits logits' : List Logit) (acc : List ℕ) (out : SpecOut e)
      → argmax logits ≡ d
      → decode_step t d ≡ some (t', logits')
      → Verified t' logits' (acc ++ (d ∷ [])) out
      → Verified t logits acc out
  unfolding greedy
  one_more d t t' logits logits' acc out same step (verified ts is_acc run) =
      verified (d ∷ ts) (is_acc ∙ append_assoc acc (d ∷ []) ts) (rw (same, step, run) refl)

  of_reject :
      (k k_idx : ℕ) (t d : Session) (logits : List Logit) (acc : List ℕ) (out : SpecOut e)
      → reject e k k_idx t d logits acc ≡ some out
      → Verified t logits acc out
  unfolding reject
  of_reject k k_idx t d logits acc out h =
      let (d', _, same) =
        >>=-eq-some (take_back e (rewind_by k k_idx) d)
          (λ (d' : Session). some (spec_out e acc logits none t d')) h in
      of_spec_out t d' logits acc none out same

  of_accept_all :
      (last : ℕ) (t d : Session) (logits : List Logit) (acc : List ℕ) (out : SpecOut e)
      → accept_all e last t d logits acc ≡ some out
      → Verified t logits acc out
  unfolding accept_all
  of_accept_all last t d logits acc out h =
      let ((d', row), _, same) =
        >>=-eq-some (decode_step d last)
          (λ (p : Session × List Logit). some (spec_out e acc logits (some p.1) t p.0)) h in
      of_spec_out t d' logits acc (some row) out same

  -- One turn of the loop, by the test on the target's own token.
  turn :
      (k k_idx tok : ℕ) (t d : Session) (logits : List Logit) (acc : List ℕ) (out : SpecOut e)
      (rest : Session → List Logit → Option (SpecOut e))
      → ((t' : Session) (logits' : List Logit)
          → rest t' logits' ≡ some out
          → Verified t' logits' (acc ++ (tok ∷ [])) out)
      → (b : Bool) → (argmax logits == tok) ≡ b
      → (if b
          then decode_step t tok >>= (λ (p : Session × List Logit). rest p.0 p.1)
          else reject e k k_idx t d logits acc)
        ≡ some out
      → Verified t logits acc out
  turn k k_idx tok t d logits acc out rest ih true same h =
      let ((t', logits'), step, go_on) =
        >>=-eq-some (decode_step t tok) (λ (p : Session × List Logit). rest p.0 p.1) h in
      one_more tok t t' logits logits' acc out ((==_iff (argmax logits) tok).0 same) step
        (ih t' logits' go_on)
  turn k k_idx tok t d logits acc out rest ih false same h = of_reject k k_idx t d logits acc out h

  verify_loop-Verified :
      (k k_idx last : ℕ) (ds : List ℕ) (t d : Session) (logits : List Logit) (acc : List ℕ)
      (out : SpecOut e)
      → verify_loop e k k_idx last ds t d logits acc ≡ some out
      → Verified t logits acc out
  unfolding verify_loop
  verify_loop-Verified k k_idx last [] t d logits acc out h =
      of_accept_all last t d logits acc out h
  verify_loop-Verified k k_idx last (tok ∷ ds) t d logits acc out h =
      turn k k_idx tok t d logits acc out
        (λ (t' : Session) (logits' : List Logit).
          verify_loop e k (k_idx + 1) last ds t' d logits' (acc ++ (tok ∷ [])))
        (λ (t' : Session) (logits' : List Logit) go_on.
          verify_loop-Verified k (k_idx + 1) last ds t' d logits' (acc ++ (tok ∷ [])) out go_on)
        (argmax logits == tok) refl h

  -- Whatever the draft proposes, the step commits the target to its own greedy tokens: when it
  -- returns, the accepted tokens, the target session and the target's next row are those of
  -- that many tokens of plain greedy decoding from the row given.
  pub spec_step-greedy :
      (target draft : Session) (target_logits draft_logits : List Logit) (k : ℕ) (out : SpecOut e)
      → spec_step e target draft target_logits draft_logits k ≡ some out
      → greedy (length out.accepted) target target_logits
        ≡ some (out.accepted, out.target, out.next_target_logits)
  unfolding spec_step
  spec_step-greedy target draft target_logits draft_logits k out h =
      let ((ts, draft'), _, run) =
        >>=-eq-some (draft_loop e (k - 1) draft (argmax draft_logits))
          (λ (p : List ℕ × Session).
            verify_loop e k 0 (last_of (argmax draft_logits) p.0) (argmax draft_logits ∷ p.0) target
              p.1 target_logits [])
          h in
      let v =
        verify_loop-Verified k 0 (last_of (argmax draft_logits) ts) (argmax draft_logits ∷ ts)
          target draft' target_logits [] out run in
      of_verified target target_logits out v
    where
      of_verified :
          (t : Session) (logits : List Logit) (o : SpecOut e)
          → Verified t logits [] o
          → greedy (length o.accepted) t logits ≡ some (o.accepted, o.target, o.next_target_logits)
      of_verified t logits o (verified ts' is_acc g) = rw is_acc g
