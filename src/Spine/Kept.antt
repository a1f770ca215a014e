-- ===== src/Spine/Kept.antt =====
-- What the executor leaves as it was: the cache, the entry token and the history.
use mathlib.Core.Option.{some-injective}
use kairos_engine.Base.{
  length-append, ◌↔◌, ℕ, ◌-◌, ◌≡◌, refl, ap, sym, ◌∙◌, ◌⊎◌, inl, inr, Bool, true, false, Option,
  none, some, List, [], ◌∷◌, ◌++◌, ◌<◌, length, take, drop, leb, arith,
}
use kairos_engine.Base.Bytes.{take_field, drop_field}
use kairos_engine.Base.Text.{codes}
use kairos_engine.Recall.Lexical.{filter, any}
use kairos_engine.Spine.{
  Text, Delivery, system_echo, EpisodeRef, LatentDecision, pass, deliver, decline, route,
}
use kairos_engine.Tokenizer.Template.{Message, apply_template_ids}
use kairos_engine.Spine.Answered.{IsAnswered, set_last_user-IsAnswered, filter_keeps_user}
use kairos_engine.Spine.Executor.{
  is_user, not_system, set_last_user, echo_system, echo_question, echo_history, frame, Kv, ExecCtx,
  ExecOutcome, clean, prefilled, prefill_head, deliver_ids, execute,
}

-- Where a conversation is there and has a message of the user (without one the code keeps only the
-- question), the echo framing keeps it: after its one system message it has the messages of the
-- conversation that are no system messages, and of them only the user's last has another content.
pub frame-IsAnswered :
    (fact raw_user : Text) (ms : List Message)
    → any is_user ms ≡ true
    → (first : Message) × (out : List Message) × (frame system_echo fact raw_user (some ms)
        ≡ first ∷ out)
      × (first.role ≡ codes "system")
      × IsAnswered (echo_question raw_user) (filter not_system ms) out
unfolding frame echo_history
frame-IsAnswered fact raw_user ms h = (
  echo_system fact,
  set_last_user (echo_question raw_user) (filter not_system ms),
  rw (h) refl,
  refl,
  set_last_user-IsAnswered (echo_question raw_user) (filter not_system ms) (filter_keeps_user ms h),
)

module _ (kv : Kv) (engine : List ℕ → ℕ → Option (ℕ × List ℕ))
    (crate : List ℕ → Option (List ℕ)) where
  open kv use {Cache, reset_cold, prefill}

  -- The cache is as it was, and the turn goes on from the prompt's last token, or ends with the
  -- message of a decline. A decision that delivers had no framed prompt of two tokens or more.
  pub record IsKept (ctx : ExecCtx) (cache : Cache) (d : LatentDecision) (r : Cache × ExecOutcome)
      : Type 0 where
    pub cache_kept : r.0 ≡ cache
    pub not_recalled : r.1.recalled ≡ none
    pub from_last : r.1.syn_last ≡ ctx.last_tok
    pub undelivered :
        (episode : EpisodeRef) (framing : Delivery) (ids : List ℕ)
        → d ≡ deliver episode framing
        → apply_template_ids engine crate ctx.tokenizer ctx.thinking
            (frame framing episode.text ctx.raw_user ctx.orig_msgs)
          ≡ some ids
        → length ids < 2
    pub declined : (m : Text) → (d ≡ decline m) ↔ (r.1.symbolic_decline ≡ some m)

  -- The cache holds the framed prompt up to its last token, from which the turn goes on.
  pub record IsRecalled (ctx : ExecCtx) (cache : Cache) (d : LatentDecision)
      (r : Cache × ExecOutcome) : Type 0 where
    pub episode : EpisodeRef
    pub framing : Delivery
    pub head : List ℕ
    pub last : ℕ
    pub decided : d ≡ deliver episode framing
    pub prompt :
        apply_template_ids engine crate ctx.tokenizer ctx.thinking
          (frame framing episode.text ctx.raw_user ctx.orig_msgs)
        ≡ some (head ++ (last ∷ []))
    pub filled : prefill (reset_cold cache) head ≡ (r.0, true)
    pub recalled : r.1.recalled ≡ some (episode.name, episode.score_milli)
    pub from_last : r.1.syn_last ≡ last
    pub not_declined : r.1.symbolic_decline ≡ none

  -- The prefill of the framed prompt failed: the cache is what that left of the emptied one, and the
  -- turn goes on as for the clean prompt.
  pub record IsLost (ctx : ExecCtx) (cache : Cache) (d : LatentDecision) (r : Cache × ExecOutcome)
      : Type 0 where
    pub episode : EpisodeRef
    pub framing : Delivery
    pub head : List ℕ
    pub last : ℕ
    pub decided : d ≡ deliver episode framing
    pub prompt :
        apply_template_ids engine crate ctx.tokenizer ctx.thinking
          (frame framing episode.text ctx.raw_user ctx.orig_msgs)
        ≡ some (head ++ (last ∷ []))
    pub filled : prefill (reset_cold cache) head ≡ (r.0, false)
    pub outcome : r.1 ≡ clean ctx

  abbrev Outcomes : ExecCtx → Cache → LatentDecision → Cache × ExecOutcome → Type 0
  Outcomes ctx cache d r = IsKept ctx cache d r ⊎ (IsRecalled ctx cache d r ⊎ IsLost ctx cache d r)

  -- The last token and what is before it.
  ends : (x : ℕ) (xs : List ℕ) → (ys : List ℕ) × (last : ℕ) × (x ∷ xs ≡ ys ++ (last ∷ []))
  ends x [] = ([], x, refl)
  ends x (y ∷ xs) = let (ys, last, e) = ends y xs in (x ∷ ys, last, ap (λ (l : List ℕ). x ∷ l) e)

  abbrev message_of : LatentDecision → Option Text
  message_of pass = none
  message_of (deliver r f) = none
  message_of (decline m) = some m
  message_of (route t) = none

  abbrev is_delivery : LatentDecision → Bool
  is_delivery pass = false
  is_delivery (deliver r f) = true
  is_delivery (decline m) = false
  is_delivery (route t) = false

  -- A decision that does not deliver has no prompt at all.
  no_prompt :
      (ctx : ExecCtx) (d : LatentDecision)
      → is_delivery d ≡ false
      → (episode : EpisodeRef) (framing : Delivery) (ids : List ℕ) → d ≡ deliver episode framing
      → apply_template_ids engine crate ctx.tokenizer ctx.thinking
          (frame framing episode.text ctx.raw_user ctx.orig_msgs)
        ≡ some ids
      → length ids < 2
  no_prompt ctx d off episode framing ids e h = absurd (cc (sym off ∙ ap is_delivery e))

  -- The text and the framing of a delivery.
  abbrev parts : LatentDecision → Option (EpisodeRef × Delivery)
  parts pass = none
  parts (deliver r f) = some (r, f)
  parts (decline m) = none
  parts (route t) = none

  -- The prompt of a delivery is shorter than two tokens, if there is one.
  short_prompt :
      (ctx : ExecCtx) (episode : EpisodeRef) (framing : Delivery) (o : Option (List ℕ))
      → apply_template_ids engine crate ctx.tokenizer ctx.thinking
          (frame framing episode.text ctx.raw_user ctx.orig_msgs)
        ≡ o
      → ((ids : List ℕ) → o ≡ some ids → length ids < 2)
      → (episode' : EpisodeRef) (framing' : Delivery) (ids : List ℕ)
      → deliver episode framing ≡ deliver episode' framing'
      → apply_template_ids engine crate ctx.tokenizer ctx.thinking
          (frame framing' episode'.text ctx.raw_user ctx.orig_msgs)
        ≡ some ids
      → length ids < 2
  short_prompt ctx episode framing o e short episode' framing' ids same h =
      let both : (episode, framing) ≡ (episode', framing') =
        some-injective (episode, framing) (episode', framing') (ap parts same) in
      short ids (
        sym e
        ∙ ap
            (λ (p : EpisodeRef × Delivery).
              apply_template_ids engine crate ctx.tokenizer ctx.thinking
                (frame p.1 p.0.text ctx.raw_user ctx.orig_msgs))
            both
        ∙ h)

  IsKept-clean :
      (ctx : ExecCtx) (cache : Cache) (d : LatentDecision)
      → message_of d ≡ none
      → ((episode : EpisodeRef) (framing : Delivery) (ids : List ℕ)
          → d ≡ deliver episode framing
          → apply_template_ids engine crate ctx.tokenizer ctx.thinking
              (frame framing episode.text ctx.raw_user ctx.orig_msgs)
            ≡ some ids
          → length ids < 2)
      → IsKept ctx cache d (cache, clean ctx)
  IsKept-clean ctx cache d h short = record {
    cache_kept = refl;
    not_recalled = refl;
    from_last = refl;
    undelivered = short;
    declined = λ m. ((λ e. absurd (cc (sym h ∙ ap message_of e))), (λ e. absurd (cc e)));
  }

  prefilled-Outcomes :
      (ctx : ExecCtx) (cache : Cache) (episode : EpisodeRef) (framing : Delivery) (head : List ℕ)
      (last : ℕ)
      → apply_template_ids engine crate ctx.tokenizer ctx.thinking
          (frame framing episode.text ctx.raw_user ctx.orig_msgs)
        ≡ some (head ++ (last ∷ []))
      → (r : Cache × Bool) → prefill (reset_cold cache) head ≡ r
      → Outcomes ctx cache
          (deliver episode framing)
          (prefilled kv engine crate ctx episode head (last ∷ []) r)
  unfolding prefilled
  prefilled-Outcomes ctx cache episode framing head last prompt (cache', true) e = inr (
      inl record {
        episode = episode;
        framing = framing;
        head = head;
        last = last;
        decided = refl;
        prompt = prompt;
        filled = e;
        recalled = refl;
        from_last = refl;
        not_declined = refl;
      })
  prefilled-Outcomes ctx cache episode framing head last prompt (cache', false) e = inr (
      inr record {
        episode = episode;
        framing = framing;
        head = head;
        last = last;
        decided = refl;
        prompt = prompt;
        filled = e;
        outcome = refl;
      })

  deliver_ids-Outcomes :
      (ctx : ExecCtx) (cache : Cache) (episode : EpisodeRef) (framing : Delivery)
      (ids : Option (List ℕ))
      → apply_template_ids engine crate ctx.tokenizer ctx.thinking
          (frame framing episode.text ctx.raw_user ctx.orig_msgs)
        ≡ ids
      → Outcomes ctx cache
          (deliver episode framing)
          (deliver_ids kv engine crate ctx episode cache ids)
  unfolding deliver_ids prefill_head
  deliver_ids-Outcomes ctx cache episode framing none e = inl (
      IsKept-clean ctx cache (deliver episode framing) refl
        (short_prompt ctx episode framing none e (λ ids h. absurd (cc h))))
  deliver_ids-Outcomes ctx cache episode framing (some []) e = inl (
      IsKept-clean ctx cache (deliver episode framing) refl (
        short_prompt ctx episode framing (some []) e
          (λ ids h. omega (arith, ap length (some-injective [] ids h)))))
  deliver_ids-Outcomes ctx cache episode framing (some (t ∷ [])) e = inl (
      IsKept-clean ctx cache (deliver episode framing) refl (
        short_prompt ctx episode framing (some (t ∷ [])) e
          (λ ids h. omega (arith, ap length (some-injective (t ∷ []) ids h)))))
  deliver_ids-Outcomes ctx cache episode framing (some (t ∷ u ∷ toks)) e =
      let (ys, last, split) = ends u toks in parted ys last split
    where
      parted :
          (ys : List ℕ) (last : ℕ)
          → u ∷ toks ≡ ys ++ (last ∷ [])
          → Outcomes ctx cache
              (deliver episode framing)
              (deliver_ids kv engine crate ctx episode cache (some (t ∷ u ∷ toks)))
      parted ys last split =
          let whole : t ∷ u ∷ toks ≡ (t ∷ ys) ++ (last ∷ []) = ap (λ (l : List ℕ). t ∷ l) split in
          let n = length (t ∷ u ∷ toks) - 1 in
          let len : length (t ∷ ys) ≡ n =
            omega (arith, ap length whole, length-append (t ∷ ys) (last ∷ [])) in
          let two : leb 2 (length (t ∷ u ∷ toks)) ≡ true = ground arith in
          rw
            (
              two,
              ap (take n) whole ∙ take_field n (t ∷ ys) (last ∷ []) len,
              ap (drop n) whole ∙ drop_field n (t ∷ ys) (last ∷ []) len,
            )
            (prefilled-Outcomes ctx cache episode framing (t ∷ ys) last (e ∙ ap some whole)
              (prefill (reset_cold cache) (t ∷ ys)) refl)

  -- Whatever the decision, one of three holds: the cache is untouched, the turn goes on from the
  -- prompt's last token, a message is there exactly for a decline, and if the decision delivers, its
  -- framed prompt could not be tokenized or has less than two tokens; or the decision delivers, and
  -- the prefill of the framed prompt but its last token, in a cache that had been emptied, did not
  -- fail, and the turn goes on from that last token; or it delivers, that prefill failed, and the
  -- outcome is as for no episode, over the cache that the prefill left.
  pub execute-Outcomes :
      (ctx : ExecCtx) (cache : Cache) (d : LatentDecision)
      → IsKept ctx cache d (execute kv engine crate ctx cache d)
        ⊎ (IsRecalled ctx cache d (execute kv engine crate ctx cache d)
            ⊎ IsLost ctx cache d (execute kv engine crate ctx cache d))
  unfolding execute
  execute-Outcomes ctx cache pass = inl (IsKept-clean ctx cache pass refl (no_prompt ctx pass refl))
  execute-Outcomes ctx cache (decline message) = inl record {
    cache_kept = refl;
    not_recalled = refl;
    from_last = refl;
    undelivered = no_prompt ctx (decline message) refl;
    declined = λ m. ((λ e. ap message_of e), (λ e. ap decline (some-injective message m e)));
  }
  execute-Outcomes ctx cache (route target) =
      inl (IsKept-clean ctx cache (route target) refl (no_prompt ctx (route target) refl))
  execute-Outcomes ctx cache (deliver episode framing) =
      deliver_ids-Outcomes ctx cache episode framing
        (apply_template_ids engine crate ctx.tokenizer ctx.thinking
          (frame framing episode.text ctx.raw_user ctx.orig_msgs))
        refl
