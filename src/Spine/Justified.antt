-- ===== src/Spine/Justified.antt =====
-- Every decision of the pipelines has its reason.
use mathlib.Core.List.{Memᴰ}
use kairos_engine.Base.{
  ℕ, ◌≡◌, refl, ap, sym, ◌∙◌, ◌⊎◌, inl, inr, Bool, true, false, not, ◌&&◌, Option, none, some, List,
  [], ◌∷◌, length, ◌==◌, ==_iff, if◌then◌else◌, All,
}
use kairos_engine.Spine.{
  Floats, Chars, Delivery, LatentDecision, pass, deliver, decline, is_terminal, Episode, LatentView,
  candidates, LatentHead, cos512,
}
use kairos_engine.Spine.Deciders.{
  decline_message, Ranking, rank_in, l5_loop, l5_gates, l5_recall, margin_of, is_forced, attr_gate,
  beats, head_loop, head_delivers, head_selector, build_pipeline, decide_loop, decide,
}

all_members : {A : Type 0} → (xs : List A) → All (λ (x : A). Memᴰ x xs) xs
all_members {A = A} [] = tt
all_members {A = A} (x ∷ xs) = (Memᴰ.head refl, later xs (all_members xs))
  where
    later : (ys : List A) → All (λ (y : A). Memᴰ y xs) ys → All (λ (y : A). Memᴰ y (x ∷ xs)) ys
    later [] h = tt
    later (y ∷ ys) (h, hs) = (Memᴰ.tail h, later ys hs)

module _ (fl : Floats) (ch : Chars) (hd : ℕ) (view : LatentView fl) where
  open fl use {F32, less, at_least_zero, milli}

  -- The gate lets a text be delivered.
  abbrev pub IsLetBy : List ℕ → Type 0
  IsLetBy text = (view.attr_gate ≡ false) ⊎ (is_forced fl ch hd view text ≡ false)

  -- An episode that the cosine selects: a candidate with a key of the right size, and a cosine that
  -- does not compare below the threshold, which also holds of a NaN.
  pub record IsL5Hit (ep : Episode fl) : Type 0 where
    pub member : Memᴰ ep (candidates fl view)
    pub key_size : length ep.l5key ≡ hd
    pub reaches : less (cos512 fl view.l5_query ep.l5key) view.tau_l5 ≡ false

  -- An episode that a head selects: a candidate with a score above the head's floor.
  pub record IsHeadHit (head : LatentHead fl) (ep : Episode fl) : Type 0 where
    pub member : Memᴰ ep (candidates fl view)
    pub above : less (head.reject_floor view) (head.score view ep) ≡ true

  -- A decision and its reason.
  pub data Justified (wc : Option (LatentHead fl)) (framing : Delivery) (d : LatentDecision)
      : Type 0 where
    passes : d ≡ pass → Justified wc framing d
    by_l5 :
        (ep : Episode fl)
        → IsL5Hit ep
        → IsLetBy ep.text
        → d
          ≡ deliver
              record {
                name = ep.name;
                text = ep.text;
                score_milli = milli (cos512 fl view.l5_query ep.l5key);
              }
              view.framing
        → Justified wc framing d
    by_head :
        (head : LatentHead fl) (ep : Episode fl)
        → wc ≡ some head
        → IsHeadHit head ep
        → IsLetBy ep.text
        → d
          ≡ deliver
              record {
                name = ep.name;
                text = ep.text;
                score_milli = milli (at_least_zero (head.score view ep));
              }
              framing
        → Justified wc framing d
    declines :
        (ep : Episode fl)
        → Memᴰ ep (candidates fl view)
        → view.attr_gate ≡ true
        → is_forced fl ch hd view ep.text ≡ true
        → d ≡ decline decline_message
        → Justified wc framing d

  -- The best of a loop over candidates with a property has it, and its score is its own.
  abbrev HasBest : (Episode fl → F32) → (Episode fl → Type 0) → Option (F32 × Episode fl) → Type 0
  HasBest score Q none = Unit
  HasBest score Q (some (c, ep)) = (c ≡ score ep) × Q ep

  abbrev Keyed : Episode fl → Type 0
  Keyed ep = Memᴰ ep (candidates fl view) × (length ep.l5key ≡ hd)

  abbrev cosine : Episode fl → F32
  cosine ep = cos512 fl view.l5_query ep.l5key

  abbrev Ranked : Ranking fl ch hd → Type 0
  Ranked r = HasBest cosine Keyed r.best

  rank_in-HasBest :
      (ep : Episode fl) (best : Option (F32 × Episode fl)) (second : F32)
      → Keyed ep
      → HasBest cosine Keyed best
      → HasBest cosine Keyed (rank_in fl ch hd (cosine ep) ep best second).best
  unfolding rank_in
  rank_in-HasBest ep none second h hb = (refl, h)
  rank_in-HasBest ep (some (b, e)) second h hb = go (fl.leq (cosine ep) b)
    where
      go :
          (v : Bool)
          → Ranked (
              if v
              then record {
                best = some (b, e);
                second = if fl.less second (cosine ep) then cosine ep else second;
              }
              else record { best = some (cosine ep, ep); second = b })
      go true = hb
      go false = (refl, h)

  l5_loop-HasBest :
      (eps : List (Episode fl)) (r : Ranking fl ch hd)
      → All (λ (ep : Episode fl). Memᴰ ep (candidates fl view)) eps
      → HasBest cosine Keyed r.best
      → HasBest cosine Keyed (l5_loop fl ch hd view.l5_query eps r).best
  unfolding l5_loop
  l5_loop-HasBest [] r members h = h
  l5_loop-HasBest (ep ∷ eps) r (m, members) h =
      l5_loop-HasBest eps
        (if length ep.l5key == hd then rank_in fl ch hd (cosine ep) ep r.best r.second else r)
        members (go (length ep.l5key == hd) refl)
    where
      go :
          (v : Bool)
          → (length ep.l5key == hd) ≡ v
          → HasBest cosine Keyed
              (if v then rank_in fl ch hd (cosine ep) ep r.best r.second else r).best
      go true e = rank_in-HasBest ep r.best r.second (m, (==_iff (length ep.l5key) hd).0 e) h
      go false e = h

  head_loop-HasBest :
      (head : LatentHead fl) (eps : List (Episode fl)) (best : Option (F32 × Episode fl))
      → All (λ (ep : Episode fl). Memᴰ ep (candidates fl view)) eps
      → HasBest (head.score view) (IsHeadHit head) best
      → HasBest (head.score view) (IsHeadHit head) (head_loop fl ch hd head view eps best)
  unfolding head_loop
  head_loop-HasBest head [] best members h = h
  head_loop-HasBest head (ep ∷ eps) best (m, members) h =
      head_loop-HasBest head eps
        (if less (head.reject_floor view) (head.score view ep)
            && beats fl ch hd best (head.score view ep)
          then some (head.score view ep, ep)
          else best)
        members
        (go (less (head.reject_floor view) (head.score view ep))
          (beats fl ch hd best (head.score view ep)) refl)
    where
      go :
          (a b : Bool)
          → less (head.reject_floor view) (head.score view ep) ≡ a
          → HasBest
              (head.score view)
              (IsHeadHit head)
              (if a && b then some (head.score view ep, ep) else best)
      go true true e = (refl, record { member = m; above = e })
      go true false e = h
      go false b e = h

  -- What a selector gives to the gate.
  data Selected (wc : Option (LatentHead fl)) (framing : Delivery) (d : LatentDecision)
      : Type 0 where
    nothing : d ≡ pass → Selected wc framing d
    l5_hit :
        (ep : Episode fl)
        → IsL5Hit ep
        → d
          ≡ deliver
              record { name = ep.name; text = ep.text; score_milli = milli (cosine ep) }
              view.framing
        → Selected wc framing d
    head_hit :
        (head : LatentHead fl) (ep : Episode fl)
        → wc ≡ some head
        → IsHeadHit head ep
        → d
          ≡ deliver
              record {
                name = ep.name;
                text = ep.text;
                score_milli = milli (at_least_zero (head.score view ep));
              }
              framing
        → Selected wc framing d

  l5_gates-Selected :
      (wc : Option (LatentHead fl)) (framing : Delivery) (best : Option (F32 × Episode fl))
      (second : F32)
      → HasBest cosine Keyed best
      → Selected wc framing (l5_gates fl ch hd view best second)
  unfolding l5_gates
  l5_gates-Selected wc framing none second h = nothing refl
  l5_gates-Selected wc framing (some (c, ep)) second (is_c, (m, size)) =
      go (less c view.tau_l5)
        (less fl.zero_f32 view.tau_margin && less (margin_of fl ch hd c second) view.tau_margin)
        refl
    where
      go :
          (a b : Bool)
          → less c view.tau_l5 ≡ a
          → Selected wc framing (
              if a
              then pass
              else if b
              then pass
              else deliver
                  record { name = ep.name; text = ep.text; score_milli = milli c }
                  view.framing)
      go true b e = nothing refl
      go false true e = nothing refl
      go false false e =
          l5_hit ep
            record {
              member = m;
              key_size = size;
              reaches = ap (λ (x : F32). less x view.tau_l5) (sym is_c) ∙ e;
            }
            (ap
              (λ (x : F32).
                deliver record { name = ep.name; text = ep.text; score_milli = milli x }
                  view.framing)
              is_c)

  l5_recall-Selected :
      (wc : Option (LatentHead fl)) (framing : Delivery)
      → Selected wc framing (l5_recall fl ch hd view pass)
  unfolding l5_recall
  l5_recall-Selected wc framing =
      go (view.qonly && not view.interrogative) (not (length view.l5_query == hd))
    where
      ranking : Ranking fl ch hd
      ranking =
          l5_loop fl ch hd view.l5_query (candidates fl view)
            record { best = none; second = fl.neg_infinity }

      go :
          (a b : Bool)
          → Selected wc framing (
              if a
              then pass
              else if b
              then pass
              else l5_gates fl ch hd view ranking.best ranking.second)
      go true b = nothing refl
      go false true = nothing refl
      go false false = l5_gates-Selected wc framing ranking.best ranking.second (
          l5_loop-HasBest (candidates fl view) record { best = none; second = fl.neg_infinity }
            (all_members (candidates fl view)) tt)

  -- The gate after a selector.
  gate_after :
      (wc : Option (LatentHead fl)) (framing : Delivery) (d : LatentDecision)
      → Selected wc framing d
      → Justified wc framing (decide_loop fl ch hd view (attr_gate fl ch hd ∷ []) d)
  unfolding decide_loop is_terminal attr_gate
  gate_after wc framing d (nothing e) = rw (e) (passes refl)
  gate_after wc framing d (l5_hit ep hit e) =
      rw (e) (go view.attr_gate refl (is_forced fl ch hd view ep.text) refl)
    where
      out : LatentDecision
      out =
          deliver record { name = ep.name; text = ep.text; score_milli = milli (cosine ep) }
            view.framing

      go :
          (a : Bool)
          → view.attr_gate ≡ a
          → (b : Bool) → is_forced fl ch hd view ep.text ≡ b
          → Justified wc framing (if not a then out else if b then decline decline_message else out)
      go false ea b eb = by_l5 ep hit (inl ea) refl
      go true ea true eb = declines ep hit.member ea eb refl
      go true ea false eb = by_l5 ep hit (inr eb) refl
  gate_after wc framing d (head_hit head ep has hit e) =
      rw (e) (go view.attr_gate refl (is_forced fl ch hd view ep.text) refl)
    where
      out : LatentDecision
      out =
          deliver
            record {
              name = ep.name;
              text = ep.text;
              score_milli = milli (at_least_zero (head.score view ep));
            }
            framing

      go :
          (a : Bool)
          → view.attr_gate ≡ a
          → (b : Bool) → is_forced fl ch hd view ep.text ≡ b
          → Justified wc framing (if not a then out else if b then decline decline_message else out)
      go false ea b eb = by_head head ep has hit (inl ea) refl
      go true ea true eb = declines ep hit.member ea eb refl
      go true ea false eb = by_head head ep has hit (inr eb) refl

  -- The pipeline passes; or it delivers a candidate that the gate lets by, whose cosine does not
  -- compare below its threshold (a NaN does not either) or whose head's score is above the head's
  -- floor; or it declines, with the gate on, for a candidate whose text lacks what the query asks of
  -- an entity. It never routes.
  pub decide-Justified :
      (wc : Option (LatentHead fl)) (framing : Delivery)
      → Justified wc framing (decide fl ch hd view (build_pipeline fl ch hd wc framing))
  unfolding decide decide_loop is_terminal build_pipeline head_selector head_delivers l5_recall
  decide-Justified none framing =
      gate_after none framing (l5_recall fl ch hd view pass) (l5_recall-Selected none framing)
  decide-Justified (some head) framing =
      go (head_loop fl ch hd head view (candidates fl view) none)
        (head_loop-HasBest head (candidates fl view) none (all_members (candidates fl view)) tt)
    where
      go :
          (best : Option (F32 × Episode fl))
          → HasBest (head.score view) (IsHeadHit head) best
          → Justified (some head) framing (
              decide_loop fl ch hd view
                (l5_recall fl ch hd ∷ attr_gate fl ch hd ∷ [])
                (head_delivers fl ch hd framing best))
      go none h =
          gate_after (some head) framing (l5_recall fl ch hd view pass)
            (l5_recall-Selected (some head) framing)
      go (some (c, ep)) (is_c, hit) = gate_after (some head) framing _ (
          head_hit head ep refl hit (
            ap
              (λ (x : F32).
                deliver
                  record { name = ep.name; text = ep.text; score_milli = milli (at_least_zero x) }
                  framing)
              is_c))
