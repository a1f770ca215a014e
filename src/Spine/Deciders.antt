-- ===== src/Spine/Deciders.antt =====
-- The deciders, the pipelines and their fold.
use kairos_engine.Base.{
  ℕ, Bool, true, not, ◌&&◌, Option, none, some, List, [], ◌∷◌, length, ◌==◌, if◌then◌else◌,
}
use kairos_engine.Base.Text.{codes}
use kairos_engine.Recall.Lexical.{Ratio, attr_absent_ratio, query_has_entity_token}
use kairos_engine.Spine.{
  Text, Floats, Chars, Delivery, LatentDecision, pass, deliver, decline, route, is_terminal,
  Episode, LatentView, candidates, LatentHead, cos512,
}

abbrev pub decline_message : Text
decline_message =
    codes "I have a record for that entity, but it does not include that specific detail."

module _ (fl : Floats) (ch : Chars) (hd : ℕ) where
  open fl use {
    F32, leq, less, neg_infinity, infinity, zero_f32, is_finite, minus, over, of_count,
    at_least_zero, milli,
  }
  open ch use {is_alphanumeric, to_lowercase}

  -- A decider of the trait: its `refine`.
  abbrev pub Decider : Type 0
  Decider = LatentView fl → LatentDecision → LatentDecision

  -- `best` and `second` of the loop over the candidates.
  pub record Ranking : Type 0 where
    pub best : Option (F32 × Episode fl)
    pub second : F32

  unfoldable pub rank_in : F32 → Episode fl → Option (F32 × Episode fl) → F32 → Ranking
  rank_in c ep none second = record { best = some (c, ep); second = second }
  rank_in c ep (some (b, e)) second =
      if leq c b
      then record { best = some (b, e); second = if less second c then c else second }
      else record { best = some (c, ep); second = b }

  unfoldable pub l5_loop : List F32 → List (Episode fl) → Ranking → Ranking
  l5_loop query [] r = r
  l5_loop query (ep ∷ eps) r =
      l5_loop query eps
        (if length ep.l5key == hd then rank_in (cos512 fl query ep.l5key) ep r.best r.second else r)

  abbrev pub l5_ranking : LatentView fl → Ranking
  l5_ranking view =
      l5_loop view.l5_query (candidates fl view) record { best = none; second = neg_infinity }

  unfoldable pub margin_of : F32 → F32 → F32
  margin_of bcos second = if is_finite second then minus bcos second else infinity

  -- The thresholds, for the best candidate.
  unfoldable pub l5_gates : LatentView fl → Option (F32 × Episode fl) → F32 → LatentDecision
  l5_gates view none second = pass
  l5_gates view (some (bcos, ep)) second =
      if less bcos view.tau_l5
      then pass
      else if less zero_f32 view.tau_margin && less (margin_of bcos second) view.tau_margin
      then pass
      else deliver record { name = ep.name; text = ep.text; score_milli = milli bcos } view.framing

  unfoldable pub l5_recall : Decider
  l5_recall view pass =
      if view.qonly && not view.interrogative
      then pass
      else if not (length view.l5_query == hd)
      then pass
      else l5_gates view (l5_ranking view).best (l5_ranking view).second
  l5_recall view (deliver r f) = deliver r f
  l5_recall view (decline m) = decline m
  l5_recall view (route t) = route t

  abbrev pub ratio_f32 : Ratio → F32
  ratio_f32 r = if r.whole == 0 then zero_f32 else over (of_count r.part) (of_count r.whole)

  -- The query asks for what the text does not state, of an entity that it names.
  unfoldable pub is_forced : LatentView fl → Text → Bool
  is_forced view text =
      leq view.attr_tau
        (ratio_f32 (attr_absent_ratio is_alphanumeric to_lowercase view.raw_user text))
      && query_has_entity_token is_alphanumeric to_lowercase view.raw_user

  unfoldable pub attr_gate : Decider
  attr_gate view pass = pass
  attr_gate view (deliver r f) =
      if not view.attr_gate
      then deliver r f
      else if is_forced view r.text
      then decline decline_message
      else deliver r f
  attr_gate view (decline m) = decline m
  attr_gate view (route t) = route t

  -- `best.as_ref().map_or(true, |(b, _)| s > *b)`
  abbrev pub beats : Option (F32 × Episode fl) → F32 → Bool
  beats none s = true
  beats (some (b, e)) s = less b s

  unfoldable pub head_loop :
      LatentHead fl
      → LatentView fl
      → List (Episode fl)
      → Option (F32 × Episode fl)
      → Option (F32 × Episode fl)
  head_loop head view [] best = best
  head_loop head view (ep ∷ eps) best = head_loop head view eps (
      if less (head.reject_floor view) (head.score view ep) && beats best (head.score view ep)
      then some (head.score view ep, ep)
      else best)

  unfoldable pub head_delivers : Delivery → Option (F32 × Episode fl) → LatentDecision
  head_delivers framing none = pass
  head_delivers framing (some (s, ep)) =
      deliver record { name = ep.name; text = ep.text; score_milli = milli (at_least_zero s) }
        framing

  -- `HeadSelector` for a head.
  unfoldable pub head_selector : LatentHead fl → Delivery → Decider
  head_selector head framing view pass =
      head_delivers framing (head_loop head view (candidates fl view) none)
  head_selector head framing view (deliver r f) = deliver r f
  head_selector head framing view (decline m) = decline m
  head_selector head framing view (route t) = route t

  unfoldable pub live_pipeline : List Decider
  live_pipeline = l5_recall ∷ attr_gate ∷ []

  unfoldable pub build_pipeline : Option (LatentHead fl) → Delivery → List Decider
  build_pipeline none framing = l5_recall ∷ attr_gate ∷ []
  build_pipeline (some head) framing = head_selector head framing ∷ l5_recall ∷ attr_gate ∷ []

  unfoldable pub decide_loop : LatentView fl → List Decider → LatentDecision → LatentDecision
  decide_loop view [] decision = decision
  decide_loop view (d ∷ deciders) decision =
      let rest = decide_loop view deciders (d view decision) in
      if is_terminal decision then decision else rest

  unfoldable pub decide : LatentView fl → List Decider → LatentDecision
  decide view deciders = decide_loop view deciders pass
