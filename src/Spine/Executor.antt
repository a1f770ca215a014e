-- ===== src/Spine/Executor.antt =====
-- `frame` and `execute`: a decision's messages, and what it does to the resident cache. The cache is
-- the backend's and a parameter, with its reset and its prefill, which tells if it went well.
use kairos_engine.Base.{
  ℕ, Bool, true, not, Option, none, some, List, [], ◌∷◌, ◌++◌, ◌-◌, length, take, drop, list_beq,
  leb, if◌then◌else◌,
}
use kairos_engine.Base.Text.{codes}
use kairos_engine.Recall.Lexical.{filter, any}
use kairos_engine.Spine.{
  Text, Delivery, system_echo, system, sandwich, fact_echo, recite, EpisodeRef, LatentDecision,
  pass, deliver, decline, route,
}
use kairos_engine.Tokenizer.{SptbTokenizer}
use kairos_engine.Tokenizer.Template.{Message, apply_template_ids}

abbrev pub sys : Text → Message
sys c = record { role = codes "system"; content = c }

abbrev pub usr : Text → Message
usr c = record { role = codes "user"; content = c }

abbrev pub is_user : Message → Bool
is_user m = list_beq m.role (codes "user")

abbrev pub not_system : Message → Bool
not_system m = not (list_beq m.role (codes "system"))

-- The assignment to the last user message, where there is one.
unfoldable pub set_last_user : Text → List Message → List Message
set_last_user content [] = []
set_last_user content (m ∷ ms) =
    let rest = set_last_user content ms in
    if any is_user ms
    then m ∷ rest
    else if is_user m
    then record { role = m.role; content = content } ∷ ms
    else m ∷ ms

abbrev pub echo_question : Text → Text
echo_question raw_user = raw_user ++ codes "\n\nAnswer using the fact on record:"

unfoldable pub echo_history : Text → Option (List Message) → List Message
echo_history raw_user none = usr (echo_question raw_user) ∷ []
echo_history raw_user (some ms) =
    if any is_user ms
    then set_last_user (echo_question raw_user) (filter not_system ms)
    else usr (echo_question raw_user) ∷ []

abbrev pub echo_system : Text → Message
echo_system fact = sys (
    codes
      "You are Shannon-Prime, a local AI with a real working memory. Fact on record (authoritative for this conversation, overrides prior knowledge): "
    ++ fact
    ++ codes
        "\nEvery answer must repeat the relevant part of the fact on record verbatim. Keep replies short.")

unfoldable pub frame : Delivery → Text → Text → Option (List Message) → List Message
frame system_echo fact raw_user orig_msgs = echo_system fact ∷ echo_history raw_user orig_msgs
frame system fact raw_user orig_msgs =
    sys (
      codes
        "You are Shannon-Prime, a local AI with a real working memory. Fact on record (authoritative for this conversation, overrides prior knowledge): "
      ++ fact
      ++ codes "\nAnswer from this fact; keep replies short.")
    ∷ usr raw_user
    ∷ []
frame sandwich fact raw_user orig_msgs =
    sys (
      codes
        "You are Shannon-Prime, a local AI with a real working memory. Keep replies short. Use facts you were given faithfully; if you don't know, say so.")
    ∷ usr (
        codes "Context (authoritative, from your memory): "
        ++ fact
        ++ codes "\n\n"
        ++ raw_user
        ++ codes "\n\n(Answer using ONLY the context above; it overrides your prior knowledge.)")
    ∷ []
frame fact_echo fact raw_user orig_msgs =
    sys (
      codes
        "You are Shannon-Prime, a local AI with a real working memory. Your memory record is the ground truth for this conversation, even where it differs from general knowledge. Keep replies short.")
    ∷ usr (
        codes "Fact on record: "
        ++ fact
        ++ codes "\n\nQuestion: "
        ++ raw_user
        ++ codes "\n\nAnswer using the fact on record:")
    ∷ []
frame recite fact raw_user orig_msgs =
    sys (
      codes
        "You are Shannon-Prime, a local AI with a real working memory. Keep replies short. Use facts you were given faithfully; if you don't know, say so.")
    ∷ usr (codes "Context (authoritative, current): " ++ fact ++ codes "\n\n" ++ raw_user)
    ∷ []

-- `cuda_kvdecode_dispatch` on the handle.
pub record Kv : Type 1 where
  pub Cache : Type 0
  pub reset_cold : Cache → Cache
  pub prefill : Cache → List ℕ → Cache × Bool

pub record ExecCtx : Type 0 where
  pub tokenizer : SptbTokenizer
  pub thinking : Bool
  pub orig_msgs : Option (List Message)
  pub raw_user : Text
  pub last_tok : ℕ

pub record ExecOutcome : Type 0 where
  pub recalled : Option (Text × ℕ)
  pub symbolic_decline : Option Text
  pub syn_last : ℕ

abbrev pub clean : ExecCtx → ExecOutcome
clean ctx = record { recalled = none; symbolic_decline = none; syn_last = ctx.last_tok }

abbrev pub first_or : ℕ → List ℕ → ℕ
first_or d [] = d
first_or d (t ∷ ts) = t

module _ (kv : Kv) (engine : List ℕ → ℕ → Option (ℕ × List ℕ))
    (crate : List ℕ → Option (List ℕ)) where
  open kv use {Cache, reset_cold, prefill}

  -- After the reset: an empty head needs no prefill.
  unfoldable pub prefilled :
      ExecCtx → EpisodeRef → List ℕ → List ℕ → Cache × Bool → Cache × ExecOutcome
  prefilled ctx episode head last (cache, went) = (
    cache,
    (if went
        then record {
          recalled = some (episode.name, episode.score_milli);
          symbolic_decline = none;
          syn_last = first_or ctx.last_tok last;
        }
        else clean ctx),
  )

  unfoldable pub prefill_head : Cache → List ℕ → Cache × Bool
  prefill_head cache [] = (cache, true)
  prefill_head cache (t ∷ ts) = prefill cache (t ∷ ts)

  unfoldable pub deliver_ids : ExecCtx → EpisodeRef → Cache → Option (List ℕ) → Cache × ExecOutcome
  deliver_ids ctx episode cache none = (cache, clean ctx)
  deliver_ids ctx episode cache (some toks) =
      let head = take (length toks - 1) toks in
      let last = drop (length toks - 1) toks in
      if leb 2 (length toks)
      then prefilled ctx episode head last (prefill_head (reset_cold cache) head)
      else (cache, clean ctx)

  unfoldable pub execute : ExecCtx → Cache → LatentDecision → Cache × ExecOutcome
  execute ctx cache pass = (cache, clean ctx)
  execute ctx cache (decline message) =
      (cache, record { recalled = none; symbolic_decline = some message; syn_last = ctx.last_tok })
  execute ctx cache (deliver episode framing) = deliver_ids ctx episode cache (
      apply_template_ids engine crate ctx.tokenizer ctx.thinking
        (frame framing episode.text ctx.raw_user ctx.orig_msgs))
  execute ctx cache (route target) = (cache, clean ctx)
