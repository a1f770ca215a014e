-- ===== src/Spine/Tests.antt =====
-- A toy arithmetic, two episodes and a toy cache: a turn that recalls, one that declines.
use kairos_engine.Base.{
  ℕ, ◌+◌, ◌-◌, ◌*◌, ◌/◌, ◌≡◌, refl, ◌⊎◌, true, false, Option, none, some, List, [], ◌∷◌, ◌++◌,
  length, take, list_beq, ltb, leb, ◌==◌, arith,
}
use kairos_engine.Base.Text.{codes, utf8}
use kairos_engine.Recall.Lexical.{
  is_ascii_alphanumeric, filter, any, contains, split_where, attr_toks, attr_salient,
  attr_absent_ratio, query_has_entity_token,
}
use kairos_engine.Spine.{
  Floats, Chars, system_echo, recite, from_env, LatentDecision, deliver, decline, is_terminal,
  Episode, LatentView, LatentHead, cos_sums, cos512,
}
use kairos_engine.Spine.Deciders.{
  decline_message, rank_in, l5_loop, margin_of, l5_gates, l5_recall, is_forced, attr_gate,
  build_pipeline, decide_loop, decide,
}
use kairos_engine.Spine.Top.{IsOwn, Ordered, cosines, IsTop, l5_loop-IsTop}
use kairos_engine.Spine.Justified.{Justified, decide-Justified}
use kairos_engine.Spine.Executor.{not_system, frame, Kv, ExecCtx, execute, echo_question, sys, usr}
use kairos_engine.Spine.Kept.{IsKept, IsRecalled, IsLost, execute-Outcomes, frame-IsAnswered}
use kairos_engine.Spine.Answered.{IsAnswered}
use kairos_engine.Tokenizer.{SptbTokenizer}
use kairos_engine.Tokenizer.Template.{Message}

abbrev counts : Floats
counts = record {
  F32 = ℕ;
  F64 = ℕ;
  leq = leb;
  less = ltb;
  neg_infinity = 0;
  infinity = 1000000;
  zero_f32 = 0;
  is_finite = λ x. ltb 0 x;
  minus = λ x y. x - y;
  over = λ x y. 100 * x / y;
  of_count = λ n. n;
  at_least_zero = λ x. x;
  milli = λ x. 1000 * x;
  zero_f64 = 0;
  plus_product = λ s x y. s + x * y;
  denominator = λ x y. x * y;
  at_most_zero = λ d. d == 0;
  quotient = λ x d. x;
}

abbrev ascii : Chars
ascii = record { is_alphanumeric = is_ascii_alphanumeric; to_lowercase = λ s. s }

abbrev code_ep : Episode counts
code_ep = record {
  name = codes "ep-1";
  text = codes "code of Node-67AB is 55";
  l5key = 9 ∷ [];
  gk = [];
}

abbrev color_ep : Episode counts
color_ep = record { name = codes "ep-2"; text = codes "the sky is blue"; l5key = 3 ∷ []; gk = [] }

-- A view of a query.
abbrev view_of : List ℕ → LatentView counts
view_of query = record {
  raw_user = query;
  global_q = [];
  l5_query = 2 ∷ [];
  registry = color_ep ∷ [];
  nightshift = code_ep ∷ [];
  interrogative = true;
  qonly = true;
  tau_l5 = 10;
  tau_margin = 5;
  attr_tau = 50;
  attr_gate = true;
  framing = system_echo;
}

recalls :
    decide counts ascii 1
      (view_of (codes "code of Node-67AB"))
      (build_pipeline counts ascii 1 none system_echo)
    ≡ deliver
        record { name = codes "ep-1"; text = codes "code of Node-67AB is 55"; score_milli = 18000 }
        system_echo
unfolding decide decide_loop build_pipeline is_terminal l5_recall l5_gates l5_loop rank_in cos512
    cos_sums margin_of attr_gate is_forced attr_absent_ratio attr_salient attr_toks
    query_has_entity_token filter any contains split_where utf8 list_beq
recalls = refl

declines :
    decide counts ascii 1
      (view_of (codes "maker and brand of 67AB"))
      (build_pipeline counts ascii 1 none system_echo)
    ≡ decline decline_message
unfolding decide decide_loop build_pipeline is_terminal l5_recall l5_gates l5_loop rank_in cos512
    cos_sums margin_of attr_gate is_forced attr_absent_ratio attr_salient attr_toks
    query_has_entity_token filter any contains split_where utf8 list_beq
declines = refl

framing_of_default : from_env (codes "other") ≡ system_echo
unfolding from_env list_beq
framing_of_default = refl

-- A head that scores an episode by the length of its text, with the floor 5.
abbrev toy_head : LatentHead counts
toy_head = record { score = λ v ep. length ep.text; reject_floor = λ v. 5 }

decide-Justified_example :
    Justified counts ascii 1 (view_of (codes "code of Node-67AB")) (some toy_head) recite (
      decide counts ascii 1
        (view_of (codes "code of Node-67AB"))
        (build_pipeline counts ascii 1 (some toy_head) recite))
decide-Justified_example =
    decide-Justified counts ascii 1 (view_of (codes "code of Node-67AB")) (some toy_head) recite

counts-Ordered : Ordered counts
counts-Ordered = record {
  IsNumber = λ x. Unit;
  less_leq = λ a b h. ground (arith, h);
  not_less = λ a b na nb h. ground (arith, h);
  not_leq = λ a b na nb h. ground (arith, h);
  leq_trans = λ a b c h k. ground (arith, h, k);
  leq_refl = λ a na. ground arith;
  infinity_number = tt;
}

abbrev both : List (Episode counts)
both = color_ep ∷ code_ep ∷ []

l5_loop-IsTop_example :
    IsTop counts ascii 1
      (2 ∷ [])
      (cosines counts ascii 1 (2 ∷ []) both)
      (l5_loop counts ascii 1 (2 ∷ []) both record { best = none; second = 0 }).best
      (l5_loop counts ascii 1 (2 ∷ []) both record { best = none; second = 0 }).second
    × IsOwn counts ascii 1
        (2 ∷ [])
        both
        (l5_loop counts ascii 1 (2 ∷ []) both record { best = none; second = 0 }).best
unfolding cosines cos512 cos_sums counts-Ordered
l5_loop-IsTop_example = l5_loop-IsTop counts ascii 1 (2 ∷ []) counts-Ordered both (tt, (tt, tt))

-- A cache is the tokens in it, at most a hundred.
abbrev toy_kv : Kv
toy_kv = record {
  Cache = List ℕ;
  reset_cold = λ c. [];
  prefill = λ c ts. (c ++ ts, leb (length ts) 100);
}

-- A tokenizer of the ChatML arch, over an engine that has three ids for every text.
abbrev chatml : SptbTokenizer
chatml = record {
  inner = false;
  c_tokenizer = true;
  id_to_bytes = [];
  eos_ids = [];
  arch_id = 2;
  bos_id = none;
  config_suppress = [];
}

abbrev three_ids : List ℕ → ℕ → Option (ℕ × List ℕ)
three_ids text room = some (3, take room (5 ∷ 6 ∷ 7 ∷ []))

abbrev no_crate : List ℕ → Option (List ℕ)
no_crate text = none

abbrev turn : ExecCtx
turn = record {
  tokenizer = chatml;
  thinking = false;
  orig_msgs = none;
  raw_user = codes "hi";
  last_tok = 42;
}

abbrev recalled_turn : LatentDecision
recalled_turn = deliver record { name = codes "ep-1"; text = codes "x"; score_milli = 900 } recite

execute-Outcomes_example :
    IsKept toy_kv three_ids no_crate turn
      (1 ∷ 2 ∷ [])
      recalled_turn
      (execute toy_kv three_ids no_crate turn (1 ∷ 2 ∷ []) recalled_turn)
    ⊎ (IsRecalled toy_kv three_ids no_crate turn
          (1 ∷ 2 ∷ [])
          recalled_turn
          (execute toy_kv three_ids no_crate turn (1 ∷ 2 ∷ []) recalled_turn)
        ⊎ IsLost toy_kv three_ids no_crate turn
            (1 ∷ 2 ∷ [])
            recalled_turn
            (execute toy_kv three_ids no_crate turn (1 ∷ 2 ∷ []) recalled_turn))
execute-Outcomes_example =
    execute-Outcomes toy_kv three_ids no_crate turn (1 ∷ 2 ∷ []) recalled_turn

abbrev history : List Message
history =
    sys (codes "be brief")
    ∷ usr (codes "hello")
    ∷ record { role = codes "assistant"; content = codes "hi" }
    ∷ usr (codes "which code?")
    ∷ []

frame-IsAnswered_example :
    (first : Message) × (out : List Message) × (frame system_echo
        (codes "the code is 55")
        (codes "which code?")
        (some history)
      ≡ first ∷ out)
    × (first.role ≡ codes "system")
    × IsAnswered (echo_question (codes "which code?")) (filter not_system history) out
unfolding any list_beq
frame-IsAnswered_example =
    frame-IsAnswered (codes "the code is 55") (codes "which code?") history refl
