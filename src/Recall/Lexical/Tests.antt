-- ===== src/Recall/Lexical/Tests.antt =====
-- The word tests on a few texts.
use kairos_engine.Base.{ℕ, ◌≡◌, refl, ◌⊎◌, true, none, some, ◌<◌, [], ◌∷◌, ◌++◌, arith, list_beq}
use kairos_engine.Base.Text.{codes, utf8, trim}
use kairos_engine.Recall.Lexical.{
  Text, contains, any, filter, split_where, split_whitespace, token_overlap, overlap_toks,
  is_ascii_alphanumeric, query_has_entity_token, is_interrogative,
}
use kairos_engine.Recall.Lexical.Evidence.{
  find, pick_loop, pick_tag, parse_tag_evidence, strip_special_tokens, after_sign, first_line,
  unquote_start, unquote_end,
}
use kairos_engine.Recall.Lexical.Grounded.{token_overlap-quote}
use kairos_engine.Recall.Lexical.Pick.{IsEarliest, NoneFirst, pick_tag-Earliest}

abbrev same : Text → Text
same s = s

abbrev quote : Text
quote = codes "code for Node"

token_overlap-quote_example :
    ((token_overlap quote (codes "override" ++ (32 ∷ (quote ++ (45 ∷ codes "XX-67AB is 55"))))).part
      ≡ (token_overlap quote
          (codes "override" ++ (32 ∷ (quote ++ (45 ∷ codes "XX-67AB is 55"))))).whole)
    × (0
        < (token_overlap quote
            (codes "override" ++ (32 ∷ (quote ++ (45 ∷ codes "XX-67AB is 55"))))).whole)
unfolding overlap_toks split_whitespace split_where filter utf8 contains any list_beq
token_overlap-quote_example =
    token_overlap-quote (codes "override") quote (codes "XX-67AB is 55") 32 45 refl refl
      (omega arith)

-- Evidence of stop words only is grounded in nothing.
overlap_of_stop_words :
    token_overlap (codes "the of in") (codes "the of in") ≡ record { part = 0; whole = 1 }
unfolding token_overlap overlap_toks split_whitespace split_where filter utf8 contains any list_beq
overlap_of_stop_words = refl

abbrev asked : Text
asked = codes "manufacturer of Node-XX-67AB"

names_an_entity : query_has_entity_token is_ascii_alphanumeric same asked ≡ true
unfolding query_has_entity_token any split_where utf8
names_an_entity = refl

is_a_question : is_interrogative is_ascii_alphanumeric same (codes " tell me") ≡ true
unfolding is_interrogative any contains filter split_where split_whitespace trim list_beq
is_a_question = refl

abbrev reply : Text
reply = codes "TAG=ZETA | EVIDENCE=\"the code <audio|>is 55\"\nANSWER: none"

reads_the_reply :
    parse_tag_evidence reply (codes "alpha" ∷ codes "zeta" ∷ []) ≡ (some 1, codes "the code is 55")
unfolding parse_tag_evidence pick_tag pick_loop find strip_special_tokens after_sign first_line
    unquote_start unquote_end trim
reads_the_reply = refl

abbrev up : Text
up = codes "TAG=ZETA, NOT ALPHA OR NONE"

pick_tag-Earliest_example :
    ((pick_tag up (codes "alpha" ∷ codes "zeta" ∷ []) ≡ none)
      × NoneFirst up (codes "alpha" ∷ codes "zeta" ∷ []))
    ⊎ ((i : ℕ) × (pick_tag up (codes "alpha" ∷ codes "zeta" ∷ []) ≡ some i)
        × IsEarliest up (codes "alpha" ∷ codes "zeta" ∷ []) i)
pick_tag-Earliest_example = pick_tag-Earliest up (codes "alpha" ∷ codes "zeta" ∷ []) (omega arith)
