-- ===== src/Recall/Lexical.antt =====
-- The word tests of tools/sp_daemon/src/recall.rs. `char::is_alphanumeric` and `str::to_lowercase`
-- are tables of Unicode and arguments; a length of a word is in UTF-8 bytes. A ratio is a pair of
-- counts here: the division of two small numbers is the caller's.
pub mod Evidence
pub mod Pick
pub mod Grounded
mod Tests
use kairos_engine.Base.{
  ℕ, zero, suc, ◌+◌, Bool, true, false, not, ◌&&◌, ◌||◌, List, [], ◌∷◌, ◌++◌, map, length, list_beq,
  ltb, leb, ◌==◌, if◌then◌else◌,
}
use kairos_engine.Base.Text.{codes, utf8, push_char, is_whitespace, trim}

abbrev pub Text : Type 0
Text = List ℕ

-- `filter`, `any` and `contains` on lists.
unfoldable pub filter : {A : Type 0} → (A → Bool) → List A → List A
filter p [] = []
filter p (x ∷ xs) = let rest = filter p xs in if p x then x ∷ rest else rest

unfoldable pub any : {A : Type 0} → (A → Bool) → List A → Bool
any p [] = false
any p (x ∷ xs) = p x || any p xs

unfoldable pub contains : List Text → Text → Bool
contains ws w = any (λ (v : Text). list_beq v w) ws

-- `split` at the characters with a property: a piece between each two, empty ones too.
unfoldable pub split_where : (ℕ → Bool) → Text → List Text
split_where p [] = [] ∷ []
split_where p (c ∷ cs) = let rest = split_where p cs in if p c then [] ∷ rest else push_char c rest

abbrev pub len : Text → ℕ
len w = length (utf8 w)

abbrev pub filled : Text → Bool
filled [] = false
filled (c ∷ w) = true

-- `split_whitespace`
unfoldable pub split_whitespace : Text → List Text
split_whitespace s = filter filled (split_where is_whitespace s)

abbrev pub is_ascii_digit : ℕ → Bool
is_ascii_digit c = leb 48 c && leb c 57

abbrev pub starts_with : Text → Text → Bool
starts_with s [] = true
starts_with [] (c ∷ p) = false
starts_with (d ∷ s) (c ∷ p) = (d == c) && starts_with s p

abbrev pub attr_stop : List Text
attr_stop = map codes (
    "the" ∷ "is" ∷ "are" ∷ "was" ∷ "were" ∷ "what" ∷ "which" ∷ "who" ∷ "whom" ∷ "whose" ∷ "of"
    ∷ "for" ∷ "and" ∷ "or" ∷ "does" ∷ "do" ∷ "did" ∷ "how" ∷ "many" ∷ "much" ∷ "that" ∷ "this"
    ∷ "its" ∷ "with" ∷ "by" ∷ "from" ∷ "you" ∷ "your" ∷ "have" ∷ "has" ∷ "had" ∷ "been" ∷ "be"
    ∷ "as" ∷ "not" ∷ "now" ∷ "current" ∷ "currently" ∷ "authoritative" ∷ "context" ∷ "there" ∷ "any"
    ∷ "about" ∷ "into" ∷ "please" ∷ "tell" ∷ "give" ∷ "list" ∷ [])

abbrev pub canon_stop : List Text
canon_stop = map codes (
    "the" ∷ "is" ∷ "are" ∷ "was" ∷ "were" ∷ "what" ∷ "which" ∷ "who" ∷ "whom" ∷ "whose" ∷ "of"
    ∷ "for" ∷ "and" ∷ "or" ∷ "does" ∷ "do" ∷ "did" ∷ "how" ∷ "many" ∷ "much" ∷ "that" ∷ "this"
    ∷ "its" ∷ "with" ∷ "by" ∷ "from" ∷ "have" ∷ "has" ∷ "had" ∷ "been" ∷ "be" ∷ "as" ∷ "not" ∷ "now"
    ∷ "question" ∷ "rewritten" ∷ "reply" ∷ "answer" ∷ [])

abbrev pub question_heads : List Text
question_heads = map codes (
    "what" ∷ "which" ∷ "who" ∷ "whom" ∷ "whose" ∷ "where" ∷ "when" ∷ "why" ∷ "how" ∷ "is" ∷ "are"
    ∷ "was" ∷ "were" ∷ "am" ∷ "do" ∷ "does" ∷ "did" ∷ "can" ∷ "could" ∷ "should" ∷ "would" ∷ "will"
    ∷ "shall" ∷ "have" ∷ "has" ∷ "had" ∷ "name" ∷ "tell" ∷ "state" ∷ "give" ∷ "list" ∷ "recall"
    ∷ "remember" ∷ "recite" ∷ "identify" ∷ "describe" ∷ "explain" ∷ [])

abbrev pub overlap_stop : List Text
overlap_stop = map codes (
    "the" ∷ "an" ∷ "of" ∷ "to" ∷ "in" ∷ "on" ∷ "at" ∷ "for" ∷ "and" ∷ "or" ∷ "is" ∷ "are" ∷ "was"
    ∷ "were" ∷ "been" ∷ "with" ∷ "from" ∷ "that" ∷ "this" ∷ "its" ∷ "as" ∷ "by" ∷ [])

-- Two counts: the numerator and the denominator of a ratio, which is 0 for an empty denominator.
pub record Ratio : Type 0 where
  pub part : ℕ
  pub whole : ℕ

module _ (is_alphanumeric : ℕ → Bool) (to_lowercase : Text → Text) where
  abbrev pub words : Text → List Text
  words s = split_where (λ (c : ℕ). not (is_alphanumeric c)) s

  unfoldable pub attr_toks : Text → List Text
  attr_toks s = filter filled (words (to_lowercase s))

  unfoldable pub attr_salient : Text → List Text
  attr_salient query =
      filter (λ (w : Text). leb 3 (len w) && not (contains attr_stop w)) (attr_toks query)

  unfoldable pub attr_absent_ratio : Text → Text → Ratio
  attr_absent_ratio query fact =
      let facts = attr_toks fact in
      let q = attr_salient query in
      record { part = length (filter (λ (w : Text). not (contains facts w)) q); whole = length q }

  unfoldable pub canon_toks : Text → List Text
  canon_toks s = filter (λ (w : Text). leb 3 (len w)) (words (to_lowercase s))

  -- Equal, or one is a first part, of at least four bytes, of the other.
  abbrev pub akin : Text → Text → Bool
  akin w f =
      list_beq f w || (leb 4 (len w) && starts_with f w) || (leb 4 (len f) && starts_with w f)

  unfoldable pub canon_overlap : Text → Text → ℕ
  canon_overlap canon fact =
      let facts = canon_toks fact in
      length (
        filter (λ (w : Text). any (akin w) facts)
          (filter (λ (w : Text). not (contains canon_stop w)) (canon_toks canon)))

  unfoldable pub query_has_entity_token : Text → Bool
  query_has_entity_token query =
      any (λ (w : Text). leb 4 (len w) && any is_ascii_digit w) (words query)

  abbrev pub first_word : List Text → Text
  first_word [] = []
  first_word (w ∷ ws) = w

  unfoldable pub is_interrogative : Text → Bool
  is_interrogative q =
      if any (λ (c : ℕ). c == 63) q
      then true
      else contains question_heads
          (to_lowercase (filter is_alphanumeric (first_word (split_whitespace (trim q)))))

abbrev pub is_ascii_alphanumeric : ℕ → Bool
is_ascii_alphanumeric c = is_ascii_digit c || (leb 65 c && leb c 90) || (leb 97 c && leb c 122)

abbrev pub to_ascii_lowercase : ℕ → ℕ
to_ascii_lowercase c = if leb 65 c && leb c 90 then c + 32 else c

unfoldable pub overlap_toks : Text → List Text
overlap_toks t =
    filter (λ (w : Text). leb 3 (len w) && not (contains overlap_stop w))
      (split_whitespace
        (map (λ (c : ℕ). if is_ascii_alphanumeric c then to_ascii_lowercase c else 32) t))

-- The evidence's tokens that the cited text has, out of all of them; 0 out of 1, the code's 0.0, for
-- evidence without tokens.
unfoldable pub token_overlap : Text → Text → Ratio
token_overlap evidence cited =
    let et = overlap_toks evidence in
    let cs = overlap_toks cited in
    if length et == 0
    then record { part = 0; whole = 1 }
    else record { part = length (filter (contains cs) et); whole = length et }
