-- ===== src/Recall/Lexical/Grounded.antt =====
-- What the counts of words say: words of a text that stand in another.
use mathlib.Core.List.{append_assoc}
use kairos_engine.Base.{
  ◌<◌, ◌==◌, ℕ, suc, ◌≤◌, ◌≡◌, refl, ap, sym, ◌∙◌, ◌↔◌, Bool, true, false, not, ◌&&◌, ◌||◌, List,
  [], ◌∷◌, ◌++◌, map, length, list_beq, list_beq_refl, leb, All, if◌then◌else◌, subst, arith,
}
use kairos_engine.Base.Text.{push_char, is_whitespace}
use kairos_engine.Recall.Lexical.{
  Text, filter, any, contains, split_where, split_whitespace, filled, len, is_ascii_alphanumeric,
  to_ascii_lowercase, overlap_stop, overlap_toks, token_overlap, attr_salient, attr_toks,
  attr_absent_ratio,
}

module _ {A : Type 0} (p : A → Bool) where
  length-filter : (xs : List A) → length (filter p xs) ≤ length xs
  unfolding filter
  length-filter [] = omega arith
  length-filter (x ∷ xs) = go (p x) (length-filter xs)
    where
      go :
          (b : Bool)
          → length (filter p xs) ≤ length xs
          → length (if b then x ∷ filter p xs else filter p xs) ≤ suc (length xs)
      go true ih = omega (arith, ih)
      go false ih = omega (arith, ih)

  filter_none : (xs : List A) → length (filter p xs) ≡ 0 → All (λ (x : A). p x ≡ false) xs
  unfolding filter
  filter_none [] h = tt
  filter_none (x ∷ xs) h = go (p x) refl (filter_none xs) h
    where
      go :
          (b : Bool)
          → p x ≡ b
          → (length (filter p xs) ≡ 0 → All (λ (y : A). p y ≡ false) xs)
          → length (if b then x ∷ filter p xs else filter p xs) ≡ 0
          → (p x ≡ false) × All (λ (y : A). p y ≡ false) xs
      go true e ih l = absurd (omega (arith, l))
      go false e ih l = (e, ih l)

  none_filter : (xs : List A) → All (λ (x : A). p x ≡ false) xs → length (filter p xs) ≡ 0
  unfolding filter
  none_filter [] h = refl
  none_filter (x ∷ xs) (h, hs) = rw (h) (none_filter xs hs)

  all_filter : (xs : List A) → All (λ (x : A). p x ≡ true) xs → length (filter p xs) ≡ length xs
  unfolding filter
  all_filter [] h = refl
  all_filter (x ∷ xs) (h, hs) = rw (h) (ap suc (all_filter xs hs))

  filter-append : (xs ys : List A) → filter p (xs ++ ys) ≡ filter p xs ++ filter p ys
  unfolding filter
  filter-append [] ys = refl
  filter-append (x ∷ xs) ys = go (p x) (filter-append xs ys)
    where
      go :
          (b : Bool)
          → filter p (xs ++ ys) ≡ filter p xs ++ filter p ys
          → (if b then x ∷ filter p (xs ++ ys) else filter p (xs ++ ys))
            ≡ (if b then x ∷ filter p xs else filter p xs) ++ filter p ys
      go true ih = ap (λ (l : List A). x ∷ l) ih
      go false ih = ih

  any-append_left : (xs ys : List A) → any p xs ≡ true → any p (xs ++ ys) ≡ true
  unfolding any
  any-append_left [] ys h = absurd (cc h)
  any-append_left (x ∷ xs) ys h = go (p x) h (any-append_left xs ys)
    where
      go :
          (b : Bool)
          → (b || any p xs) ≡ true
          → (any p xs ≡ true → any p (xs ++ ys) ≡ true)
          → (b || any p (xs ++ ys)) ≡ true
      go true e ih = refl
      go false e ih = ih e

  any-append_right : (xs ys : List A) → any p ys ≡ true → any p (xs ++ ys) ≡ true
  unfolding any
  any-append_right [] ys h = h
  any-append_right (x ∷ xs) ys h = go (p x) (any-append_right xs ys h)
    where
      go : (b : Bool) → any p (xs ++ ys) ≡ true → (b || any p (xs ++ ys)) ≡ true
      go true ih = refl
      go false ih = ih

-- Every word of the middle part is contained in the whole.
contains_middle :
    (pre mid post : List Text) → All (λ (w : Text). contains (pre ++ (mid ++ post)) w ≡ true) mid
unfolding contains any
contains_middle pre [] post = tt
contains_middle pre (w ∷ mid) post = (
  any-append_right (λ (v : Text). list_beq v w) pre (w ∷ (mid ++ post)) (rw (list_beq_refl w) refl),
  subst (λ (l : List Text). All (λ (v : Text). contains l v ≡ true) mid)
      (append_assoc pre (w ∷ []) (mid ++ post)) (contains_middle (pre ++ (w ∷ [])) mid post),
)

push_char-split :
    (p : ℕ → Bool) (x : ℕ) (a : Text) (rest : List Text)
    → push_char x (split_where p a ++ rest) ≡ push_char x (split_where p a) ++ rest
unfolding split_where
push_char-split p x [] rest = refl
push_char-split p x (c ∷ cs) rest = piece (p c) (split_where p cs)
  where
    piece :
        (b : Bool) (ls : List Text)
        → push_char x ((if b then [] ∷ ls else push_char c ls) ++ rest)
          ≡ push_char x (if b then [] ∷ ls else push_char c ls) ++ rest
    piece true ls = refl
    piece false [] = refl
    piece false (l ∷ ls) = refl

-- A character with the property parts a text in two.
split_where-append :
    (p : ℕ → Bool) (a b : Text) (c : ℕ)
    → p c ≡ true
    → split_where p (a ++ (c ∷ b)) ≡ split_where p a ++ split_where p b
unfolding split_where
split_where-append p [] b c h = rw (h) refl
split_where-append p (x ∷ a) b c h = go (p x) (split_where-append p a b c h)
  where
    go :
        (v : Bool)
        → split_where p (a ++ (c ∷ b)) ≡ split_where p a ++ split_where p b
        → (if v
            then [] ∷ split_where p (a ++ (c ∷ b))
            else push_char x (split_where p (a ++ (c ∷ b))))
          ≡ (if v then [] ∷ split_where p a else push_char x (split_where p a)) ++ split_where p b
    go true ih = ap (λ (l : List Text). [] ∷ l) ih
    go false ih = ap (push_char x) ih ∙ push_char-split p x a (split_where p b)

map_append : (f : ℕ → ℕ) (xs ys : Text) → map f (xs ++ ys) ≡ map f xs ++ map f ys
map_append f [] ys = refl
map_append f (x ∷ xs) ys = ap (λ (l : Text). f x ∷ l) (map_append f xs ys)

overlap_toks-append :
    (a b : Text) (c : ℕ)
    → is_ascii_alphanumeric c ≡ false
    → overlap_toks (a ++ (c ∷ b)) ≡ overlap_toks a ++ overlap_toks b
unfolding overlap_toks split_whitespace
overlap_toks-append a b c h =
    ap (λ (s : Text). keep (filter filled (split_where is_whitespace s)))
      (map_append fold a (c ∷ b) ∙ ap (λ (d : ℕ). map fold a ++ (d ∷ map fold b)) blank)
    ∙ ap (λ (l : List Text). keep (filter filled l))
        (split_where-append is_whitespace (map fold a) (map fold b) 32 refl)
    ∙ ap keep (
        filter-append filled (split_where is_whitespace (map fold a))
          (split_where is_whitespace (map fold b)))
    ∙ filter-append content (filter filled (split_where is_whitespace (map fold a)))
        (filter filled (split_where is_whitespace (map fold b)))
  where
    fold : ℕ → ℕ
    fold d = if is_ascii_alphanumeric d then to_ascii_lowercase d else 32

    content : Text → Bool
    content w = leb 3 (len w) && not (contains overlap_stop w)

    keep : List Text → List Text
    keep ws = filter content ws

    blank : fold c ≡ 32
    blank = rw (h) refl

-- Evidence that has a content token and is copied out of the cited text, between two characters
-- that are no letters or digits, has every one of its tokens in it: it scores in full, a number out
-- of the same number, which is not 0.
pub token_overlap-quote :
    (pre evidence post : Text) (before after : ℕ)
    → is_ascii_alphanumeric before ≡ false
    → is_ascii_alphanumeric after ≡ false
    → 0 < length (overlap_toks evidence)
    → ((token_overlap evidence (pre ++ (before ∷ (evidence ++ (after ∷ post))))).part
        ≡ (token_overlap evidence (pre ++ (before ∷ (evidence ++ (after ∷ post))))).whole)
      × (0 < (token_overlap evidence (pre ++ (before ∷ (evidence ++ (after ∷ post))))).whole)
unfolding token_overlap
token_overlap-quote pre evidence post before after hb ha some_token =
    let not_empty : (length (overlap_toks evidence) == 0) ≡ false = ground (arith, some_token) in
    rw (not_empty) (
      all_filter (contains (overlap_toks (pre ++ (before ∷ (evidence ++ (after ∷ post))))))
          (overlap_toks evidence)
          (subst
            (λ (l : List Text). All (λ (w : Text). contains l w ≡ true) (overlap_toks evidence))
            (sym (
              overlap_toks-append pre (evidence ++ (after ∷ post)) before hb
              ∙ ap (λ (l : List Text). overlap_toks pre ++ l)
                  (overlap_toks-append evidence post after ha)))
            (contains_middle (overlap_toks pre) (overlap_toks evidence) (overlap_toks post))),
      some_token,
    )

-- The counts of the attribute gate: there are no more absent words than salient ones, and none is
-- absent exactly if every salient word of the query is a word of the fact.
pub attr_absent_ratio_grounded :
    (alnum : ℕ → Bool) (lower : Text → Text) (query fact : Text)
    → ((attr_absent_ratio alnum lower query fact).part
        ≤ (attr_absent_ratio alnum lower query fact).whole)
      × (((attr_absent_ratio alnum lower query fact).part ≡ 0)
          ↔ All
              (λ (w : Text). contains (attr_toks alnum lower fact) w ≡ true)
              (attr_salient alnum lower query))
unfolding attr_absent_ratio
attr_absent_ratio_grounded alnum lower query fact = (
  length-filter missing q,
  ((λ h. turn q (filter_none missing q h)), (λ h. none_filter missing q (turn_back q h))),
)
  where
    q : List Text
    q = attr_salient alnum lower query

    missing : Text → Bool
    missing w = not (contains (attr_toks alnum lower fact) w)

    flip : (b : Bool) → not b ≡ false → b ≡ true
    flip true h = refl
    flip false h = absurd (cc h)

    turn :
        (ws : List Text)
        → All (λ (w : Text). missing w ≡ false) ws
        → All (λ (w : Text). contains (attr_toks alnum lower fact) w ≡ true) ws
    turn [] h = tt
    turn (w ∷ ws) (h, hs) = (flip (contains (attr_toks alnum lower fact) w) h, turn ws hs)

    turn_back :
        (ws : List Text)
        → All (λ (w : Text). contains (attr_toks alnum lower fact) w ≡ true) ws
        → All (λ (w : Text). missing w ≡ false) ws
    turn_back [] h = tt
    turn_back (w ∷ ws) (h, hs) = (ap not h, turn_back ws hs)
