-- ===== src/Recall/Policy/Body.antt =====
-- The text of a concept file is read back from it.
use mathlib.Core.List.{append_assoc, append-nil}
use kairos_engine.Base.{
  ℕ, ◌≡◌, ◌≢◌, refl, ap, sym, ◌∙◌, Bool, true, false, ◌&&◌, Option, [], ◌∷◌, ◌++◌, take, list_beq,
  All-append, ◌==◌, ==_iff, if◌then◌else◌, All, arith, List, ltb,
}
use kairos_engine.Base.Text.{
  codes, is_whitespace, trim, trim_start, trim_end, trim_end_cons, lines, push_char, feeds,
}
use kairos_engine.Recall.Policy.{
  Text, from_class, class_delivery, is_secret, authority, decline_lines, secret_message, one_line,
  write_episode_okf,
}
use kairos_engine.Recall.Policy.Parse.{is_fence, okf_body, body_loop, body_or}
use kairos_engine.Recall.Policy.Written.{NoFeed-authority}
use kairos_engine.Recall.Policy.Lines.{NoFeed, NoFeed-lines, NoFeed-one_line, not_fence}

-- No carriage return in the text.
abbrev pub NoReturn : Text → Type 0
NoReturn t = All (λ (c : ℕ). c ≢ 13) t

-- The lines, each with its line feed.
unlines : List Text → Text
unlines [] = []
unlines (l ∷ ls) = l ++ (10 ∷ unlines ls)

-- A text that ends with a line feed is its lines.
lines-unlines :
    (t : Text)
    → NoReturn t
    → (l : Text) × (ls : List Text) × (lines (t ++ (10 ∷ [])) ≡ l ∷ ls)
      × (l ++ (10 ∷ unlines ls) ≡ t ++ (10 ∷ []))
unfolding lines unlines
lines-unlines [] h = ([], [], refl, refl)
lines-unlines (c ∷ t) (hc, h) = go (c == 10) refl (lines-unlines t h)
  where
    go :
        (b : Bool)
        → (c == 10) ≡ b
        → (l : Text) × (ls : List Text) × (lines (t ++ (10 ∷ [])) ≡ l ∷ ls)
          × (l ++ (10 ∷ unlines ls) ≡ t ++ (10 ∷ []))
        → (l : Text) × (ls : List Text) × ((if b
              then [] ∷ lines (t ++ (10 ∷ []))
              else if c == 13 && feeds (t ++ (10 ∷ []))
              then lines (t ++ (10 ∷ []))
              else push_char c (lines (t ++ (10 ∷ []))))
            ≡ l ∷ ls)
          × (l ++ (10 ∷ unlines ls) ≡ c ∷ (t ++ (10 ∷ [])))
    go true e (l, ls, is, whole) = (
      [],
      lines (t ++ (10 ∷ [])),
      refl,
      ap (λ (d : ℕ). d ∷ unlines (lines (t ++ (10 ∷ [])))) (sym ((==_iff c 10).0 e))
          ∙ ap (λ (k : List Text). c ∷ unlines k) is
          ∙ ap (λ (k : Text). c ∷ k) whole,
    )
    go false e (l, ls, is, whole) =
        (c ∷ l, ls, rw (no_return) (ap (push_char c) is), ap (λ (k : Text). c ∷ k) whole)
      where
        no_return : (c == 13) ≡ false
        no_return = ground (arith, hc)

-- After the second fence every line is kept.
body_loop-unlines : (body : Text) (ls : List Text) → body_loop 2 body ls ≡ (2, body ++ unlines ls)
unfolding body_loop unlines
body_loop-unlines body [] = ap (λ (t : Text). (2, t)) (sym (append-nil body))
body_loop-unlines body (l ∷ ls) =
    go (is_fence l)
    ∙ body_loop-unlines (body ++ l ++ codes "\n") ls
    ∙ ap (λ (t : Text). (2, t))
        (append_assoc (body ++ l) (codes "\n") (unlines ls) ∙ append_assoc body l (10 ∷ unlines ls))
  where
    go :
        (b : Bool)
        → (if b && ltb 2 2
            then body_loop 3 body ls
            else if ltb 2 2
            then body_loop 2 body ls
            else body_loop 2 (body ++ l ++ codes "\n") ls)
          ≡ body_loop 2 (body ++ l ++ codes "\n") ls
    go true = refl
    go false = refl

-- A literal without line breaks.
abbrev unbroken : Text → Bool
unbroken [] = true
unbroken (c ∷ cs) = if c == 10 then false else if c == 13 then false else unbroken cs

prefix-lines :
    (p x l : Text) (ls : List Text)
    → unbroken p ≡ true
    → lines x ≡ l ∷ ls
    → lines (p ++ x) ≡ (p ++ l) ∷ ls
unfolding lines
prefix-lines [] x l ls h e = e
prefix-lines (c ∷ p) x l ls h e = go (c == 10) refl (c == 13) refl h (prefix-lines p x l ls)
  where
    go :
        (a : Bool)
        → (c == 10) ≡ a
        → (b : Bool) → (c == 13) ≡ b
        → (if a then false else if b then false else unbroken p) ≡ true
        → (unbroken p ≡ true → lines x ≡ l ∷ ls → lines (p ++ x) ≡ (p ++ l) ∷ ls)
        → (if a
            then [] ∷ lines (p ++ x)
            else if b && feeds (p ++ x)
            then lines (p ++ x)
            else push_char c (lines (p ++ x)))
          ≡ (c ∷ (p ++ l)) ∷ ls
    go true ea b eb h ih = absurd (cc h)
    go false ea true eb h ih = absurd (cc h)
    go false ea false eb h ih = ap (push_char c) (ih h e)

-- A line of the frontmatter: a key of it, and a text without a line feed.
skip_line :
    (c : ℕ) (key t rest : Text)
    → unbroken (c ∷ key) ≡ true
    → is_whitespace c ≡ false
    → (c == 45) ≡ false
    → NoFeed t
    → body_loop 1 [] (lines ((c ∷ key) ++ (t ++ (10 ∷ rest)))) ≡ body_loop 1 [] (lines rest)
unfolding body_loop
skip_line c key t rest h space dash feed =
    let (t', e) = NoFeed-lines t rest feed in
    ap (body_loop 1 []) (prefix-lines (c ∷ key) (t ++ (10 ∷ rest)) t' (lines rest) h e)
    ∙ rw (not_fence c (key ++ t') space dash) refl

trim_end-feed : (t : Text) → trim_end (t ++ (10 ∷ [])) ≡ trim_end t
unfolding trim_end
trim_end-feed [] = refl
trim_end-feed (c ∷ t) = ap (trim_end_cons c) (trim_end-feed t)

trim-feeds : (t : Text) → trim (10 ∷ (t ++ (10 ∷ []))) ≡ trim t
unfolding trim trim_start
trim-feeds t = inner t
  where
    inner : (t : Text) → trim_end (trim_start (t ++ (10 ∷ []))) ≡ trim_end (trim_start t)
    inner [] = refl
    inner (c ∷ t) = go (is_whitespace c) (inner t)
      where
        go :
            (b : Bool)
            → trim_end (trim_start (t ++ (10 ∷ []))) ≡ trim_end (trim_start t)
            → trim_end (if b then trim_start (t ++ (10 ∷ [])) else c ∷ (t ++ (10 ∷ [])))
              ≡ trim_end (if b then trim_start t else c ∷ t)
        go true ih = ih
        go false ih = ap (trim_end_cons c) (trim_end-feed t)

skip_declines :
    (body : Text) (secret : Bool)
    → body_loop 1 [] (
        lines (
          decline_lines
            (if secret then codes "zero-inference" ∷ codes "attribute-absent" ∷ [] else [])
            (if secret then secret_message else [])
          ++ (codes "---\n\n" ++ body)))
      ≡ body_loop 2 [] (lines (10 ∷ body))
unfolding body_loop lines list_beq trim trim_start trim_end
skip_declines body true = refl
skip_declines body false = refl

-- The body is the text, trimmed.
body_of_text :
    (whole text : Text)
    → NoReturn text
    → trim (body_or whole (body_loop 2 [] (lines (10 ∷ (text ++ (10 ∷ [])))))) ≡ trim text
unfolding unlines
body_of_text whole text h =
    let (l, ls, is, same) = lines-unlines (10 ∷ text) ((λ e. absurd (omega (arith, e))), h) in
    ap (λ (k : List Text). trim (body_or whole (body_loop 2 [] k))) is
    ∙ ap (λ (r : ℕ × Text). trim (body_or whole r)) (body_loop-unlines [] (l ∷ ls))
    ∙ ap trim same
    ∙ trim-feeds text

-- The text that is written into a concept file is read back from it, trimmed, whatever lines stand
-- in it: there is no carriage return in it, and no line feed in the class, its delivery or the name.
pub okf_body-write :
    (registry : Text → Option Text) (text class name : Text)
    → NoReturn text
    → NoFeed class
    → NoFeed (class_delivery registry class)
    → NoFeed name
    → okf_body (write_episode_okf registry text class name) ≡ trim text
unfolding okf_body write_episode_okf from_class body_loop lines list_beq trim trim_start trim_end
okf_body-write registry text class name no_return plain plain_d named =
    ap (λ (r : ℕ × Text). trim (body_or whole r))
      (skip_line 116 (codes "itle: ") title (codes "description: " ++ (title ++ (10 ∷ tags))) refl
          refl refl (NoFeed-one_line (take 60 text))
        ∙ skip_line 100 (codes "escription: ") title tags refl refl refl
            (NoFeed-one_line (take 60 text))
        ∙ ap (λ (t : Text). body_loop 1 [] (lines (codes "tags: [mem-okf, episode, " ++ t)))
            (sym (append_assoc class (93 ∷ []) (10 ∷ addr)))
        ∙ skip_line 116 (codes "ags: [mem-okf, episode, ") (class ++ (93 ∷ [])) addr refl refl refl
            (All-append (λ (c : ℕ). c ≢ 10) class (93 ∷ []) plain
              ((λ e. absurd (omega (arith, e))), tt))
        ∙ skip_line 109 (codes "em_addr: ") name classed refl refl refl named
        ∙ skip_line 109 (codes "em_class: ") class delivered refl refl refl plain
        ∙ skip_line 109 (codes "em_delivery: ") delivery authorised refl refl refl plain_d
        ∙ skip_line 109 (codes "em_authority: ") (authority class) declined refl refl refl
            (NoFeed-authority class)
        ∙ skip_declines (text ++ codes "\n") (is_secret class))
    ∙ body_of_text whole text no_return
  where
    whole : Text
    whole = write_episode_okf registry text class name

    title : Text
    title = one_line (take 60 text)

    delivery : Text
    delivery = class_delivery registry class

    declined : Text
    declined =
        decline_lines
          (if is_secret class then codes "zero-inference" ∷ codes "attribute-absent" ∷ [] else [])
          (if is_secret class then secret_message else [])
        ++ (codes "---\n\n" ++ (text ++ codes "\n"))

    authorised : Text
    authorised = codes "mem_authority: " ++ (authority class ++ (10 ∷ declined))

    delivered : Text
    delivered = codes "mem_delivery: " ++ (delivery ++ (10 ∷ authorised))

    classed : Text
    classed = codes "mem_class: " ++ (class ++ (10 ∷ delivered))

    addr : Text
    addr = codes "sp_status: ACTIVE\nmem_kind: episode\nmem_addr: " ++ (name ++ (10 ∷ classed))

    tags : Text
    tags = codes "tags: [mem-okf, episode, " ++ (class ++ (93 ∷ 10 ∷ addr))
