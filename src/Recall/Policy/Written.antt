-- ===== src/Recall/Policy/Written.antt =====
-- A policy that is written into a concept file is read back from it.
use mathlib.Core.List.{append_assoc}
use kairos_engine.Base.{
  ℕ, ◌≡◌, ◌≢◌, refl, ap, sym, ◌∙◌, Bool, true, false, Option, none, some, List, [], ◌∷◌, ◌++◌, take,
  list_beq, if◌then◌else◌, All-append, arith,
}
use kairos_engine.Base.Text.{codes, trim, trim_start, trim_end, lines, push_char, split_once, split}
use kairos_engine.Recall.Policy.{
  Text, from_class, class_delivery, is_secret, one_of, authority, decline_lines, secret_message,
  one_line, write_episode_okf,
}
use kairos_engine.Recall.Policy.Parse.{
  set_field, decline_list, read_line, is_fence, Fields, policy_loop, policy_of, parse_okf_policy,
}
use kairos_engine.Recall.Policy.Lines.{
  NoFeed, Plain, Plain-lines, NoFeed-lines, NoFeed-clean, NoFeed-one_line, not_fence,
}

-- The characters in front of the first of some lines.
abbrev pushes : Text → List Text → List Text
pushes [] ls = ls
pushes (c ∷ cs) ls = push_char c (pushes cs ls)

-- A line of the frontmatter that is no fence.
read_on :
    (doc line rest : Text) (f f' : Fields)
    → lines doc ≡ line ∷ lines rest
    → is_fence line ≡ false
    → read_line (split_once 58 line) f ≡ f'
    → policy_loop true f (lines doc) ≡ policy_loop true f' (lines rest)
unfolding policy_loop
read_on doc line rest f f' e open_ same =
    ap (policy_loop true f) e
    ∙ rw (open_) (ap (λ (g : Fields). policy_loop true g (lines rest)) same)

module _ (f : Fields) (rest : Text) where
  skip_title :
      (t : Text)
      → NoFeed t
      → policy_loop true f (lines (codes "title: " ++ (t ++ (10 ∷ rest))))
        ≡ policy_loop true f (lines rest)
  unfolding lines split_once set_field list_beq trim trim_start trim_end
  skip_title t h =
      let (t', e) = NoFeed-lines t rest h in
      read_on (codes "title: " ++ (t ++ (10 ∷ rest))) (codes "title: " ++ t') rest f f
        (ap (pushes (codes "title: ")) e) (not_fence 116 (codes "itle: " ++ t') refl refl) refl

  skip_description :
      (t : Text)
      → NoFeed t
      → policy_loop true f (lines (codes "description: " ++ (t ++ (10 ∷ rest))))
        ≡ policy_loop true f (lines rest)
  unfolding lines split_once set_field list_beq trim trim_start trim_end
  skip_description t h =
      let (t', e) = NoFeed-lines t rest h in
      read_on (codes "description: " ++ (t ++ (10 ∷ rest))) (codes "description: " ++ t') rest f f
        (ap (pushes (codes "description: ")) e)
        (not_fence 100 (codes "escription: " ++ t') refl refl) refl

  skip_tags :
      (t : Text)
      → Plain t
      → policy_loop true f (lines (codes "tags: [mem-okf, episode, " ++ (t ++ (93 ∷ 10 ∷ rest))))
        ≡ policy_loop true f (lines rest)
  unfolding lines split_once set_field list_beq trim trim_start trim_end
  skip_tags t h =
      read_on (codes "tags: [mem-okf, episode, " ++ (t ++ (93 ∷ 10 ∷ rest)))
        (codes "tags: [mem-okf, episode, " ++ (t ++ (93 ∷ []))) rest f f
        (ap (pushes (codes "tags: [mem-okf, episode, ")) (closed t h))
        (not_fence 116 (codes "ags: [mem-okf, episode, " ++ (t ++ (93 ∷ []))) refl refl) refl
    where
      closed : (t : Text) → Plain t → lines (t ++ (93 ∷ 10 ∷ rest)) ≡ (t ++ (93 ∷ [])) ∷ lines rest
      closed t h =
          ap lines (sym (append_assoc t (93 ∷ []) (10 ∷ rest)))
          ∙ Plain-lines (t ++ (93 ∷ [])) rest (
              All-append (λ (c : ℕ). (c ≢ 10) × (c ≢ 13)) t (93 ∷ []) h
                ((λ e. absurd (omega (arith, e)), λ e. absurd (omega (arith, e))), tt))

  skip_addr :
      (t : Text)
      → NoFeed t
      → policy_loop true f
          (lines (codes "sp_status: ACTIVE\nmem_kind: episode\nmem_addr: " ++ (t ++ (10 ∷ rest))))
        ≡ policy_loop true f (lines rest)
  unfolding policy_loop lines split_once set_field list_beq trim trim_start trim_end
  skip_addr t h =
      let (t', e) = NoFeed-lines t rest h in
      read_on (codes "mem_addr: " ++ (t ++ (10 ∷ rest))) (codes "mem_addr: " ++ t') rest f f
        (ap (pushes (codes "mem_addr: ")) e) (not_fence 109 (codes "em_addr: " ++ t') refl refl)
        refl

  skip_authority :
      (t : Text)
      → NoFeed t
      → policy_loop true f (lines (codes "mem_authority: " ++ (t ++ (10 ∷ rest))))
        ≡ policy_loop true f (lines rest)
  unfolding lines split_once set_field list_beq trim trim_start trim_end
  skip_authority t h =
      let (t', e) = NoFeed-lines t rest h in
      read_on (codes "mem_authority: " ++ (t ++ (10 ∷ rest))) (codes "mem_authority: " ++ t') rest f
        f (ap (pushes (codes "mem_authority: ")) e)
        (not_fence 109 (codes "em_authority: " ++ t') refl refl) refl

  read_class :
      (t : Text)
      → Plain t
      → trim t ≡ t
      → policy_loop true f (lines (codes "mem_class: " ++ (t ++ (10 ∷ rest))))
        ≡ policy_loop true (record f { class = some t }) (lines rest)
  unfolding lines split_once set_field list_beq trim trim_start trim_end
  read_class t h e =
      read_on (codes "mem_class: " ++ (t ++ (10 ∷ rest))) (codes "mem_class: " ++ t) rest f
        (record f { class = some t }) (ap (pushes (codes "mem_class: ")) (Plain-lines t rest h))
        (not_fence 109 (codes "em_class: " ++ t) refl refl)
        (ap (λ (v : Text). record f { class = some v }) e)

  read_delivery :
      (t : Text)
      → Plain t
      → trim t ≡ t
      → policy_loop true f (lines (codes "mem_delivery: " ++ (t ++ (10 ∷ rest))))
        ≡ policy_loop true (record f { delivery = some t }) (lines rest)
  unfolding lines split_once set_field list_beq trim trim_start trim_end
  read_delivery t h e =
      read_on (codes "mem_delivery: " ++ (t ++ (10 ∷ rest))) (codes "mem_delivery: " ++ t) rest f
        (record f { delivery = some t })
        (ap (pushes (codes "mem_delivery: ")) (Plain-lines t rest h))
        (not_fence 109 (codes "em_delivery: " ++ t) refl refl)
        (ap (λ (v : Text). record f { delivery = some v }) e)

-- The lines of the decline and the fence after them, from fields without them.
read_declines :
    (class delivery body : Text) (secret : Bool)
    → policy_loop true
        (record { class = some class; delivery = some delivery; dm = []; dw = [] })
        (lines (
          decline_lines
            (if secret then codes "zero-inference" ∷ codes "attribute-absent" ∷ [] else [])
            (if secret then secret_message else [])
          ++ (codes "---\n\n" ++ body)))
      ≡ (record {
        class = some class;
        delivery = some delivery;
        dm = if secret then secret_message else [];
        dw = if secret then codes "zero-inference" ∷ codes "attribute-absent" ∷ [] else [];
      })
unfolding policy_loop lines split_once split set_field decline_list list_beq trim trim_start
    trim_end
read_declines class delivery body true = refl
read_declines class delivery body false = refl

pub NoFeed-authority : (class : Text) → NoFeed (authority class)
NoFeed-authority class = go (is_secret class) (
    one_of class
      (codes "persona" ∷ codes "preference" ∷ codes "fact" ∷ codes "episodic-event" ∷ []))
  where
    go :
        (a b : Bool)
        → NoFeed (
            if a
            then codes "private"
            else if b
            then codes "supplements"
            else codes "overrides-prior")
    go true b = NoFeed-clean (codes "private") refl
    go false true = NoFeed-clean (codes "supplements") refl
    go false false = NoFeed-clean (codes "overrides-prior") refl

-- The policy of a class, written beside any text under a name without a line feed, is read back as
-- it was, where class and delivery are one line each, trimmed.
pub parse_okf_policy-write :
    (registry : Text → Option Text) (text class name : Text)
    → Plain class
    → trim class ≡ class
    → Plain (class_delivery registry class)
    → trim (class_delivery registry class) ≡ class_delivery registry class
    → NoFeed name
    → parse_okf_policy (write_episode_okf registry text class name)
      ≡ some (from_class registry class)
unfolding parse_okf_policy write_episode_okf from_class policy_loop lines split_once set_field
    list_beq trim trim_start trim_end
parse_okf_policy-write registry text class name plain trimmed plain_d trimmed_d named =
    ap policy_of (
      skip_title empty (codes "description: " ++ (title ++ (10 ∷ tags))) title
        (NoFeed-one_line (take 60 text))
      ∙ skip_description empty tags title (NoFeed-one_line (take 60 text))
      ∙ skip_tags empty addr class plain
      ∙ skip_addr empty classed name named
      ∙ read_class empty delivered class plain trimmed
      ∙ read_delivery (record empty { class = some class }) authorised delivery plain_d trimmed_d
      ∙ skip_authority (record empty { class = some class; delivery = some delivery }) declined
          (authority class) (NoFeed-authority class)
      ∙ read_declines class delivery (text ++ codes "\n") (is_secret class))
  where
    empty : Fields
    empty = record { class = none; delivery = none; dm = []; dw = [] }

    title : Text
    title = one_line (take 60 text)

    delivery : Text
    delivery = class_delivery registry class

    declined : Text
    declined =
        decline_lines
          (if is_secret class then codes "zero-inference" ∷ codes "attribute-absent" ∷ [] else [])
          (if is_secret class then secret_message else [])
        ++ (codes "---\n\n" ++ (text ++ codes "\n"))

    authorised : Text
    authorised = codes "mem_authority: " ++ (authority class ++ (10 ∷ declined))

    delivered : Text
    delivered = codes "mem_delivery: " ++ (delivery ++ (10 ∷ authorised))

    classed : Text
    classed = codes "mem_class: " ++ (class ++ (10 ∷ delivered))

    addr : Text
    addr = codes "sp_status: ACTIVE\nmem_kind: episode\nmem_addr: " ++ (name ++ (10 ∷ classed))

    tags : Text
    tags = codes "tags: [mem-okf, episode, " ++ (class ++ (93 ∷ 10 ∷ addr))
