-- ===== src/Recall/Policy/Captured.antt =====
-- From the text of a turn to the policy under which it comes back.
use kairos_engine.Base.{
  ℕ, ◌≡◌, ◌≢◌, refl, sym, ◌∙◌, ◌⊎◌, inl, inr, Bool, true, false, ◌||◌, Option, none, some, [], ◌∷◌,
  list_beq, ◌==◌, ==_iff, if◌then◌else◌,
}
use kairos_engine.Base.Text.{codes, trim, trim_start, trim_end}
use kairos_engine.Recall.Policy.{
  Text, MemPolicy, from_class, class_default_delivery, write_episode_okf,
}
use kairos_engine.Recall.Policy.Parse.{parse_okf_policy}
use kairos_engine.Recall.Policy.Classify.{
  classify_mem_class, any_text, any_code, secret_kw, persona_kw, words,
}
use kairos_engine.Recall.Policy.Written.{parse_okf_policy-write}
use kairos_engine.Recall.Policy.Lines.{Plain, NoFeed}

-- A literal without a line break.
abbrev clean : Text → Bool
clean [] = true
clean (c ∷ cs) = if c == 10 then false else if c == 13 then false else clean cs

clean-Plain : (t : Text) → clean t ≡ true → Plain t
clean-Plain [] h = tt
clean-Plain (c ∷ t) h = go (c == 10) (c == 13) refl refl h (clean-Plain t)
  where
    differs : (d : ℕ) → (c == d) ≡ false → c ≢ d
    differs d e same = absurd (cc (sym ((==_iff c d).1 same) ∙ e))

    go :
        (a b : Bool)
        → (c == 10) ≡ a
        → (c == 13) ≡ b
        → (if a then false else if b then false else clean t) ≡ true
        → (clean t ≡ true → Plain t)
        → Plain (c ∷ t)
    go true b ea eb h ih = absurd (cc h)
    go false true ea eb h ih = absurd (cc h)
    go false false ea eb h ih = ((differs 10 ea, differs 13 eb), ih h)

-- A class of the classifier, with what the concept file asks of it.
record IsGentle (class : Text) : Type 0 where
  plain : Plain class
  trimmed : trim class ≡ class
  plain_d : Plain (class_default_delivery class)
  trimmed_d : trim (class_default_delivery class) ≡ class_default_delivery class
  gentle :
      (class_default_delivery class ≡ codes "attr-gate-strict")
      ⊎ (class_default_delivery class ≡ codes "system")

IsGentle-secret : IsGentle (codes "private-secret")
unfolding class_default_delivery list_beq trim trim_start trim_end
IsGentle-secret = record {
  plain = clean-Plain (codes "private-secret") refl;
  trimmed = refl;
  plain_d = clean-Plain (codes "attr-gate-strict") refl;
  trimmed_d = refl;
  gentle = inl refl;
}

IsGentle-persona : IsGentle (codes "persona")
unfolding class_default_delivery list_beq trim trim_start trim_end
IsGentle-persona = record {
  plain = clean-Plain (codes "persona") refl;
  trimmed = refl;
  plain_d = clean-Plain (codes "system") refl;
  trimmed_d = refl;
  gentle = inr refl;
}

IsGentle-fact : IsGentle (codes "fact")
unfolding class_default_delivery list_beq trim trim_start trim_end
IsGentle-fact = record {
  plain = clean-Plain (codes "fact") refl;
  trimmed = refl;
  plain_d = clean-Plain (codes "system") refl;
  trimmed_d = refl;
  gentle = inr refl;
}

classify-IsGentle : (lower : Text → Text) (text : Text) → IsGentle (classify_mem_class lower text)
unfolding classify_mem_class
classify-IsGentle lower text =
    go (any_text secret_kw (lower text) || any_code (words text)) (any_text persona_kw (lower text))
  where
    go :
        (a b : Bool)
        → IsGentle
            (if a then codes "private-secret" else if b then codes "persona" else codes "fact")
    go true b = IsGentle-secret
    go false true = IsGentle-persona
    go false false = IsGentle-fact

abbrev pub no_registry : Text → Option Text
no_registry class = none

-- Any text that is captured, classified and written under a name without a line feed is read back
-- with its class, and without a map in the environment its delivery is a strict gate or a note:
-- never an order to recite or to override.
pub captured_gentle :
    (lower : Text → Text) (text name : Text)
    → NoFeed name
    → (p : MemPolicy) × (parse_okf_policy
          (write_episode_okf no_registry text (classify_mem_class lower text) name)
        ≡ some p)
      × (p.class ≡ classify_mem_class lower text)
      × ((p.delivery ≡ codes "attr-gate-strict") ⊎ (p.delivery ≡ codes "system"))
unfolding from_class
captured_gentle lower text name named =
    let class = classify_mem_class lower text in
    let h = classify-IsGentle lower text in
    (
      from_class no_registry class,
      parse_okf_policy-write no_registry text class name h.plain h.trimmed h.plain_d h.trimmed_d
          named,
      refl,
      h.gentle,
    )
