-- ===== src/Recall/Lexical/Evidence.antt =====
-- `parse_tag_evidence` and `strip_special_tokens` of tools/sp_daemon/src/recall.rs: which entry a
-- reply picks, and the words that it gives for it. A text is its code points; the places that `find`
-- gives are compared only with one another.
use kairos_engine.Base.{
  ℕ, suc, ◌-◌, ◌^◌, ◌≡◌, ◌≢◌, refl, sym, ◌∙◌, Bool, true, false, ◌&&◌, ◌||◌, Option, none, some,
  List, [], ◌∷◌, map, drop, ltb, leb, ◌==◌, ==_iff, if◌then◌else◌, All,
}
use kairos_engine.Base.Text.{codes, trim}
use kairos_engine.Recall.Lexical.{Text, starts_with}

abbrev pub upper : ℕ → ℕ
upper c = if leb 97 c && leb c 122 then c - 32 else c

abbrev pub to_ascii_uppercase : Text → Text
to_ascii_uppercase s = map upper s

-- `str::find` of a text: where it begins first.
abbrev pub next_place : Option ℕ → Option ℕ
next_place none = none
next_place (some j) = some (suc j)

unfoldable pub find : Text → Text → Option ℕ
find [] p = if starts_with [] p then some 0 else none
find (c ∷ s) p = let rest = next_place (find s p) in if starts_with (c ∷ s) p then some 0 else rest

-- `pick` and `ti`, which begins as `usize::MAX`.
pub record Pick : Type 0 where
  pub pick : Option ℕ
  pub ti : ℕ

abbrev pub usize_max : ℕ
usize_max = 2 ^ 64 - 1

abbrev pub earlier : Pick → ℕ → Option ℕ → Pick
earlier p i none = p
earlier p i (some j) = if ltb j p.ti then record { pick = some i; ti = j } else p

unfoldable pub pick_loop : Text → ℕ → List Text → Pick → Pick
pick_loop up i [] p = p
pick_loop up i (t ∷ tags) p =
    pick_loop up (suc i) tags (earlier p i (find up (to_ascii_uppercase t)))

abbrev pub or_none : Pick → Option ℕ → Option ℕ
or_none p none = p.pick
or_none p (some jn) = if ltb jn p.ti then none else p.pick

unfoldable pub pick_tag : Text → List Text → Option ℕ
pick_tag up tags =
    or_none (pick_loop up 0 tags record { pick = none; ti = usize_max }) (find up (codes "NONE"))

unfoldable pub strip_special_tokens : ℕ → Text → Text
strip_special_tokens depth [] = []
strip_special_tokens depth (c ∷ cs) =
    let deeper = strip_special_tokens (suc depth) cs in
    let closed = strip_special_tokens (depth - 1) cs in
    let same = strip_special_tokens depth cs in
    if c == 60 then deeper else if c == 62 then closed else if depth == 0 then c ∷ same else same

-- The text after the first `=` or `:`, where there is one.
unfoldable pub after_sign : Text → Option Text
after_sign [] = none
after_sign (c ∷ cs) = let rest = after_sign cs in if c == 61 || c == 58 then some cs else rest

unfoldable pub first_line : Text → Text
first_line [] = []
first_line (c ∷ cs) = let rest = first_line cs in if c == 10 then [] else c ∷ rest

-- `trim_matches('"')`
unfoldable pub unquote_start : Text → Text
unquote_start [] = []
unquote_start (c ∷ cs) = let rest = unquote_start cs in if c == 34 then rest else c ∷ cs

abbrev unquote_end_cons : ℕ → Text → Text
unquote_end_cons c [] = if c == 34 then [] else c ∷ []
unquote_end_cons c (d ∷ ds) = c ∷ d ∷ ds

unfoldable pub unquote_end : Text → Text
unquote_end [] = []
unquote_end (c ∷ cs) = unquote_end_cons c (unquote_end cs)

abbrev pub span_of : Option Text → Text
span_of none = []
span_of (some raw) =
    trim (unquote_end (unquote_start (trim (strip_special_tokens 0 (first_line raw)))))

abbrev pub evidence_at : Text → Option ℕ → Text
evidence_at reply none = []
evidence_at reply (some p) = span_of (after_sign (drop p reply))

unfoldable pub parse_tag_evidence : Text → List Text → Option ℕ × Text
parse_tag_evidence reply tags =
    let up = to_ascii_uppercase reply in
    (pick_tag up tags, evidence_at reply (find up (codes "EVIDENCE")))

-- No marker's bracket is left.
pub strip_special_tokens-NoBracket :
    (depth : ℕ) (s : Text) → All (λ (c : ℕ). (c ≢ 60) × (c ≢ 62)) (strip_special_tokens depth s)
unfolding strip_special_tokens
strip_special_tokens-NoBracket depth [] = tt
strip_special_tokens-NoBracket depth (c ∷ cs) =
    opening (c == 60) refl (strip_special_tokens-NoBracket (suc depth) cs)
      (strip_special_tokens-NoBracket (depth - 1) cs) (strip_special_tokens-NoBracket depth cs)
  where
    kept :
        (b : Bool)
        → (c ≢ 60) × (c ≢ 62)
        → All (λ (d : ℕ). (d ≢ 60) × (d ≢ 62)) (strip_special_tokens depth cs)
        → All
            (λ (d : ℕ). (d ≢ 60) × (d ≢ 62))
            (if b then c ∷ strip_special_tokens depth cs else strip_special_tokens depth cs)
    kept true h same = (h, same)
    kept false h same = same

    closing :
        (b : Bool)
        → (c == 62) ≡ b
        → c ≢ 60
        → All (λ (d : ℕ). (d ≢ 60) × (d ≢ 62)) (strip_special_tokens (depth - 1) cs)
        → All (λ (d : ℕ). (d ≢ 60) × (d ≢ 62)) (strip_special_tokens depth cs)
        → All
            (λ (d : ℕ). (d ≢ 60) × (d ≢ 62))
            (if b
              then strip_special_tokens (depth - 1) cs
              else if depth == 0
              then c ∷ strip_special_tokens depth cs
              else strip_special_tokens depth cs)
    closing true e n closed same = closed
    closing false e n closed same =
        kept (depth == 0) (n, λ q. absurd (cc (sym e ∙ (==_iff c 62).1 q))) same

    opening :
        (b : Bool)
        → (c == 60) ≡ b
        → All (λ (d : ℕ). (d ≢ 60) × (d ≢ 62)) (strip_special_tokens (suc depth) cs)
        → All (λ (d : ℕ). (d ≢ 60) × (d ≢ 62)) (strip_special_tokens (depth - 1) cs)
        → All (λ (d : ℕ). (d ≢ 60) × (d ≢ 62)) (strip_special_tokens depth cs)
        → All
            (λ (d : ℕ). (d ≢ 60) × (d ≢ 62))
            (if b
              then strip_special_tokens (suc depth) cs
              else if c == 62
              then strip_special_tokens (depth - 1) cs
              else if depth == 0
              then c ∷ strip_special_tokens depth cs
              else strip_special_tokens depth cs)
    opening true e deeper closed same = deeper
    opening false e deeper closed same =
        closing (c == 62) refl (λ q. absurd (cc (sym e ∙ (==_iff c 60).1 q))) closed same
