-- ===== src/Kairos/Tape/Quoting.antt =====
-- Quoted fields through `tokenize_line`.
use mathlib.Core.List.{append_assoc, append-nil}
use kairos_engine.Base.{
  ℕ, ◌≡◌, ◌≢◌, refl, ap, sym, ◌∙◌, Bool, true, false, not, ◌&&◌, List, [], ◌∷◌, ◌++◌, All, arith,
  ◌==◌, if◌then◌else◌,
}
use kairos_engine.Base.Text.{is_whitespace}
use kairos_engine.Kairos.Tape.{
  quote, separator, ordinary, char_class, push_token, tokenize_loop, tokenize_line,
}

-- A field written between quotes, with a space after it.
abbrev pub quoted : List (List ℕ) → List ℕ
quoted [] = []
quoted (t ∷ ts) = 34 ∷ (t ++ (34 ∷ 32 ∷ quoted ts))

abbrev NotQuote : ℕ → Type 0
NotQuote c = c ≢ 34

-- A token that survives: it is not empty and has no quote.
abbrev pub IsToken : List ℕ → Type 0
IsToken t = (t ≢ []) × All NotQuote t

inside_class : (c : ℕ) → c ≢ 34 → char_class c true ≡ ordinary
inside_class c h = go (c == 34) (is_whitespace c) (ground (arith, h))
  where
    go :
        (b w : Bool)
        → b ≡ false
        → (if b then quote else if w && not true then separator else ordinary) ≡ ordinary
    go true w e = absurd (cc e)
    go false true e = refl
    go false false e = refl

-- Between quotes every character but the quote is kept.
inside :
    (cur t rest : List ℕ)
    → All NotQuote t
    → tokenize_loop cur true (t ++ (34 ∷ rest)) ≡ tokenize_loop (cur ++ t) false rest
unfolding tokenize_loop
inside cur [] rest h = ap (λ (l : List ℕ). tokenize_loop l false rest) (sym (append-nil cur))
inside cur (c ∷ cs) rest (hc, hcs) =
    rw (inside_class c hc, tokenize_loop)
      (inside (cur ++ (c ∷ [])) cs rest hcs
        ∙ ap (λ (l : List ℕ). tokenize_loop l false rest) (append_assoc cur (c ∷ []) cs))

push_nonempty : (t : List ℕ) (out : List (List ℕ)) → t ≢ [] → push_token t out ≡ t ∷ out
push_nonempty [] out h = absurd (h refl)
push_nonempty (c ∷ cs) out h = refl

-- Fields that are not empty and hold no quote, each written between quotes, are read back as they
-- are, whatever spaces they hold.
pub tokenize_line-quoted : (ts : List (List ℕ)) → All IsToken ts → tokenize_line (quoted ts) ≡ ts
unfolding tokenize_line tokenize_loop
tokenize_line-quoted [] h = refl
tokenize_line-quoted (t ∷ ts) ((full, plain), hs) =
    inside [] t (32 ∷ quoted ts) plain
    ∙ push_nonempty t (tokenize_loop [] false (quoted ts)) full
    ∙ ap (◌∷◌ t) (tokenize_line-quoted ts hs)
