-- ===== src/Recall/Policy/Lines.antt =====
-- Lines of a text, and the lines that are no fence.
use kairos_engine.Base.{
  ℕ, ◌≡◌, ◌≢◌, refl, ap, sym, ◌∙◌, Bool, true, false, ◌&&◌, [], ◌∷◌, ◌++◌, list_beq, ◌==◌, ==_iff,
  if◌then◌else◌, All, arith,
}
use kairos_engine.Base.Text.{
  codes, is_whitespace, trim, trim_start, trim_end, trim_end_cons, lines, push_char, feeds,
}
use kairos_engine.Recall.Policy.{Text, one_line}
use kairos_engine.Recall.Policy.Parse.{is_fence}

-- No line break in the text.
abbrev pub NoFeed : Text → Type 0
NoFeed t = All (λ (c : ℕ). c ≢ 10) t

-- Neither a line feed nor a carriage return in it.
abbrev pub Plain : Text → Type 0
Plain t = All (λ (c : ℕ). (c ≢ 10) × (c ≢ 13)) t

differs : (c d : ℕ) → c ≢ d → (c == d) ≡ false
differs c d ne = ground (arith, ne)

pub Plain-lines : (t rest : Text) → Plain t → lines (t ++ (10 ∷ rest)) ≡ t ∷ lines rest
unfolding lines
Plain-lines [] rest h = refl
Plain-lines (c ∷ t) rest h =
    let feed : (c == 10) ≡ false = differs c 10 h.0.0 in
    let return : (c == 13) ≡ false = differs c 13 h.0.1 in
    rw (feed, return) (ap (push_char c) (Plain-lines t rest h.1))

-- Only a carriage return at its end can be missing from a line.
pub NoFeed-lines :
    (t rest : Text) → NoFeed t → (t' : Text) × (lines (t ++ (10 ∷ rest)) ≡ t' ∷ lines rest)
unfolding lines
NoFeed-lines [] rest h = ([], refl)
NoFeed-lines (c ∷ t) rest h =
    let feed : (c == 10) ≡ false = differs c 10 h.0 in
    go (c == 13 && feeds (t ++ (10 ∷ rest))) (NoFeed-lines t rest h.1) feed
  where
    go :
        (b : Bool)
        → (t' : Text) × (lines (t ++ (10 ∷ rest)) ≡ t' ∷ lines rest)
        → (c == 10) ≡ false
        → (t' : Text) × ((if c == 10
              then [] ∷ lines (t ++ (10 ∷ rest))
              else if b
              then lines (t ++ (10 ∷ rest))
              else push_char c (lines (t ++ (10 ∷ rest))))
            ≡ t' ∷ lines rest)
    go true (t', e) feed = (t', rw (feed) e)
    go false (t', e) feed = (c ∷ t', rw (feed) (ap (push_char c) e))

-- A literal without a line feed.
abbrev clean : Text → Bool
clean [] = true
clean (c ∷ cs) = if c == 10 then false else clean cs

pub NoFeed-clean : (t : Text) → clean t ≡ true → NoFeed t
NoFeed-clean [] h = tt
NoFeed-clean (c ∷ t) h = go (c == 10) refl h (NoFeed-clean t)
  where
    go :
        (b : Bool)
        → (c == 10) ≡ b
        → (if b then false else clean t) ≡ true
        → (clean t ≡ true → NoFeed t)
        → NoFeed (c ∷ t)
    go true e h ih = absurd (cc h)
    go false e h ih = (λ same. absurd (cc (sym ((==_iff c 10).1 same) ∙ e)), ih h)

pub NoFeed-one_line : (t : Text) → NoFeed (one_line t)
NoFeed-one_line [] = tt
NoFeed-one_line (c ∷ t) = (go (c == 10) refl, NoFeed-one_line t)
  where
    go : (b : Bool) → (c == 10) ≡ b → (if b then 32 else c) ≢ 10
    go true e same = absurd (omega (arith, same))
    go false e same = absurd (cc (sym ((==_iff c 10).1 same) ∙ e))

-- A text that begins with a character that stays is not trimmed there.
trim-head : (c : ℕ) (cs : Text) → is_whitespace c ≡ false → (r : Text) × (trim (c ∷ cs) ≡ c ∷ r)
unfolding trim trim_start
trim-head c cs h = let (r, e) = kept (trim_end cs) in (r, rw (h) e)
  where
    kept : (ds : Text) → (r : Text) × (trim_end_cons c ds ≡ c ∷ r)
    kept [] = ([], rw (h) refl)
    kept (d ∷ ds) = (d ∷ ds, refl)

-- A line that does not begin like a fence is none.
pub not_fence :
    (c : ℕ) (cs : Text) → is_whitespace c ≡ false → (c == 45) ≡ false → is_fence (c ∷ cs) ≡ false
unfolding list_beq
not_fence c cs h ne =
    let (r, e) = trim-head c cs h in
    ap (λ (t : Text). list_beq t (codes "---")) e ∙ ground (arith, ne)
