-- ===== src/Tokenizer/DecodeBuffer/Stop.antt =====
-- Where the search of `push` finds a stop string.
use mathlib.Core.List.{Memᴰ}
use mathlib.Core.Option.{some-injective}
use kairos_engine.Base.{
  ℕ, zero, suc, ◌+◌, ◌≤◌, ◌<◌, ◌≡◌, refl, ap, sym, ◌∙◌, Bool, true, false, Option, none, some, List,
  [], ◌∷◌, length, take, drop, list_beq, list_beq→eq, list_beq_refl, if◌then◌else◌, arith,
}
use kairos_engine.Tokenizer.DecodeBuffer.{position, memmem, find_stop, max_len}

-- The needle stands in the text at `i`.
abbrev pub StandsAt : List ℕ → ℕ → List ℕ → Type 0
StandsAt needle i text = take (length needle) (drop i text) ≡ needle

-- The text has no place for a needle with a byte.
abbrev pub Free : List ℕ → List ℕ → Type 0
Free needle text = (i : ℕ) → 0 < length needle → ¬ StandsAt needle i text

position-Free :
    (needle : List ℕ) (i : ℕ) (bs : List ℕ) → position needle i bs ≡ none → Free needle bs
unfolding position
position-Free [] i bs h j pos stands = absurd (omega (arith, pos))
position-Free (n ∷ needle) i [] h zero pos stands = absurd (cc stands)
position-Free (n ∷ needle) i [] h (suc j) pos stands = absurd (cc stands)
position-Free (n ∷ needle) i (b ∷ bs) h j pos stands =
    go (list_beq (take (suc (length needle)) (b ∷ bs)) (n ∷ needle)) refl h
      (position-Free (n ∷ needle) (i + 1) bs) j stands
  where
    go :
        (found : Bool)
        → list_beq (take (suc (length needle)) (b ∷ bs)) (n ∷ needle) ≡ found
        → (if found then some i else position (n ∷ needle) (i + 1) bs) ≡ none
        → (position (n ∷ needle) (i + 1) bs ≡ none → Free (n ∷ needle) bs)
        → (j : ℕ) → ¬ StandsAt (n ∷ needle) j (b ∷ bs)
    go true e h ih j stands = absurd (cc h)
    go false e h ih zero stands = absurd (
        cc (
          sym e ∙ ap (λ (w : List ℕ). list_beq w (n ∷ needle)) stands ∙ list_beq_refl (n ∷ needle)))
    go false e h ih (suc j) stands = ih h j (omega arith) stands

position-StandsAt :
    (needle : List ℕ) (i : ℕ) (bs : List ℕ) (p : ℕ)
    → position needle i bs ≡ some p
    → (k : ℕ) × (p ≡ i + k) × (k < length bs) × StandsAt needle k bs
unfolding position
position-StandsAt needle i [] p h = absurd (cc h)
position-StandsAt needle i (b ∷ bs) p h =
    go (list_beq (take (length needle) (b ∷ bs)) needle) refl h
      (position-StandsAt needle (i + 1) bs p)
  where
    go :
        (found : Bool)
        → list_beq (take (length needle) (b ∷ bs)) needle ≡ found
        → (if found then some i else position needle (i + 1) bs) ≡ some p
        → (position needle (i + 1) bs ≡ some p
            → (k : ℕ) × (p ≡ i + 1 + k) × (k < length bs) × StandsAt needle k bs)
        → (k : ℕ) × (p ≡ i + k) × (k < length (b ∷ bs)) × StandsAt needle k (b ∷ bs)
    go true e h ih =
        let here : i ≡ p = some-injective i p h in
        (0, omega (arith, here), omega arith, list_beq→eq (take (length needle) (b ∷ bs)) needle e)
    go false e h ih =
        let (k, at, lt, stands) = ih h in (suc k, omega (arith, at), omega (arith, lt), stands)

memmem-Free : (text needle : List ℕ) → memmem text needle ≡ none → Free needle text
unfolding memmem
memmem-Free text [] h = λ i pos stands. absurd (omega (arith, pos))
memmem-Free text (n ∷ needle) h = position-Free (n ∷ needle) 0 text h

memmem-StandsAt :
    (text needle : List ℕ) (p : ℕ)
    → memmem text needle ≡ some p
    → (p ≤ length text) × StandsAt needle p text
unfolding memmem
memmem-StandsAt text [] p h = (omega (arith, some-injective 0 p h), refl)
memmem-StandsAt text (n ∷ needle) p h =
    let (k, at, lt, stands) = position-StandsAt (n ∷ needle) 0 text p h in
    let same : p ≡ k = omega (arith, at) in
    (omega (arith, at, lt), ap (λ (i : ℕ). take (suc (length needle)) (drop i text)) same ∙ stands)

-- No stop string stands in a text in which none is found.
pub find_stop-Free :
    (stops : List (List ℕ)) (text : List ℕ)
    → find_stop stops text ≡ none
    → (stop : List ℕ) → Memᴰ stop stops
    → Free stop text
unfolding find_stop
find_stop-Free [] text h stop inside = elim inside [ ]
find_stop-Free (s ∷ stops) text h stop inside =
    go (memmem text s) refl h (λ rest. find_stop-Free stops text rest stop) inside
  where
    go :
        (o : Option ℕ)
        → memmem text s ≡ o
        → (elim o [ none ↦ find_stop stops text | some pos ↦ some pos ]) ≡ none
        → (find_stop stops text ≡ none → Memᴰ stop stops → Free stop text)
        → Memᴰ stop (s ∷ stops)
        → Free stop text
    go (some pos) e h ih inside = absurd (cc h)
    go none e h ih (Memᴰ.head same) = rw (same) (memmem-Free text s e)
    go none e h ih (Memᴰ.tail inside) = ih h inside

pub find_stop-StandsAt :
    (stops : List (List ℕ)) (text : List ℕ) (p : ℕ)
    → find_stop stops text ≡ some p
    → (p ≤ length text) × (stop : List ℕ) × Memᴰ stop stops × StandsAt stop p text
unfolding find_stop
find_stop-StandsAt [] text p h = absurd (cc h)
find_stop-StandsAt (s ∷ stops) text p h =
    go (memmem text s) refl h (find_stop-StandsAt stops text p)
  where
    go :
        (o : Option ℕ)
        → memmem text s ≡ o
        → (elim o [ none ↦ find_stop stops text | some pos ↦ some pos ]) ≡ some p
        → (find_stop stops text ≡ some p
            → (p ≤ length text) × (stop : List ℕ) × Memᴰ stop stops × StandsAt stop p text)
        → (p ≤ length text) × (stop : List ℕ) × Memᴰ stop (s ∷ stops) × StandsAt stop p text
    go (some pos) e h ih =
        let (le, stands) = memmem-StandsAt text s p (e ∙ h) in (le, s, Memᴰ.head refl, stands)
    go none e h ih = let (le, stop, inside, stands) = ih h in (le, stop, Memᴰ.tail inside, stands)

pub length-max_len :
    (stops : List (List ℕ)) (stop : List ℕ) → Memᴰ stop stops → length stop ≤ max_len stops
length-max_len [] stop inside = elim inside [ ]
length-max_len (s ∷ stops) stop (Memᴰ.head same) = rw (same) (omega arith)
length-max_len (s ∷ stops) stop (Memᴰ.tail inside) = omega (arith, length-max_len stops stop inside)
