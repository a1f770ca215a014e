-- ===== src/Tokenizer/DecodeBuffer/Stream.antt =====
-- What a turn emits: no byte is lost, and no stop string passes.
use mathlib.Core.List.{Memᴰ, append_assoc, append-nil}
use kairos_engine.Base.{
  ℕ, zero, suc, ◌+◌, ◌-◌, ◌≤◌, ◌<◌, ◌≡◌, refl, ap, sym, ◌∙◌, ◌⊎◌, inl, inr, Option, none, some,
  List, [], ◌∷◌, ◌++◌, length, take, drop, length-take, length-drop, length-append,
  take-append-drop, subst, arith,
}
use kairos_engine.Tokenizer.DecodeBuffer.{
  PushResult, emit, stopped, TokenDecodeBuffer, new, max_len, find_stop, emit_end, settle, push,
  feed, flush,
}
use kairos_engine.Tokenizer.DecodeBuffer.Stop.{
  StandsAt, Free, find_stop-Free, find_stop-StandsAt, length-max_len,
}
use kairos_engine.Tokenizer.DecodeBuffer.Hold.{emit_end-hold, Free-append}

-- The bytes of the pushes together.
abbrev pub concat : List (List ℕ) → List ℕ
concat [] = []
concat (bs ∷ rest) = bs ++ concat rest

-- What holds between the pushes, of the bytes emitted so far: none has been emitted, or as many are
-- held back as can begin a stop string; and no stop string has passed.
record Inv (stops : List (List ℕ)) (s : TokenDecodeBuffer) (out : List ℕ) : Type 0 where
  kept : s.stop_bytes ≡ stops
  held : s.hold ≡ max_len stops - 1
  back : (length out ≡ 0) ⊎ (s.hold ≤ length s.buf)
  free : (stop : List ℕ) → Memᴰ stop stops → Free stop (out ++ s.buf)

-- A push in which no stop string is found.
settle-Inv :
    (stops : List (List ℕ)) (s : TokenDecodeBuffer) (out bytes : List ℕ)
    → Inv stops s out
    → find_stop s.stop_bytes (s.buf ++ bytes) ≡ none
    → Inv stops
        (settle s (s.buf ++ bytes) none).1
        (out ++ take (emit_end s.hold (s.buf ++ bytes)) (s.buf ++ bytes))
settle-Inv stops s out bytes inv missing = record {
  kept = inv.kept;
  held = inv.held;
  back = back (emit_end-hold s.hold full);
  free = λ stop inside. subst (Free stop) (sym joined) (
      Free-append s.hold stop out s.buf bytes (short stop inside) inv.back (inv.free stop inside)
        (find_stop-Free s.stop_bytes full missing stop (subst (Memᴰ stop) (sym inv.kept) inside)));
}
  where
    full : List ℕ
    full = s.buf ++ bytes

    k : ℕ
    k = emit_end s.hold full

    joined : (out ++ take k full) ++ drop k full ≡ out ++ full
    joined =
        append_assoc out (take k full) (drop k full)
        ∙ ap (λ (t : List ℕ). out ++ t) (take-append-drop k full)

    short : (stop : List ℕ) → Memᴰ stop stops → length stop ≤ s.hold + 1
    short stop inside = omega (arith, inv.held, length-max_len stops stop inside)

    none_out :
        (length out ≡ 0) ⊎ (s.hold ≤ length s.buf)
        → k ≡ 0
        → (length (out ++ take k full) ≡ 0) ⊎ (s.hold ≤ length (drop k full))
    none_out (inl e) z =
        inl (omega (arith, e, z, length-append out (take k full), length-take k full))
    none_out (inr h) z = inr (omega (arith, h, z, length-drop k full, length-append s.buf bytes))

    back :
        (k ≡ 0) ⊎ (k + s.hold ≤ length full)
        → (length (out ++ take k full) ≡ 0) ⊎ (s.hold ≤ length (drop k full))
    back (inl z) = none_out inv.back z
    back (inr h) = inr (omega (arith, h, length-drop k full))

-- How a turn that began with the bytes `before` ends: with every byte emitted or held and no stop
-- string in them, or where a stop string stood, with what it emitted before it.
Outcome : List (List ℕ) → List ℕ → List (List ℕ) → PushResult × TokenDecodeBuffer → Type 0
Outcome stops before chunks (emit out, s) =
    (out ++ s.buf ≡ before ++ concat chunks)
    × ((stop : List ℕ) → Memᴰ stop stops → Free stop (before ++ concat chunks))
Outcome stops before chunks (stopped out, s) =
    (n : ℕ) × (stop rest : List ℕ) × Memᴰ stop stops
    × (out ++ (stop ++ rest) ≡ before ++ concat (take n chunks))
    × (s.buf ≡ [])

-- The text in front of a place where `stop` stands, `stop`, and the rest.
cut_stop :
    (p : ℕ) (stop text : List ℕ)
    → StandsAt stop p text
    → take p text ++ (stop ++ drop (length stop) (drop p text)) ≡ text
cut_stop p stop text stands =
    ap (λ (t : List ℕ). take p text ++ (t ++ drop (length stop) (drop p text))) (sym stands)
    ∙ ap (λ (t : List ℕ). take p text ++ t) (take-append-drop (length stop) (drop p text))
    ∙ take-append-drop p text

feed-Outcome :
    (stops : List (List ℕ)) (chunks : List (List ℕ)) (s : TokenDecodeBuffer) (out : List ℕ)
    → Inv stops s out
    → Outcome stops (out ++ s.buf) chunks (feed s out chunks)
unfolding Outcome feed push
feed-Outcome stops [] s out inv = (
  sym (append-nil (out ++ s.buf)),
  λ stop inside. subst (Free stop) (sym (append-nil (out ++ s.buf))) (inv.free stop inside),
)
feed-Outcome stops (bytes ∷ chunks) s out inv = go (find_stop s.stop_bytes full) refl (λ missing.
    feed-Outcome stops chunks (settle s full none).1 (out ++ take k full)
      (settle-Inv stops s out bytes inv missing))
  where
    full : List ℕ
    full = s.buf ++ bytes

    k : ℕ
    k = emit_end s.hold full

    next : Option ℕ → PushResult × TokenDecodeBuffer
    next o = elim (settle s full o).0 [
      | emit e ↦ feed (settle s full o).1 (out ++ e) chunks
      | stopped before ↦ (stopped (out ++ before), (settle s full o).1)
    ]

    so_far :
        (more : List ℕ)
        → ((out ++ take k full) ++ drop k full) ++ more ≡ (out ++ s.buf) ++ (bytes ++ more)
    so_far more =
        ap (λ (t : List ℕ). t ++ more)
          (append_assoc out (take k full) (drop k full)
            ∙ ap (λ (t : List ℕ). out ++ t) (take-append-drop k full)
            ∙ sym (append_assoc out s.buf bytes))
        ∙ append_assoc (out ++ s.buf) bytes more

    prefixed :
        (r : PushResult × TokenDecodeBuffer)
        → Outcome stops ((out ++ take k full) ++ drop k full) chunks r
        → Outcome stops (out ++ s.buf) (bytes ∷ chunks) r
    prefixed (emit e, s') (same, free) = (
      same ∙ so_far (concat chunks),
      λ stop inside. subst (Free stop) (so_far (concat chunks)) (free stop inside),
    )
    prefixed (stopped e, s') (n, stop, rest, inside, same, clear) =
        (suc n, stop, rest, inside, same ∙ so_far (concat (take n chunks)), clear)

    found :
        (p : ℕ) (stop : List ℕ)
        → Memᴰ stop stops
        → StandsAt stop p full
        → Outcome stops
            (out ++ s.buf)
            (bytes ∷ chunks)
            (stopped (out ++ take p full), record s { buf = [] })
    found p stop inside stands = (
      1,
      stop,
      drop (length stop) (drop p full),
      inside,
      append_assoc out (take p full) (stop ++ drop (length stop) (drop p full))
          ∙ ap (λ (t : List ℕ). out ++ t) (cut_stop p stop full stands)
          ∙ sym (append_assoc out s.buf bytes)
          ∙ ap (λ (t : List ℕ). (out ++ s.buf) ++ t) (sym (append-nil bytes)),
      refl,
    )

    go :
        (o : Option ℕ)
        → find_stop s.stop_bytes full ≡ o
        → (find_stop s.stop_bytes full ≡ none
            → Outcome stops
                ((out ++ take k full) ++ drop k full)
                chunks
                (feed (settle s full none).1 (out ++ take k full) chunks))
        → Outcome stops (out ++ s.buf) (bytes ∷ chunks) (next o)
    go none e ih = prefixed (feed (settle s full none).1 (out ++ take k full) chunks) (ih e)
    go (some p) e ih =
        let (le, stop, inside, stands) = find_stop-StandsAt s.stop_bytes full p e in
        found p stop (subst (Memᴰ stop) inv.kept inside) stands

start : (stops : List (List ℕ)) → Inv stops (new stops) []
start stops = record {
  kept = refl;
  held = refl;
  back = inl refl;
  free = λ stop inside i pos stands. nothing stop i pos stands;
}
  where
    nothing : (stop : List ℕ) (i : ℕ) → 0 < length stop → ¬ StandsAt stop i []
    nothing [] i pos stands = absurd (omega (arith, pos))
    nothing (b ∷ stop) zero pos stands = absurd (cc stands)
    nothing (b ∷ stop) (suc i) pos stands = absurd (cc stands)

outcome :
    (stops chunks : List (List ℕ)) (r : PushResult × TokenDecodeBuffer)
    → feed (new stops) [] chunks ≡ r
    → Outcome stops [] chunks r
outcome stops chunks r h =
    subst (Outcome stops [] chunks) h (feed-Outcome stops chunks (new stops) [] (start stops))

-- If no push of a turn stops, no stop string with a byte stands anywhere in the bytes of the turn,
-- also not across two pushes.
pub feed-Free :
    (stops chunks : List (List ℕ)) (out : List ℕ) (s' : TokenDecodeBuffer) (stop : List ℕ) (i : ℕ)
    → feed (new stops) [] chunks ≡ (emit out, s')
    → Memᴰ stop stops
    → 0 < length stop
    → ¬ StandsAt stop i (concat chunks)
unfolding Outcome
feed-Free stops chunks out s' stop i h inside pos =
    (outcome stops chunks (emit out, s') h).1 stop inside i pos

-- If no push of a turn stops, what the pushes emit and what the flush returns are the bytes of the
-- turn.
pub feed-flush :
    (stops chunks : List (List ℕ)) (out : List ℕ) (s' : TokenDecodeBuffer)
    → feed (new stops) [] chunks ≡ (emit out, s')
    → out ++ (flush s').0 ≡ concat chunks
unfolding Outcome
feed-flush stops chunks out s' h = (outcome stops chunks (emit out, s') h).0

-- If a push of a turn stops, a stop string follows what the turn has emitted in the bytes of its
-- first pushes, and the buffer is empty.
pub feed-stopped :
    (stops chunks : List (List ℕ)) (out : List ℕ) (s' : TokenDecodeBuffer)
    → feed (new stops) [] chunks ≡ (stopped out, s')
    → (n : ℕ) × (stop rest : List ℕ) × Memᴰ stop stops
      × (out ++ (stop ++ rest) ≡ concat (take n chunks))
      × (s'.buf ≡ [])
unfolding Outcome
feed-stopped stops chunks out s' h = outcome stops chunks (stopped out, s') h
