-- ===== src/Sampler/Ngram.antt =====
-- The ban on repeated n-grams: a token that would complete one has negative infinity.
use kairos_engine.Base.{
  ℕ, zero, suc, ◌+◌, ◌-◌, ◌≤◌, ◌<◌, ◌≡◌, ◌≢◌, ap, sym, ◌∙◌, ◌⊎◌, inl, inr, Bool, true, false, ◌||◌,
  some, List, [], ◌∷◌, ◌++◌, leb, Bool-cases, length, get_elem?, take, drop, list_beq, ltb,
  length-drop, length-append, take-append_le, drop-append_le, take_all, take_last, list_beq_refl,
  if◌then◌else◌, arith,
}
use kairos_engine.Sampler.{Floats, as_usize, mask_id, ban_loop, ban_repeat_ngram}
use kairos_engine.Sampler.Mask.{Muted, Muted-Mutes, mask-Muted, ban_loop-Mutes}

-- No n-gram of the sequence stands at two places.
abbrev pub NoRepeat : ℕ → List ℕ → Type 0
NoRepeat n seq = (i j : ℕ) → i < j → j + n ≤ length seq → take n (drop i seq) ≢ take n (drop j seq)

module _ (fl : Floats) where
  open fl use {F32, neg_infinity}

  -- The source `i` of the loop bans the token that follows the suffix there.
  ban_loop-Muted :
      (sources : ℕ) (seq suffix : List ℕ) (n : ℕ) (row : List F32) (i t : ℕ)
      → i < sources
      → take (n - 1) (drop i seq) ≡ suffix
      → get_elem? (drop i seq) (n - 1) ≡ some t
      → Muted fl (ban_loop fl sources seq suffix n row) t
  unfolding ban_loop
  ban_loop-Muted zero seq suffix n row i t lt e h = absurd (omega (arith, lt))
  ban_loop-Muted (suc sources) [] suffix n row zero t lt e h = absurd (cc h)
  ban_loop-Muted (suc sources) [] suffix n row (suc i) t lt e h = absurd (cc h)
  ban_loop-Muted (suc sources) (x ∷ seq) suffix n row zero t lt e h =
      let here =
        if list_beq (take (n - 1) (x ∷ seq)) suffix
        then mask_id fl row (get_elem? (x ∷ seq) (n - 1))
        else row in
      Muted-Mutes fl here (ban_loop fl sources seq suffix n here) t
        (ban_loop-Mutes fl sources seq suffix n here)
        (rw (e, list_beq_refl suffix, ap (mask_id fl row) h) (mask-Muted fl row t))
  ban_loop-Muted (suc sources) (x ∷ seq) suffix n row (suc i) t lt e h =
      ban_loop-Muted sources seq suffix n
        (if list_beq (take (n - 1) (x ∷ seq)) suffix
          then mask_id fl row (get_elem? (x ∷ seq) (n - 1))
          else row)
        i t (omega (arith, lt)) e h

-- A sequence with no repeated n-gram repeats one when `t` is added only if the trailing (n-1)-gram
-- and `t` stand in it already.
NoRepeat-append :
    (k : ℕ) (seq : List ℕ) (t : ℕ)
    → NoRepeat (suc k) seq
    → ((i : ℕ)
        → i + suc k ≤ length seq
        → take k (drop i seq) ≡ drop (length seq - k) seq
        → get_elem? (drop i seq) k ≢ some t)
    → NoRepeat (suc k) (seq ++ (t ∷ []))
NoRepeat-append k seq t none_before fresh i j lt fits same =
    go (Bool-cases (leb (j + suc k) (length seq)))
  where
    window :
        (i : ℕ)
        → i + suc k ≤ length seq
        → take (suc k) (drop i (seq ++ (t ∷ []))) ≡ take (suc k) (drop i seq)
    window i h =
        ap (take (suc k)) (drop-append_le i seq (t ∷ []) (omega (arith, h)))
        ∙ take-append_le (suc k) (drop i seq) (t ∷ []) (omega (arith, length-drop i seq))

    len : length (seq ++ (t ∷ [])) ≡ length seq + 1
    len = length-append seq (t ∷ [])

    last :
        j + suc k ≡ length seq + 1
        → take (suc k) (drop j (seq ++ (t ∷ []))) ≡ drop j seq ++ (t ∷ [])
    last h =
        ap (take (suc k)) (drop-append_le j seq (t ∷ []) (omega (arith, h)))
        ∙ take_all (suc k) (drop j seq ++ (t ∷ []))
            (omega (arith, h, length-append (drop j seq) (t ∷ []), length-drop j seq))

    ended : j + suc k ≡ length seq + 1 → ⊥
    ended h =
        let at_j : j ≡ length seq - k = omega (arith, h) in
        let both =
          take_last k (drop i seq) (drop j seq) t (omega (arith, h, length-drop j seq))
            (sym (window i (omega (arith, h, lt))) ∙ same ∙ last h) in
        fresh i (omega (arith, h, lt)) (both.0 ∙ ap (λ (m : ℕ). drop m seq) at_j) both.1

    go : ((leb (j + suc k) (length seq)) ≡ true) ⊎ ((leb (j + suc k) (length seq)) ≡ false) → ⊥
    go (inl e) =
        let inside : j + suc k ≤ length seq = ground (arith, e) in
        none_before i j lt inside
          (sym (window i (omega (arith, inside, lt))) ∙ same ∙ window j inside)
    go (inr e) =
        let outside : length seq < j + suc k = ground (arith, e) in
        ended (omega (arith, outside, fits, len))

module _ (fl : Floats) where
  open fl use {F32, neg_infinity}

  -- A token that the ban leaves its logit completes no n-gram a second time.
  pub ban_repeat_ngram-NoRepeat :
      (row : List F32) (prefix history : List ℕ) (n t : ℕ) (w : F32)
      → 2 ≤ n
      → get_elem? (ban_repeat_ngram fl row prefix history n) (as_usize t) ≡ some w
      → w ≢ neg_infinity
      → NoRepeat n (prefix ++ history)
      → NoRepeat n ((prefix ++ history) ++ (t ∷ []))
  unfolding ban_repeat_ngram
  ban_repeat_ngram-NoRepeat row prefix history zero t w two at live before =
      absurd (omega (arith, two))
  ban_repeat_ngram-NoRepeat row prefix history (suc k) t w two at live before =
      NoRepeat-append k seq t before fresh
    where
      seq : List ℕ
      seq = prefix ++ history

      one_less : suc k - 1 ≡ k
      one_less = omega arith

      runs : (i : ℕ) → i + suc k ≤ length seq → (ltb (suc k) 2 || ltb (length seq) (suc k)) ≡ false
      runs i fits = ground (arith, fits, two)

      looped : List F32
      looped =
          ban_loop fl (length seq - suc k + 1) seq (drop (length seq - (suc k - 1)) seq) (suc k) row

      fresh :
          (i : ℕ)
          → i + suc k ≤ length seq
          → take k (drop i seq) ≡ drop (length seq - k) seq
          → get_elem? (drop i seq) k ≢ some t
      fresh i fits e h = live (
          ban_loop-Muted fl (length seq - suc k + 1) seq (drop (length seq - (suc k - 1)) seq)
            (suc k) row i t (omega (arith, fits))
            (ap (λ (m : ℕ). take m (drop i seq)) one_less
              ∙ e
              ∙ ap (λ (m : ℕ). drop (length seq - m) seq) (sym one_less))
            (ap (get_elem? (drop i seq)) one_less ∙ h) w
            (ap (λ (b : Bool). get_elem? (if b then row else looped) (as_usize t))
                (sym (runs i fits))
              ∙ at))
