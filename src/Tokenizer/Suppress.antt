-- ===== src/Tokenizer/Suppress.antt =====
-- The suppressed set of a tokenizer, its turn stops, and the sampler that masks the set.
use mathlib.Core.List.{Memᴰ}
use mathlib.Core.Option.{some-injective}
use kairos_engine.Base.{
  ℕ, ◌<◌, ◌≡◌, refl, ap, sym, ◌∙◌, ◌⊎◌, inl, inr, ◌↔◌, Bool, true, false, ◌&&◌, not, some, List, [],
  length, get_elem?, list_beq, list_beq→eq, ◌==◌, ==_iff, if◌then◌else◌, subst,
}
use kairos_engine.Sampler.{Floats, Sampler, as_usize}
use kairos_engine.Sampler.Allowed.{Allowed}
use kairos_engine.Tokenizer.{
  codes, SptbTokenizer, ids_where, union_ids, is_turn, turn_stop_ids, is_suppressed_control,
  is_banned, suppress_token_ids, is_gemma_turn_arch, arch_gemma4_moe,
}
use kairos_engine.Tokenizer.Vocab.{
  Passes, ids_where_iff, union_ids-to, union_ids-kept, union_ids-from,
}

-- The suppressed ids are those whose bytes are a control surface or a named special, less the close
-- of the thought channel where thinking is on, and those of the model's configuration that are
-- inside the vocabulary.
pub suppress_token_ids_iff :
    (t : SptbTokenizer) (thinking : Bool) (id : ℕ)
    → Memᴰ id (suppress_token_ids t thinking) ↔ (
        Passes (is_banned t thinking) t.id_to_bytes id
        ⊎ (Memᴰ id t.config_suppress × (as_usize id < length t.id_to_bytes)))
unfolding suppress_token_ids
suppress_token_ids_iff t thinking id = (λ h. to (union_ids-to n base t.config_suppress id h), from)
  where
    n : ℕ
    n = length t.id_to_bytes

    base : List ℕ
    base = ids_where (is_banned t thinking) 0 t.id_to_bytes

    to :
        Memᴰ id base ⊎ (Memᴰ id t.config_suppress × (as_usize id < n))
        → Passes (is_banned t thinking) t.id_to_bytes id
          ⊎ (Memᴰ id t.config_suppress × (as_usize id < n))
    to (inl h) = inl ((ids_where_iff (is_banned t thinking) t.id_to_bytes id).0 h)
    to (inr h) = inr h

    from :
        Passes (is_banned t thinking) t.id_to_bytes id
          ⊎ (Memᴰ id t.config_suppress × (as_usize id < n))
        → Memᴰ id (union_ids n base t.config_suppress)
    from (inl h) =
        union_ids-kept n base t.config_suppress id
          ((ids_where_iff (is_banned t thinking) t.id_to_bytes id).1 h)
    from (inr (h, lt)) = union_ids-from n base t.config_suppress id h lt

turn-not_suppressed : (bytes : List ℕ) → is_turn bytes ≡ true → is_suppressed_control bytes ≡ false
unfolding is_suppressed_control
turn-not_suppressed bytes h = rw (h) refl

and_left : (a b : Bool) → (a && b) ≡ true → a ≡ true
and_left true b h = refl
and_left false b h = h

turn_stop_ids-Passes :
    (t : SptbTokenizer) (id : ℕ) → Memᴰ id (turn_stop_ids t) → Passes is_turn t.id_to_bytes id
unfolding turn_stop_ids
turn_stop_ids-Passes t id h = go (is_gemma_turn_arch t.arch_id) h
  where
    go :
        (b : Bool)
        → Memᴰ id (if b then ids_where is_turn 0 t.id_to_bytes else [])
        → Passes is_turn t.id_to_bytes id
    go true h = (ids_where_iff is_turn t.id_to_bytes id).0 h
    go false h = elim h [ ]

-- The tokens that end a turn are not suppressed, unless the model's configuration lists them.
pub turn_stop_ids-suppressed :
    (t : SptbTokenizer) (thinking : Bool) (id : ℕ)
    → Memᴰ id (turn_stop_ids t)
    → ¬ Memᴰ id t.config_suppress
    → ¬ Memᴰ id (suppress_token_ids t thinking)
turn_stop_ids-suppressed t thinking id stop unlisted inside =
    go ((suppress_token_ids_iff t thinking id).0 inside) (turn_stop_ids-Passes t id stop)
  where
    go :
        Passes (is_banned t thinking) t.id_to_bytes id
          ⊎ (Memᴰ id t.config_suppress × (as_usize id < length t.id_to_bytes))
        → Passes is_turn t.id_to_bytes id
        → ⊥
    go (inr (listed, lt)) passes = unlisted listed
    go (inl (bytes, at, banned)) (bytes', at', turn) =
        let same : bytes ≡ bytes' = some-injective bytes bytes' (sym at ∙ at') in
        let off = turn-not_suppressed bytes (ap is_turn same ∙ turn) in
        let on = and_left (is_suppressed_control bytes) _ banned in absurd (cc (sym on ∙ off))

module _ (fl : Floats) where
  -- A token that the sampler allows, with the set of the tokenizer suppressed, has bytes that
  -- `is_suppressed_control` names (the turn terminators are not among them) only as the close of the
  -- thought channel, on gemma4-MoE with thinking on.
  pub Allowed-suppressed :
      (t : SptbTokenizer) (thinking : Bool) (s : Sampler fl) (elapsed : ℕ) (row : List fl.F32)
      (id : ℕ) (bytes : List ℕ)
      → s.suppress ≡ suppress_token_ids t thinking
      → Allowed fl s elapsed row id
      → get_elem? t.id_to_bytes id ≡ some bytes
      → is_suppressed_control bytes ≡ true
      → (t.arch_id ≡ arch_gemma4_moe) × (thinking ≡ true) × (bytes ≡ codes "<channel|>")
  Allowed-suppressed t thinking s elapsed row id bytes set h at control =
      go (t.arch_id == arch_gemma4_moe) refl thinking (list_beq bytes (codes "<channel|>")) refl
        banned
    where
      banned : ¬ (
          (is_suppressed_control bytes
            && not
                (t.arch_id == arch_gemma4_moe && thinking && list_beq bytes (codes "<channel|>")))
          ≡ true)
      banned yes_banned = h.not_suppressed (
          subst (Memᴰ id) (sym set)
            ((suppress_token_ids_iff t thinking id).1 (inl (bytes, at, yes_banned))))

      go :
          (a : Bool)
          → (t.arch_id == arch_gemma4_moe) ≡ a
          → (b c : Bool) → list_beq bytes (codes "<channel|>") ≡ c
          → ¬ ((is_suppressed_control bytes && not (a && b && c)) ≡ true)
          → (t.arch_id ≡ arch_gemma4_moe) × (b ≡ true) × (bytes ≡ codes "<channel|>")
      go true ea true true ec clear =
          ((==_iff t.arch_id arch_gemma4_moe).0 ea, refl, list_beq→eq bytes (codes "<channel|>") ec)
      go false ea b c ec clear = absurd (clear (rw (control) refl))
      go true ea false c ec clear = absurd (clear (rw (control) refl))
      go true ea true false ec clear = absurd (clear (rw (control) refl))
