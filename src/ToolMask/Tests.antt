-- ===== src/ToolMask/Tests.antt =====
-- A mask over two tool names, one token for each byte; the fence is the token 96.
use mathlib.Core.List.{Memᴰ}
use kairos_engine.Base.{ℕ, ◌≡◌, ◌↔◌, refl, list_beq, some, none, [], ◌∷◌, ◌++◌, arith}
use kairos_engine.ToolMask.{
  name, ToolMask, transition, new, push, allowed, forced, spelled, counted,
}
use kairos_engine.ToolMask.Offer.{Continues}
use kairos_engine.ToolMask.Names.{allowed_iff_Continues, forced_is_only}
use kairos_engine.ToolMask.Run.{OnName, Run, done, more, Run-spelled}

-- The names "ra" and "re", after the fence.
abbrev opened : ToolMask
opened = record {
  names = (114 ∷ 97 ∷ []) ∷ (114 ∷ 101 ∷ []) ∷ [];
  fence = 96 ∷ [];
  hist = 96 ∷ [];
  state = name;
  depth = 0;
  masked_steps = 0;
  forced_steps = 0;
}

abbrev after_r : ToolMask
after_r = push (counted opened 1 0) 114 (114 ∷ [])

-- Two tools whose names a toy tokenizer writes as the token 7; the fence becomes one token too.
one_token : (push (new ("a" ∷ "b" ∷ []) (λ s. 7 ∷ [])) 7 (96 ∷ [])).state ≡ name
unfolding new push transition list_beq
one_token = refl

only_r : (allowed opened).0 ≡ some (114 ∷ [])
unfolding allowed list_beq
only_r = refl

r_is_forced : (forced opened).0 ≡ some 114
unfolding forced list_beq
r_is_forced = refl

two_ways : (allowed after_r).0 ≡ some (101 ∷ 97 ∷ [])
unfolding allowed push transition list_beq
two_ways = refl

-- After the complete name "ra" the mask has no opinion, and so lets "rax(" through.
no_opinion_after_name : (allowed (push after_r 97 (97 ∷ []))).0 ≡ none
unfolding allowed push transition list_beq
no_opinion_after_name = refl

allowed_iff_Continues_example : Memᴰ {A = ℕ} 114 (114 ∷ []) ↔ Continues opened 114
allowed_iff_Continues_example = allowed_iff_Continues opened (114 ∷ []) 114 (omega arith) only_r

forced_is_only_example : Continues opened 114 × ((u : ℕ) → Continues opened u → u ≡ 114)
forced_is_only_example = forced_is_only opened 114 (omega arith) r_is_forced

opened-OnName : OnName opened
opened-OnName = record {
  in_state = refl;
  tracks = omega arith;
  begins = (114 ∷ 97 ∷ [], Memᴰ.head refl, (114 ∷ 97 ∷ [], refl));
}

abbrev at_re : ToolMask
at_re = push (counted after_r 2 0) 101 (101 ∷ [])

Run-re : Run opened (114 ∷ 101 ∷ []) at_re
unfolding allowed push transition list_beq
Run-re =
    more (114 ∷ []) 114 (114 ∷ []) refl (Memᴰ.head refl) refl
      (more (101 ∷ 97 ∷ []) 101 (101 ∷ []) refl (Memᴰ.head refl) refl done)

Run-spelled_example : OnName at_re × (spelled at_re ≡ [] ++ (114 ∷ 101 ∷ []))
Run-spelled_example = Run-spelled opened at_re (114 ∷ 101 ∷ []) opened-OnName Run-re
