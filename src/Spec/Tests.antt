-- ===== src/Spec/Tests.antt =====
-- A toy engine: a session is its list of tokens, and the row it writes has its greatest value at
-- the number of tokens.
use kairos_engine.Base.{
  ℕ, zero, suc, ◌-◌, ◌≡◌, refl, arith, some, none, List, [], ◌∷◌, ◌++◌, length, take,
}
use kairos_engine.Argmax.{Logit, argmax}
use kairos_engine.Spec.{Engine, SpecOut, spec_step, spec_out, take_back}
use kairos_engine.Spec.Greedy.{greedy, spec_step-greedy}
use kairos_engine.Spec.Aligned.{Laws, IsAligned, spec_step-IsAligned}

abbrev peak : ℕ → List Logit
peak zero = some 9 ∷ []
peak (suc n) = some 1 ∷ peak n

abbrev toy : Engine
toy = record {
  Session = List ℕ;
  decode_step = λ s t. some (s ++ (t ∷ []), peak (length s));
  rewind = λ s n. some (take (length s - n) s);
}

-- The draft proposes 2, 1, 2 and the target wants 2, 2: the second token is rejected, and the
-- draft session gives one token back.
abbrev rejecting : SpecOut toy
rejecting = spec_out toy (2 ∷ []) (peak 2) none (7 ∷ 8 ∷ 2 ∷ []) (7 ∷ 2 ∷ [])

rejects : spec_step toy (7 ∷ 8 ∷ []) (7 ∷ []) (peak 2) (peak 2) 3 ≡ some rejecting
unfolding spec_step argmax take_back
rejects = refl

spec_step-greedy_example :
    greedy toy 1 (7 ∷ 8 ∷ []) (peak 2) ≡ some (2 ∷ [], 7 ∷ 8 ∷ 2 ∷ [], peak 2)
spec_step-greedy_example =
    spec_step-greedy toy (7 ∷ 8 ∷ []) (7 ∷ []) (peak 2) (peak 2) 3 rejecting rejects

-- The toy engine with room for ten tokens; it never uses the room up.
toy_laws : Laws toy
toy_laws = record {
  tokens = λ s. s;
  room = 10;
  decodes = λ s t h. (s ++ (t ∷ []), peak (length s), refl, refl);
  rewinds = λ s n h. (take (length s - n) s, refl, refl);
}

spec_step-IsAligned_example :
    (out : SpecOut toy) × (spec_step toy (7 ∷ 8 ∷ []) (7 ∷ []) (peak 2) (peak 2) 3 ≡ some out)
    × IsAligned toy toy_laws 3 (7 ∷ 8 ∷ []) (7 ∷ []) out
unfolding toy_laws
spec_step-IsAligned_example =
    spec_step-IsAligned toy toy_laws (7 ∷ 8 ∷ []) (7 ∷ []) (peak 2) (peak 2) 3 (omega arith)
      (omega arith) (omega arith) (omega arith)
