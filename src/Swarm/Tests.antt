-- ===== src/Swarm/Tests.antt =====
-- A toy network: an address is the first 16 code points of a body, and a signature is a list of
-- bytes that any key verifies when it is not empty.
use kairos_engine.Base.{
  ℕ, ◌≡◌, ◌≢◌, refl, Bool, true, false, Option, some, none, List, [], ◌∷◌, list_beq,
}
use kairos_engine.Base.Text.{utf8, trim}
use kairos_engine.Swarm.{Text, Crypto, norm, accept, content, bad, ok, parse_fm, addr_of, get}
use kairos_engine.Swarm.Accept.{IsClassified, IsSigned, accept-IsSigned}
use kairos_engine.Swarm.Pull.{Store, whole, write}

abbrev nonempty : List ℕ → Bool
nonempty [] = false
nonempty (x ∷ xs) = true

abbrev toy : Crypto
toy = record {
  VerifyingKey = ℕ;
  Signature = List ℕ;
  sha256 = λ bytes. bytes;
  encode = λ bytes. bytes;
  decode = λ text. some text;
  from_slice = λ raw. some raw;
  verify = λ key message sig. nonempty sig;
}

-- "---\nmem_signer: A\nmem_sig: B\n---\nhi", under the address "hi\n".
abbrev signed : Text
signed =
    45 ∷ 45 ∷ 45 ∷ 10 ∷ 109 ∷ 101 ∷ 109 ∷ 95 ∷ 115 ∷ 105 ∷ 103 ∷ 110 ∷ 101 ∷ 114 ∷ 58 ∷ 32 ∷ 65 ∷ 10
    ∷ 109 ∷ 101 ∷ 109 ∷ 95 ∷ 115 ∷ 105 ∷ 103 ∷ 58 ∷ 32 ∷ 66 ∷ 10 ∷ 45 ∷ 45 ∷ 45 ∷ 10 ∷ 104 ∷ 105
    ∷ []

abbrev hi : Text
hi = 104 ∷ 105 ∷ 10 ∷ []

abbrev roster : Text → Option ℕ
roster signer = some 1

accepts : accept toy hi signed (some roster) ≡ ok content
unfolding accept parse_fm addr_of norm get list_beq utf8 trim
accepts = refl

accept-IsSigned_example :
    (content ≢ bad)
    × IsClassified toy hi (parse_fm signed).0 (parse_fm signed).1 content
    × IsSigned toy hi (parse_fm signed).0 (parse_fm signed).1 roster
accept-IsSigned_example = accept-IsSigned toy hi signed roster content accepts

abbrev remote : Store
remote = record { full = write whole (λ a. none) hi signed; sum = λ a. none }

abbrev empty : Store
empty = record { full = λ a. none; sum = λ a. none }
