-- ===== src/Swarm/Pull.antt =====
-- `pull` of tools/sp_swarm/src/lib.rs: what it changes in the local store.
use kairos_engine.Base.{
  ℕ, suc, ◌+◌, ◌≡◌, ◌⊎◌, ◌≢◌, take, Option, some, none, List, [], ◌∷◌, ◌++◌, length, length-append,
  list_beq, arith, if◌then◌else◌,
}
use kairos_engine.Swarm.{Text, Crypto, Class, Reject, Verdict, ok, err, missing, accept}

-- What `read_to_string` gives for each address: `none` where no file is there, or none in UTF-8.
abbrev pub Dir : Type 0
Dir = Text → Option Text

-- A store's folders `full` and `sum`.
pub record Store : Type 0 where
  pub full : Dir
  pub sum : Dir

-- How a call of `fs::write`, whose result the code ignores, may end: with the whole text; with the
-- file as it was, since it could not be opened; or, once the file is empty, after so many
-- characters, or inside a character.
pub data Written : Type 0 where
  whole : Written
  unopened : Written
  cut : ℕ → Written
  torn : Written

-- The file that is left, from what it was.
abbrev pub left_by : Written → Text → Option Text → Option Text
left_by whole text old = some text
left_by unopened text old = old
left_by (cut n) text old = some (take n text)
left_by torn text old = none

unfoldable pub write : Written → Dir → Text → Text → Dir
write w d addr text q = if list_beq addr q then left_by w text (d q) else d q

abbrev pub write_summary : Written → Dir → Text → Option Text → Dir
write_summary w d addr none = d
write_summary w d addr (some s) = write w d addr s

-- `pulled`, `rejected` and the local store.
pub record Pulled : Type 0 where
  pub pulled : List Text
  pub rejected : List (Text × Reject)
  pub store : Store

module _ (c : Crypto) where
  -- The arms of the `match` on `accept`. How the two writes of the object and of its summary end is
  -- given for each object that is accepted, by the number of those before it.
  abbrev pub take_object :
      (ℕ → Written × Written) → Store → Pulled → Text → Text → Verdict Class → Pulled
  take_object writes remote p addr text (err r) = record {
    pulled = p.pulled;
    rejected = p.rejected ++ ((addr, r) ∷ []);
    store = p.store;
  }
  take_object writes remote p addr text (ok cls) = record {
    pulled = p.pulled ++ (addr ∷ []);
    rejected = p.rejected;
    store = record {
      full = write (writes (length p.pulled)).0 p.store.full addr text;
      sum = write_summary (writes (length p.pulled)).1 p.store.sum addr (remote.sum addr);
    };
  }

  abbrev pub fetch :
      (ℕ → Written × Written)
      → Store
      → Option (Text → Option c.VerifyingKey)
      → Pulled
      → Text
      → Option Text
      → Pulled
  fetch writes remote roster p addr none = record {
    pulled = p.pulled;
    rejected = p.rejected ++ ((addr, missing) ∷ []);
    store = p.store;
  }
  fetch writes remote roster p addr (some text) =
      take_object writes remote p addr text (accept c addr text roster)

  unfoldable pub pull_loop :
      (ℕ → Written × Written)
      → Store
      → Option (Text → Option c.VerifyingKey)
      → Pulled
      → List Text
      → Pulled
  pull_loop writes remote roster p [] = p
  pull_loop writes remote roster p (addr ∷ addrs) =
      pull_loop writes remote roster (fetch writes remote roster p addr (remote.full addr)) addrs

  unfoldable pub pull :
      (ℕ → Written × Written)
      → Store
      → Store
      → List Text
      → Option (Text → Option c.VerifyingKey)
      → Pulled
  unfolding pull_loop
  pull writes remote local addrs roster =
      pull_loop writes remote roster (record { pulled = []; rejected = []; store = local }) addrs

  -- What a write of this text has left: the text, or, where the write of some object failed, a first
  -- part of it or no readable file.
  abbrev pub IsLeft : (ℕ → Written × Written) → Text → Option Text → Type 0
  IsLeft writes text file =
      (file ≡ some text)
      ⊎ ((k n : ℕ) × ((writes k).0 ≢ whole) × ((file ≡ none) ⊎ (file ≡ some (take n text))))

  -- What stands at an address is what stood there, or what the write of the remote's text left,
  -- which passed `accept`.
  abbrev pub IsAccepted :
      (ℕ → Written × Written)
      → Store
      → Option (Text → Option c.VerifyingKey)
      → Store
      → Store
      → Text
      → Type 0
  IsAccepted writes remote roster before after a =
      (after.full a ≡ before.full a)
      ⊎ ((text : Text) × (cls : Class) × (remote.full a ≡ some text)
          × (accept c a text roster ≡ ok cls)
          × IsLeft writes text (after.full a))

  -- The number of addresses answered so far.
  abbrev answered : Pulled → ℕ
  answered p = length p.pulled + length p.rejected

  answered-fetch :
      (writes : ℕ → Written × Written) (remote : Store)
      (roster : Option (Text → Option c.VerifyingKey)) (p : Pulled) (addr : Text) (o : Option Text)
      → answered (fetch writes remote roster p addr o) ≡ suc (answered p)
  answered-fetch writes remote roster p addr none =
      omega (arith, length-append {0} p.rejected ((addr, missing) ∷ []))
  answered-fetch writes remote roster p addr (some text) = go (accept c addr text roster)
    where
      go :
          (v : Verdict Class)
          → answered (take_object writes remote p addr text v) ≡ suc (answered p)
      go (err r) = omega (arith, length-append {0} p.rejected ((addr, r) ∷ []))
      go (ok cls) = omega (arith, length-append {0} p.pulled (addr ∷ []))

  answered-pull_loop :
      (writes : ℕ → Written × Written) (remote : Store)
      (roster : Option (Text → Option c.VerifyingKey)) (p : Pulled) (addrs : List Text)
      → answered (pull_loop writes remote roster p addrs) ≡ answered p + length addrs
  unfolding pull_loop
  answered-pull_loop writes remote roster p [] = omega arith
  answered-pull_loop writes remote roster p (addr ∷ addrs) = omega (
    arith,
    answered-pull_loop writes remote roster (fetch writes remote roster p addr (remote.full addr))
        addrs,
    answered-fetch writes remote roster p addr (remote.full addr),
  )

  -- Every address asked for is answered once: a pull reports as many addresses, pulled or rejected,
  -- as it was asked for.
  pub pull_answers_all :
      (writes : ℕ → Written × Written) (remote local : Store) (addrs : List Text)
      (roster : Option (Text → Option c.VerifyingKey))
      → length (pull writes remote local addrs roster).pulled
          + length (pull writes remote local addrs roster).rejected
        ≡ length addrs
  unfolding pull
  pull_answers_all writes remote local addrs roster = omega (
    arith,
    answered-pull_loop writes remote roster (record { pulled = []; rejected = []; store = local })
        addrs,
  )
