-- ===== src/Swarm/Accept.antt =====
-- What a text that passes `accept` of tools/sp_swarm/src/lib.rs must be.
use kairos_engine.Base.{
  ℕ, ◌≡◌, ◌≢◌, refl, ap, subst, Bool, true, false, ◌&&◌, ◌||◌, Option, some, none, List, list_beq,
  list_beq→eq, if◌then◌else◌,
}
use kairos_engine.Swarm.{
  Text, Crypto, Frontmatter, get, mem_addr, mem_kind, mem_signer, mem_sig, episode, Class, content,
  c2, bad, Reject, unsigned, sig_invalid, untrusted_signer, Verdict, ok, err, or_reject,
  holds_value, is_empty, addr_of, signing_payload, classify, check_signature, verify_provenance,
  with_roster, if_verified, accept, parse_fm,
}

holds-eq : (o : Option Text) (t : Text) → holds_value o t ≡ true → o ≡ some t
holds-eq none t h = absurd (cc h)
holds-eq (some s) t h = ap some (list_beq→eq s t h)

module _ (c : Crypto) where
  -- The body hashes to the address, or the frontmatter names the address and an episode.
  abbrev pub IsClassified : Text → Frontmatter → Text → Class → Type 0
  IsClassified addr fm body content = addr_of c body ≡ addr
  IsClassified addr fm body c2 = (get fm mem_addr ≡ some addr) × (get fm mem_kind ≡ some episode)
  IsClassified addr fm body bad = Unit

  classify-IsClassified :
      (addr : Text) (fm : Frontmatter) (body : Text)
      → IsClassified addr fm body (classify c addr fm body)
  unfolding classify
  classify-IsClassified addr fm body =
      go (list_beq (addr_of c body) addr) refl (holds_value (get fm mem_addr) addr) refl
        (holds_value (get fm mem_kind) episode) refl
    where
      go :
          (x : Bool)
          → list_beq (addr_of c body) addr ≡ x
          → (y : Bool) → holds_value (get fm mem_addr) addr ≡ y
          → (z : Bool) → holds_value (get fm mem_kind) episode ≡ z
          → IsClassified addr fm body (if x then content else if y && z then c2 else bad)
      go true e y ey z ez = list_beq→eq (addr_of c body) addr e
      go false e true ey true ez =
          (holds-eq (get fm mem_addr) addr ey, holds-eq (get fm mem_kind) episode ez)
      go false e true ey false ez = tt
      go false e false ey z ez = tt

  -- A key of the roster verifies the signature of the frontmatter over the address and the body.
  pub record IsSigned (addr : Text) (fm : Frontmatter) (body : Text)
      (roster : Text → Option c.VerifyingKey) : Type 0 where
    pub signer : Text
    pub sig_hex : Text
    pub key : c.VerifyingKey
    pub raw : List ℕ
    pub sig : c.Signature
    pub names : get fm mem_signer ≡ some signer
    pub carries : get fm mem_sig ≡ some sig_hex
    pub trusted : roster signer ≡ some key
    pub decoded : c.decode sig_hex ≡ some raw
    pub formed : c.from_slice raw ≡ some sig
    pub valid : c.verify key (signing_payload c addr body) sig ≡ true

  -- The value that a chain of checks went on with.
  or_reject-ok :
      {A B : Type 0} (o : Option A) (r : Reject) (k : A → Verdict B) {b : B}
      → or_reject o r k ≡ ok b
      → (a : A) × (o ≡ some a) × (k a ≡ ok b)
  or_reject-ok none r k h = absurd (cc h)
  or_reject-ok (some a) r k h = (a, refl, h)

  verify_provenance-IsSigned :
      (addr : Text) (fm : Frontmatter) (body : Text) (roster : Text → Option c.VerifyingKey)
      (v : Bool)
      → verify_provenance c addr fm body roster ≡ ok v
      → IsSigned addr fm body roster
  unfolding verify_provenance
  verify_provenance-IsSigned addr fm body roster v h =
      let (signer, e1, h1) =
        or_reject-ok (get fm mem_signer) unsigned
          (λ (signer : Text). or_reject (get fm mem_sig) unsigned (rest signer)) h in
      let (sig_hex, e2, h2) = or_reject-ok (get fm mem_sig) unsigned (rest signer) h1 in
      let h3 = full (is_empty signer || is_empty sig_hex) signer sig_hex h2 in
      let (vk, e3, h4) = or_reject-ok (roster signer) untrusted_signer (keyed sig_hex) h3 in
      let (raw, e4, h5) = or_reject-ok (c.decode sig_hex) sig_invalid (formed_by vk) h4 in
      let (sig, e5, h6) =
        or_reject-ok (c.from_slice raw) sig_invalid (check_signature c addr body vk) h5 in
      record {
        signer = signer;
        sig_hex = sig_hex;
        key = vk;
        raw = raw;
        sig = sig;
        names = e1;
        carries = e2;
        trusted = e3;
        decoded = e4;
        formed = e5;
        valid = checked (c.verify vk (signing_payload c addr body) sig) h6;
      }
    where
      formed_by : c.VerifyingKey → List ℕ → Verdict Bool
      formed_by vk raw = or_reject (c.from_slice raw) sig_invalid (check_signature c addr body vk)

      keyed : Text → c.VerifyingKey → Verdict Bool
      keyed sig_hex vk = or_reject (c.decode sig_hex) sig_invalid (formed_by vk)

      rest : Text → Text → Verdict Bool
      rest signer sig_hex =
          if is_empty signer || is_empty sig_hex
          then err unsigned
          else or_reject (roster signer) untrusted_signer (keyed sig_hex)

      full :
          (b : Bool) (signer sig_hex : Text)
          → (if b then err unsigned else or_reject (roster signer) untrusted_signer (keyed sig_hex))
            ≡ ok v
          → or_reject (roster signer) untrusted_signer (keyed sig_hex) ≡ ok v
      full true signer sig_hex h = absurd (cc h)
      full false signer sig_hex h = h

      checked : (b : Bool) → (if b then ok true else err sig_invalid) ≡ ok v → b ≡ true
      checked true h = refl
      checked false h = absurd (cc h)

  -- A text that is accepted under a roster for an address is of a class that fits: its body hashes
  -- to the address, or its frontmatter names the address and an episode; and a key of the roster
  -- verifies its signature over that address and body.
  pub accept-IsSigned :
      (addr text : Text) (roster : Text → Option c.VerifyingKey) (cls : Class)
      → accept c addr text (some roster) ≡ ok cls
      → (cls ≢ bad)
        × IsClassified addr (parse_fm text).0 (parse_fm text).1 cls
        × IsSigned addr (parse_fm text).0 (parse_fm text).1 roster
  unfolding accept
  accept-IsSigned addr text roster cls h =
      go (classify c addr fm body) (classify-IsClassified addr fm body) h
    where
      fm : Frontmatter
      fm = (parse_fm text).0

      body : Text
      body = (parse_fm text).1

      verified :
          (k : Class) (v : Verdict Bool)
          → if_verified c k v ≡ ok cls
          → (k ≡ cls) × ((w : Bool) × (v ≡ ok w))
      verified k (ok w) h = (cc h, (w, refl))
      verified k (err r) h = absurd (cc h)

      finish :
          (k : Class)
          → k ≢ bad
          → IsClassified addr fm body k
          → if_verified c k (verify_provenance c addr fm body roster) ≡ ok cls
          → (cls ≢ bad) × IsClassified addr fm body cls × IsSigned addr fm body roster
      finish k good fits h =
          let (same, (w, passed)) = verified k (verify_provenance c addr fm body roster) h in
          (
            subst (λ (x : Class). x ≢ bad) same good,
            subst (IsClassified addr fm body) same fits,
            verify_provenance-IsSigned addr fm body roster w passed,
          )

      go :
          (k : Class)
          → IsClassified addr fm body k
          → with_roster c addr fm body (some roster) k ≡ ok cls
          → (cls ≢ bad) × IsClassified addr fm body cls × IsSigned addr fm body roster
      go content fits h = finish content (cc) fits h
      go c2 fits h = finish c2 (cc) fits h
      go bad fits h = absurd (cc h)
