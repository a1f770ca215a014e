-- ===== src/Swarm.antt =====
-- tools/sp_swarm/src/lib.rs: content addresses, provenance and replication. A string is its list of
-- code points; SHA-256, hex and ed25519 are other crates' and parameters. A directory of a store
-- maps an address to its file's text, `none` where reading fails. A write's result is ignored by
-- the code: an argument tells for each address whether its writes succeed.
pub mod Accept
pub mod Pull
mod Tests
use kairos_engine.Base.{
  ℕ, zero, suc, Bool, true, false, ◌&&◌, ◌||◌, Option, some, none, List, [], ◌∷◌, ◌++◌, take,
  list_beq, ◌==◌, if◌then◌else◌,
}
use kairos_engine.Base.Text.{utf8, trim}

abbrev pub Text : Type 0
Text = List ℕ

pub record Crypto : Type 1 where
  pub VerifyingKey : Type 0
  pub Signature : Type 0
  pub sha256 : List ℕ → List ℕ
  pub encode : List ℕ → Text
  pub decode : Text → Option (List ℕ)
  pub from_slice : List ℕ → Option Signature
  pub verify : VerifyingKey → List ℕ → Signature → Bool

-- `replace("\r\n", "\n")`
abbrev pub drop_cr : ℕ → Text → Text → Text
drop_cr c [] rest = c ∷ rest
drop_cr c (d ∷ ds) rest = if c == 13 && d == 10 then rest else c ∷ rest

pub replace_crlf : Text → Text
replace_crlf [] = []
replace_crlf (c ∷ cs) = drop_cr c cs (replace_crlf cs)

unfoldable pub norm : Text → Text
unfolding replace_crlf
norm body = trim (replace_crlf body) ++ (10 ∷ [])

-- `str::strip_prefix`, and `find` with the text before and after the match.
pub strip_prefix : Text → Text → Option Text
strip_prefix [] t = some t
strip_prefix (p ∷ ps) [] = none
strip_prefix (p ∷ ps) (c ∷ cs) = let rest = strip_prefix ps cs in if p == c then rest else none

abbrev pub found_or : ℕ → Option Text → Option (Text × Text) → Option (Text × Text)
found_or c (some after) rest = some ([], after)
found_or c none none = none
found_or c none (some (before, after)) = some (c ∷ before, after)

pub cut : Text → Text → Option (Text × Text)
unfolding strip_prefix
cut needle [] = none
cut needle (c ∷ cs) = found_or c (strip_prefix needle (c ∷ cs)) (cut needle cs)

-- `split('\n')`
abbrev pub add_char : ℕ → List Text → List Text
add_char c [] = (c ∷ []) ∷ []
add_char c (l ∷ ls) = if c == 10 then [] ∷ l ∷ ls else (c ∷ l) ∷ ls

pub split_lines : Text → List Text
split_lines [] = [] ∷ []
split_lines (c ∷ cs) = add_char c (split_lines cs)

-- The map of the frontmatter; the latest value of a key stands first.
abbrev pub Frontmatter : Type 0
Frontmatter = List (Text × Text)

unfoldable pub get : Frontmatter → Text → Option Text
get [] k = none
get ((j, v) ∷ fm) k = let rest = get fm k in if list_beq j k then some v else rest

abbrev pub add_field : Option (Text × Text) → Frontmatter → Frontmatter
add_field none fm = fm
add_field (some (k, v)) fm = (trim k, trim v) ∷ fm

pub read_fields : List Text → Frontmatter → Frontmatter
unfolding cut
read_fields [] fm = fm
read_fields (l ∷ ls) fm = read_fields ls (add_field (cut (58 ∷ []) l) fm)

abbrev pub or_same : Option Text → Text → Text
or_same none t = t
or_same (some u) t = u

abbrev pub with_end : Text → Option (Text × Text) → Frontmatter × Text
unfolding read_fields split_lines
with_end text none = ([], text)
with_end text (some (block, after)) =
    (read_fields (split_lines block) [], or_same (strip_prefix (10 ∷ []) after) after)

abbrev pub with_start : Text → Option Text → Frontmatter × Text
with_start text none = ([], text)
with_start text (some rest) = with_end text (cut (10 ∷ 45 ∷ 45 ∷ 45 ∷ []) rest)

unfoldable pub parse_fm : Text → Frontmatter × Text
unfolding replace_crlf with_end
parse_fm raw =
    let text = replace_crlf raw in with_start text (strip_prefix (45 ∷ 45 ∷ 45 ∷ 10 ∷ []) text)

pub data Class : Type 0 where
  content : Class
  c2 : Class
  bad : Class

pub data Reject : Type 0 where
  unsigned : Reject
  untrusted_signer : Reject
  sig_invalid : Reject
  integrity_fail : Reject
  missing : Reject

pub data Verdict {ℓ} (A : Type ℓ) : Type ℓ where
  ok : A → Verdict A
  err : Reject → Verdict A

-- `.ok_or(e)?`
abbrev pub or_reject {ℓ κ} :
    {A : Type ℓ} {B : Type κ} → Option A → Reject → (A → Verdict B) → Verdict B
or_reject none e k = err e
or_reject (some a) e k = k a

-- `fm.get(key) == Some(value)`
abbrev pub holds_value : Option Text → Text → Bool
holds_value none t = false
holds_value (some s) t = list_beq s t

abbrev pub is_empty : Text → Bool
is_empty [] = true
is_empty (c ∷ cs) = false

-- "mem_addr", "mem_kind", "episode", "mem_signer", "mem_sig"
abbrev pub mem_addr : Text
mem_addr = 109 ∷ 101 ∷ 109 ∷ 95 ∷ 97 ∷ 100 ∷ 100 ∷ 114 ∷ []

abbrev pub mem_kind : Text
mem_kind = 109 ∷ 101 ∷ 109 ∷ 95 ∷ 107 ∷ 105 ∷ 110 ∷ 100 ∷ []

abbrev pub episode : Text
episode = 101 ∷ 112 ∷ 105 ∷ 115 ∷ 111 ∷ 100 ∷ 101 ∷ []

abbrev pub mem_signer : Text
mem_signer = 109 ∷ 101 ∷ 109 ∷ 95 ∷ 115 ∷ 105 ∷ 103 ∷ 110 ∷ 101 ∷ 114 ∷ []

abbrev pub mem_sig : Text
mem_sig = 109 ∷ 101 ∷ 109 ∷ 95 ∷ 115 ∷ 105 ∷ 103 ∷ []

module _ (c : Crypto) where
  unfoldable pub addr_of : Text → Text
  unfolding norm
  addr_of body = take 16 (c.encode (c.sha256 (utf8 (norm body))))

  unfoldable pub signing_payload : Text → Text → List ℕ
  unfolding norm
  signing_payload addr body = utf8 (addr ++ (10 ∷ [])) ++ utf8 (norm body)

  unfoldable pub classify : Text → Frontmatter → Text → Class
  unfolding addr_of
  classify addr fm body =
      if list_beq (addr_of body) addr
      then content
      else if holds_value (get fm mem_addr) addr && holds_value (get fm mem_kind) episode
      then c2
      else bad

  abbrev pub check_signature : Text → Text → c.VerifyingKey → c.Signature → Verdict Bool
  check_signature addr body vk sig =
      if c.verify vk (signing_payload addr body) sig then ok true else err sig_invalid

  -- A roster maps a node's id to its key.
  unfoldable pub verify_provenance :
      Text → Frontmatter → Text → (Text → Option c.VerifyingKey) → Verdict Bool
  verify_provenance addr fm body roster = or_reject (get fm mem_signer) unsigned λ signer.
      or_reject (get fm mem_sig) unsigned λ sig_hex.
        if is_empty signer || is_empty sig_hex
        then err unsigned
        else or_reject (roster signer) untrusted_signer λ vk.
          or_reject (c.decode sig_hex) sig_invalid
            λ raw. or_reject (c.from_slice raw) sig_invalid λ sig. check_signature addr body vk sig

  abbrev pub if_verified : Class → Verdict Bool → Verdict Class
  if_verified cls (ok v) = ok cls
  if_verified cls (err e) = err e

  abbrev pub with_roster :
      Text → Frontmatter → Text → Option (Text → Option c.VerifyingKey) → Class → Verdict Class
  with_roster addr fm body roster bad = err integrity_fail
  with_roster addr fm body none content = ok content
  with_roster addr fm body none c2 = ok c2
  with_roster addr fm body (some r) content = if_verified content (verify_provenance addr fm body r)
  with_roster addr fm body (some r) c2 = if_verified c2 (verify_provenance addr fm body r)

  unfoldable pub accept : Text → Text → Option (Text → Option c.VerifyingKey) → Verdict Class
  unfolding classify verify_provenance
  accept addr text roster =
      let (fm, body) = parse_fm text in with_roster addr fm body roster (classify addr fm body)
