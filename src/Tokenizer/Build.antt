-- ===== src/Tokenizer/Build.antt =====
-- What `SptbTokenizer::build` puts together.
use mathlib.Core.List.{Memᴰ}
use mathlib.Core.Option.{some-injective}
use kairos_engine.Base.{
  ℕ, suc, ◌^◌, ◌≤◌, ◌<◌, ◌≡◌, refl, ap, sym, ◌∙◌, ◌⊎◌, inl, inr, Bool, true, false, Option, none,
  some, ◌>>=◌, >>=-eq-some, List, [], ◌∷◌, ◌++◌, length, ◌≢◌, zero, get_elem?, get_elem?-lt, ◌==◌,
  ==_iff, if◌then◌else◌, subst, arith,
}
use kairos_engine.Base.Text.{utf8}
use kairos_engine.Sampler.{as_usize, contains}
use kairos_engine.Sampler.Allowed.{as_usize_small}
use kairos_engine.Tokenizer.{
  codes, SptbTokenizer, position_of, gpt2_decode, spaced, eos_name, find_eos_ids, union_ids,
  push_new, is_bpe, bytes_of, build_eos, build, same_size, is_gemma_turn_arch,
}
use kairos_engine.Tokenizer.Vocab.{
  ids_where_iff, union_ids-to, contains-Memᴰ, Memᴰ-append_last, Memᴰ-snoc, position_of-at,
}

-- What a tokenizer that is built holds of its vocabulary.
pub record IsBuilt (arch_id type_id : ℕ) (vocab : List (List ℕ)) (t : SptbTokenizer) : Type 0 where
  pub arch : t.arch_id ≡ arch_id
  -- Every entry has its bytes, and there are no others: those of GPT-2's map from characters to
  -- bytes for the two BPE kinds, and otherwise the UTF-8 of the entry with its marks as spaces.
  pub sized : length t.id_to_bytes ≡ length vocab
  pub bpe_bytes :
      (id : ℕ) (entry : List ℕ)
      → (type_id ≡ 1) ⊎ (type_id ≡ 2)
      → get_elem? vocab id ≡ some entry
      → get_elem? t.id_to_bytes id ≡ some (gpt2_decode entry)
  pub text_bytes :
      (id : ℕ) (entry : List ℕ)
      → type_id ≢ 1
      → type_id ≢ 2
      → get_elem? vocab id ≡ some entry
      → get_elem? t.id_to_bytes id ≡ some (utf8 (spaced entry))
  -- The engine's encoder and the crate's are not both there.
  pub one_encoder : t.c_tokenizer ≡ true → t.inner ≡ false
  -- The ids that end a reply are ids of the vocabulary, and the turn's end is one where there are turns.
  pub eos_inside : (e : ℕ) → Memᴰ e t.eos_ids → as_usize e < length vocab
  pub turn_ends :
      (e : ℕ)
      → is_gemma_turn_arch arch_id ≡ true
      → position_of (codes "<turn|>") 0 vocab ≡ some e
      → Memᴰ e t.eos_ids

length-bytes_of : (bpe : Bool) (vocab : List (List ℕ)) → length (bytes_of bpe vocab) ≡ length vocab
unfolding bytes_of
length-bytes_of bpe [] = refl
length-bytes_of bpe (v ∷ vs) = ap suc (length-bytes_of bpe vs)

get_elem?-bytes_of :
    (bpe : Bool) (vocab : List (List ℕ)) (id : ℕ) (entry : List ℕ)
    → get_elem? vocab id ≡ some entry
    → get_elem? (bytes_of bpe vocab) id
      ≡ some (if bpe then gpt2_decode entry else utf8 (spaced entry))
unfolding bytes_of
get_elem?-bytes_of bpe [] id entry h = absurd (cc h)
get_elem?-bytes_of bpe (v ∷ vs) zero entry h =
    ap (λ (w : List ℕ). some (if bpe then gpt2_decode w else utf8 (spaced w)))
      (some-injective v entry h)
get_elem?-bytes_of bpe (v ∷ vs) (suc id) entry h = get_elem?-bytes_of bpe vs id entry h

is_bpe_kind : (type_id : ℕ) → (type_id ≡ 1) ⊎ (type_id ≡ 2) → is_bpe type_id ≡ true
is_bpe_kind type_id (inl h) = rw (h) refl
is_bpe_kind type_id (inr h) = rw (h) refl

is_text_kind : (type_id : ℕ) → type_id ≢ 1 → type_id ≢ 2 → is_bpe type_id ≡ false
is_text_kind type_id one two = ground (arith, one, two)

find_eos_ids-inside :
    (arch_id : ℕ) (vocab : List (List ℕ)) (e : ℕ)
    → Memᴰ e (find_eos_ids arch_id vocab)
    → e < length vocab
unfolding find_eos_ids
find_eos_ids-inside arch_id vocab e h =
    get_elem?-lt vocab e ((ids_where_iff (eos_name arch_id) vocab e).0 h).1

push_new-inside :
    (out : List ℕ) (o : Option ℕ) (n e : ℕ)
    → ((id : ℕ) → o ≡ some id → as_usize id < n)
    → ((id : ℕ) → Memᴰ id out → as_usize id < n)
    → Memᴰ e (push_new out o)
    → as_usize e < n
push_new-inside out none n e new old h = old e h
push_new-inside out (some id) n e new old h = go (contains out id) h
  where
    go : (b : Bool) → Memᴰ e (if b then out else out ++ (id ∷ [])) → as_usize e < n
    go true h = old e h
    go false h = last (Memᴰ-snoc e id out h)
      where
        last : Memᴰ e out ⊎ (e ≡ id) → as_usize e < n
        last (inl h) = old e h
        last (inr same) = subst (λ (m : ℕ). as_usize m < n) (sym same) (new id refl)

Memᴰ-push_new : (out : List ℕ) (e : ℕ) → Memᴰ e (push_new out (some e))
Memᴰ-push_new out e = go (contains out e) refl
  where
    go : (b : Bool) → contains out e ≡ b → Memᴰ e (if b then out else out ++ (e ∷ []))
    go true h = contains-Memᴰ out e h
    go false h = Memᴰ-append_last e out

position_of-inside :
    (surface : List ℕ) (vocab : List (List ℕ)) (id : ℕ)
    → length vocab ≤ 2 ^ 31
    → position_of surface 0 vocab ≡ some id
    → as_usize id < length vocab
position_of-inside surface vocab id small h =
    let (k, at, found) = position_of-at surface 0 vocab id h in
    let lt : id < length vocab = omega (arith, at, get_elem?-lt vocab k found) in
    omega (arith, lt, as_usize_small id (omega (arith, lt, small)))

build_eos-inside :
    (arch_id : ℕ) (vocab : List (List ℕ)) (config_eos : List ℕ) (e : ℕ)
    → length vocab ≤ 2 ^ 31
    → Memᴰ e (build_eos arch_id vocab config_eos)
    → as_usize e < length vocab
build_eos-inside arch_id vocab config_eos e small = go (is_gemma_turn_arch arch_id)
  where
    out : List ℕ
    out = union_ids (length vocab) (find_eos_ids arch_id vocab) config_eos

    small_id : (id : ℕ) → id < length vocab → as_usize id < length vocab
    small_id id lt = omega (arith, lt, as_usize_small id (omega (arith, lt, small)))

    old : (id : ℕ) → Memᴰ id out → as_usize id < length vocab
    old id h = old_case (union_ids-to (length vocab) (find_eos_ids arch_id vocab) config_eos id h)
      where
        old_case :
            Memᴰ id (find_eos_ids arch_id vocab)
              ⊎ (Memᴰ id config_eos × (as_usize id < length vocab))
            → as_usize id < length vocab
        old_case (inl h) = small_id id (find_eos_ids-inside arch_id vocab id h)
        old_case (inr (h, lt)) = lt

    go :
        (b : Bool)
        → Memᴰ e (if b then push_new out (position_of (codes "<turn|>") 0 vocab) else out)
        → as_usize e < length vocab
    go true h =
        push_new-inside out (position_of (codes "<turn|>") 0 vocab) (length vocab) e
          (λ id. position_of-inside (codes "<turn|>") vocab id small) old h
    go false h = old e h

one_kind :
    (type_id : ℕ) (crate_built i c : Bool) (loaded : Option Bool)
    → (if is_bpe type_id then (if crate_built then some true else none) else some false) ≡ some i
    → (if type_id == 4 then loaded else some false) ≡ some c
    → c ≡ true
    → i ≡ false
one_kind type_id crate_built i c loaded hi hc on = go (type_id == 4) refl hc
  where
    go : (b : Bool) → (type_id == 4) ≡ b → (if b then loaded else some false) ≡ some c → i ≡ false
    go true e h =
        let four : type_id ≡ 4 = (==_iff type_id 4).0 e in
        sym (
          some-injective false i (
            ap
              (λ (n : ℕ).
                if is_bpe n then (if crate_built then some true else none) else some false)
              (sym four)
            ∙ hi))
    go false e h = absurd (cc (some-injective false c h ∙ on))

-- A tokenizer that is built from at most 2 ^ 31 entries has, for each entry of the vocabulary, its
-- bytes (GPT-2's for the two BPE kinds, otherwise the UTF-8 of the entry with its marks as spaces),
-- at most one encoder, and ends a reply only at ids of the vocabulary, the end of a turn among them
-- where the arch has turns.
pub build-IsBuilt :
    (arch_id type_id : ℕ) (vocab : List (List ℕ)) (config_suppress config_eos : List ℕ)
    (crate_built : Bool) (loaded : Option ℕ) (t : SptbTokenizer)
    → length vocab ≤ 2 ^ 31
    → build arch_id type_id vocab (config_suppress, config_eos) crate_built loaded ≡ some t
    → IsBuilt arch_id type_id vocab t
unfolding build
build-IsBuilt arch_id type_id vocab config_suppress config_eos crate_built loaded t small h =
    let (inner, h_inner, h1) = >>=-eq-some encoder _ h in
    let (c_tokenizer, h_c, h2) = >>=-eq-some (if type_id == 4 then engine else some false) _ h1 in
    subst (IsBuilt arch_id type_id vocab) (some-injective _ t h2) (record {
      arch = refl;
      sized = length-bytes_of (is_bpe type_id) vocab;
      bpe_bytes = λ id entry kind h.
          get_elem?-bytes_of (is_bpe type_id) vocab id entry h
          ∙ ap (λ (b : Bool). some (if b then gpt2_decode entry else utf8 (spaced entry)))
              (is_bpe_kind type_id kind);
      text_bytes = λ id entry one two h.
          get_elem?-bytes_of (is_bpe type_id) vocab id entry h
          ∙ ap (λ (b : Bool). some (if b then gpt2_decode entry else utf8 (spaced entry)))
              (is_text_kind type_id one two);
      one_encoder = one_kind type_id crate_built inner c_tokenizer engine h_inner h_c;
      eos_inside = λ e. build_eos-inside arch_id vocab config_eos e small;
      turn_ends = turn_ends;
    })
  where
    encoder : Option Bool
    encoder = if is_bpe type_id then (if crate_built then some true else none) else some false

    engine : Option Bool
    engine = loaded >>= (λ size. same_size size (length vocab))

    out : List ℕ
    out = union_ids (length vocab) (find_eos_ids arch_id vocab) config_eos

    turn_ends :
        (e : ℕ)
        → is_gemma_turn_arch arch_id ≡ true
        → position_of (codes "<turn|>") 0 vocab ≡ some e
        → Memᴰ e (build_eos arch_id vocab config_eos)
    turn_ends e gemma found =
        subst (Memᴰ e)
          (sym (ap (push_new out) found)
            ∙ ap
                (λ (b : Bool).
                  if b then push_new out (position_of (codes "<turn|>") 0 vocab) else out)
                (sym gemma))
          (Memᴰ-push_new out e)
