-- ===== src/Tokenizer.antt =====
-- tools/sp_daemon/src/tokenizer.rs. A string is its UTF-8 bytes, and the vocabulary, which is read
-- character by character, is by code points. A token id is the 32-bit pattern of an `i32`. The
-- engine's encoder, the crate's encoder, the files and the environment are parameters; an error
-- keeps no text.
pub mod DecodeBuffer
pub mod Gpt2
pub mod Vocab
pub mod Build
pub mod Suppress
pub mod Template
mod Tests
use Prim.Native.String.{String}
use kairos_engine.Base.{
  ℕ, zero, suc, ◌+◌, ◌-◌, ◌≤◌, Bool, true, false, ◌&&◌, ◌||◌, not, Option, none, some, ◌>>=◌, List,
  [], ◌∷◌, ◌++◌, map, length, get_elem?, take, drop, list_beq, ltb, leb, ◌==◌, if◌then◌else◌,
}
use kairos_engine.Base.Text.{utf8}
pub use kairos_engine.Base.Text.{codes}
use kairos_engine.Sampler.{as_usize, contains}

abbrev pub arch_gemma4_moe : ℕ
arch_gemma4_moe = 11

abbrev pub is_gemma_turn_arch : ℕ → Bool
is_gemma_turn_arch arch_id = arch_id == 3 || arch_id == 7 || arch_id == arch_gemma4_moe

-- ARCH_QWEN3 | ARCH_QWEN25 | ARCH_QWEN36
abbrev pub is_qwen_arch : ℕ → Bool
is_qwen_arch arch_id = arch_id == 2 || arch_id == 6 || arch_id == 8

abbrev pub gpt2_char_to_byte : ℕ → Option ℕ
gpt2_char_to_byte cp =
    if leb 0x21 cp && leb cp 0x7E
    then some cp
    else if leb 0xA1 cp && leb cp 0xAC
    then some cp
    else if leb 0xAE cp && leb cp 0xFF
    then some cp
    else if leb 0x100 cp && leb cp 0x120
    then some (cp - 0x100)
    else if cp == 0x121
    then some 0x7F
    else if leb 0x122 cp && leb cp 0x142
    then some (cp - 0x122 + 0x80)
    else if cp == 0x143
    then some 0xAD
    else none

-- `filter_map`
abbrev pub keep : Option ℕ → List ℕ → List ℕ
keep none bs = bs
keep (some b) bs = b ∷ bs

unfoldable pub gpt2_decode : List ℕ → List ℕ
gpt2_decode [] = []
gpt2_decode (c ∷ cs) = keep (gpt2_char_to_byte c) (gpt2_decode cs)

-- `replace('\u{2581}', " ")`
abbrev pub spaced : List ℕ → List ℕ
spaced [] = []
spaced (c ∷ cs) = (if c == 0x2581 then 32 else c) ∷ spaced cs

-- The indices of the entries that pass a test, counted from `i`: the loops over the vocabulary.
unfoldable pub ids_where : (List ℕ → Bool) → ℕ → List (List ℕ) → List ℕ
ids_where test i [] = []
ids_where test i (v ∷ vs) =
    let rest = ids_where test (i + 1) vs in if test v then i ∷ rest else rest

-- `iter().position(|b| b == surface)`
unfoldable pub position_of : List ℕ → ℕ → List (List ℕ) → Option ℕ
position_of surface i [] = none
position_of surface i (v ∷ vs) =
    let rest = position_of surface (i + 1) vs in if list_beq v surface then some i else rest

abbrev pub eos_name : ℕ → List ℕ → Bool
eos_name arch_id tok =
    if is_qwen_arch arch_id
    then list_beq tok (codes "<|im_end|>") || list_beq tok (codes "<|endoftext|>")
    else if is_gemma_turn_arch arch_id
    then list_beq tok (codes "<eos>") || list_beq tok (codes "<end_of_turn>")
    else false

unfoldable pub find_eos_ids : ℕ → List (List ℕ) → List ℕ
unfolding ids_where list_beq
find_eos_ids arch_id vocab = ids_where (eos_name arch_id) 0 vocab

-- Each id that is inside the vocabulary and not there yet is pushed.
unfoldable pub union_ids : ℕ → List ℕ → List ℕ → List ℕ
union_ids vocab_len out [] = out
union_ids vocab_len out (id ∷ ids) =
    union_ids vocab_len
      (if ltb (as_usize id) vocab_len && not (contains out id) then out ++ (id ∷ []) else out) ids

abbrev pub push_new : List ℕ → Option ℕ → List ℕ
push_new out none = out
push_new out (some id) = if contains out id then out else out ++ (id ∷ [])

pub record SptbTokenizer : Type 0 where
  -- Whether `inner` and `c_tokenizer` are `Some`.
  pub inner : Bool
  pub c_tokenizer : Bool
  pub id_to_bytes : List (List ℕ)
  pub eos_ids : List ℕ
  pub arch_id : ℕ
  pub bos_id : Option ℕ
  pub config_suppress : List ℕ

abbrev pub is_bpe : ℕ → Bool
is_bpe type_id = type_id == 2 || type_id == 1

unfoldable pub bytes_of : Bool → List (List ℕ) → List (List ℕ)
unfolding gpt2_decode utf8
bytes_of bpe [] = []
bytes_of bpe (v ∷ vs) = (if bpe then gpt2_decode v else utf8 (spaced v)) ∷ bytes_of bpe vs

abbrev pub build_eos : ℕ → List (List ℕ) → List ℕ → List ℕ
build_eos arch_id vocab config_eos =
    let out = union_ids (length vocab) (find_eos_ids arch_id vocab) config_eos in
    if is_gemma_turn_arch arch_id then push_new out (position_of (codes "<turn|>") 0 vocab) else out

abbrev pub same_size : ℕ → ℕ → Option Bool
same_size size vocab_len = if size == vocab_len then some true else none

-- SptbTokenizer::build after the blob is parsed. `bpe_built` says whether the crate builds the BPE,
-- `loaded` is the size of the vocabulary of the engine's tokenizer, if it loads.
unfoldable pub build :
    ℕ → ℕ → List (List ℕ) → List ℕ × List ℕ → Bool → Option ℕ → Option SptbTokenizer
unfolding bytes_of find_eos_ids union_ids position_of
build arch_id type_id vocab (config_suppress, config_eos) bpe_built loaded =
    (if is_bpe type_id then (if bpe_built then some true else none) else some false) >>= (λ inner.
      (if type_id == 4 then loaded >>= (λ size. same_size size (length vocab)) else some false)
      >>= (λ c_tokenizer. some (record {
        inner = inner;
        c_tokenizer = c_tokenizer;
        id_to_bytes = bytes_of (is_bpe type_id) vocab;
        eos_ids = build_eos arch_id vocab config_eos;
        arch_id = arch_id;
        bos_id = position_of (codes "<bos>") 0 vocab;
        config_suppress = config_suppress;
      })))

unfoldable pub control_id : SptbTokenizer → List ℕ → Option ℕ
unfolding position_of
control_id t surface = position_of surface 0 t.id_to_bytes

abbrev or_empty : Option (List ℕ) → List ℕ
or_empty none = []
or_empty (some b) = b

unfoldable pub decode_token : SptbTokenizer → ℕ → List ℕ
decode_token t id = or_empty (get_elem? t.id_to_bytes (as_usize id))

abbrev pub is_turn : List ℕ → Bool
is_turn bytes = list_beq bytes (codes "<|turn>") || list_beq bytes (codes "<turn|>")

unfoldable pub turn_stop_ids : SptbTokenizer → List ℕ
unfolding ids_where
turn_stop_ids t = if is_gemma_turn_arch t.arch_id then ids_where is_turn 0 t.id_to_bytes else []

abbrev pub first_is : List ℕ → ℕ → Bool
first_is [] c = false
first_is (b ∷ bs) c = b == c

abbrev pub last_is : List ℕ → ℕ → Bool
last_is [] c = false
last_is (b ∷ []) c = b == c
last_is (b ∷ b' ∷ bs) c = last_is (b' ∷ bs) c

abbrev pub starts_with : List ℕ → List ℕ → Bool
starts_with bytes p = list_beq (take (length p) bytes) p

abbrev pub is_unused_reserve : List ℕ → Bool
is_unused_reserve bytes = starts_with bytes (codes "<unused") && last_is bytes 62

abbrev named_special : List ℕ → Bool
named_special bytes =
    list_beq bytes (codes "<pad>")
    || list_beq bytes (codes "<bos>")
    || list_beq bytes (codes "<unk>")
    || list_beq bytes (codes "<mask>")
    || is_unused_reserve bytes

unfoldable pub is_suppressed_control : List ℕ → Bool
unfolding list_beq
is_suppressed_control bytes =
    if is_turn bytes
    then false
    else (first_is bytes 60 && last_is bytes 62 && contains bytes 124) || named_special bytes

-- The test of the loop of `suppress_token_ids`.
abbrev pub is_banned : SptbTokenizer → Bool → List ℕ → Bool
is_banned t thinking bytes =
    is_suppressed_control bytes
    && not (t.arch_id == arch_gemma4_moe && thinking && list_beq bytes (codes "<channel|>"))

-- SptbTokenizer::suppress_token_ids; `thinking` is `thinking_enabled()`.
unfoldable pub suppress_token_ids : SptbTokenizer → Bool → List ℕ
unfolding ids_where union_ids is_suppressed_control
suppress_token_ids t thinking =
    union_ids (length t.id_to_bytes) (ids_where (is_banned t thinking) 0 t.id_to_bytes)
      t.config_suppress

-- The structural openers of a next turn.
abbrev pub gemma_stops : List String
gemma_stops =
    "<end_of_turn>" ∷ "<start_of_turn>" ∷ "<|turn>" ∷ "<turn|>" ∷ "\n\nQuestion:" ∷ "\nUser:"
    ∷ "\n\nUser" ∷ "\nQuestion:" ∷ "\nuser\n" ∷ "\nmodel\n" ∷ "\nUser\n" ∷ "\nModel\n" ∷ []

abbrev pub default_stops : SptbTokenizer → List (List ℕ)
default_stops t = if is_gemma_turn_arch t.arch_id then map codes gemma_stops else []
