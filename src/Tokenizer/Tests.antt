-- ===== src/Tokenizer/Tests.antt =====
-- A vocabulary of a gemma4-MoE tokenizer, an engine that encodes byte by byte, and a stream.
use mathlib.Core.List.{Memᴰ}
use kairos_engine.Base.{
  ℕ, ◌+◌, ◌≡◌, refl, true, false, Option, none, some, List, [], ◌∷◌, ◌++◌, take, list_beq,
  if◌then◌else◌, arith,
}
use kairos_engine.Base.Text.{utf8}
use kairos_engine.Sampler.{
  Sampler, with_suppress, masked, suppress_all, thought_floor, thought_ceiling,
}
use kairos_engine.Sampler.Toy.{toy, greedy}
use kairos_engine.Sampler.Allowed.{Live, masked-Allowed}
use kairos_engine.Tokenizer.{
  codes, SptbTokenizer, gpt2_decode, bytes_of, ids_where, position_of, union_ids, find_eos_ids,
  build, control_id, decode_token, turn_stop_ids, is_suppressed_control, suppress_token_ids,
  arch_gemma4_moe,
}
use kairos_engine.Tokenizer.DecodeBuffer.{
  emit, stopped, new, position, memmem, char_width, valid_loop, valid_utf8_up_to, find_stop,
  emit_end, push, feed,
}
use kairos_engine.Tokenizer.DecodeBuffer.Stop.{StandsAt}
use kairos_engine.Tokenizer.DecodeBuffer.Stream.{concat, feed-Free, feed-stopped}
use kairos_engine.Tokenizer.Build.{IsBuilt, build-IsBuilt}
use kairos_engine.Tokenizer.Suppress.{Allowed-suppressed}
use kairos_engine.Tokenizer.Template.{
  Message, turn_role, encode_loop, c_encode, encode, encode_no_bos, turn_ids, channel_ids,
  gemma_ids, apply_template_ids,
}
use kairos_engine.Tokenizer.Template.Decoded.{
  decoded, prompt_text, Faithful, apply_template_ids-decoded,
}

-- "ab" stops; "x" and "y" come in two pushes of which the second ends like a stop begins.
abbrev stops : List (List ℕ)
stops = codes "ab" ∷ []

abbrev chunks : List (List ℕ)
chunks = codes "xy" ∷ codes "za" ∷ []

held_back :
    feed (new stops) [] chunks
    ≡ (emit (codes "xyz"), record { buf = codes "a"; stop_bytes = stops; hold = 1 })
unfolding feed push find_stop memmem position emit_end valid_utf8_up_to valid_loop char_width
    list_beq
held_back = refl

feed-Free_example : ¬ StandsAt (codes "ab") 0 (concat chunks)
feed-Free_example =
    feed-Free stops chunks (codes "xyz") (record { buf = codes "a"; stop_bytes = stops; hold = 1 })
      (codes "ab") 0 held_back (Memᴰ.head refl) (omega arith)

across :
    feed (new stops) [] (codes "xa" ∷ codes "by" ∷ [])
    ≡ (stopped (codes "x"), record { buf = []; stop_bytes = stops; hold = 1 })
unfolding feed push find_stop memmem position emit_end valid_utf8_up_to valid_loop char_width
    list_beq
across = refl

abbrev nothing : List ℕ
nothing = []

feed-stopped_example :
    (n : ℕ) × (stop rest : List ℕ) × Memᴰ stop stops
    × (codes "x" ++ (stop ++ rest) ≡ concat (take n (codes "xa" ∷ codes "by" ∷ [])))
    × (nothing ≡ [])
feed-stopped_example =
    feed-stopped stops (codes "xa" ∷ codes "by" ∷ []) (codes "x")
      (record { buf = []; stop_bytes = stops; hold = 1 }) across

-- The stops are tried in their order: what is emitted before the first holds the second.
test-second_stop :
    (push (new (codes "ab" ∷ codes "x" ∷ [])) (codes "x ab")).0 ≡ stopped (codes "x ")
unfolding push find_stop memmem position list_beq
test-second_stop = refl

-- A character is not cut: of 0xC3 0xA9 the first byte waits for the second.
test-utf8 : (push (new []) (0x61 ∷ 0xC3 ∷ [])).0 ≡ emit (0x61 ∷ [])
unfolding push find_stop emit_end valid_utf8_up_to valid_loop char_width
test-utf8 = refl

test-gpt2 :
    gpt2_decode (codes "Hi" ++ (0x120 ∷ 0x10A ∷ 0x143 ∷ []))
    ≡ codes "Hi" ++ (0x20 ∷ 0x0A ∷ 0xAD ∷ [])
unfolding gpt2_decode
test-gpt2 = refl

abbrev vocab : List (List ℕ)
vocab =
    codes "<bos>"
    ∷ codes "<eos>"
    ∷ codes "<|turn>"
    ∷ codes "<turn|>"
    ∷ codes "\n"
    ∷ codes "<|channel>"
    ∷ codes "<channel|>"
    ∷ codes "user"
    ∷ codes "model"
    ∷ codes "thought"
    ∷ codes "hi"
    ∷ codes "<|tool>"
    ∷ []

abbrev moe : SptbTokenizer
moe = record {
  inner = false;
  c_tokenizer = true;
  id_to_bytes = vocab;
  eos_ids = 1 ∷ 3 ∷ [];
  arch_id = arch_gemma4_moe;
  bos_id = some 0;
  config_suppress = 10 ∷ 10 ∷ 99 ∷ [];
}

moe_built : build arch_gemma4_moe 4 vocab (10 ∷ 10 ∷ 99 ∷ [], 1 ∷ 50 ∷ []) true (some 12) ≡ some moe
unfolding build bytes_of utf8 find_eos_ids ids_where union_ids position_of list_beq gpt2_decode
moe_built = refl

build-IsBuilt_example : IsBuilt arch_gemma4_moe 4 vocab moe
build-IsBuilt_example =
    build-IsBuilt arch_gemma4_moe 4 vocab (10 ∷ 10 ∷ 99 ∷ []) (1 ∷ 50 ∷ []) true (some 12) moe
      (omega arith) moe_built

test-suppress : suppress_token_ids moe false ≡ 0 ∷ 5 ∷ 6 ∷ 11 ∷ 10 ∷ []
unfolding suppress_token_ids ids_where union_ids is_suppressed_control list_beq
test-suppress = refl

test-suppress_thinking : suppress_token_ids moe true ≡ 0 ∷ 5 ∷ 11 ∷ 10 ∷ []
unfolding suppress_token_ids ids_where union_ids is_suppressed_control list_beq
test-suppress_thinking = refl

stop_of_turn : Memᴰ 3 (turn_stop_ids moe)
unfolding turn_stop_ids ids_where list_beq
stop_of_turn = Memᴰ.tail (Memᴰ.head refl)

abbrev listed : List ℕ
listed = 10 ∷ 10 ∷ 99 ∷ []

unlisted : ¬ Memᴰ {A = ℕ} 3 listed
unlisted (Memᴰ.head e) = absurd (omega (arith, e))
unlisted (Memᴰ.tail (Memᴰ.head e)) = absurd (omega (arith, e))
unlisted (Memᴰ.tail (Memᴰ.tail (Memᴰ.head e))) = absurd (omega (arith, e))
unlisted (Memᴰ.tail (Memᴰ.tail (Memᴰ.tail inside))) = elim inside [ ]

-- With thinking on the sampler may close the thought.
abbrev row : List ℕ
row = 1 ∷ 1 ∷ 1 ∷ 1 ∷ 1 ∷ 1 ∷ 9 ∷ 1 ∷ 1 ∷ 1 ∷ 1 ∷ 1 ∷ []

abbrev served : Sampler toy
served = with_suppress toy (record greedy { no_repeat_ngram = 0 }) (suppress_token_ids moe true) 0

live : Live toy (masked toy served 0 row).1 6 9
unfolding masked suppress_all thought_floor thought_ceiling suppress_token_ids ids_where union_ids
    is_suppressed_control list_beq
live = record { at = refl; live = λ e. absurd (omega (arith, e)) }

Allowed-suppressed_example :
    (arch_gemma4_moe ≡ arch_gemma4_moe) × (true ≡ true) × (codes "<channel|>" ≡ codes "<channel|>")
unfolding is_suppressed_control list_beq
Allowed-suppressed_example =
    Allowed-suppressed toy moe true served 0 row 6 (codes "<channel|>") refl
      (masked-Allowed toy served 0 row 6 9 (omega arith) (omega arith) live) refl refl

-- An engine that puts BOS first and has an id for each whole text.
abbrev find_id : List (List ℕ) → ℕ → List ℕ → ℕ
find_id [] i text = 0
find_id (v ∷ vs) i text = if list_beq v text then i else find_id vs (i + 1) text

abbrev engine : List ℕ → ℕ → Option (ℕ × List ℕ)
engine text room = some (2, take room (0 ∷ find_id vocab 0 text ∷ []) ++ [])

abbrev crate : List ℕ → Option (List ℕ)
crate text = none

abbrev hello : List Message
hello = (record { role = codes "user"; content = codes "hi" }) ∷ []

test-prompt :
    apply_template_ids engine crate moe false hello
    ≡ some (0 ∷ 2 ∷ 7 ∷ 4 ∷ 10 ∷ 3 ∷ 4 ∷ 2 ∷ 8 ∷ 4 ∷ 5 ∷ 9 ∷ 4 ∷ 6 ∷ [])
unfolding apply_template_ids gemma_ids turn_ids channel_ids encode_no_bos encode c_encode
    encode_loop control_id position_of turn_role list_beq
test-prompt = refl

user-Faithful : Faithful engine crate moe (codes "user")
unfolding encode_no_bos encode c_encode encode_loop decoded decode_token list_beq
user-Faithful = (7 ∷ [], refl, refl)

hi-Faithful : Faithful engine crate moe (codes "hi")
unfolding encode_no_bos encode c_encode encode_loop decoded decode_token list_beq
hi-Faithful = (10 ∷ [], refl, refl)

model-Faithful : Faithful engine crate moe (codes "model")
unfolding encode_no_bos encode c_encode encode_loop decoded decode_token list_beq
model-Faithful = (8 ∷ [], refl, refl)

thought-Faithful : Faithful engine crate moe (codes "thought")
unfolding encode_no_bos encode c_encode encode_loop decoded decode_token list_beq
thought-Faithful = (9 ∷ [], refl, refl)

apply_template_ids-decoded_example :
    (out : List ℕ) × (apply_template_ids engine crate moe false hello ≡ some out)
    × (decoded moe out ≡ prompt_text moe false hello)
unfolding control_id position_of turn_role list_beq
apply_template_ids-decoded_example =
    apply_template_ids-decoded engine crate moe false hello 2 3 4 refl (omega arith) refl refl refl
      ((user-Faithful, hi-Faithful), tt) model-Faithful thought-Faithful
