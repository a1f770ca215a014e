-- ===== src/Tokenizer/Template.antt =====
-- The encoders and the chat templates of tools/sp_daemon/src/tokenizer.rs. The engine's encoder is
-- a parameter: `none` for a negative result, else the full count and the buffer that it filled.
pub mod Encoder
pub mod Decoded
use kairos_engine.Base.{
  ℕ, zero, suc, ◌+◌, Bool, true, false, ◌&&◌, not, Option, none, some, ◌>>=◌, List, [], ◌∷◌, ◌++◌,
  length, take, list_beq, leb, ◌==◌, if◌then◌else◌,
}
use kairos_engine.Tokenizer.{
  codes, SptbTokenizer, control_id, is_gemma_turn_arch, is_qwen_arch, arch_gemma4_moe,
}

pub record Message : Type 0 where
  pub role : List ℕ
  pub content : List ℕ

abbrev pub first_system : List Message → Bool
first_system [] = false
first_system (m ∷ ms) = list_beq m.role (codes "system")

abbrev pub chatml_turns : List Message → List ℕ
chatml_turns [] = []
chatml_turns (m ∷ ms) =
    codes "<|im_start|>"
    ++ m.role
    ++ codes "\n"
    ++ m.content
    ++ codes "<|im_end|>\n"
    ++ chatml_turns ms

unfoldable pub chatml_template : List Message → List ℕ
unfolding list_beq
chatml_template ms =
    (if first_system ms then [] else codes "<|im_start|>system\n<|im_end|>\n")
    ++ chatml_turns ms
    ++ codes "<|im_start|>assistant\n"

-- The role of a turn: the assistant is the model.
unfoldable pub turn_role : Message → List ℕ
unfolding list_beq
turn_role m = if list_beq m.role (codes "assistant") then codes "model" else m.role

abbrev pub gemma3_turns : List Message → List ℕ
gemma3_turns [] = []
gemma3_turns (m ∷ ms) =
    codes "<start_of_turn>"
    ++ turn_role m
    ++ codes "\n"
    ++ m.content
    ++ codes "<end_of_turn>\n"
    ++ gemma3_turns ms

unfoldable pub gemma3_template : List Message → List ℕ
unfolding turn_role
gemma3_template ms = gemma3_turns ms ++ codes "<start_of_turn>model\n"

-- SptbTokenizer::apply_template
unfoldable pub apply_template : SptbTokenizer → List Message → Option (List ℕ)
unfolding chatml_template gemma3_template
apply_template t ms =
    if is_qwen_arch t.arch_id
    then some (chatml_template ms)
    else if is_gemma_turn_arch t.arch_id
    then some (gemma3_template ms)
    else none

abbrev pub push_bos : Option ℕ → List ℕ
push_bos none = []
push_bos (some bos) = bos ∷ []

abbrev pub drop_bos : Option ℕ → List ℕ → List ℕ
drop_bos none ids = ids
drop_bos (some bos) [] = []
drop_bos (some bos) (id ∷ ids) = if id == bos then ids else id ∷ ids

abbrev pub or_error : Option (Option (List ℕ)) → Option (List ℕ)
or_error none = none
or_error (some r) = r

-- The buffer if there was room for the full count, else another round with that count.
abbrev pub answer :
    ℕ → (ℕ → Option (Option (List ℕ))) → Option (ℕ × List ℕ) → Option (Option (List ℕ))
answer room retry none = some none
answer room retry (some (n, buffer)) = if leb n room then some (some (take n buffer)) else retry n

module _ (engine : List ℕ → ℕ → Option (ℕ × List ℕ)) (crate : List ℕ → Option (List ℕ)) where
  -- CTokenizer::encode: grow and retry. The outer `none` is the fuel that has run out, the inner
  -- one the engine's error.
  unfoldable pub encode_loop : ℕ → List ℕ → ℕ → Option (Option (List ℕ))
  encode_loop zero text room = none
  encode_loop (suc fuel) text room =
      answer room (λ (n : ℕ). encode_loop fuel text n) (engine text room)

  -- Two rounds are enough for an engine whose count does not depend on the room it is given.
  unfoldable pub c_encode : List ℕ → Option (List ℕ)
  unfolding encode_loop
  c_encode text = or_error (encode_loop 2 text (length text + 16))

  -- SptbTokenizer::encode
  unfoldable pub encode : SptbTokenizer → List ℕ → Option (List ℕ)
  unfolding c_encode
  encode t text = if t.c_tokenizer then c_encode text else if t.inner then crate text else none

  unfoldable pub encode_no_bos : SptbTokenizer → List ℕ → Option (List ℕ)
  unfolding encode
  encode_no_bos t text =
      encode t text >>= (λ ids. some (if t.c_tokenizer then drop_bos t.bos_id ids else ids))

  unfoldable pub turn_ids : SptbTokenizer → ℕ → ℕ → ℕ → List Message → Option (List ℕ)
  unfolding encode_no_bos turn_role
  turn_ids t start_turn end_turn nl [] = some []
  turn_ids t start_turn end_turn nl (m ∷ ms) =
      let rest = turn_ids t start_turn end_turn nl ms in
      encode_no_bos t (turn_role m) >>= (λ role. encode_no_bos t m.content >>= (λ content.
        rest >>= (λ out. some ((start_turn ∷ role) ++ ((nl ∷ content) ++ (end_turn ∷ nl ∷ out))))))

  -- The thought channel of gemma4-MoE, closed at once unless thinking is on.
  unfoldable pub channel_ids : SptbTokenizer → Bool → ℕ → Option ℕ → Option ℕ → Option (List ℕ)
  unfolding encode_no_bos
  channel_ids t thinking nl none ch_close = some []
  channel_ids t thinking nl (some ch_open) none = some []
  channel_ids t thinking nl (some ch_open) (some ch_close) =
      encode_no_bos t (codes "thought") >>= (λ thought.
        some ((ch_open ∷ thought) ++ (nl ∷ (if not thinking then ch_close ∷ [] else []))))

  -- The prompt of an arch with turn tokens.
  unfoldable pub gemma_ids : SptbTokenizer → Bool → List Message → ℕ → ℕ → ℕ → Option (List ℕ)
  unfolding turn_ids channel_ids control_id
  gemma_ids t thinking ms start_turn end_turn nl =
      turn_ids t start_turn end_turn nl ms >>= (λ turns.
        encode_no_bos t (codes "model") >>= (λ model.
          (if t.arch_id == arch_gemma4_moe
            then channel_ids t thinking nl (control_id t (codes "<|channel>"))
                (control_id t (codes "<channel|>"))
            else some [])
          >>= (λ channel.
              some (push_bos t.bos_id ++ (turns ++ ((start_turn ∷ model) ++ (nl ∷ channel)))))))

  -- Without one of the turn tokens the text template is encoded.
  abbrev pub with_turns :
      SptbTokenizer → Bool → List Message → Option ℕ → Option ℕ → Option ℕ → Option (List ℕ)
  with_turns t thinking ms (some start_turn) (some end_turn) (some nl) =
      gemma_ids t thinking ms start_turn end_turn nl
  with_turns t thinking ms (some start_turn) (some end_turn) none = encode t (gemma3_template ms)
  with_turns t thinking ms (some start_turn) none nl = encode t (gemma3_template ms)
  with_turns t thinking ms none end_turn nl = encode t (gemma3_template ms)

  -- SptbTokenizer::apply_template_ids
  unfoldable pub apply_template_ids : SptbTokenizer → Bool → List Message → Option (List ℕ)
  unfolding gemma_ids encode control_id gemma3_template chatml_template
  apply_template_ids t thinking ms =
      if is_gemma_turn_arch t.arch_id
      then with_turns t thinking ms (control_id t (codes "<|turn>"))
          (control_id t (codes "<turn|>")) (control_id t (codes "\n"))
      else if is_qwen_arch t.arch_id
      then encode t (chatml_template ms)
      else none
