-- ===== src/Tokenizer/Template/Decoded.antt =====
-- What a prompt of token ids says, decoded.
use mathlib.Core.Option.{some-injective}
use mathlib.Core.List.{append_assoc, append-nil}
use kairos_engine.Base.{
  ℕ, ◌^◌, ◌≤◌, ◌<◌, ◌≡◌, refl, ap, sym, ◌∙◌, Bool, true, false, not, Option, none, some,
  >>=-eq-some, List, [], ◌∷◌, ◌++◌, length, get_elem?, get_elem?-lt, ◌==◌, if◌then◌else◌, All,
  arith,
}
use kairos_engine.Sampler.Allowed.{as_usize_small}
use kairos_engine.Tokenizer.{
  codes, SptbTokenizer, control_id, decode_token, or_empty, is_gemma_turn_arch, is_qwen_arch,
  arch_gemma4_moe,
}
use kairos_engine.Tokenizer.Vocab.{control_id-at}
use kairos_engine.Tokenizer.Template.{
  Message, turn_role, encode, chatml_template, encode_no_bos, turn_ids, channel_ids, gemma_ids,
  push_bos, with_turns, apply_template_ids,
}

-- The bytes of the ids, in order.
unfoldable pub decoded : SptbTokenizer → List ℕ → List ℕ
decoded t [] = []
decoded t (id ∷ ids) = decode_token t id ++ decoded t ids

decoded-append :
    (t : SptbTokenizer) (xs ys : List ℕ) → decoded t (xs ++ ys) ≡ decoded t xs ++ decoded t ys
unfolding decoded
decoded-append t [] ys = refl
decoded-append t (x ∷ xs) ys =
    ap (λ (r : List ℕ). decode_token t x ++ r) (decoded-append t xs ys)
    ∙ sym (append_assoc (decode_token t x) (decoded t xs) (decoded t ys))

decode_token-control :
    (t : SptbTokenizer) (surface : List ℕ) (id : ℕ)
    → length t.id_to_bytes ≤ 2 ^ 31
    → control_id t surface ≡ some id
    → decode_token t id ≡ surface
unfolding decode_token
decode_token-control t surface id small h =
    ap (λ (i : ℕ). or_empty (get_elem? t.id_to_bytes i)) (as_usize_small id inside)
    ∙ ap or_empty (control_id-at t surface id h)
  where
    inside : id < 2 ^ 31
    inside = omega (arith, small, get_elem?-lt t.id_to_bytes id (control_id-at t surface id h))

nothing : (t : SptbTokenizer) → decoded t [] ≡ []
unfolding decoded
nothing t = refl

-- The text of the turns, with the turn tokens of the vocabulary.
abbrev pub turn_text : List Message → List ℕ
turn_text [] = []
turn_text (m ∷ ms) =
    (codes "<|turn>" ++ turn_role m)
    ++ ((codes "\n" ++ m.content) ++ (codes "<turn|>" ++ (codes "\n" ++ turn_text ms)))

-- The opened channel, which is closed at once unless thinking is on, where both tokens exist.
abbrev pub channel_text : Bool → Option ℕ → Option ℕ → List ℕ
channel_text thinking none ch_close = []
channel_text thinking (some ch_open) none = []
channel_text thinking (some ch_open) (some ch_close) =
    (codes "<|channel>" ++ codes "thought")
    ++ (codes "\n" ++ (if not thinking then codes "<channel|>" else []))

-- The whole prompt.
abbrev pub prompt_text : SptbTokenizer → Bool → List Message → List ℕ
prompt_text t thinking ms =
    decoded t (push_bos t.bos_id)
    ++ (turn_text ms
        ++ ((codes "<|turn>" ++ codes "model")
            ++ (codes "\n"
                ++ (if t.arch_id == arch_gemma4_moe
                    then channel_text thinking (control_id t (codes "<|channel>"))
                        (control_id t (codes "<channel|>"))
                    else []))))

module _ (engine : List ℕ → ℕ → Option (ℕ × List ℕ)) (crate : List ℕ → Option (List ℕ)) where
  -- The text is encoded, and what the encoder returns decodes to it.
  abbrev pub Faithful : SptbTokenizer → List ℕ → Type 0
  Faithful t text =
      (ids : List ℕ) × (encode_no_bos engine crate t text ≡ some ids) × (decoded t ids ≡ text)

  reads :
      (t : SptbTokenizer) (text ids : List ℕ)
      → Faithful t text
      → encode_no_bos engine crate t text ≡ some ids
      → decoded t ids ≡ text
  reads t text ids f h = ap (decoded t) (some-injective ids f.0 (sym h ∙ f.1)) ∙ f.2

  -- The texts of a message.
  abbrev pub FaithfulTo : SptbTokenizer → Message → Type 0
  FaithfulTo t m = Faithful t (turn_role m) × Faithful t m.content

  turn_ids-decoded :
      (t : SptbTokenizer) (start_turn end_turn nl : ℕ) (ms : List Message) (out : List ℕ)
      → decode_token t start_turn ≡ codes "<|turn>"
      → decode_token t end_turn ≡ codes "<turn|>"
      → decode_token t nl ≡ codes "\n"
      → All (FaithfulTo t) ms
      → turn_ids engine crate t start_turn end_turn nl ms ≡ some out
      → decoded t out ≡ turn_text ms
  unfolding turn_ids decoded
  turn_ids-decoded t start_turn end_turn nl [] out hs he hn faithful h =
      ap (decoded t) (sym (some-injective [] out h))
  turn_ids-decoded t start_turn end_turn nl (m ∷ ms) out hs he hn faithful h =
      let (role, h_role, h1) = >>=-eq-some (encode_no_bos engine crate t (turn_role m)) _ h in
      let (content, h_content, h2) = >>=-eq-some (encode_no_bos engine crate t m.content) _ h1 in
      let (rest, h_rest, h3) =
        >>=-eq-some (turn_ids engine crate t start_turn end_turn nl ms) _ h2 in
      let ih = turn_ids-decoded t start_turn end_turn nl ms rest hs he hn faithful.1 h_rest in
      ap (decoded t) (sym (some-injective _ out h3))
      ∙ decoded-append t (start_turn ∷ role) ((nl ∷ content) ++ (end_turn ∷ nl ∷ rest))
      ∙ ap (λ (r : List ℕ). (decode_token t start_turn ++ decoded t role) ++ r)
          (decoded-append t (nl ∷ content) (end_turn ∷ nl ∷ rest))
      ∙ rw
          (
            hs,
            he,
            hn,
            reads t (turn_role m) role faithful.0.0 h_role,
            reads t m.content content faithful.0.1 h_content,
            ih,
          )
          refl

  channel_ids-decoded :
      (t : SptbTokenizer) (thinking : Bool) (nl : ℕ) (o c : Option ℕ) (out : List ℕ)
      → length t.id_to_bytes ≤ 2 ^ 31
      → control_id t (codes "<|channel>") ≡ o
      → control_id t (codes "<channel|>") ≡ c
      → decode_token t nl ≡ codes "\n"
      → Faithful t (codes "thought")
      → channel_ids engine crate t thinking nl o c ≡ some out
      → decoded t out ≡ channel_text thinking o c
  unfolding channel_ids decoded
  channel_ids-decoded t thinking nl none c out small ho hc hn faithful h =
      ap (decoded t) (sym (some-injective [] out h))
  channel_ids-decoded t thinking nl (some ch_open) none out small ho hc hn faithful h =
      ap (decoded t) (sym (some-injective [] out h))
  channel_ids-decoded t thinking nl (some ch_open) (some ch_close) out small ho hc hn faithful h =
      let (thought, h_thought, h1) =
        >>=-eq-some (encode_no_bos engine crate t (codes "thought")) _ h in
      ap (decoded t) (sym (some-injective _ out h1))
      ∙ decoded-append t (ch_open ∷ thought) (nl ∷ (if not thinking then ch_close ∷ [] else []))
      ∙ rw
          (
            decode_token-control t (codes "<|channel>") ch_open small ho,
            hn,
            reads t (codes "thought") thought faithful h_thought,
          )
          (ap (λ (r : List ℕ). (codes "<|channel>" ++ codes "thought") ++ (codes "\n" ++ r))
            (closing thinking))
    where
      closing :
          (b : Bool)
          → decoded t (if not b then ch_close ∷ [] else [])
            ≡ (if not b then codes "<channel|>" else [])
      closing true = refl
      closing false =
          append-nil (decode_token t ch_close)
          ∙ decode_token-control t (codes "<channel|>") ch_close small hc

  apply_template_ids-when_some :
      (t : SptbTokenizer) (thinking : Bool) (ms : List Message) (start_turn end_turn nl : ℕ)
      (out : List ℕ)
      → is_gemma_turn_arch t.arch_id ≡ true
      → length t.id_to_bytes ≤ 2 ^ 31
      → control_id t (codes "<|turn>") ≡ some start_turn
      → control_id t (codes "<turn|>") ≡ some end_turn
      → control_id t (codes "\n") ≡ some nl
      → All (FaithfulTo t) ms
      → Faithful t (codes "model")
      → Faithful t (codes "thought")
      → apply_template_ids engine crate t thinking ms ≡ some out
      → decoded t out ≡ prompt_text t thinking ms
  unfolding apply_template_ids gemma_ids decoded
  apply_template_ids-when_some t thinking ms start_turn end_turn nl out gemma small hs he hn fm
        fmodel fthought h =
      let run : gemma_ids engine crate t thinking ms start_turn end_turn nl ≡ some out =
        sym (
          ap
            (λ (b : Bool).
              if b
              then with_turns engine crate t thinking ms (control_id t (codes "<|turn>"))
                  (control_id t (codes "<turn|>")) (control_id t (codes "\n"))
              else other)
            gemma
          ∙ rw (hs, he, hn) refl)
        ∙ h in
      let (turns, h_turns, h1) =
        >>=-eq-some (turn_ids engine crate t start_turn end_turn nl ms) _ run in
      let (model, h_model, h2) = >>=-eq-some (encode_no_bos engine crate t (codes "model")) _ h1 in
      let (channel, h_channel, h3) = >>=-eq-some channels _ h2 in
      ap (decoded t) (sym (some-injective _ out h3))
      ∙ decoded-append t (push_bos t.bos_id) (turns ++ ((start_turn ∷ model) ++ (nl ∷ channel)))
      ∙ ap (λ (r : List ℕ). decoded t (push_bos t.bos_id) ++ r)
          (decoded-append t turns ((start_turn ∷ model) ++ (nl ∷ channel))
            ∙ ap (λ (r : List ℕ). decoded t turns ++ r)
                (decoded-append t (start_turn ∷ model) (nl ∷ channel))
            ∙ rw
                (
                  turn_ids-decoded t start_turn end_turn nl ms turns s_turn e_turn newline fm
                      h_turns,
                  s_turn,
                  newline,
                  reads t (codes "model") model fmodel h_model,
                  closed (t.arch_id == arch_gemma4_moe) channel h_channel,
                )
                refl)
    where
      other : Option (List ℕ)
      other = if is_qwen_arch t.arch_id then encode engine crate t (chatml_template ms) else none

      s_turn : decode_token t start_turn ≡ codes "<|turn>"
      s_turn = decode_token-control t (codes "<|turn>") start_turn small hs

      e_turn : decode_token t end_turn ≡ codes "<turn|>"
      e_turn = decode_token-control t (codes "<turn|>") end_turn small he

      newline : decode_token t nl ≡ codes "\n"
      newline = decode_token-control t (codes "\n") nl small hn

      o : Option ℕ
      o = control_id t (codes "<|channel>")

      c : Option ℕ
      c = control_id t (codes "<channel|>")

      channels : Option (List ℕ)
      channels =
          if t.arch_id == arch_gemma4_moe
          then channel_ids engine crate t thinking nl o c
          else some []

      closed :
          (b : Bool) (channel : List ℕ)
          → (if b then channel_ids engine crate t thinking nl o c else some []) ≡ some channel
          → decoded t channel ≡ (if b then channel_text thinking o c else [])
      closed true channel h =
          channel_ids-decoded t thinking nl o c channel small refl refl newline fthought h
      closed false channel h = ap (decoded t) (sym (some-injective [] channel h)) ∙ nothing t

  turn_ids-some :
      (t : SptbTokenizer) (start_turn end_turn nl : ℕ) (ms : List Message)
      → All (FaithfulTo t) ms
      → (out : List ℕ) × (turn_ids engine crate t start_turn end_turn nl ms ≡ some out)
  unfolding turn_ids
  turn_ids-some t start_turn end_turn nl [] faithful = ([], refl)
  turn_ids-some t start_turn end_turn nl (m ∷ ms) faithful =
      let (rest, h) = turn_ids-some t start_turn end_turn nl ms faithful.1 in
      (
        (start_turn ∷ faithful.0.0.0) ++ ((nl ∷ faithful.0.1.0) ++ (end_turn ∷ nl ∷ rest)),
        rw (faithful.0.0.1, faithful.0.1.1, h) refl,
      )

  channel_ids-some :
      (t : SptbTokenizer) (thinking : Bool) (nl : ℕ) (o c : Option ℕ) (b : Bool)
      → Faithful t (codes "thought")
      → (out : List ℕ) × ((if b then channel_ids engine crate t thinking nl o c else some [])
          ≡ some out)
  unfolding channel_ids
  channel_ids-some t thinking nl o c false f = ([], refl)
  channel_ids-some t thinking nl none c true f = ([], refl)
  channel_ids-some t thinking nl (some ch_open) none true f = ([], refl)
  channel_ids-some t thinking nl (some ch_open) (some ch_close) true f =
      ((ch_open ∷ f.0) ++ (nl ∷ (if not thinking then ch_close ∷ [] else [])), rw (f.1) refl)

  gemma_ids-some :
      (t : SptbTokenizer) (thinking : Bool) (ms : List Message) (start_turn end_turn nl : ℕ)
      → All (FaithfulTo t) ms
      → Faithful t (codes "model")
      → Faithful t (codes "thought")
      → (out : List ℕ) × (gemma_ids engine crate t thinking ms start_turn end_turn nl ≡ some out)
  unfolding gemma_ids
  gemma_ids-some t thinking ms start_turn end_turn nl fm fmodel fthought =
      let (turns, h) = turn_ids-some t start_turn end_turn nl ms fm in
      let (channel, h') =
        channel_ids-some t thinking nl (control_id t (codes "<|channel>"))
          (control_id t (codes "<channel|>")) (t.arch_id == arch_gemma4_moe) fthought in
      (
        push_bos t.bos_id ++ (turns ++ ((start_turn ∷ fmodel.0) ++ (nl ∷ channel))),
        rw (h, fmodel.1, h') refl,
      )

  -- Where the vocabulary has the turn tokens and at most 2 ^ 31 entries, and the encoder is faithful
  -- to the texts, the prompt of an arch with turns is built, and it decodes to the turns of the
  -- messages, the opening of the model's turn and the channel.
  pub apply_template_ids-decoded :
      (t : SptbTokenizer) (thinking : Bool) (ms : List Message) (start_turn end_turn nl : ℕ)
      → is_gemma_turn_arch t.arch_id ≡ true
      → length t.id_to_bytes ≤ 2 ^ 31
      → control_id t (codes "<|turn>") ≡ some start_turn
      → control_id t (codes "<turn|>") ≡ some end_turn
      → control_id t (codes "\n") ≡ some nl
      → All (FaithfulTo t) ms
      → Faithful t (codes "model")
      → Faithful t (codes "thought")
      → (out : List ℕ) × (apply_template_ids engine crate t thinking ms ≡ some out)
        × (decoded t out ≡ prompt_text t thinking ms)
  unfolding apply_template_ids
  apply_template_ids-decoded t thinking ms start_turn end_turn nl gemma small hs he hn fm fmodel
        fthought =
      let (out, built) = gemma_ids-some t thinking ms start_turn end_turn nl fm fmodel fthought in
      let done : apply_template_ids engine crate t thinking ms ≡ some out =
        ap
          (λ (b : Bool).
            if b
            then with_turns engine crate t thinking ms (control_id t (codes "<|turn>"))
                (control_id t (codes "<turn|>")) (control_id t (codes "\n"))
            else other)
          gemma
        ∙ rw (hs, he, hn) built in
      (
        out,
        done,
        apply_template_ids-when_some t thinking ms start_turn end_turn nl out gemma small hs he hn
            fm fmodel fthought done,
      )
    where
      other : Option (List ℕ)
      other = if is_qwen_arch t.arch_id then encode engine crate t (chatml_template ms) else none
