-- ===== src/Recall/Policy/Classify.antt =====
-- The class of a captured text: `classify_mem_class` of tools/sp_daemon/src/recall.rs.
use kairos_engine.Base.{
  ℕ, ◌+◌, Bool, true, false, ◌&&◌, ◌||◌, List, [], ◌∷◌, length, leb, ◌==◌, if◌then◌else◌,
}
use kairos_engine.Base.Text.{codes, utf8, is_whitespace, push_char}
use kairos_engine.Recall.Policy.{Text}

-- `contains` of a string.
abbrev pub has_prefix : Text → Text → Bool
has_prefix [] t = true
has_prefix (p ∷ ps) [] = false
has_prefix (p ∷ ps) (c ∷ cs) = if p == c then has_prefix ps cs else false

abbrev pub contains_text : Text → Text → Bool
contains_text needle [] = has_prefix needle []
contains_text needle (c ∷ cs) = has_prefix needle (c ∷ cs) || contains_text needle cs

abbrev pub any_text : List Text → Text → Bool
any_text [] t = false
any_text (k ∷ ks) t = contains_text k t || any_text ks t

-- `split` at white space.
abbrev pub words : Text → List Text
words [] = [] ∷ []
words (c ∷ cs) = if is_whitespace c then [] ∷ words cs else push_char c (words cs)

abbrev is_digit : ℕ → Bool
is_digit c = leb 48 c && leb c 57

abbrev is_letter : ℕ → Bool
is_letter c = (leb 65 c && leb c 90) || (leb 97 c && leb c 122)

abbrev count : (ℕ → Bool) → Text → ℕ
count p [] = 0
count p (c ∷ cs) = (if p c then 1 else 0) + count p cs

abbrev code_char : ℕ → Bool
code_char c = is_letter c || is_digit c || c == 45

-- `trim_matches` of what is no code character.
abbrev code_left : Text → Text
code_left [] = []
code_left (c ∷ cs) = if code_char c then c ∷ cs else code_left cs

abbrev code_cons : ℕ → Text → Text
code_cons c [] = if code_char c then c ∷ [] else []
code_cons c (d ∷ ds) = c ∷ d ∷ ds

abbrev code_right : Text → Text
code_right [] = []
code_right (c ∷ cs) = code_cons c (code_right cs)

-- A token of high entropy, or a hyphenated code.
unfoldable pub is_code : Text → Bool
unfolding utf8
is_code tok =
    let t = code_right (code_left tok) in
    let letters = count is_letter t in
    let digits = count is_digit t in
    let hyphenated = contains_text (codes "-") t && leb 4 (letters + digits) in
    (leb 5 (length (utf8 t)) && leb 2 letters && leb 2 digits)
    || (hyphenated && leb 5 (length (utf8 t)))

abbrev pub any_code : List Text → Bool
any_code [] = false
any_code (w ∷ ws) = is_code w || any_code ws

abbrev pub secret_kw : List Text
secret_kw =
    codes "code"
    ∷ codes "password"
    ∷ codes "passcode"
    ∷ codes "passphrase"
    ∷ codes " pin "
    ∷ codes " pin."
    ∷ codes "secret"
    ∷ codes "api key"
    ∷ codes "api-key"
    ∷ codes "token"
    ∷ codes "override"
    ∷ []

abbrev pub persona_kw : List Text
persona_kw =
    codes "my name is"
    ∷ codes "i am "
    ∷ codes "i'm "
    ∷ codes "call me "
    ∷ codes "i like "
    ∷ codes "i love "
    ∷ codes "i prefer "
    ∷ codes "i live "
    ∷ codes "my favorite"
    ∷ codes "my favourite"
    ∷ codes "i enjoy "
    ∷ codes "my birthday"
    ∷ codes "i work as"
    ∷ codes "my job is"
    ∷ codes "my hobby"
    ∷ []

-- `to_lowercase` is the argument `lower`.
unfoldable pub classify_mem_class : (Text → Text) → Text → Text
unfolding is_code
classify_mem_class lower text =
    let low = lower text in
    if any_text secret_kw low || any_code (words text)
    then codes "private-secret"
    else if any_text persona_kw low
    then codes "persona"
    else codes "fact"
