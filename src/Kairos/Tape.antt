-- ===== src/Kairos/Tape.antt =====
-- The tape's text: `EventTape::parse`, `tokenize_line` and `Decision::parse` of kairos.rs. Lines
-- are numbered from 1 in errors; what an error says beyond its kind and line is left out.
pub mod Quoting
use mathlib.Core.Option.{some-injective}
use kairos_engine.Base.Text.{is_whitespace, trim}
use kairos_engine.Base.{
  ℕ, zero, suc, ◌+◌, ◌-◌, ◌*◌, ◌^◌, Bool, true, false, not, ◌&&◌, ◌||◌, Option, some, none, List,
  [], ◌∷◌, ◌++◌, length, list_beq, leb, ltb, ◌==◌, if◌then◌else◌, ◌>>=◌,
}
use kairos_engine.Kairos.{Float, Decision, noop, action, TapeEvent}

pub data TapeError : Type 0 where
  fields : ℕ → ℕ → TapeError
  bad_tick_idx : ℕ → TapeError
  bad_salience : ℕ → TapeError
  bad_expect : ℕ → TapeError

pub data TapeResult {ℓ} (A : Type ℓ) : Type ℓ where
  parsed : A → TapeResult A
  refused : TapeError → TapeResult A

pub to_ascii_uppercase : List ℕ → List ℕ
to_ascii_uppercase [] = []
to_ascii_uppercase (c ∷ cs) = (if leb 97 c && leb c 122 then c - 32 else c) ∷ to_ascii_uppercase cs

-- Decision::parse
pub parse_decision : List ℕ → Option Decision
unfolding trim to_ascii_uppercase
parse_decision s =
    let word = to_ascii_uppercase (trim s) in
    if list_beq word (78 ∷ 79 ∷ 79 ∷ 80 ∷ [])
    then some noop
    else if list_beq word (65 ∷ 67 ∷ 84 ∷ 73 ∷ 79 ∷ 78 ∷ [])
    then some action
    else none

-- The three arms of the `match` on a character.
pub data CharClass : Type 0 where
  quote : CharClass
  separator : CharClass
  ordinary : CharClass

abbrev pub char_class : ℕ → Bool → CharClass
char_class c in_quote =
    if c == 34 then quote else if is_whitespace c && not in_quote then separator else ordinary

-- The current token joins the tokens unless it is empty.
abbrev pub push_token : List ℕ → List (List ℕ) → List (List ℕ)
push_token [] out = out
push_token (c ∷ cs) out = (c ∷ cs) ∷ out

unfoldable pub tokenize_loop : List ℕ → Bool → List ℕ → List (List ℕ)
tokenize_loop cur in_quote [] = push_token cur []
tokenize_loop cur in_quote (c ∷ cs) = elim (char_class c in_quote) [
  | quote ↦ tokenize_loop cur (not in_quote) cs
  | separator ↦ push_token cur (tokenize_loop [] in_quote cs)
  | ordinary ↦ tokenize_loop (cur ++ (c ∷ [])) in_quote cs
]

unfoldable pub tokenize_line : List ℕ → List (List ℕ)
unfolding tokenize_loop
tokenize_line line = tokenize_loop [] false line

-- `str::parse::<u64>`: digits after an optional plus sign, at least one, below 2 ^ 64.
abbrev pub add_digit : ℕ → Option ℕ → Option ℕ
add_digit c none = none
add_digit c (some n) =
    let m = n * 10 + (c - 48) in if leb 48 c && leb c 57 && ltb m (2 ^ 64) then some m else none

pub digits_loop : Option ℕ → List ℕ → Option ℕ
digits_loop n [] = n
digits_loop n (c ∷ cs) = digits_loop (add_digit c n) cs

pub parse_digits : List ℕ → Option ℕ
unfolding digits_loop
parse_digits [] = none
parse_digits (c ∷ cs) = digits_loop (some 0) (c ∷ cs)

pub parse_u64 : List ℕ → Option ℕ
unfolding parse_digits
parse_u64 [] = none
parse_u64 (c ∷ cs) = if c == 43 then parse_digits cs else parse_digits (c ∷ cs)

-- `str::lines`: a final line break opens no line.
abbrev pub lines_end : List ℕ → List (List ℕ)
lines_end [] = []
lines_end (c ∷ cs) = (c ∷ cs) ∷ []

abbrev pub strip_cr_cons : ℕ → List ℕ → List ℕ → List ℕ
strip_cr_cons c [] rest = if c == 13 then [] else c ∷ []
strip_cr_cons c (d ∷ ds) rest = c ∷ rest

pub strip_cr : List ℕ → List ℕ
strip_cr [] = []
strip_cr (c ∷ cs) = strip_cr_cons c cs (strip_cr cs)

pub lines_loop : List ℕ → List ℕ → List (List ℕ)
unfolding strip_cr
lines_loop cur [] = lines_end cur
lines_loop cur (c ∷ cs) = elim (c == 10) [
  | true ↦ strip_cr cur ∷ lines_loop [] cs
  | false ↦ lines_loop (cur ++ (c ∷ [])) cs
]

-- A comment or a blank line, after trimming.
abbrev pub is_skipped : List ℕ → Bool
is_skipped [] = true
is_skipped (c ∷ cs) = c == 35

abbrev pub or_refuse {ℓ κ} :
    {A : Type ℓ} {B : Type κ} → Option A → TapeError → (A → TapeResult B) → TapeResult B
or_refuse none e k = refused e
or_refuse (some a) e k = k a

abbrev pub and_then {ℓ κ} :
    {A : Type ℓ} {B : Type κ} → TapeResult A → (A → TapeResult B) → TapeResult B
and_then (refused e) k = refused e
and_then (parsed a) k = k a

module _ (fl : Float) where
  pub parse_fields : ℕ → List (List ℕ) → TapeResult (TapeEvent fl)
  unfolding parse_u64 parse_decision
  parse_fields lineno (t ∷ kind ∷ payload ∷ s ∷ x ∷ []) =
      or_refuse (parse_u64 t) (bad_tick_idx lineno) λ tick_idx.
        or_refuse (fl.parse s) (bad_salience lineno) λ salience.
          or_refuse (parse_decision x) (bad_expect lineno) λ expect. parsed (record {
            tick_idx = tick_idx;
            kind = kind;
            payload = if list_beq payload (45 ∷ []) then [] else payload;
            salience = salience;
            expect = expect;
          })
  parse_fields lineno toks = refused (fields lineno (length toks))

  -- The loop over the lines; the first error ends it.
  pub parse_lines : ℕ → List (List ℕ) → TapeResult (List (TapeEvent fl))
  unfolding parse_fields trim tokenize_line
  parse_lines lineno [] = parsed []
  parse_lines lineno (raw ∷ raws) =
      let line = trim raw in
      let rest = parse_lines (lineno + 1) raws in
      if is_skipped line
      then rest
      else and_then (parse_fields lineno (tokenize_line line))
          λ ev. and_then rest λ evs. parsed (ev ∷ evs)

  -- EventTape::parse
  unfoldable pub parse_tape : List ℕ → TapeResult (List (TapeEvent fl))
  unfolding lines_loop parse_lines
  parse_tape text = parse_lines 1 (lines_loop [] text)
