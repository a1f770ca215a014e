-- ===== src/Recall/Policy/Parse.antt =====
-- The readers of a concept file: `parse_okf_policy` and `okf_body` of tools/sp_daemon/src/recall.rs.
use kairos_engine.Base.{
  ℕ, ◌+◌, Bool, true, false, ◌&&◌, ◌||◌, Option, none, some, ◌>>=◌, List, [], ◌∷◌, ◌++◌, list_beq,
  ltb, ◌==◌, if◌then◌else◌,
}
use kairos_engine.Base.Text.{codes, trim, lines, split_once, split}
use kairos_engine.Recall.Policy.{Text, MemPolicy, or_default, class_default_delivery}

abbrev pub is_bracket : ℕ → Bool
is_bracket c = c == 91 || c == 93

-- `trim_matches` with the brackets.
abbrev pub strip_left : Text → Text
strip_left [] = []
strip_left (c ∷ cs) = if is_bracket c then strip_left cs else c ∷ cs

abbrev pub strip_cons : ℕ → Text → Text
strip_cons c [] = if is_bracket c then [] else c ∷ []
strip_cons c (d ∷ ds) = c ∷ d ∷ ds

abbrev pub strip_right : Text → Text
strip_right [] = []
strip_right (c ∷ cs) = strip_cons c (strip_right cs)

abbrev pub keep_some : Text → List Text → List Text
keep_some [] ts = ts
keep_some (c ∷ cs) ts = (c ∷ cs) ∷ ts

abbrev pub trimmed_some : List Text → List Text
trimmed_some [] = []
trimmed_some (t ∷ ts) = keep_some (trim t) (trimmed_some ts)

unfoldable pub decline_list : Text → List Text
unfolding split trim
decline_list v = trimmed_some (split 44 (strip_right (strip_left v)))

-- The variables of parse_okf_policy.
pub record Fields : Type 0 where
  pub class : Option Text
  pub delivery : Option Text
  pub dm : Text
  pub dw : List Text

unfoldable pub set_field : Text → Text → Fields → Fields
unfolding list_beq decline_list
set_field k v f =
    if list_beq k (codes "mem_class")
    then record f { class = some v }
    else if list_beq k (codes "mem_delivery")
    then record f { delivery = some v }
    else if list_beq k (codes "mem_decline_when")
    then record f { dw = decline_list v }
    else if list_beq k (codes "mem_decline_message")
    then record f { dm = v }
    else f

abbrev pub read_line : Option (Text × Text) → Fields → Fields
read_line none f = f
read_line (some (k, v)) f = set_field (trim k) (trim v) f

abbrev pub is_fence : Text → Bool
is_fence line = list_beq (trim line) (codes "---")

unfoldable pub policy_loop : Bool → Fields → List Text → Fields
unfolding set_field split_once trim list_beq
policy_loop in_fm f [] = f
policy_loop in_fm f (line ∷ rest) =
    let opened = policy_loop true f rest in
    let next = policy_loop in_fm (if in_fm then read_line (split_once 58 line) f else f) rest in
    if is_fence line then (if in_fm then f else opened) else next

abbrev pub policy_of : Fields → Option MemPolicy
policy_of f = f.class >>= (λ class. some (record {
  class = class;
  delivery = or_default f.delivery (class_default_delivery class);
  decline_when = f.dw;
  decline_message = f.dm;
}))

unfoldable pub parse_okf_policy : Text → Option MemPolicy
unfolding policy_loop lines class_default_delivery
parse_okf_policy text =
    policy_of
      (policy_loop false (record { class = none; delivery = none; dm = []; dw = [] }) (lines text))

-- The loop of okf_body: the fences seen, and the body.
unfoldable pub body_loop : ℕ → Text → List Text → ℕ × Text
unfolding trim list_beq
body_loop fences body [] = (fences, body)
body_loop fences body (line ∷ rest) =
    let counted = body_loop (fences + 1) body rest in
    let pushed = body_loop fences (body ++ line ++ codes "\n") rest in
    let skipped = body_loop fences body rest in
    if is_fence line && ltb fences 2 then counted else if ltb fences 2 then skipped else pushed

abbrev pub body_or : Text → ℕ × Text → Text
body_or text (fences, body) = if ltb fences 2 then text else body

unfoldable pub okf_body : Text → Text
unfolding body_loop lines trim
okf_body text = trim (body_or text (body_loop 0 [] (lines text)))
