-- ===== src/Recall/Policy.antt =====
-- The policy of an episode (tools/sp_daemon/src/recall.rs, `MemPolicy`): from its class, into the
-- text of its concept file, and back. The map of the environment is an argument.
pub mod Parse
pub mod Classify
pub mod Lines
pub mod Written
pub mod Body
pub mod Captured
mod Tests
use kairos_engine.Base.{
  ℕ, zero, suc, ◌+◌, Bool, true, false, ◌&&◌, ◌||◌, not, Option, none, some, ◌>>=◌, List, [], ◌∷◌,
  ◌++◌, map, length, take, list_beq, leb, ltb, ◌==◌, if◌then◌else◌,
}
use kairos_engine.Base.Text.{codes, utf8, is_whitespace, trim, lines, push_char, split_once, split}

abbrev pub Text : Type 0
Text = List ℕ

abbrev pub one_of : Text → List Text → Bool
one_of t [] = false
one_of t (u ∷ us) = if list_beq t u then true else one_of t us

pub record MemPolicy : Type 0 where
  pub class : Text
  pub delivery : Text
  pub decline_when : List Text
  pub decline_message : Text

unfoldable pub class_default_delivery : Text → Text
unfolding list_beq
class_default_delivery class =
    if list_beq class (codes "private-secret")
    then codes "attr-gate-strict"
    else if one_of class (codes "counterfact" ∷ codes "same-template" ∷ [])
    then codes "systemecho"
    else if one_of class
        (codes "fact" ∷ codes "preference" ∷ codes "persona" ∷ codes "episodic-event" ∷ [])
    then codes "system"
    else codes "recite"

abbrev pub or_default : Option Text → Text → Text
or_default none t = t
or_default (some d) t = d

-- `registry` is the map that SP_MEM_CLASS_DELIVERY holds.
abbrev pub class_delivery : (Text → Option Text) → Text → Text
class_delivery registry class = or_default (registry class) (class_default_delivery class)

abbrev pub is_secret : Text → Bool
is_secret class = list_beq class (codes "private-secret")

abbrev pub secret_message : Text
secret_message =
    codes "I have a record for that entity, but it does not include that specific detail."

-- MemPolicy::from_class
unfoldable pub from_class : (Text → Option Text) → Text → MemPolicy
unfolding list_beq
from_class registry class = record {
  class = class;
  delivery = class_delivery registry class;
  decline_when =
      if is_secret class then codes "zero-inference" ∷ codes "attribute-absent" ∷ [] else [];
  decline_message = if is_secret class then secret_message else [];
}

abbrev pub authority : Text → Text
authority class =
    if is_secret class
    then codes "private"
    else if one_of class
        (codes "persona" ∷ codes "preference" ∷ codes "fact" ∷ codes "episodic-event" ∷ [])
    then codes "supplements"
    else codes "overrides-prior"

-- `join(", ")`
abbrev pub join : List Text → Text
join [] = []
join (t ∷ []) = t
join (t ∷ u ∷ ts) = t ++ codes ", " ++ join (u ∷ ts)

abbrev pub decline_lines : List Text → Text → Text
decline_lines [] message = []
decline_lines (w ∷ ws) message =
    codes "mem_decline_when: ["
    ++ join (w ∷ ws)
    ++ codes "]\nmem_decline_message: "
    ++ message
    ++ codes "\n"

-- `replace('\n', " ")`
abbrev pub one_line : Text → Text
one_line [] = []
one_line (c ∷ cs) = (if c == 10 then 32 else c) ∷ one_line cs

-- The pieces of a text, in order.
abbrev pub format : List Text → Text
format [] = []
format (t ∷ ts) = t ++ format ts

-- The text that write_episode_okf writes.
unfoldable pub write_episode_okf : (Text → Option Text) → Text → Text → Text → Text
unfolding from_class list_beq
write_episode_okf registry text class name =
    let pol = from_class registry class in
    let title = one_line (take 60 text) in
    format (
      codes "---\ntype: memory\ntitle: "
      ∷ title
      ∷ codes "\ndescription: "
      ∷ title
      ∷ codes "\ntags: [mem-okf, episode, "
      ∷ class
      ∷ codes "]\nsp_status: ACTIVE\nmem_kind: episode\nmem_addr: "
      ∷ name
      ∷ codes "\nmem_class: "
      ∷ class
      ∷ codes "\nmem_delivery: "
      ∷ pol.delivery
      ∷ codes "\nmem_authority: "
      ∷ authority class
      ∷ codes "\n"
      ∷ decline_lines pol.decline_when pol.decline_message
      ∷ codes "---\n\n"
      ∷ text
      ∷ codes "\n"
      ∷ [])
