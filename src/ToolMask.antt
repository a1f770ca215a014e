-- ===== src/ToolMask.antt =====
-- tools/sp_daemon/src/tool_mask.rs: the mask over the tokens of a tool call's name. `encode` of
-- `new` is the tokenizer's and an argument; a token id stands for its 32-bit pattern. The ids that
-- `allowed` collects in a HashSet are a list without repetition: their order is the set's own, and
-- no caller of `forced` reads it.
pub mod Offer
pub mod Names
pub mod Run
mod Tests
use Prim.Native.String.{String}
use kairos_engine.Base.{
  ℕ, zero, suc, ◌+◌, ◌-◌, ◌≤◌, Bool, true, false, not, ◌&&◌, Option, some, none, List, [], ◌∷◌,
  ◌++◌, length, get_elem?, take, drop, list_beq, ltb, leb, ◌==◌, if◌then◌else◌,
}

pub data State : Type 0 where
  prose : State
  name : State
  args : State

pub record ToolMask : Type 0 where
  pub names : List (List ℕ)
  pub fence : List ℕ
  pub hist : List ℕ
  pub state : State
  pub depth : ℕ
  pub masked_steps : ℕ
  pub forced_steps : ℕ

abbrev pub contains : List ℕ → ℕ → Bool
contains [] b = false
contains (x ∷ xs) b = if x == b then true else contains xs b

-- `.map(encode).filter(|v| !v.is_empty())`
abbrev pub keep_name : List ℕ → List (List ℕ) → List (List ℕ)
keep_name [] ns = ns
keep_name (t ∷ ts) ns = (t ∷ ts) ∷ ns

pub encode_names : (String → List ℕ) → List String → List (List ℕ)
encode_names encode [] = []
encode_names encode (n ∷ ns) = keep_name (encode n) (encode_names encode ns)

-- ToolMask::new
pub new : List String → (String → List ℕ) → ToolMask
unfolding encode_names
new tool_names encode = record {
  names = encode_names encode tool_names;
  fence = encode "```tool_code\n";
  hist = [];
  state = prose;
  depth = 0;
  masked_steps = 0;
  forced_steps = 0;
}

abbrev pub nonempty {ℓ} : {A : Type ℓ} → List A → Bool
nonempty [] = false
nonempty (x ∷ xs) = true

abbrev pub enabled : ToolMask → Bool
enabled m = nonempty m.names && nonempty m.fence

-- The record with its state and depth replaced, and with one more token in its history.
abbrev pub go_to : ToolMask → State → ℕ → ToolMask
go_to m s d = record {
  names = m.names;
  fence = m.fence;
  hist = m.hist;
  state = s;
  depth = d;
  masked_steps = m.masked_steps;
  forced_steps = m.forced_steps;
}

abbrev pub seen : ToolMask → ℕ → ToolMask
seen m id = record {
  names = m.names;
  fence = m.fence;
  hist = m.hist ++ (id ∷ []);
  state = m.state;
  depth = m.depth;
  masked_steps = m.masked_steps;
  forced_steps = m.forced_steps;
}

abbrev pub counted : ToolMask → ℕ → ℕ → ToolMask
counted m masked forced = record {
  names = m.names;
  fence = m.fence;
  hist = m.hist;
  state = m.state;
  depth = m.depth;
  masked_steps = masked;
  forced_steps = forced;
}

-- The last `depth` tokens of the history.
abbrev pub spelled : ToolMask → List ℕ
spelled m = drop (length m.hist - m.depth) m.hist

unfoldable pub prefix_ok : ToolMask → List ℕ → Bool
prefix_ok m n = if ltb (length n) m.depth then false else list_beq (spelled m) (take m.depth n)

-- `names.iter().all(|n| !self.prefix_ok(n))`
abbrev pub off_path : ToolMask → List (List ℕ) → Bool
off_path m [] = true
off_path m (n ∷ ns) = if prefix_ok m n then false else off_path m ns

-- `self.hist[self.hist.len() - self.fence.len()..] == self.fence[..]`, behind its guard.
abbrev pub at_fence : ToolMask → Bool
at_fence m =
    leb (length m.fence) (length m.hist)
    && list_beq (drop (length m.hist - length m.fence) m.hist) m.fence

-- The `match` of `push`, on the record that has seen the token.
unfoldable pub transition : State → ToolMask → List ℕ → ToolMask
transition prose m piece = if at_fence m then go_to m name 0 else m
transition name m piece =
    let m' = go_to m name (m.depth + 1) in
    if contains piece 40
    then go_to m' args m'.depth
    else if off_path m' m'.names
    then go_to m' prose m'.depth
    else m'
transition args m piece = if contains piece 96 then go_to m prose m.depth else m

unfoldable pub push : ToolMask → ℕ → List ℕ → ToolMask
unfolding transition
push m id piece = transition m.state (seen m id) piece

-- The token that a name offers next.
unfoldable pub offer : ToolMask → List ℕ → Option ℕ
unfolding prefix_ok
offer m n = if ltb m.depth (length n) && prefix_ok m n then get_elem? n m.depth else none

-- `HashSet::insert`
abbrev pub insert : List ℕ → Option ℕ → List ℕ
insert ids none = ids
insert ids (some t) = if contains ids t then ids else t ∷ ids

unfoldable pub next_ids : ToolMask → List ℕ → List (List ℕ) → List ℕ
unfolding offer
next_ids m ids [] = ids
next_ids m ids (n ∷ ns) = next_ids m (insert ids (offer m n)) ns

abbrev pub in_name : State → Bool
in_name prose = false
in_name name = true
in_name args = false

abbrev pub unless_empty : ToolMask → List ℕ → Option (List ℕ) × ToolMask
unless_empty m [] = (none, m)
unless_empty m (t ∷ ts) = (some (t ∷ ts), counted m (m.masked_steps + 1) m.forced_steps)

unfoldable pub allowed : ToolMask → Option (List ℕ) × ToolMask
unfolding next_ids
allowed m =
    if in_name m.state && enabled m then unless_empty m (next_ids m [] m.names) else (none, m)

abbrev pub force_single : Option (List ℕ) × ToolMask → Option ℕ × ToolMask
force_single (some (t ∷ []), m) = (some t, counted m (m.masked_steps - 1) (m.forced_steps + 1))
force_single (none, m) = (none, m)
force_single (some [], m) = (none, m)
force_single (some (t ∷ u ∷ ts), m) = (none, m)

unfoldable pub forced : ToolMask → Option ℕ × ToolMask
unfolding allowed
forced m = force_single (allowed m)
