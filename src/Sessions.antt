-- ===== src/Sessions.antt =====
-- tools/sp_daemon/src/sessions.rs: the registry of active chats. A cancel flag is shared with the
-- chat that runs, so it lives in a store of flags, and the registry holds its address. The mutex
-- makes each operation one step.
pub mod Cancel
mod Tests
use kairos_engine.Base.{
  ℕ, ◌+◌, ◌%◌, ◌^◌, Bool, true, false, Option, none, some, List, [], ◌∷◌, set, ◌==◌, if◌then◌else◌,
}

-- The map from chat ids to addresses of flags, one pair for each id.
abbrev pub ChatMap : Type 0
ChatMap = List (ℕ × ℕ)

unfoldable pub get : ChatMap → ℕ → Option ℕ
get [] id = none
get ((k, a) ∷ m) id = let rest = get m id in if k == id then some a else rest

unfoldable pub erase : ChatMap → ℕ → ChatMap
erase [] id = []
erase ((k, a) ∷ m) id = let rest = erase m id in if k == id then rest else (k, a) ∷ rest

pub record Sessions : Type 0 where
  pub inner : ChatMap
  pub next_id : ℕ

abbrev pub new : Sessions
new = record { inner = []; next_id = 1 }

-- The id given, and the registry after; an insertion replaces the id's old entry.
unfoldable pub register : Sessions → ℕ → ℕ × Sessions
unfolding erase
register s flag = (
  s.next_id,
  record {
    inner = (s.next_id, flag) ∷ erase s.inner s.next_id;
    next_id = (s.next_id + 1) % 2 ^ 64;
  },
)

abbrev pub cancel_found : Option ℕ → List ℕ → Bool × List ℕ
cancel_found none flags = (false, flags)
cancel_found (some a) flags = (true, set flags a 1)

-- Whether the id was found, and the flags after.
unfoldable pub abort : Sessions → List ℕ → ℕ → Bool × List ℕ
unfolding get
abort s flags id = cancel_found (get s.inner id) flags

unfoldable pub remove : Sessions → ℕ → Sessions
unfolding erase
remove s id = record { inner = erase s.inner id; next_id = s.next_id }
