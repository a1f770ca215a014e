-- ===== src/Sessions/Cancel.antt =====
-- Which flag an abort flips, over every history of the registry.
use kairos_engine.Base.{
  ℕ, suc, ◌+◌, ◌^◌, ◌<◌, ◌≡◌, ◌≢◌, refl, ap, ◌∙◌, Bool, true, false, Option, none, some, List, [],
  ◌∷◌, set, ◌==◌, ==_refl, if◌then◌else◌, arith,
}
use kairos_engine.Sessions.{ChatMap, get, erase, Sessions, register, cancel_found, abort, remove}

get-erase_self : (m : ChatMap) (id : ℕ) → get (erase m id) id ≡ none
unfolding get erase
get-erase_self [] id = refl
get-erase_self ((k, a) ∷ m) id = go (k == id) refl (get-erase_self m id)
  where
    go :
        (b : Bool)
        → (k == id) ≡ b
        → get (erase m id) id ≡ none
        → get (if b then erase m id else (k, a) ∷ erase m id) id ≡ none
    go true e ih = ih
    go false e ih = rw (e, ih) refl

get-erase_other : (m : ChatMap) (id j : ℕ) → id ≢ j → get (erase m id) j ≡ get m j
unfolding get erase
get-erase_other [] id j h = refl
get-erase_other ((k, a) ∷ m) id j h = go (k == id) refl (get-erase_other m id j h)
  where
    go :
        (b : Bool)
        → (k == id) ≡ b
        → get (erase m id) j ≡ get m j
        → get (if b then erase m id else (k, a) ∷ erase m id) j
          ≡ (if k == j then some a else get m j)
    go true e ih = ih ∙ rw (other e) refl
      where
        other : (k == id) ≡ true → (k == j) ≡ false
        other e = ground (arith, h)
    go false e ih = ap (λ (o : Option ℕ). if k == j then some a else o) ih

-- The operations that change the registry.
pub data Op : Type 0 where
  registering : ℕ → Op
  removing : ℕ → Op

abbrev pub perform : Sessions → Op → Sessions
perform s (registering flag) = (register s flag).1
perform s (removing id) = remove s id

pub perform_all : Sessions → List Op → Sessions
perform_all s [] = s
perform_all s (op ∷ ops) = perform_all (perform s op) ops

-- The chat stays: none of the operations removes it.
abbrev pub Stays : ℕ → List Op → Type 0
Stays id [] = Unit
Stays id (registering flag ∷ ops) = Stays id ops
Stays id (removing j ∷ ops) = (j ≢ id) × Stays id ops

-- How many chats are registered.
abbrev pub registrations : List Op → ℕ
registrations [] = 0
registrations (registering flag ∷ ops) = suc (registrations ops)
registrations (removing j ∷ ops) = registrations ops

entry-Stays :
    (ops : List Op) (s : Sessions) (id a : ℕ)
    → get s.inner id ≡ some a
    → id < s.next_id
    → s.next_id + registrations ops < 2 ^ 64
    → Stays id ops
    → get (perform_all s ops).inner id ≡ some a
unfolding perform_all register remove get
entry-Stays [] s id a here low room stays = here
entry-Stays (registering flag ∷ ops) s id a here low room stays =
    entry-Stays ops (register s flag).1 id a kept (omega (arith, low, room)) (omega (arith, room))
      stays
  where
    fresh : (s.next_id == id) ≡ false
    fresh = ground (arith, low)

    kept : get ((s.next_id, flag) ∷ erase s.inner s.next_id) id ≡ some a
    kept =
        rw fresh (get-erase_other s.inner s.next_id id (λ e. absurd (omega (arith, low, e))) ∙ here)
entry-Stays (removing j ∷ ops) s id a here low room (other, stays) =
    entry-Stays ops (remove s j) id a (get-erase_other s.inner j id other ∙ here) low room stays

-- After a chat is registered, and any later operations that do not remove it, an abort of its id
-- sets that chat's own flag and says so; the bound is that the ids have not wrapped round.
pub abort-register :
    (s : Sessions) (flags : List ℕ) (flag : ℕ) (ops : List Op)
    → s.next_id + 1 + registrations ops < 2 ^ 64
    → Stays (register s flag).0 ops
    → abort (perform_all (register s flag).1 ops) flags (register s flag).0
      ≡ (true, set flags flag 1)
unfolding abort register get
abort-register s flags flag ops room stays =
    ap (λ (o : Option ℕ). cancel_found o flags)
      (entry-Stays ops (register s flag).1 (register s flag).0 flag here low bound stays)
  where
    here : get (register s flag).1.inner (register s flag).0 ≡ some flag
    here = rw (==_refl s.next_id) refl

    low : (register s flag).0 < (register s flag).1.next_id
    low = omega (arith, room)

    bound : (register s flag).1.next_id + registrations ops < 2 ^ 64
    bound = omega (arith, room)

-- Once a chat is removed, an abort of its id finds nothing and leaves every flag as it was; and it
-- changes the abort of no other id.
pub abort-remove :
    (s : Sessions) (flags : List ℕ) (id : ℕ)
    → (abort (remove s id) flags id ≡ (false, flags))
      × ((j : ℕ) → id ≢ j → abort (remove s id) flags j ≡ abort s flags j)
unfolding abort remove
abort-remove s flags id = (
  ap (λ (o : Option ℕ). cancel_found o flags) (get-erase_self s.inner id),
  λ (j : ℕ) h. ap (λ (o : Option ℕ). cancel_found o flags) (get-erase_other s.inner id j h),
)
