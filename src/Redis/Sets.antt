-- ===== src/Redis/Sets.antt =====
-- Redis sets: what SCARD, SADD, SREM and DEL do to a set that a client sees later, with the replies
-- that may be lost, as hypotheses on a view of the world.
use ktauth.Prelude.{
  ℕ, ◌+◌, ◌≤◌, String, true, false, Bool-cases, Option, none, some, List, [], ◌∷◌, length, ◌≡◌, ◌⊎◌,
  refl, inl, inr, arith, str_eq, eq_iff, subst, if◌then◌else◌,
}
use ktauth.Errors.{Error}
use ktauth.Effects.{ok, err}
use ktauth.Redis.{Redis, Env}
use ktauth.Redis.Laws.{Value, members, View, Same, elements, contains}

-- The set with more members, of which it keeps one each.
abbrev pub union : List String → List String → List String
union [] l = l
union (m ∷ ms) l = let rest = union ms l in if contains m rest then rest else m ∷ rest

abbrev pub without : String → List String → List String
without m [] = []
without m (x ∷ l) = let rest = without m l in if str_eq x m then rest else x ∷ rest

-- A set with no members left is no key.
abbrev pub set_value : List String → Option Value
set_value [] = none
set_value (x ∷ l) = some (members (x ∷ l))

-- A set after SADD and after SREM, seen at a later time: a new key has no expiry, an old one keeps
-- its own.
abbrev pub added : List String → Option Value → Option Value → Option Value
added ms none later = set_value (union ms [])
added ms (some old) none = none
added ms (some old) (some later) = set_value (union ms (elements (some old)))

abbrev pub removed : String → Option Value → Option Value → Option Value
removed m none later = none
removed m (some old) none = none
removed m (some old) (some later) = set_value (without m (elements (some old)))

module _ {W : Type 0} (r : Redis W) (env : Env W) (v : View W) where
  open v use {live, clock}

  -- The key holds the set f of what it held and was to hold, or, after an error, what it did.
  abbrev pub Changed : String → (Option Value → Option Value → Option Value) → W → W → Type 0
  Changed k f w w' = (t : ℕ) → clock w ≤ t → live w' t k ≡ f (live w (clock w) k) (live w t k)

  abbrev pub Unchanged : String → W → W → Type 0
  Unchanged k w w' = (t : ℕ) → clock w ≤ t → live w' t k ≡ live w t k

  pub record SetLaws : Type 0 where
    -- SCARD key, SMEMBERS key, SRANDMEMBER key
    pub scard-eq :
        (k : String) (n : ℕ) (w : W)
        → (r.scard k w).0 ≡ ok n
        → n ≡ length (elements (live w (clock w) k))
    pub scard-Same : (k : String) (w : W) → Same r env v w (r.scard k w).1
    pub smembers-Same : (k : String) (w : W) → Same r env v w (r.smembers k w).1
    pub srandmember-Same : (k : String) (w : W) → Same r env v w (r.srandmember k w).1
    -- SADD key member ...
    pub sadd-clock : (k : String) (ms : List String) (w : W) → clock (r.sadd k ms w).1 ≡ clock w
    pub sadd-cases :
        (k : String) (ms : List String) (w : W)
        → Changed k (added ms) w (r.sadd k ms w).1
          ⊎ ((e : Error) × ((r.sadd k ms w).0 ≡ err e) × Unchanged k w (r.sadd k ms w).1)
    -- SREM key member
    pub srem-clock : (k m : String) (w : W) → clock (r.srem k m w).1 ≡ clock w
    pub srem-cases :
        (k m : String) (w : W)
        → Changed k (removed m) w (r.srem k m w).1
          ⊎ ((e : Error) × ((r.srem k m w).0 ≡ err e) × Unchanged k w (r.srem k m w).1)
    -- the number of members that were removed
    pub srem-eq :
        (k m : String) (n : ℕ) (w : W)
        → (r.srem k m w).0 ≡ ok n
        → n ≡ (if contains m (elements (live w (clock w) k)) then 1 else 0)
    -- DEL key
    pub del-clock : (k : String) (w : W) → clock (r.del k w).1 ≡ clock w
    pub del-cases :
        (k : String) (w : W)
        → Changed k (λ old later. none) w (r.del k w).1
          ⊎ ((e : Error) × ((r.del k w).0 ≡ err e) × Unchanged k w (r.del k w).1)

pub elements-set_value : (l : List String) → elements (set_value l) ≡ l
elements-set_value [] = refl
elements-set_value (x ∷ l) = refl

pub length-union : (ms l : List String) → length (union ms l) ≤ length l + length ms
length-union [] l = omega arith
length-union (m ∷ ms) l = ground (arith, length-union ms l)

pub length-without : (m : String) (l : List String) → length (without m l) ≤ length l
length-without m [] = omega arith
length-without m (x ∷ l) = ground (arith, length-without m l)

pub contains-union :
    (m : String) (ms l : List String) → contains m ms ≡ true → contains m (union ms l) ≡ true
contains-union m [] l e = absurd (cc)
contains-union m (x ∷ ms) l e = elim (Bool-cases (str_eq x m)) [
  | inl same ↦
      let here : x ≡ m = (eq_iff x m).0 same in
      elim (Bool-cases (contains x (union ms l))) [
        | inl there ↦ rw there (subst (λ y. contains y (union ms l) ≡ true) here there)
        | inr new ↦ rw (new, same) refl
      ]
  | inr differ ↦ ground (arith, contains-union m ms l)
]

contains-without : (m : String) (l : List String) → contains m (without m l) ≡ false
contains-without m [] = refl
contains-without m (x ∷ l) = ground (arith, contains-without m l)

contains-removed :
    (m : String) (old later : Option Value) → contains m (elements (removed m old later)) ≡ false
contains-removed m none later = refl
contains-removed m (some old) none = refl
contains-removed m (some old) (some later) =
    rw (elements-set_value (without m (elements (some old))))
      (contains-without m (elements (some old)))

-- After an SREM without an error, the member is gone.
pub srem-absent :
    {W : Type 0} {r : Redis W} {env : Env W} {v : View W} (l : SetLaws r env v) (k m : String)
    (n : ℕ) (w : W) (t : ℕ)
    → (r.srem k m w).0 ≡ ok n
    → v.clock w ≤ t
    → contains m (elements (v.live (r.srem k m w).1 t k)) ≡ false
srem-absent {v = v} l k m n w t done later = elim (l.srem-cases k m w) [
  | inl changed ↦ rw (changed t later) (contains-removed m (v.live w (v.clock w) k) (v.live w t k))
  | inr (e, failed, unchanged) ↦ absurd (cc)
]
