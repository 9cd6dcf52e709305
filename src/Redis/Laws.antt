-- ===== src/Redis/Laws.antt =====
-- The documented behaviour of the Redis commands that the program uses, as hypotheses on a view of
-- the world: `live w t k` is what key `k` holds at time `t` if nobody writes to it after `w`.
use ktauth.Prelude.{
  pos_part, ℕ, ◌+◌, ◌*◌, ◌≤◌, ◌<◌, ℤ, le_int, not, String, Bool, true, false, Option, none, some,
  List, [], ◌∷◌, length, filter, any, ◌≡◌, ◌≢◌, ◌⊎◌, ltb, str_eq, if◌then◌else◌,
}
use ktauth.Errors.{is_redis_nil, Error}
use ktauth.Effects.{ok, err}
use ktauth.Redis.{Redis, int, Env}

pub data Value : Type 0 where
  text : String → Value
  number : ℕ → Value
  members : List String → Value
  zset : List (ℕ × String) → Value

pub record View (W : Type 0) : Type 0 where
  pub live : W → ℕ → String → Option Value
  -- the server's clock, in milliseconds
  pub clock : W → ℕ

-- The scores and members of a sorted set; a missing key is an empty set.
abbrev pub entries : Option Value → List (ℕ × String)
entries (some (zset l)) = l
entries _ = []

abbrev pub IsZset : Option Value → Type 0
IsZset none = Unit
IsZset (some (zset l)) = Unit
IsZset (some (text s)) = ⊥
IsZset (some (number n)) = ⊥
IsZset (some (members l)) = ⊥

abbrev pub has_member : String → List (ℕ × String) → Bool
has_member m [] = false
has_member m ((s, n) ∷ l) = if str_eq n m then true else has_member m l

abbrev pub without_member : String → List (ℕ × String) → List (ℕ × String)
without_member m [] = []
without_member m ((s, n) ∷ l) =
    let rest = without_member m l in if str_eq n m then rest else (s, n) ∷ rest

-- The members of a set; a missing key is an empty set.
abbrev pub elements : Option Value → List String
elements (some (members l)) = l
elements _ = []

abbrev pub contains : String → List String → Bool
contains m = any (λ x. str_eq x m)

-- The entries whose score is above `max`.
abbrev pub above : ℤ → List (ℕ × String) → List (ℕ × String)
above max = filter (λ e. not (le_int e.0 max))

abbrev pub counter : Option Value → ℕ
counter (some (number n)) = n
counter _ = 0

abbrev pub IsCounter : Option Value → Type 0
IsCounter none = Unit
IsCounter (some (number n)) = Unit
IsCounter (some (text s)) = ⊥
IsCounter (some (members l)) = ⊥
IsCounter (some (zset l)) = ⊥

-- A counter after INCR, seen at a later time: a new key has no expiry, an old one keeps its own.
abbrev pub incremented : Option Value → Option Value → Option Value
incremented none later = some (number 1)
incremented (some old) none = none
incremented (some old) (some later) = some (number (counter (some old) + 1))

module _ {W : Type 0} (r : Redis W) (env : Env W) (v : View W) where
  open v use {live, clock}

  -- Nothing that a client can see on the server at or after the clock differs.
  pub record Same (w w' : W) : Type 0 where
    pub same_clock : clock w' ≡ clock w
    pub same_live : (t : ℕ) (k : String) → live w' t k ≡ live w t k

  -- Expiry only removes a key; one clock; an identifier touches no key.
  pub record TimeLaws : Type 0 where
    pub expiry :
        (w : W) (s t : ℕ) (k : String) → s ≤ t → (live w t k ≡ live w s k) ⊎ (live w t k ≡ none)
    pub now-eq : (w : W) → env.now_ms w ≡ clock w
    pub uuid-Same : (w : W) → Same w (env.new_uuid w).1

  -- A script runs as a whole or not at all; a lost reply may hide that it ran.
  pub record EvalLaws : Type 0 where
    pub eval-cases :
        (s : W → ℤ × W) (w : W)
        → (r.eval s w ≡ (ok (int (s w).0), (s w).1))
          ⊎ ((e : Error) × ((r.eval s w).0 ≡ err e)
              × (((r.eval s w).1 ≡ w) ⊎ ((r.eval s w).1 ≡ (s w).1)))

  pub record ZsetLaws : Type 0 where
    -- ZREMRANGEBYSCORE key -inf max
    pub zrem-clock :
        (k : String) (max : ℤ) (w : W) → clock (r.call_zremrangebyscore k max w) ≡ clock w
    pub zrem-entries :
        (k : String) (max : ℤ) (w : W) (t : ℕ)
        → clock w ≤ t
        → IsZset (live w t k)
        → (entries (live (r.call_zremrangebyscore k max w) t k) ≡ above max (entries (live w t k)))
          × IsZset (live (r.call_zremrangebyscore k max w) t k)
    -- ZCARD key
    pub zcard-eq :
        (k : String) (w : W)
        → IsZset (live w (clock w) k)
        → r.call_zcard k w ≡ length (entries (live w (clock w) k))
    -- ZADD key score member
    pub zadd-clock :
        (k : String) (score : ℕ) (m : String) (w : W) → clock (r.call_zadd k score m w) ≡ clock w
    pub zadd-entries :
        (k : String) (score : ℕ) (m : String) (w : W)
        → IsZset (live w (clock w) k)
        → live (r.call_zadd k score m w) (clock w) k
          ≡ some (zset ((score, m) ∷ without_member m (entries (live w (clock w) k))))

  pub record ExpireLaws : Type 0 where
    -- PEXPIRE key ms
    pub pexpire-clock : (k : String) (ms : ℕ) (w : W) → clock (r.call_pexpire k ms w) ≡ clock w
    pub pexpire-live :
        (k : String) (ms : ℕ) (w : W) (t : ℕ)
        → clock w ≤ t
        → live (r.call_pexpire k ms w) t k
          ≡ (if ltb t (clock w + ms) then live w (clock w) k else none)

  pub record CounterLaws : Type 0 where
    -- INCR key
    pub incr-clock : (k : String) (w : W) → clock (r.call_incr k w).1 ≡ clock w
    pub incr-eq :
        (k : String) (w : W)
        → IsCounter (live w (clock w) k)
        → (r.call_incr k w).0 ≡ counter (live w (clock w) k) + 1
    pub incr-live :
        (k : String) (w : W) (t : ℕ)
        → clock w ≤ t
        → IsCounter (live w (clock w) k)
        → live (r.call_incr k w).1 t k ≡ incremented (live w (clock w) k) (live w t k)
    -- EXPIRE key seconds; a key whose time is not positive is deleted
    pub expire-clock : (k : String) (s : ℤ) (w : W) → clock (r.call_expire k s w) ≡ clock w
    pub expire-live :
        (k : String) (s : ℤ) (w : W) (t : ℕ)
        → clock w ≤ t
        → live (r.call_expire k s w) t k
          ≡ (if ltb t (clock w + pos_part s * 1000) then live w (clock w) k else none)
    -- DEL key
    pub del-clock : (k : String) (w : W) → clock (r.call_del k w) ≡ clock w
    pub del-live : (k : String) (w : W) (t : ℕ) → clock w ≤ t → live (r.call_del k w) t k ≡ none

  -- A key that nobody else writes to from w on: what it holds at w' is what it was to hold then.
  pub record Untouched (k : String) (w w' : W) : Type 0 where
    pub later : clock w ≤ clock w'
    pub same : (t : ℕ) → clock w' ≤ t → live w' t k ≡ live w t k

  pub record StringLaws : Type 0 where
    -- SET key value PX ms
    pub set-clock : (k s : String) (ms : ℕ) (w : W) → clock (r.set k s ms w).1 ≡ clock w
    pub set-live :
        (k s : String) (ms : ℕ) (w : W) (t : ℕ)
        → (r.set k s ms w).0 ≡ ok tt
        → clock w ≤ t
        → live (r.set k s ms w).1 t k ≡ (if ltb t (clock w + ms) then some (text s) else none)
    -- A pipeline of one SET, with a time to live
    pub pipe_set-clock :
        (k s : String) (ms : ℕ) (w : W) → clock (r.pipe_set ((k, s, ms) ∷ []) w).1 ≡ clock w
    pub pipe_set-live :
        (k s : String) (ms : ℕ) (w : W) (t : ℕ)
        → (r.pipe_set ((k, s, ms) ∷ []) w).0 ≡ ok tt
        → 0 < ms
        → clock w ≤ t
        → live (r.pipe_set ((k, s, ms) ∷ []) w).1 t k
          ≡ (if ltb t (clock w + ms) then some (text s) else none)
    -- Where its reply is lost or an error, it ran or it did not.
    pub pipe_set-err :
        (k s : String) (ms : ℕ) (w : W) (e : Error)
        → (r.pipe_set ((k, s, ms) ∷ []) w).0 ≡ err e
        → 0 < ms
        → ((t : ℕ)
            → clock w ≤ t
            → live (r.pipe_set ((k, s, ms) ∷ []) w).1 t k
              ≡ (if ltb t (clock w + ms) then some (text s) else none))
          ⊎ ((t : ℕ) → clock w ≤ t → live (r.pipe_set ((k, s, ms) ∷ []) w).1 t k ≡ live w t k)
    -- GET key and GETDEL key: a value that is answered is there, and a missing key has no value
    pub get-ok : (k s : String) (w : W) → (r.get k w).0 ≡ ok s → live w (clock w) k ≡ some (text s)
    pub get-live :
        (k s : String) (w : W)
        → live w (clock w) k ≡ some (text s)
        → ((r.get k w).0 ≡ ok s)
          ⊎ ((e : Error) × ((r.get k w).0 ≡ err e) × (is_redis_nil e ≡ false))
    pub get_del-ok :
        (k s : String) (w : W) → (r.get_del k w).0 ≡ ok s → live w (clock w) k ≡ some (text s)
    pub get_del-held :
        (k s : String) (w : W)
        → live w (clock w) k ≡ some (text s)
        → ((r.get_del k w).0 ≡ ok s)
          ⊎ ((e : Error) × ((r.get_del k w).0 ≡ err e) × (is_redis_nil e ≡ false))
    pub get_del-clock : (k : String) (w : W) → clock (r.get_del k w).1 ≡ clock w
    pub get_del-kept :
        (k : String) (w : W) (t : ℕ)
        → clock w ≤ t
        → (live (r.get_del k w).1 t k ≡ live w t k) ⊎ (live (r.get_del k w).1 t k ≡ none)
    pub get_del-live :
        (k s : String) (w : W) (t : ℕ)
        → (r.get_del k w).0 ≡ ok s
        → clock w ≤ t
        → live (r.get_del k w).1 t k ≡ none
    -- DEL key
    pub delete-clock : (k : String) (w : W) → clock (r.del k w).1 ≡ clock w
    pub delete-live :
        (k : String) (w : W) (t : ℕ)
        → (r.del k w).0 ≡ ok tt
        → clock w ≤ t
        → live (r.del k w).1 t k ≡ none
    pub delete-other :
        (k j : String) (w : W) (t : ℕ) → k ≢ j → clock w ≤ t → live (r.del k w).1 t j ≡ live w t j
