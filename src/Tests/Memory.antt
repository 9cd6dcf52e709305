-- ===== src/Tests/Memory.antt =====
-- A Redis in memory.
pub mod Laws
pub mod Sets
use ktauth.Prelude.{
  pos_part, str_eq-ne, false, ℕ, ◌+◌, ◌*◌, ◌≤◌, ℤ, String, Option, none, some, List, [], ◌∷◌,
  length, ltb, Bool-cases, str_eq, eq_refl, ◌≡◌, ◌⊎◌, ◌∙◌, refl, ap, inl, inr, arith, if◌then◌else◌,
}
use ktauth.Errors.{redis_nil}
use ktauth.Effects.{Result, ok, err}
use ktauth.Redis.{Redis, int, Env}
use ktauth.Redis.Laws.{
  Value, text, number, members, zset, View, entries, IsZset, without_member, above, counter,
  elements, contains,
}
use ktauth.Redis.Sets.{union, without, set_value}

-- A value and its deadline.
abbrev pub Slot : Type 0
Slot = Option (Value × Option ℕ)

pub record Memory : Type 0 where
  pub slots : String → Slot
  pub clock : ℕ
  pub ids : List String

abbrev pub seen : ℕ → Slot → Option Value
seen t none = none
seen t (some (v, none)) = some v
seen t (some (v, some d)) = if ltb t d then some v else none

abbrev pub peek : Memory → ℕ → String → Option Value
peek w t k = seen t (w.slots k)

abbrev pub store : String → Slot → Memory → Memory
store k s w = record w { slots = λ j. if str_eq k j then s else w.slots j }

abbrev pub prune_value : ℤ → Value → Value
prune_value max (zset l) = zset (above max l)
prune_value max (text s) = text s
prune_value max (number n) = number n
prune_value max (members l) = members l

abbrev pub prune : ℤ → Slot → Slot
prune max none = none
prune max (some (v, d)) = some (prune_value max v, d)

-- The deadline that stays while the value is replaced; a key that has expired has none.
abbrev pub deadline : ℕ → Slot → Option ℕ
deadline t none = none
deadline t (some (v, none)) = none
deadline t (some (v, some d)) = if ltb t d then some d else none

abbrev pub slot : Option Value → Option ℕ → Slot
slot none d = none
slot (some v) d = some (v, d)

abbrev pub expiring : Option Value → ℕ → Slot
expiring none d = none
expiring (some v) d = some (v, some d)

abbrev pub first_id : List String → String
first_id [] = "id"
first_id (i ∷ is) = i

abbrev pub other_ids : List String → List String
other_ids [] = []
other_ids (i ∷ is) = is

abbrev pub reply : Option Value → Result String
reply (some (text s)) = ok s
reply _ = err redis_nil

abbrev pub random_element : List String → Result String
random_element [] = err redis_nil
random_element (x ∷ xs) = ok x

abbrev pub set_all : List (String × String × ℕ) → Memory → Memory
set_all [] w = w
set_all ((k, v, ms) ∷ rest) w = set_all rest (store k (some (text v, some (w.clock + ms))) w)

abbrev pub memory : Redis Memory
memory = record {
  set = λ k v ms w. (ok tt, store k (some (text v, some (w.clock + ms))) w);
  get = λ k w. (reply (peek w w.clock k), w);
  get_del = λ k w. (reply (peek w w.clock k), store k none w);
  del = λ k w. (ok tt, store k none w);
  pipe_set = λ l w. (ok tt, set_all l w);
  scard = λ k w. (ok (length (elements (peek w w.clock k))), w);
  sadd = λ k ms w. (
    ok tt,
    store k
        (slot (set_value (union ms (elements (peek w w.clock k)))) (deadline w.clock (w.slots k)))
        w,
  );
  srem = λ k m w.
      let old = elements (peek w w.clock k) in
      (
        ok (if contains m old then 1 else 0),
        store k (slot (set_value (without m old)) (deadline w.clock (w.slots k))) w,
      );
  smembers = λ k w. (ok (elements (peek w w.clock k)), w);
  srandmember = λ k w. (random_element (elements (peek w w.clock k)), w);
  eval = λ s w. (ok (int (s w).0), (s w).1);
  call_zremrangebyscore = λ k max w. store k (prune max (w.slots k)) w;
  call_zcard = λ k w. length (entries (peek w w.clock k));
  call_zadd = λ k score m w.
      store k
        (some (
          zset ((score, m) ∷ without_member m (entries (peek w w.clock k))),
          deadline w.clock (w.slots k),
        ))
        w;
  call_pexpire = λ k ms w. store k (expiring (peek w w.clock k) (w.clock + ms)) w;
  call_incr = λ k w. (
    counter (peek w w.clock k) + 1,
    store k (some (number (counter (peek w w.clock k) + 1), deadline w.clock (w.slots k))) w,
  );
  call_expire = λ k s w. store k (expiring (peek w w.clock k) (w.clock + pos_part s * 1000)) w;
  call_del = λ k w. store k none w;
}

abbrev pub env : Env Memory
env = record {
  now_ms = λ w. w.clock;
  new_uuid = λ w. (first_id w.ids, record w { ids = other_ids w.ids });
}

abbrev pub view : View Memory
view = record { live = peek; clock = λ w. w.clock }
