-- ===== src/Tests/Memory/Laws.antt =====
-- The Redis in memory meets the hypotheses of Redis/Laws.antt.
use ktauth.Prelude.{
  pos_part, str_eq-ne, ℕ, ◌+◌, ◌*◌, ◌≤◌, ℤ, String, Option, none, some, ltb, Bool-cases, eq_refl,
  ◌≡◌, ◌⊎◌, ◌∙◌, refl, ap, inl, inr, arith, if◌then◌else◌,
}
use ktauth.Effects.{ok}
use ktauth.Redis.Laws.{
  Value, text, number, members, zset, entries, IsZset, above, counter, incremented, TimeLaws,
  EvalLaws, ZsetLaws, ExpireLaws, StringLaws, CounterLaws,
}
use ktauth.Tests.Memory.{
  Slot, Memory, seen, peek, store, prune_value, prune, deadline, expiring, reply, memory, env, view,
}

pub peek-store : (k : String) (s : Slot) (w : Memory) (t : ℕ) → peek (store k s w) t k ≡ seen t s
peek-store k s w t = rw eq_refl

expires_once : (s t : ℕ) (slot : Slot) → s ≤ t → (seen t slot ≡ seen s slot) ⊎ (seen t slot ≡ none)
expires_once s t none h = inl refl
expires_once s t (some (v, none)) h = inl refl
expires_once s t (some (v, some d)) h = ground arith

pub memory-TimeLaws : TimeLaws memory env view
memory-TimeLaws = record {
  expiry = λ w s t k h. expires_once s t (w.slots k) h;
  now-eq = λ w. refl;
  uuid-Same = λ w. record { same_clock = refl; same_live = λ t k. refl };
}

pub memory-EvalLaws : EvalLaws memory env view
memory-EvalLaws = record { eval-cases = λ s w. inl refl }

prune_seen : ℤ → Option Value → Option Value
prune_seen max none = none
prune_seen max (some v) = some (prune_value max v)

seen-prune :
    (t : ℕ) (max : ℤ) (slot : Slot) → seen t (prune max slot) ≡ prune_seen max (seen t slot)
unfolding prune_seen
seen-prune t max none = refl
seen-prune t max (some (v, none)) = refl
seen-prune t max (some (v, some d)) = elim (Bool-cases (ltb t d)) [
  | inl now ↦ rw now refl
  | inr past ↦ rw past refl
]

prune_seen_lem :
    (max : ℤ) (o : Option Value)
    → IsZset o
    → (entries (prune_seen max o) ≡ above max (entries o)) × IsZset (prune_seen max o)
unfolding prune_seen
prune_seen_lem max none h = (refl, tt)
prune_seen_lem max (some (zset l)) h = (refl, tt)
prune_seen_lem max (some (text s)) h = absurd h
prune_seen_lem max (some (number s)) h = absurd h
prune_seen_lem max (some (members s)) h = absurd h

-- A value that replaces another keeps its deadline, which has not passed.
seen-deadline : (t : ℕ) (v : Value) (slot : Slot) → seen t (some (v, deadline t slot)) ≡ some v
seen-deadline t v none = refl
seen-deadline t v (some (u, none)) = refl
seen-deadline t v (some (u, some d)) = elim (Bool-cases (ltb t d)) [
  | inl now ↦ rw (now, now) refl
  | inr past ↦ rw past refl
]

seen-expiring : (o : Option Value) (t d : ℕ) → seen t (expiring o d) ≡ (if ltb t d then o else none)
seen-expiring none t d = ground arith
seen-expiring (some v) t d = refl

pub memory-ZsetLaws : ZsetLaws memory env view
memory-ZsetLaws = record {
  zrem-clock = λ k max w. refl;
  zrem-entries = λ k max w t h z.
      rw (peek-store k (prune max (w.slots k)) w t, seen-prune t max (w.slots k))
        (prune_seen_lem max (peek w t k) z);
  zcard-eq = λ k w z. refl;
  zadd-clock = λ k score m w. refl;
  zadd-entries = λ k score m w z. peek-store k _ w w.clock ∙ seen-deadline w.clock _ (w.slots k);
}

pub memory-ExpireLaws : ExpireLaws memory env view
memory-ExpireLaws = record {
  pexpire-clock = λ k ms w. refl;
  pexpire-live =
      λ k ms w t h. peek-store k _ w t ∙ seen-expiring (peek w w.clock k) t (w.clock + ms);
}

-- A counter that is seen at a later time was there before.
seen-incr :
    (s t : ℕ) (slot : Slot)
    → s ≤ t
    → seen t (some (number (counter (seen s slot) + 1), deadline s slot))
      ≡ incremented (seen s slot) (seen t slot)
seen-incr s t none h = refl
seen-incr s t (some (v, none)) h = refl
seen-incr s t (some (v, some d)) h = elim (Bool-cases (ltb s d)) [
  | inl now ↦ elim (Bool-cases (ltb t d)) [
    | inl later ↦ rw (now, later) refl
    | inr past ↦ rw (now, past) refl
  ]
  | inr gone ↦ rw gone refl
]

pub memory-CounterLaws : CounterLaws memory env view
memory-CounterLaws = record {
  incr-clock = λ k w. refl;
  incr-eq = λ k w c. refl;
  incr-live = λ k w t h c. peek-store k _ w t ∙ seen-incr w.clock t (w.slots k) h;
  expire-clock = λ k s w. refl;
  expire-live = λ k s w t h.
      peek-store k _ w t ∙ seen-expiring (peek w w.clock k) t (w.clock + pos_part s * 1000);
  del-clock = λ k w. refl;
  del-live = λ k w t h. peek-store k none w t;
}

reply-ok : (o : Option Value) (s : String) → reply o ≡ ok s → o ≡ some (text s)
reply-ok none s e = absurd (cc)
reply-ok (some (text v)) s e = cc
reply-ok (some (number v)) s e = absurd (cc)
reply-ok (some (members v)) s e = absurd (cc)
reply-ok (some (zset v)) s e = absurd (cc)

pub memory-StringLaws : StringLaws memory env view
memory-StringLaws = record {
  set-clock = λ k s ms w. refl;
  set-live = λ k s ms w t _ h. peek-store k _ w t;
  pipe_set-clock = λ k s ms w. refl;
  pipe_set-live = λ k s ms w t _ _ h. peek-store k _ w t;
  pipe_set-err = λ k s ms w e failed _. absurd (cc);
  get-ok = λ k s w e. reply-ok (peek w w.clock k) s e;
  get-live = λ k s w e. inl (ap reply e);
  get_del-ok = λ k s w e. reply-ok (peek w w.clock k) s e;
  get_del-held = λ k s w e. inl (ap reply e);
  get_del-clock = λ k w. refl;
  get_del-kept = λ k w t h. inr (peek-store k none w t);
  get_del-live = λ k s w t _ h. peek-store k none w t;
  delete-clock = λ k w. refl;
  delete-live = λ k w t _ h. peek-store k none w t;
  delete-other = λ k j w t ne h. rw (str_eq-ne k j ne) refl;
}
