-- ===== src/Tests/Memory/Sets.antt =====
-- The sets of the Redis in memory meet the hypotheses of Redis/Sets.antt.
use ktauth.Prelude.{
  ℕ, ◌≤◌, Bool-cases, Option, none, some, List, [], ltb, ◌≡◌, ◌∙◌, refl, sym, inl, inr, arith,
  String, if◌then◌else◌,
}
use ktauth.Redis.Laws.{Value, Same, elements}
use ktauth.Redis.Sets.{union, without, set_value, added, removed, SetLaws}
use ktauth.Tests.Memory.{Slot, Memory, seen, deadline, slot, memory, env, view}
use ktauth.Tests.Memory.Laws.{peek-store}

unchanged-Same : (w : Memory) → Same memory env view w w
unchanged-Same w = record { same_clock = refl; same_live = λ t k. refl }

-- A value that replaces another, or a missing one, is there as long as the old one was to be.
seen-slot-none : (s t : ℕ) (o : Option Value) → seen t (slot o (deadline s none)) ≡ o
seen-slot-none s t none = refl
seen-slot-none s t (some v) = refl

seen-slot-some :
    (t d : ℕ) (o : Option Value) → seen t (slot o (some d)) ≡ (if ltb t d then o else none)
seen-slot-some t d none = ground arith
seen-slot-some t d (some v) = refl

-- The old value's deadline is over now, then, or not yet.
seen-replaced :
    (s t d : ℕ) (v : Value) (f : Option Value → Option Value → Option Value)
    (o : Option Value → Option Value)
    → s ≤ t
    → ((later : Option Value) → f none later ≡ o none)
    → ((u : Value) → f (some u) none ≡ none)
    → ((u x : Value) → f (some u) (some x) ≡ o (some u))
    → let old : Slot = some (v, some d) in
      seen t (slot (o (seen s old)) (deadline s old)) ≡ f (seen s old) (seen t old)
seen-replaced s t d v f o h new gone kept = elim (Bool-cases (ltb s d)) [
  | inl now ↦ elim (Bool-cases (ltb t d)) [
    | inl later ↦ rw (now, later) (seen-slot-some t d (o (some v)) ∙ rw (later, kept v v) refl)
    | inr past ↦ rw (now, past) (seen-slot-some t d (o (some v)) ∙ rw (past, gone v) refl)
  ]
  | inr past ↦ rw past (seen-slot-none s t (o none) ∙ sym (new (seen t (some (v, some d)))))
]

seen-added :
    (s t : ℕ) (ms : List String) (old : Slot)
    → s ≤ t
    → seen t (slot (set_value (union ms (elements (seen s old)))) (deadline s old))
      ≡ added ms (seen s old) (seen t old)
seen-added s t ms none h = seen-slot-none s t (set_value (union ms []))
seen-added s t ms (some (v, none)) h = seen-slot-none s t (set_value (union ms (elements (some v))))
seen-added s t ms (some (v, some d)) h =
    seen-replaced s t d v (added ms) (λ o. set_value (union ms (elements o))) h (λ later. refl)
      (λ u. refl) (λ u x. refl)

seen-removed :
    (s t : ℕ) (m : String) (old : Slot)
    → s ≤ t
    → seen t (slot (set_value (without m (elements (seen s old)))) (deadline s old))
      ≡ removed m (seen s old) (seen t old)
seen-removed s t m none h = refl
seen-removed s t m (some (v, none)) h =
    seen-slot-none s t (set_value (without m (elements (some v))))
seen-removed s t m (some (v, some d)) h =
    seen-replaced s t d v (removed m) (λ o. set_value (without m (elements o))) h (λ later. refl)
      (λ u. refl) (λ u x. refl)

pub memory-SetLaws : SetLaws memory env view
memory-SetLaws = record {
  scard-eq = λ k n w e. cc;
  scard-Same = λ k w. unchanged-Same w;
  smembers-Same = λ k w. unchanged-Same w;
  srandmember-Same = λ k w. unchanged-Same w;
  sadd-clock = λ k ms w. refl;
  sadd-cases = λ k ms w. inl λ t h. peek-store k _ w t ∙ seen-added w.clock t ms (w.slots k) h;
  srem-clock = λ k m w. refl;
  srem-cases = λ k m w. inl λ t h. peek-store k _ w t ∙ seen-removed w.clock t m (w.slots k) h;
  srem-eq = λ k m n w e. cc;
  del-clock = λ k w. refl;
  del-cases = λ k w. inl λ t h. peek-store k none w t;
}
