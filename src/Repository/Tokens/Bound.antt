-- ===== src/Repository/Tokens/Bound.antt =====
-- internal/repository/token_repo.go: how many invitation tokens there can be.
use ktauth.Prelude.{
  ℕ, suc, ◌+◌, ◌*◌, ◌≤◌, ◌<◌, String, Option, none, some, List, [], length, leb, Bool-cases, ◌≡◌,
  ◌==◌, false, ◌∙◌, sym, ap, inl, inr, arith,
}
use ktauth.Effects.{Result, ok, Result-cases}
use ktauth.Redis.{Redis, Env}
use ktauth.Redis.Laws.{Value, View, Same, Untouched, TimeLaws, elements}
use ktauth.Redis.Sets.{
  added, removed, union, without, Changed, SetLaws, elements-set_value, length-union,
  length-without,
}
use ktauth.Repository.Tokens.{
  tokens_key, new_tokens, add_tokens, restock, consume, list_all, get_one, flush_all,
}
use ktauth.Repository.Tokens.Stock.{
  stock, Restocked, length-new_tokens, add_tokens-cases, restock-Restocked,
}

length-added :
    (ms : List String) (o : Option Value)
    → length (elements (added ms o o)) ≤ length (elements o) + length ms
length-added ms none = rw (elements-set_value (union ms [])) (length-union ms [])
length-added ms (some old) =
    rw (elements-set_value (union ms (elements (some old)))) (length-union ms (elements (some old)))

length-removed :
    (m : String) (o : Option Value) → length (elements (removed m o o)) ≤ length (elements o)
length-removed m none = omega arith
length-removed m (some old) =
    rw (elements-set_value (without m (elements (some old))))
      (length-without m (elements (some old)))

module _ {W : Type 0} (r : Redis W) (env : Env W) (v : View W) where
  open v use {live, clock}

  -- The worlds that the operations on the tokens reach from an empty set, with lost replies and
  -- failures, with other steps between them that leave the set alone, and with the number of
  -- Restocks that have read fewer than ten tokens and not yet added theirs, fewer than k of which
  -- are under way when another Restock starts.
  pub data Reached (k : ℕ) : W → ℕ → Type 0 where
    empty : {w : W} → ((t : ℕ) → clock w ≤ t → live w t tokens_key ≡ none) → Reached k w 0
    -- A Restock that no other operation interrupts, and one that others overlap.
    restocked : {w : W} {p : ℕ} → p < k → Reached k w p → Reached k (restock r env w).1 p
    began :
        {w : W} {p : ℕ} (n : ℕ)
        → p < k
        → (r.scard tokens_key w).0 ≡ ok n
        → leb 10 n ≡ false
        → Reached k w p
        → Reached k (r.scard tokens_key w).1 (suc p)
    ended : {w : W} {p : ℕ} → Reached k w (suc p) → Reached k (add_tokens r env w).1 p
    consumed : {w : W} {p : ℕ} (token : String) → Reached k w p → Reached k (consume r token w).1 p
    listed : {w : W} {p : ℕ} → Reached k w p → Reached k (list_all r w).1 p
    picked : {w : W} {p : ℕ} → Reached k w p → Reached k (get_one r w).1 p
    flushed : {w : W} {p : ℕ} → Reached k w p → Reached k (flush_all r w).1 p
    other : {w w' : W} {p : ℕ} → Reached k w p → Untouched r env v tokens_key w w' → Reached k w' p

  -- At most nine tokens and ten for each Restock that may be under way, and none that expires.
  pub record IsStocked (k : ℕ) (w : W) (p : ℕ) : Type 0 where
    pub few : stock v w + 10 * p ≤ 9 + 10 * k
    pub lasting : (t : ℕ) → clock w ≤ t → live w t tokens_key ≡ live w (clock w) tokens_key

module _ {W : Type 0} {r : Redis W} {env : Env W} {v : View W} (time : TimeLaws r env v)
    (l : SetLaws r env v) where
  open v use {live, clock}

  -- A change that leaves no more members than may be keeps the invariant.
  change-IsStocked :
      (f : Option Value → Option Value → Option Value) {k : ℕ} (w w' : W) {p q : ℕ}
      → IsStocked r env v k w p
      → clock w' ≡ clock w
      → Changed r env v tokens_key f w w'
      → let now = live w (clock w) tokens_key in
        length (elements (f now now)) + 10 * q ≤ 9 + 10 * k → IsStocked r env v k w' q
  change-IsStocked f w w' good same_clock changed few =
      let at : (t : ℕ)
          → clock w ≤ t
          → live w' t tokens_key ≡ f (live w (clock w) tokens_key) (live w (clock w) tokens_key) =
        λ t later. changed t later ∙ ap (f (live w (clock w) tokens_key)) (good.lasting t later) in
      let now = at (clock w') (omega (arith, same_clock)) in
      record { few = rw now few; lasting = λ t later. at t (omega (arith, same_clock)) ∙ sym now }

  Same-IsStocked :
      {k : ℕ} (w w' : W) {p : ℕ}
      → IsStocked r env v k w p
      → Same r env v w w'
      → IsStocked r env v k w' p
  Same-IsStocked w w' good same =
      change-IsStocked (λ old later. later) w w' good same.same_clock
        (λ t later. same.same_live t tokens_key) good.few

  restock-IsStocked :
      {k : ℕ} (w : W) (tokens : List String) (out : Result (Unit {0}) × W) {p : ℕ}
      → p < k
      → IsStocked r env v k w p
      → Restocked r env v w tokens out
      → IsStocked r env v k out.1 p
  restock-IsStocked w tokens (_, w') room good (Restocked.refused e same unchanged) =
      change-IsStocked (λ old later. later) w w' good same unchanged good.few
  restock-IsStocked w tokens (_, w') room good (Restocked.stocked answer few ten same changed) =
      change-IsStocked (added tokens) w w' good same changed
        (let grown = length-added tokens (live w (clock w) tokens_key) in omega arith)

  began-IsStocked :
      {k : ℕ} (w : W) {p : ℕ} (n : ℕ)
      → p < k
      → (r.scard tokens_key w).0 ≡ ok n
      → leb 10 n ≡ false
      → IsStocked r env v k w p
      → IsStocked r env v k (r.scard tokens_key w).1 (suc p)
  began-IsStocked w n room size few good =
      let same = l.scard-Same tokens_key w in
      let counted = l.scard-eq tokens_key n w size in
      let short : stock v w < 10 = ground arith in
      change-IsStocked (λ old later. later) w _ good same.same_clock
        (λ t later. same.same_live t tokens_key) (omega arith)

  ended-IsStocked :
      {k : ℕ} (w : W) {p : ℕ}
      → IsStocked r env v k w (suc p)
      → IsStocked r env v k (add_tokens r env w).1 p
  ended-IsStocked w good =
      let tokens = (new_tokens env 10 w).0 in
      let (same, cases) = add_tokens-cases time l w in
      elim cases [
        | inl changed ↦
            let ten = length-new_tokens time l 10 w in
            let grown = length-added tokens (live w (clock w) tokens_key) in
            change-IsStocked (added tokens) w _ good same changed (omega (arith, good.few))
        | inr (e, failed, unchanged) ↦
            change-IsStocked (λ old later. later) w _ good same unchanged (omega (arith, good.few))
      ]

  consume-IsStocked :
      {k : ℕ} (token : String) (w : W) {p : ℕ}
      → IsStocked r env v k w p
      → IsStocked r env v k (consume r token w).1 p
  unfolding consume
  consume-IsStocked token w good =
      let same = l.srem-clock tokens_key token w in
      elim (l.srem-cases tokens_key token w) [
        | inl changed ↦ change-IsStocked (removed token) w _ good same changed (
            let shrunk = length-removed token (live w (clock w) tokens_key) in
            omega (arith, good.few))
        | inr (e, failed, unchanged) ↦
            change-IsStocked (λ old later. later) w _ good same unchanged good.few
      ]

  get_one-IsStocked :
      {k : ℕ} (w : W) {p : ℕ} → IsStocked r env v k w p → IsStocked r env v k (get_one r w).1 p
  unfolding get_one
  get_one-IsStocked w good =
      let first = l.scard-Same tokens_key w in
      let counted = Same-IsStocked w (r.scard tokens_key w).1 good first in
      elim (Result-cases (r.scard tokens_key w).0) [
        | inr (e, failed) ↦ rw failed counted
        | inl (n, size) ↦ elim (Bool-cases (n == 0)) [
          | inl none_left ↦ rw (size, none_left) counted
          | inr some_left ↦
              rw (size, some_left)
                (Same-IsStocked (r.scard tokens_key w).1 _ counted
                  (l.srandmember-Same tokens_key (r.scard tokens_key w).1))
        ]
      ]

  flush_all-IsStocked :
      {k : ℕ} (w : W) {p : ℕ} → IsStocked r env v k w p → IsStocked r env v k (flush_all r w).1 p
  unfolding flush_all
  flush_all-IsStocked w good =
      let same = l.del-clock tokens_key w in
      elim (l.del-cases tokens_key w) [
        | inl changed ↦
            change-IsStocked (λ old later. none) w _ good same changed (omega (arith, good.few))
        | inr (e, failed, unchanged) ↦
            change-IsStocked (λ old later. later) w _ good same unchanged good.few
      ]

  -- Where at most k Restocks run at a time, the set never holds more than 9 + 10 k tokens, 19
  -- where none overlap, in any order of the operations from an empty set, with lost replies and
  -- failures: a Restock adds ten tokens only after it has read fewer than ten. No token expires.
  -- This is given the documented behaviour of the Redis commands.
  pub history-IsStocked : (k : ℕ) (w : W) (p : ℕ) → Reached r env v k w p → IsStocked r env v k w p
  unfolding list_all
  history-IsStocked k w p (Reached.empty none_held) = record {
    few = rw (none_held (clock w) (omega arith)) (omega arith);
    lasting = λ t later. none_held t later ∙ sym (none_held (clock w) (omega arith));
  }
  history-IsStocked k _ p (Reached.restocked {w} room h) =
      restock-IsStocked w _ _ room (history-IsStocked k w p h) (restock-Restocked time l w)
  history-IsStocked k _ _ (Reached.began {w} {p} n room size few h) =
      began-IsStocked w n room size few (history-IsStocked k w p h)
  history-IsStocked k _ p (Reached.ended {w} h) =
      ended-IsStocked w (history-IsStocked k w (suc p) h)
  history-IsStocked k _ p (Reached.consumed {w} token h) =
      consume-IsStocked token w (history-IsStocked k w p h)
  history-IsStocked k _ p (Reached.listed {w} h) =
      Same-IsStocked w _ (history-IsStocked k w p h) (l.smembers-Same tokens_key w)
  history-IsStocked k _ p (Reached.picked {w} h) = get_one-IsStocked w (history-IsStocked k w p h)
  history-IsStocked k _ p (Reached.flushed {w} h) =
      flush_all-IsStocked w (history-IsStocked k w p h)
  history-IsStocked k w' p (Reached.other {w} h kept) =
      let good = history-IsStocked k w p h in
      let now = kept.same (clock w') (omega arith) ∙ good.lasting (clock w') kept.later in
      record {
        few = rw now good.few;
        lasting =
            λ t later. kept.same t later ∙ good.lasting t (omega (arith, kept.later)) ∙ sym now;
      }
