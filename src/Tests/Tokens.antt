-- ===== src/Tests/Tokens.antt =====
-- The invitation tokens in the Redis in memory: restocked, used, and restocked again.
use ktauth.Prelude.{true, false, none, some, [], ◌∷◌, ◌≡◌, refl, arith}
use ktauth.Redis.Laws.{members}
use ktauth.Repository.Tokens.{tokens_key, new_tokens, add_tokens, restock, consume}
use ktauth.Repository.Tokens.Stock.{stock}
use ktauth.Repository.Tokens.Bound.{Reached, IsStocked, history-IsStocked}
use ktauth.Repository.Tokens.Accepted.{new_token_once}
use ktauth.Tests.Memory.{Memory, memory, env, view, store}
use ktauth.Tests.Memory.Laws.{memory-TimeLaws}
use ktauth.Tests.Memory.Sets.{memory-SetLaws}
use ktauth.Tests.Routes.{world}

abbrev pub offering : Memory
offering = store tokens_key (some (members ("t1" ∷ "t2" ∷ []), none)) world

abbrev fresh : Memory
fresh = record world {
  ids =
      "0" ∷ "1" ∷ "2" ∷ "3" ∷ "4" ∷ "5" ∷ "6" ∷ "7" ∷ "8" ∷ "9" ∷ "10" ∷ "11" ∷ "12" ∷ "13" ∷ "14"
      ∷ "15" ∷ "16" ∷ "17" ∷ "18" ∷ "19" ∷ [];
}

abbrev full : Memory
full = (restock memory env fresh).1

ten : stock view full ≡ 10
unfolding restock add_tokens new_tokens
ten = refl

fresh-Reached : Reached memory env view 2 fresh 0
fresh-Reached = Reached.empty λ t later. refl

-- Two Restocks that overlap: both read an empty set, and both add ten tokens.
abbrev overlapped : Memory
overlapped = (add_tokens memory env (add_tokens memory env fresh).1).1

overlapped-Reached : Reached memory env view 2 overlapped 0
overlapped-Reached = Reached.ended (
    Reached.ended (
      Reached.began 0 (omega arith) refl refl
        (Reached.began 0 (omega arith) refl refl fresh-Reached)))

twenty : stock view overlapped ≡ 20
unfolding add_tokens new_tokens
twenty = refl

history-IsStocked_example : IsStocked memory env view 2 overlapped 0
history-IsStocked_example =
    history-IsStocked memory-TimeLaws memory-SetLaws 2 overlapped 0 overlapped-Reached

new_token_once_example :
    ((consume memory "7" full).0 ≡ true)
    × ((consume memory "7" (consume memory "7" full).1).0 ≡ false)
unfolding restock consume new_tokens add_tokens
new_token_once_example =
    new_token_once memory-TimeLaws memory-SetLaws "7" 2 1 fresh full (consume memory "7" full).1 0
      fresh-Reached refl refl (record { later = omega arith; same = λ t h. refl }) refl
      (omega arith) (λ there. there)
