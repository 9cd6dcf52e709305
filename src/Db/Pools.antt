-- ===== src/Db/Pools.antt =====
-- internal/db/postgres.go and connectPostgres of cmd/ktauth/main.go: the pools that stay open.
use Prim.Native.String.{String}
use ktauth.Prelude.{
  ℕ, zero, suc, ◌+◌, Bool, true, false, some, ◌≡◌, ◌∙◌, inl, inr, refl, ap, subst, sym, arith,
}
use ktauth.Errors.{Error, wrapf}
use ktauth.Effects.{Result, ok, err, Result-cases}
use ktauth.Db.{Config, Pgxpool, configured, dsn, checked_pool, open_pool, new_postgres}
use ktauth.App.Connect.{Connecting, next_backoff, connect_loop, connect_postgres}

-- What is known of pgxpool: how many pools are open.
pub record PoolLaws {W PoolConfig Pool : Type 0} (pgx : Pgxpool W PoolConfig Pool) : Type 0 where
  pub open_pools : W → ℕ
  pub new-ok :
      (cfg : PoolConfig) (pool : Pool) (w w' : W)
      → pgx.new_with_config cfg w ≡ (ok pool, w')
      → open_pools w' ≡ open_pools w + 1
  pub new-err :
      (cfg : PoolConfig) (e : Error) (w w' : W)
      → pgx.new_with_config cfg w ≡ (err e, w')
      → open_pools w' ≡ open_pools w
  pub ping-open : (pool : Pool) (w : W) → open_pools (pgx.ping pool w).1 ≡ open_pools w
  pub close-open :
      (pool : Pool) (w : W) (n : ℕ) → open_pools w ≡ n + 1 → open_pools (pgx.close pool w) ≡ n

-- A pool that is returned is open.
abbrev pub returned : {Pool : Type 0} → Result Pool → ℕ
returned (ok pool) = 1
returned (err e) = 0

module _ {W PoolConfig Pool : Type 0} {pgx : Pgxpool W PoolConfig Pool} (l : PoolLaws pgx) where
  checked-open :
      (pool : Pool) (w w₁ : W) (n : ℕ) (pinged : Result (Unit {0}))
      → l.open_pools w ≡ n + 1
      → pgx.ping pool w ≡ (pinged, w₁)
      → let out = checked_pool pgx pool w in l.open_pools out.1 ≡ n + returned out.0
  unfolding checked_pool
  checked-open pool w w₁ n (ok tt) opened e =
      rw e
        (ap (λ (o : Result (Unit {0}) × W). l.open_pools o.1) (sym e) ∙ l.ping-open pool w ∙ opened)
  checked-open pool w w₁ n (err x) opened e =
      let same =
        ap (λ (o : Result (Unit {0}) × W). l.open_pools o.1) (sym e)
        ∙ l.ping-open pool w
        ∙ opened in
      rw e (l.close-open pool w₁ n same ∙ (omega arith))

  created-open :
      (text : String) (cfg : PoolConfig) (w w₁ : W) (pool : Result Pool)
      → pgx.parse_config text ≡ ok cfg
      → pgx.new_with_config cfg w ≡ (pool, w₁)
      → let out = open_pool pgx text w in l.open_pools out.1 ≡ l.open_pools w + returned out.0
  unfolding open_pool
  created-open text cfg w w₁ (ok pool) parsed e =
      rw (parsed, e)
        (checked-open pool w₁ (pgx.ping pool w₁).1 (l.open_pools w) (pgx.ping pool w₁).0
          (l.new-ok cfg pool w w₁ e) refl)
  created-open text cfg w w₁ (err x) parsed e =
      rw (parsed, e) (l.new-err cfg x w w₁ e ∙ (omega arith))

  open_pool-open :
      (text : String) (w : W)
      → let out = open_pool pgx text w in l.open_pools out.1 ≡ l.open_pools w + returned out.0
  unfolding open_pool
  open_pool-open text w = elim (Result-cases (pgx.parse_config text)) [
    | inl (cfg, parsed) ↦ created-open text cfg w _ _ parsed refl
    | inr (x, bad) ↦ rw bad (omega arith)
  ]

  -- NewPostgres leaves exactly the pool open that it returns.
  new_postgres-open :
      (getenv : String → String) (s : Config × W)
      → let out = new_postgres pgx getenv s in
        l.open_pools out.1.1 ≡ l.open_pools s.1 + returned out.0
  unfolding new_postgres
  new_postgres-open getenv (c, w) = open_pool-open (dsn (configured getenv c)) w

  module _ (getenv : String → String) (wait : ℕ → Config × W → Bool × (Config × W))
      (still : (b : ℕ) (s : Config × W) → l.open_pools (wait b s).1.1 ≡ l.open_pools s.1) where
    -- NewPostgres, and the select of connectPostgres
    abbrev pub connecting : Connecting (Config × W) Pool
    connecting = record { new_postgres = new_postgres pgx getenv; wait = wait }

    -- The pools that stay open behind a loop from s on.
    abbrev Balanced : Config × W → Result Pool × (Config × W) → Type 0
    Balanced s (res, s') = l.open_pools s'.1 ≡ l.open_pools s.1 + returned res

    attempt-open :
        (s s₁ : Config × W) (attempt : Result Pool)
        → new_postgres pgx getenv s ≡ (attempt, s₁)
        → Balanced s (attempt, s₁)
    attempt-open s s₁ attempt e = subst (Balanced s) e (new_postgres-open getenv s)

    wait-open :
        (b : ℕ) (s s₁ : Config × W) (done : Bool)
        → wait b s ≡ (done, s₁)
        → l.open_pools s₁.1 ≡ l.open_pools s.1
    wait-open b s s₁ done f =
        subst (λ (o : Bool × (Config × W)). l.open_pools o.1.1 ≡ l.open_pools s.1) f (still b s)

    round-Balanced :
        (rounds b : ℕ) (s s₁ s₂ : Config × W) (attempt : Result Pool) (done : Bool)
        (out : Result Pool × (Config × W))
        → new_postgres pgx getenv s ≡ (attempt, s₁)
        → wait b s₁ ≡ (done, s₂)
        → connect_loop connecting (suc rounds) b s ≡ some out
        → ((again : connect_loop connecting rounds (next_backoff b) s₂ ≡ some out)
            → Balanced s₂ out)
        → Balanced s out
    unfolding connect_loop
    round-Balanced rounds b s s₁ s₂ (ok pool) done out e f end more =
        let same : (ok pool, s₁) ≡ out = cc (rw e at end) in
        subst (Balanced s) same (attempt-open s s₁ (ok pool) e)
    round-Balanced rounds b s s₁ s₂ (err x) true out e f end more =
        let same : (err (wrapf "Postgres connection timeout: " x), s₂) ≡ out =
          cc (rw (e, f) at end) in
        let one = attempt-open s s₁ (err x) e in
        let two = wait-open b s₁ s₂ true f in subst (Balanced s) same (omega arith)
    round-Balanced rounds b s s₁ s₂ (err x) false out e f end more =
        let later = more (rw (e, f) at end) in
        let one = attempt-open s s₁ (err x) e in let two = wait-open b s₁ s₂ false f in omega arith

    loop-Balanced :
        (rounds b : ℕ) (s : Config × W) (out : Result Pool × (Config × W))
        → connect_loop connecting rounds b s ≡ some out
        → Balanced s out
    unfolding connect_loop
    loop-Balanced zero b s out end = absurd (cc)
    loop-Balanced (suc rounds) b s out end =
        round-Balanced rounds b s _ _ _ _ out refl refl end
          (loop-Balanced rounds (next_backoff b) _ out)

    -- However many attempts connectPostgres makes, and whether it connects in the end or gives
    -- up, it leaves no pool open but the one that it returns: the pool of a failed attempt was
    -- closed. This is given that NewWithConfig opens the pool that it returns and none beside an
    -- error, that Close closes it, and that Ping and the wait do neither.
    pub connect_postgres-Balanced :
        (rounds : ℕ) (s s' : Config × W) (res : Result Pool)
        → connect_postgres connecting rounds s ≡ some (res, s')
        → l.open_pools s'.1 ≡ l.open_pools s.1 + returned res
    unfolding connect_postgres
    connect_postgres-Balanced rounds s s' res end = loop-Balanced rounds 1000 s (res, s') end
