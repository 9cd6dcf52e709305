-- ===== src/App/Starting/Order.antt =====
-- cmd/ktauth/main.go, main: how the start may end.
use ktauth.Prelude.{ℕ, ◌+◌, ◌*◌, ◌≤◌, Option, some, ◌≡◌, inl, inr, refl}
use ktauth.Errors.{Error}
use ktauth.Effects.{Result, ok, err, on, Result-cases}
use ktauth.Db.{Config, new_redis, new_postgres}
use ktauth.App.{Packages, update_admin, routes}
use ktauth.App.Connect.{connect_postgres}
use ktauth.App.Connect.Ending.{WaitLaws, Ended, connected, timed_out, connect_postgres-Ended}
use ktauth.App.Environment.{trusted_proxies}
use ktauth.App.Starting.{
  Machine, Stage, exited, panicked, listening, settings, connecting, serve, serve_pool,
  start_postgres, start,
}

module _ {W PoolConfig Pool Client : Type 0} (m : Machine W PoolConfig Pool Client)
    (p : Packages W) where
  -- Redis answered, or the deferred Close takes the nil client.
  abbrev pub Survives : W → Type 0
  Survives w =
      on (new_redis m.rdb m.getenv w).0 (λ e. m.defer_close_nil ≡ ok tt) (λ client. Unit {0})

  -- connectPostgres, in this run, from the world that NewRedis left
  abbrev pub connection : Config → W → Option (Result Pool × (Config × W))
  connection c w = connect_postgres (connecting m p) 31 (c, (new_redis m.rdb m.getenv w).1)

  -- It gave a pool, which is that of an attempt of NewPostgres, and left the world w₁.
  pub record Connected (c : Config) (w w₁ : W) : Type 0 where
    pub before : Config × W
    pub pool : Pool
    pub config : Config
    pub made : new_postgres m.pgx m.getenv before ≡ (ok pool, (config, w₁))
    pub reached : connection c w ≡ some (ok pool, (config, w₁))

  -- The proxies of the environment are valid.
  abbrev pub proxies : Result (Unit {0})
  proxies = m.set_trusted_proxies (trusted_proxies (m.getenv "TRUSTED_PROXIES"))

  pub data Started (c : Config) (w : W) : Stage W → Type 0 where
    nil_client :
        (e x : Error)
        → (new_redis m.rdb m.getenv w).0 ≡ err e
        → m.defer_close_nil ≡ err x
        → Started c w (panicked x)
    no_postgres :
        (e : Error) (s : Config × W)
        → Survives w
        → connection c w ≡ some (err e, s)
        → Started c w (exited e)
    no_admin :
        (w₁ : W) (e : Error)
        → Survives w
        → Connected c w w₁
        → (update_admin p (settings m p) w₁).0 ≡ err e
        → Started c w (panicked e)
    bad_proxies :
        (w₁ : W) (e : Error)
        → Survives w
        → Connected c w w₁
        → (update_admin p (settings m p) w₁).0 ≡ ok tt
        → proxies ≡ err e
        → Started c w (panicked e)
    serving :
        (w₁ : W)
        → Survives w
        → Connected c w w₁
        → (update_admin p (settings m p) w₁).0 ≡ ok tt
        → proxies ≡ ok tt
        → Started c w (listening (routes p (settings m p)))

  serve-Started :
      (c : Config) (w w₁ : W) → Survives w → Connected c w w₁ → Started c w (serve m p w₁).0
  unfolding serve
  serve-Started c w w₁ survives made = elim (Result-cases (update_admin p (settings m p) w₁).0) [
    | inr (e, failed) ↦ rw failed (no_admin w₁ e survives made failed)
    | inl (u, updated) ↦ elim (Result-cases proxies) [
      | inr (e, invalid) ↦ rw (updated, invalid) (bad_proxies w₁ e survives made updated invalid)
      | inl (u, valid) ↦ rw (updated, valid) (serving w₁ survives made updated valid)
    ]
  ]

  serve_pool-Started :
      (c₀ : Config) (w : W) (out : Result Pool × (Config × W))
      → Survives w
      → connection c₀ w ≡ some out
      → Ended (connecting m p) out
      → Started c₀ w (serve_pool m p out.0 out.1).0
  unfolding serve_pool
  serve_pool-Started c₀ w _ survives reached (connected s pool (config, w₁) made) =
      serve-Started c₀ w w₁ survives
        (record { before = s; pool = pool; config = config; made = made; reached = reached })
  serve_pool-Started c₀ w _ survives reached
        (timed_out s s₁ (config, w₁) e backoff failed small late) =
      no_postgres _ _ survives reached

  start_postgres-reached :
      (rounds : ℕ) (s : Config × W) (out : Result Pool × (Config × W))
      → connect_postgres (connecting m p) rounds s ≡ some out
      → start_postgres m p rounds s ≡ some (serve_pool m p out.0 out.1)
  unfolding start_postgres
  start_postgres-reached rounds s out ends = rw (ends, start_postgres) refl

  -- Whatever the servers and the environment answer, main comes to an end of its start: within 31
  -- rounds of connectPostgres, given a clock that attempts do not turn back and a select whose
  -- context is done after 30 seconds. It listens exactly if it survived NewRedis, connectPostgres
  -- gave a pool (that of an attempt of NewPostgres), the administrator's row was updated and the
  -- trusted proxies are valid, and then serves the routes of the settings that it read; it exits
  -- exactly where it survived NewRedis and connectPostgres gave an error and no pool, and panics
  -- where one of the other steps fails.
  pub start-Started :
      {deadline : ℕ} (l : WaitLaws (connecting m p) deadline) (c : Config) (w : W)
      → deadline ≤ l.clock (c, (new_redis m.rdb m.getenv w).1) + 1000 * 30
      → (out : Stage W × (Config × W)) × (start m p 31 (c, w) ≡ some out) × Started c w out.0
  unfolding start
  start-Started l c w late =
      let s : Config × W = (c, (new_redis m.rdb m.getenv w).1) in
      let (made, ends, how) = connect_postgres-Ended l 30 s late in
      let reached = start_postgres-reached 31 s made ends in
      let final = serve_pool m p made.0 made.1 in
      elim (Result-cases (new_redis m.rdb m.getenv w).0) [
        | inl (client, up) ↦
            (final, rw (up, start) reached, serve_pool-Started c w made (rw up tt) ends how)
        | inr (e, down) ↦ elim (Result-cases m.defer_close_nil) [
          | inl (u, survived) ↦ (
            final,
            rw (down, survived, start) reached,
            serve_pool-Started c w made (rw down survived) ends how,
          )
          | inr (x, nil) ↦ ((panicked x, s), rw (down, nil, start) refl, nil_client e x down nil)
        ]
      ]
