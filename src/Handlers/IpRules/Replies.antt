-- ===== src/Handlers/IpRules/Replies.antt =====
-- internal/handler/admin_handler.go, AddRule, over the service and the table: what an administrator is
-- answered, and what was written.
use ktauth.Prelude.{
  ℕ, String, Bool, true, false, ◌≢◌, Bool-cases, Option, none, some, str_eq, eq_iff, ◌≡◌, refl, inl,
  inr, sym, subst, if◌then◌else◌,
}
use ktauth.Errors.{Error, pg_error, wrapf, as_ip_error}
use ktauth.Effects.{Result, ok, err, Result-cases}
use ktauth.Net.Print.{net_string}
use ktauth.IpUtils.{Processed, process_ip}
use ktauth.IpUtils.Refusal.{process_ip-error}
use ktauth.Postgres.{Postgres, insert_ip}
use ktauth.Repository.IpRepo.{add_ip, del_ip, get_ips, add_error}
use ktauth.Admin.Rules
use ktauth.Admin.Rules.{IpRuleStore, Invalidator, invalidate}
use ktauth.Gin.{Context, respond, plain}
use Prim.Native.String.{◌++◌}
use ktauth.Handlers.IpRules.{IpRuleManager, Rule, asks_white, add_failed, bad_body, add_rule}

-- AdminIPRuleService over IPRepo, as main.go builds it.
abbrev pub rule_store : {W : Type 0} → Postgres W → IpRuleStore W
rule_store pg = record { add_ip = add_ip pg; del_ip = del_ip pg; get_ips = get_ips pg }

module _ {W : Type 0} (pg : Postgres W) (cache limits : Invalidator W) where
  abbrev pub rule_manager : IpRuleManager W
  rule_manager = record {
    add_rule = Rules.add_rule (rule_store pg) cache limits;
    list_rules = Rules.list_rules (rule_store pg) cache limits;
    del_rule = Rules.del_rule (rule_store pg) cache limits;
  }

abbrev answered : Context → String → Option Error → Context
answered c cidr none = respond 200 (plain ("CIDR " ++ (cidr ++ " added."))) c
answered c cidr (some e) = add_failed e c

handler-answered :
    {W : Type 0} (m : IpRuleManager W) (bind : Context → Result Rule) (c : Context) (w : W)
    (req : Rule) (cidr : String) (error : Option Error) (w' : W)
    → bind c ≡ ok req
    → m.add_rule req.ip (asks_white req c) req.note w ≡ ((cidr, error), w')
    → add_rule m bind c w ≡ (answered c cidr error, w')
unfolding add_rule
handler-answered m bind c w req cidr none w' bound e = rw (bound, e, e) refl
handler-answered m bind c w req cidr (some x) w' bound e = rw (bound, e) refl

refusal-status : (e : Error) (c : Context) → as_ip_error e ≡ true → (add_failed e c).status ≡ 400
unfolding add_failed
refusal-status e c refused = rw refused refl

-- A wrapped error of the database.
wrapped-status :
    (text : String) (e : Error) (c : Context)
    → (add_failed (wrapf text e) c).status ≡ (if as_ip_error e then 400 else 500)
unfolding add_failed as_ip_error
wrapped-status text e c = elim (Bool-cases (as_ip_error e)) [
  | inl refused ↦ rw refused refl
  | inr other ↦ rw other refl
]

not_unique :
    (code text : String)
    → str_eq code "23505" ≡ false
    → (text' : String) → pg_error code text ≢ pg_error "23505" text'
not_unique code text other text' same =
    let one : code ≡ "23505" = cc in let unique = (eq_iff code "23505").1 one in absurd (cc)

module _ {W : Type 0} (pg : Postgres W) (cache limits : Invalidator W)
    (bind : Context → Result Rule) where
  -- From (c, w) to (c', w').
  pub data Reply (c : Context) (w : W) (c' : Context) (w' : W) : Type 0 where
    added :
        (req : Rule) (p : Processed) (n : ℕ) (w₁ : W)
        → bind c ≡ ok req
        → process_ip req.ip ≡ ok p
        → pg.exec (insert_ip p.version p.ip_net (asks_white req c) req.note) w ≡ ((n, none), w₁)
        → c'.status ≡ 200
        → w' ≡ invalidate (rule_store pg) cache limits (net_string p.ip_net) w₁
        → Reply c w c' w'
    duplicate :
        (req : Rule) (p : Processed) (n : ℕ) (text : String)
        → bind c ≡ ok req
        → process_ip req.ip ≡ ok p
        → pg.exec (insert_ip p.version p.ip_net (asks_white req c) req.note) w
          ≡ ((n, some (pg_error "23505" text)), w')
        → c'.status ≡ 400
        → Reply c w c' w'
    failed :
        (req : Rule) (p : Processed) (n : ℕ) (e : Error)
        → bind c ≡ ok req
        → process_ip req.ip ≡ ok p
        → pg.exec (insert_ip p.version p.ip_net (asks_white req c) req.note) w ≡ ((n, some e), w')
        → ((text : String) → e ≢ pg_error "23505" text)
        → c'.status ≡ (if as_ip_error e then 400 else 500)
        → Reply c w c' w'
    bad_address :
        (req : Rule) (e : Error)
        → bind c ≡ ok req
        → process_ip req.ip ≡ err e
        → c'.status ≡ 400
        → w' ≡ w
        → Reply c w c' w'
    malformed : (e : Error) → bind c ≡ err e → c'.status ≡ 400 → w' ≡ w → Reply c w c' w'

  -- The service's answer, by the outcome of the insertion.
  abbrev reported : Option Error → Option Error
  reported none = none
  reported (some e) = some (add_error e)

  abbrev left_by : String → Option Error → W → W
  left_by cidr none w₁ = invalidate (rule_store pg) cache limits cidr w₁
  left_by cidr (some e) w₁ = w₁

  service-outcome :
      (ip : String) (white : Bool) (note : Option String) (p : Processed) (n : ℕ)
      (error : Option Error) (w w₁ : W)
      → process_ip ip ≡ ok p
      → pg.exec (insert_ip p.version p.ip_net white note) w ≡ ((n, error), w₁)
      → Rules.add_rule (rule_store pg) cache limits ip white note w
        ≡ ((net_string p.ip_net, reported error), left_by (net_string p.ip_net) error w₁)
  unfolding Rules.add_rule add_ip
  service-outcome ip white remark p n none w w₁ valid e = rw (valid, e) refl
  service-outcome ip white remark p n (some x) w w₁ valid e = rw (valid, e) refl

  service-refusal :
      (ip : String) (white : Bool) (note : Option String) (x : Error) (w : W)
      → process_ip ip ≡ err x
      → Rules.add_rule (rule_store pg) cache limits ip white note w ≡ (("", some x), w)
  unfolding Rules.add_rule
  service-refusal ip white remark x w bad = rw bad refl

  rejected :
      (c : Context) (w : W) (x : Error)
      → bind c ≡ err x
      → Reply c w
          (add_rule (rule_manager pg cache limits) bind c w).0
          (add_rule (rule_manager pg cache limits) bind c w).1
  unfolding add_rule bad_body
  rejected c w x bad = rw bad (malformed x bad refl refl)

  inserted :
      (c : Context) (w : W) (req : Rule) (p : Processed) (n : ℕ) (error : Option Error) (w₁ : W)
      → bind c ≡ ok req
      → process_ip req.ip ≡ ok p
      → pg.exec (insert_ip p.version p.ip_net (asks_white req c) req.note) w ≡ ((n, error), w₁)
      → Reply c w
          (answered c (net_string p.ip_net) (reported error))
          (left_by (net_string p.ip_net) error w₁)
  unfolding add_error add_failed
  inserted c w req p n none w₁ bound valid e = added req p n w₁ bound valid e refl refl
  inserted c w req p n (some (pg_error code text)) w₁ bound valid e =
      elim (Bool-cases (str_eq code "23505")) [
        | inl unique ↦
            let same = (eq_iff code "23505").0 unique in
            rw unique (duplicate req p n text bound valid (rw same at e) refl)
        | inr other ↦
            rw other
              (failed req p n (pg_error code text) bound valid e (not_unique code text other) refl)
      ]
  inserted c w req p n (some x) w₁ bound valid e =
      failed req p n x bound valid e (λ text same. absurd (cc))
        (wrapped-status "IPRepo AddIP: " x c)

  -- AddRule answers 200 exactly if the address parses and its row was inserted, with the version
  -- and the network of ProcessIP and the type that was asked for, and then the cached rule and
  -- the recorded requests of that network are deleted; it answers 400 to a body or an address
  -- that does not parse and to a network that is there already (the database's error 23505), and
  -- to any other error of the database 500, or 400 if an *IPError stands in it; then nothing is
  -- deleted.
  pub add_rule-Reply :
      (c : Context) (w : W)
      → Reply c w
          (add_rule (rule_manager pg cache limits) bind c w).0
          (add_rule (rule_manager pg cache limits) bind c w).1
  add_rule-Reply c w = elim (Result-cases (bind c)) [
    | inr (x, bad) ↦ rejected c w x bad
    | inl (req, bound) ↦ elim (Result-cases (process_ip req.ip)) [
      | inr (x, bad) ↦
          subst (λ out. Reply c w out.0 out.1)
            (sym (
              handler-answered (rule_manager pg cache limits) bind c w req "" (some x) w bound
                (service-refusal req.ip (asks_white req c) req.note x w bad)))
            (bad_address req x bound bad (refusal-status x c (process_ip-error req.ip x bad)) refl)
      | inl (p, valid) ↦
          let ((n, error), w₁) =
            pg.exec (insert_ip p.version p.ip_net (asks_white req c) req.note) w in
          subst (λ out. Reply c w out.0 out.1)
            (sym (
              handler-answered (rule_manager pg cache limits) bind c w req (net_string p.ip_net)
                (reported error) (left_by (net_string p.ip_net) error w₁) bound
                (service-outcome req.ip (asks_white req c) req.note p n error w w₁ valid refl)))
            (inserted c w req p n error w₁ bound valid refl)
    ]
  ]
