-- ===== src/Handlers/IpRules/Deletions.antt =====
-- internal/handler/admin_handler.go, DelRule, over the service and the table: what an administrator is
-- answered, and what was written.
use Prim.Native.String.{◌++◌}
use ktauth.Prelude.{
  ℕ, String, true, ◌||◌, Bool-cases, Option, none, some, ◌==◌, ◌≡◌, ◌≢◌, refl, inl, inr, sym, subst,
  arith, if◌then◌else◌,
}
use ktauth.Errors.{Error, ip_not_found, as_ip_error, is_ip_not_found}
use ktauth.Effects.{Result, ok, err, Result-cases}
use ktauth.Net.Print.{net_string}
use ktauth.IpUtils.{Processed, process_ip}
use ktauth.IpUtils.Refusal.{process_ip-error}
use ktauth.Postgres.{Postgres, delete_ip}
use ktauth.Repository.IpRepo.{del_ip}
use ktauth.Admin.Rules
use ktauth.Admin.Rules.{Invalidator, invalidate}
use ktauth.Gin.{Context, respond, plain}
use ktauth.Handlers.IpRules.{IpRuleManager, Rule, del_failed, bad_body, del_rule}
use ktauth.Handlers.IpRules.Replies.{rule_store, rule_manager}

abbrev deleted_or : Context → String → Option Error → Context
deleted_or c cidr none = respond 200 (plain ("CIDR " ++ (cidr ++ " deleted."))) c
deleted_or c cidr (some e) = del_failed e c

handler-eq :
    {W : Type 0} (m : IpRuleManager W) (bind : Context → Result Rule) (c : Context) (w : W)
    (req : Rule) (cidr : String) (error : Option Error) (w' : W)
    → bind c ≡ ok req
    → m.del_rule req.ip w ≡ ((cidr, error), w')
    → del_rule m bind c w ≡ (deleted_or c cidr error, w')
unfolding del_rule
handler-eq m bind c w req cidr none w' bound e = rw (bound, e, e) refl
handler-eq m bind c w req cidr (some x) w' bound e = rw (bound, e) refl

failed-status :
    (e : Error) (c : Context)
    → (del_failed e c).status ≡ (if as_ip_error e || is_ip_not_found e then 400 else 500)
unfolding del_failed
failed-status e c = elim (Bool-cases (as_ip_error e)) [
  | inl bad ↦ rw bad refl
  | inr other ↦ elim (Bool-cases (is_ip_not_found e)) [
    | inl missing ↦ rw (other, missing) refl
    | inr broken ↦ rw (other, broken) refl
  ]
]

bad-status : (e : Error) (c : Context) → as_ip_error e ≡ true → (del_failed e c).status ≡ 400
unfolding del_failed
bad-status e c bad = rw bad refl

module _ {W : Type 0} (pg : Postgres W) (cache limits : Invalidator W)
    (bind : Context → Result Rule) where
  -- The deletion of a network, behind the deletion of what is cached for it.
  abbrev pub executed : Processed → W → (ℕ × Option Error) × W
  executed p w =
      pg.exec (delete_ip p.version p.ip_net)
        (invalidate (rule_store pg) cache limits (net_string p.ip_net) w)

  -- From (c, w) to (c', w').
  pub data Deletion (c : Context) (w : W) (c' : Context) (w' : W) : Type 0 where
    deleted :
        (req : Rule) (p : Processed) (n : ℕ)
        → bind c ≡ ok req
        → process_ip req.ip ≡ ok p
        → executed p w ≡ ((n, none), w')
        → n ≢ 0
        → c'.status ≡ 200
        → Deletion c w c' w'
    not_there :
        (req : Rule) (p : Processed)
        → bind c ≡ ok req
        → process_ip req.ip ≡ ok p
        → executed p w ≡ ((0, none), w')
        → c'.status ≡ 400
        → Deletion c w c' w'
    broken :
        (req : Rule) (p : Processed) (n : ℕ) (e : Error)
        → bind c ≡ ok req
        → process_ip req.ip ≡ ok p
        → executed p w ≡ ((n, some e), w')
        → c'.status ≡ (if as_ip_error e || is_ip_not_found e then 400 else 500)
        → Deletion c w c' w'
    bad_address :
        (req : Rule) (e : Error)
        → bind c ≡ ok req
        → process_ip req.ip ≡ err e
        → c'.status ≡ 400
        → w' ≡ w
        → Deletion c w c' w'
    malformed : (e : Error) → bind c ≡ err e → c'.status ≡ 400 → w' ≡ w → Deletion c w c' w'

  -- The reply for what the table answered.
  abbrev error_for : ℕ → Option Error → Option Error
  error_for n (some e) = some e
  error_for n none = if n == 0 then some ip_not_found else none

  service-eq :
      (ip : String) (p : Processed) (n : ℕ) (error : Option Error) (w w' : W)
      → process_ip ip ≡ ok p
      → executed p w ≡ ((n, error), w')
      → Rules.del_rule (rule_store pg) cache limits ip w
        ≡ ((net_string p.ip_net, error_for n error), w')
  unfolding Rules.del_rule del_ip
  service-eq ip p n (some x) w w' valid e = rw (valid, e) refl
  service-eq ip p n none w w' valid e = elim (Bool-cases (n == 0)) [
    | inl nothing ↦ rw (valid, e, e, nothing) refl
    | inr some_rows ↦ rw (valid, e, e, some_rows) refl
  ]

  refused :
      (ip : String) (x : Error) (w : W)
      → process_ip ip ≡ err x
      → Rules.del_rule (rule_store pg) cache limits ip w ≡ (("", some x), w)
  unfolding Rules.del_rule
  refused ip x w bad = rw bad refl

  rejected :
      (c : Context) (w : W) (x : Error)
      → bind c ≡ err x
      → Deletion c w
          (del_rule (rule_manager pg cache limits) bind c w).0
          (del_rule (rule_manager pg cache limits) bind c w).1
  unfolding del_rule bad_body
  rejected c w x bad = rw bad (malformed x bad refl refl)

  replied :
      (c : Context) (w : W) (req : Rule) (p : Processed) (n : ℕ) (error : Option Error) (w' : W)
      → bind c ≡ ok req
      → process_ip req.ip ≡ ok p
      → executed p w ≡ ((n, error), w')
      → Deletion c w (deleted_or c (net_string p.ip_net) (error_for n error)) w'
  unfolding del_failed
  replied c w req p n (some x) w' bound valid e = broken req p n x bound valid e (failed-status x c)
  replied c w req p n none w' bound valid e = elim (Bool-cases (n == 0)) [
    | inl nothing ↦
        let zero_rows : n ≡ 0 = ground arith in
        rw nothing (not_there req p bound valid (rw zero_rows at e) (failed-status ip_not_found c))
    | inr some_rows ↦ rw some_rows (deleted req p n bound valid e (λ z. ground arith) refl)
  ]

  -- The DelRule handler deletes what is cached and recorded for the network of an address that
  -- parses, and then the row; it answers 200 exactly if a row was deleted, 400 to a body or an
  -- address that does not parse and where no row was there, and to an error of the database 500,
  -- or 400 if it is one of the program's own for these cases.
  pub del_rule-Deletion :
      (c : Context) (w : W)
      → Deletion c w
          (del_rule (rule_manager pg cache limits) bind c w).0
          (del_rule (rule_manager pg cache limits) bind c w).1
  del_rule-Deletion c w = elim (Result-cases (bind c)) [
    | inr (x, bad) ↦ rejected c w x bad
    | inl (req, bound) ↦ elim (Result-cases (process_ip req.ip)) [
      | inr (x, bad) ↦
          subst (λ out. Deletion c w out.0 out.1)
            (sym (
              handler-eq (rule_manager pg cache limits) bind c w req "" (some x) w bound
                (refused req.ip x w bad)))
            (bad_address req x bound bad (bad-status x c (process_ip-error req.ip x bad)) refl)
      | inl (p, valid) ↦
          let ((n, error), w') = executed p w in
          subst (λ out. Deletion c w out.0 out.1)
            (sym (
              handler-eq (rule_manager pg cache limits) bind c w req (net_string p.ip_net)
                (error_for n error) w' bound (service-eq req.ip p n error w w' valid refl)))
            (replied c w req p n error w' bound valid refl)
    ]
  ]
