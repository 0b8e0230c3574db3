-- ===== src/Services/Enabled.antt =====
-- The gateway refuses a whole ruleset for one handler that it has not enabled.
use jinbe.Prelude.{
  ℕ, String, ◌≡◌, refl, ap, subst, sym, ◌∙◌, inl, inr, Bool, true, not, ◌&&◌, ◌==◌, Option, none,
  some, List, [], ◌∷◌, ◌++◌, Result, ok, All, Bool-cases, Result-cases, or_else, is_empty, all,
  arith,
}
use jinbe.Redis.{Redis}
use jinbe.Gateway.{
  OathkeeperRule, Handler, HandlerKind, authenticator, authorizer, mutator, error, Env,
  SignInMethod, handlers_enabled, is_handler_enabled, stages_of, build_sign_in_authenticators,
  backfill_remote_json_config, sign_in_chain, is_missing, no_config,
}
use jinbe.Services.{CreateServiceOptions, main_rule, health_rule}
use jinbe.Services.Store.{State}
use jinbe.Services.Operations.{with_options, with_sign_in}
use jinbe.Services.Runs.{Request, run}
use jinbe.Services.Kept.{IsKept, run-All}

-- The handlers of the rules that the service builds are enabled.
pub record EnablesDefaults (env : Env) : Type 0 where
  pub noop_authenticator : is_handler_enabled env authenticator "noop" ≡ true
  pub allow_authorizer : is_handler_enabled env authorizer "allow" ≡ true
  pub remote_authorizer : is_handler_enabled env authorizer "remote_json" ≡ true
  pub noop_mutator : is_handler_enabled env mutator "noop" ≡ true
  pub header_mutator : is_handler_enabled env mutator "header" ≡ true

ok-injective : (a b : List Handler) → ◌≡◌ {A = Result ℕ (List Handler)} (ok a) (ok b) → a ≡ b
ok-injective a b h = cc

rule-injective : (a b : OathkeeperRule) → ◌≡◌ {A = Result ℕ OathkeeperRule} (ok a) (ok b) → a ≡ b
rule-injective a b h = cc

module _ (env : Env) where
  abbrev enabled_stage : HandlerKind × String → Bool
  enabled_stage (kind, name) = is_handler_enabled env kind name

  abbrev enabled : HandlerKind → List Handler → Bool
  enabled kind hs = all (λ (h : Handler). is_handler_enabled env kind h.handler) hs

  all-append :
      (xs ys : List (HandlerKind × String))
      → all enabled_stage (xs ++ ys) ≡ (all enabled_stage xs && all enabled_stage ys)
  all-append [] ys = refl
  all-append (x ∷ xs) ys = ground (arith, all-append xs ys)

  all-stages_of :
      (kind : HandlerKind) (hs : List Handler)
      → all enabled_stage (stages_of kind hs) ≡ enabled kind hs
  all-stages_of kind [] = refl
  all-stages_of kind (h ∷ hs) =
      ap (λ b. is_handler_enabled env kind h.handler && b) (all-stages_of kind hs)

  -- the stages of a rule are enabled if those of each kind are
  handlers_enabled-by_kind :
      (r : OathkeeperRule)
      → handlers_enabled env r ≡ (
          (enabled authenticator r.authenticators
            && (is_handler_enabled env authorizer r.authorizer.handler
                && enabled mutator r.mutators))
          && enabled error (or_else r.errors []))
  unfolding handlers_enabled
  handlers_enabled-by_kind r =
      let a = stages_of authenticator r.authenticators in
      let m = stages_of mutator r.mutators in
      let e = stages_of error (or_else r.errors []) in
      let x = is_handler_enabled env authorizer r.authorizer.handler in
      all-append (a ++ (authorizer, r.authorizer.handler) ∷ m) e
      ∙ ap (λ b. b && all enabled_stage e) (all-append a ((authorizer, r.authorizer.handler) ∷ m))
      ∙ ap (λ b. (b && (x && all enabled_stage m)) && all enabled_stage e)
          (all-stages_of authenticator r.authenticators)
      ∙ ap (λ b. (enabled authenticator r.authenticators && (x && b)) && all enabled_stage e)
          (all-stages_of mutator r.mutators)
      ∙ ap (λ b. (enabled authenticator r.authenticators && (x && enabled mutator r.mutators)) && b)
          (all-stages_of error (or_else r.errors []))

  build-enabled :
      EnablesDefaults env
      → (sign_in : List SignInMethod) (chain : List Handler)
      → build_sign_in_authenticators env sign_in ≡ ok chain
      → enabled authenticator chain ≡ true
  unfolding build_sign_in_authenticators
  build-enabled d [] chain h =
      subst (λ c. enabled authenticator c ≡ true) (ok-injective _ _ h)
        (ground (arith, d.noop_authenticator))
  build-enabled d (m ∷ ms) chain h =
      elim (Bool-cases (enabled authenticator (sign_in_chain (m ∷ ms)))) [
        | inl good ↦
            subst (λ c. enabled authenticator c ≡ true)
              (ok-injective _ _ (rw (build_sign_in_authenticators, good) at h)) good
        | inr bad ↦ cc (rw (build_sign_in_authenticators, bad) at h)
      ]

  backfill-handlers_enabled :
      (id : String) (services : List String) (r : OathkeeperRule)
      → handlers_enabled env (backfill_remote_json_config env services (record r { id = id }))
        ≡ handlers_enabled env r
  unfolding backfill_remote_json_config handlers_enabled
  backfill-handlers_enabled id services r =
      let config = or_else r.authorizer.config no_config in
      let complete = not (is_missing config.remote) && not (is_missing config.payload) in
      elim (Bool-cases (r.authorizer.handler == "remote_json")) [
        | inr other ↦ rw (backfill_remote_json_config, other) refl
        | inl remote ↦ elim (Bool-cases complete) [
          | inl full ↦ rw (backfill_remote_json_config, remote, full) refl
          | inr part ↦ rw (backfill_remote_json_config, remote, part) refl
        ]
      ]

  main-enabled :
      EnablesDefaults env
      → (o : CreateServiceOptions) (sign_in : List SignInMethod) (chain : List Handler)
      → build_sign_in_authenticators env sign_in ≡ ok chain
      → handlers_enabled env (main_rule env o sign_in chain) ≡ true
  main-enabled d o sign_in chain h =
      let c = build-enabled d sign_in chain h in
      let split = handlers_enabled-by_kind (main_rule env o sign_in chain) in
      elim (Bool-cases (is_empty sign_in)) [
        | inl public ↦ split ∙ rw (public, c) (ground (arith, d.allow_authorizer, d.noop_mutator))
        | inr private ↦
            split ∙ rw (private, c) (ground (arith, d.remote_authorizer, d.header_mutator))
      ]

  sign_in-enabled :
      EnablesDefaults env
      → (name : String) (sign_in : Option (List SignInMethod)) (r r' : OathkeeperRule)
      → handlers_enabled env r ≡ true
      → with_sign_in env name sign_in r ≡ ok r'
      → handlers_enabled env r' ≡ true
  unfolding with_sign_in
  sign_in-enabled d name none r r' e h =
      subst (λ x. handlers_enabled env x ≡ true) (rule-injective _ _ h) e
  sign_in-enabled d name (some []) r r' e h =
      let parts = sym (handlers_enabled-by_kind r) ∙ e in
      subst (λ x. handlers_enabled env x ≡ true) (rule-injective _ _ h)
        (handlers_enabled-by_kind _
          ∙ ground (arith, parts, d.noop_authenticator, d.allow_authorizer, d.noop_mutator))
  sign_in-enabled d name (some (m ∷ ms)) r r' e h =
      let parts = sym (handlers_enabled-by_kind r) ∙ e in
      elim (Result-cases (build_sign_in_authenticators env (m ∷ ms))) [
        | inl (status, b) ↦ cc (rw (with_sign_in, b) at h)
        | inr (chain, b) ↦
            subst (λ x. handlers_enabled env x ≡ true)
              (rule-injective _ _ (rw (with_sign_in, b) at h))
              (handlers_enabled-by_kind _
                ∙ ground (
                  arith,
                  parts,
                  build-enabled d (m ∷ ms) chain b,
                  d.remote_authorizer,
                  d.header_mutator,
                ))
      ]

  enabled-IsKept : EnablesDefaults env → IsKept env (λ r. handlers_enabled env r ≡ true)
  enabled-IsKept d = record {
    kept_main = main-enabled d;
    kept_health = λ o.
        handlers_enabled-by_kind (health_rule env o)
        ∙ ground (arith, d.noop_authenticator, d.allow_authorizer, d.noop_mutator);
    kept_sign_in = λ name o r r' e h.
        sign_in-enabled d name o.sign_in (with_options o r) r'
          (handlers_enabled-by_kind (with_options o r) ∙ sym (handlers_enabled-by_kind r) ∙ e) h;
    kept_rule = λ id services r e. backfill-handlers_enabled id services r ∙ e;
  }

-- If the gateway has enabled the handlers of the rules that the service builds, no sequence of
-- requests stores a rule with a handler that it has not enabled: all rules pass the test of
-- `assertHandlersEnabled`, if all did at the start, though the service tests only the rules of an
-- administrator.
pub run-enabled :
    (env : Env) (redis : Redis)
    → EnablesDefaults env
    → (rs : List Request) (s : State redis) → All (λ r. handlers_enabled env r ≡ true) s.rules
    → All (λ r. handlers_enabled env r ≡ true) (run env redis rs s).rules
run-enabled env redis d rs s h = run-All _ env redis (enabled-IsKept env d) rs s h
