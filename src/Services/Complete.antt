-- ===== src/Services/Complete.antt =====
-- The rules that ask OPA name where it is and what to ask it.
use text.Mathlib.TextLemmas.{cons≢nil}
use jinbe.Prelude.{
  ℕ, String, ◌≡◌, refl, subst, inl, inr, true, false, not, ◌&&◌, ◌==◌, eq_iff, Option, none, some,
  List, [], ◌∷◌, Result, ok, All, Bool-cases, Result-cases, or_else, is_blank, arith,
}
use jinbe.Redis.{Redis}
use jinbe.Gateway.{
  OathkeeperRule, Handler, Config, Env, SignInMethod, build_sign_in_authenticators,
  backfill_remote_json_config, build_remote_json_config, derive_service_for_rule, payload_for,
  is_missing, no_config, filled,
}
use jinbe.Services.{CreateServiceOptions, main_rule}
use jinbe.Services.Store.{State}
use jinbe.Services.Operations.{with_options, with_sign_in}
use jinbe.Services.Runs.{Request, run}
use jinbe.Services.Kept.{IsKept, run-All}

-- the configuration of an authorizer has both fields
abbrev pub HasBoth : Option Config → Type 0
HasBoth config =
    (c : Config) × (config ≡ some c)
    × (is_missing c.remote ≡ false)
    × (is_missing c.payload ≡ false)

abbrev pub IsComplete : OathkeeperRule → Type 0
IsComplete r = r.authorizer.handler ≡ "remote_json" → HasBoth r.authorizer.config

not_remote : {A : Type 0} → ◌≡◌ {A = String} "allow" "remote_json" → A
not_remote h = ground (arith, eq_iff "allow" "remote_json")

rule-injective : (a b : OathkeeperRule) → ◌≡◌ {A = Result ℕ OathkeeperRule} (ok a) (ok b) → a ≡ b
rule-injective a b h = cc

payload-is_missing : (service : String) → is_missing (some (payload_for service)) ≡ false
payload-is_missing service = elim (Bool-cases (is_missing (some (payload_for service)))) [
  | inr present ↦ present
  | inl blank ↦ elim (cons≢nil ((eq_iff (payload_for service) "").0 blank)) [ ]
]

complete-HasBoth :
    (config : Option Config)
    → (not (is_missing (or_else config no_config).remote)
        && not (is_missing (or_else config no_config).payload))
      ≡ true
    → HasBoth config
complete-HasBoth none h = cc
complete-HasBoth (some c) h = (c, refl, ground (arith, h), ground (arith, h))

module _ (env : Env) (remote : is_blank env.opa_authz_remote ≡ false) where
  build-HasBoth : (service : String) → HasBoth (some (build_remote_json_config env service))
  unfolding build_remote_json_config
  build-HasBoth service =
      (build_remote_json_config env service, refl, remote, payload-is_missing service)

  filled-HasBoth :
      (c : Config) (service : String)
      → HasBoth (some (filled c (build_remote_json_config env service)))
  unfolding build_remote_json_config
  filled-HasBoth c service =
      let f = filled c (build_remote_json_config env service) in
      (f, refl, ground (arith, remote), ground (arith, payload-is_missing service))

  main-IsComplete :
      (o : CreateServiceOptions) (sign_in : List SignInMethod) (chain : List Handler)
      → IsComplete (main_rule env o sign_in chain)
  main-IsComplete o [] chain h = not_remote h
  main-IsComplete o (m ∷ ms) chain h = build-HasBoth o.name

  sign_in-IsComplete :
      (name : String) (sign_in : Option (List SignInMethod)) (r r' : OathkeeperRule)
      → IsComplete r
      → with_sign_in env name sign_in r ≡ ok r'
      → IsComplete r'
  unfolding with_sign_in
  sign_in-IsComplete name none r r' k e = subst IsComplete (rule-injective _ _ e) k
  sign_in-IsComplete name (some []) r r' k e =
      subst IsComplete (rule-injective _ _ e) (λ h. not_remote h)
  sign_in-IsComplete name (some (m ∷ ms)) r r' k e =
      elim (Result-cases (build_sign_in_authenticators env (m ∷ ms))) [
        | inl (status, b) ↦ cc (rw (with_sign_in, b) at e)
        | inr (chain, b) ↦
            subst IsComplete (rule-injective _ _ (rw (with_sign_in, b) at e))
              (elim (Bool-cases (r.authorizer.handler == "allow")) [
                | inl public ↦ rw public (λ h. build-HasBoth name)
                | inr private ↦ rw private k
              ])
      ]

  backfill-IsComplete :
      (services : List String) (r : OathkeeperRule)
      → IsComplete (backfill_remote_json_config env services r)
  unfolding backfill_remote_json_config
  backfill-IsComplete services r =
      let config = or_else r.authorizer.config no_config in
      let complete = not (is_missing config.remote) && not (is_missing config.payload) in
      elim (Bool-cases (r.authorizer.handler == "remote_json")) [
        | inr other ↦
            rw (backfill_remote_json_config, other)
              (λ h. cc (other, (eq_iff r.authorizer.handler "remote_json").1 h))
        | inl asks ↦ elim (Bool-cases complete) [
          | inl full ↦
              rw (backfill_remote_json_config, asks, full)
                (λ h. complete-HasBoth r.authorizer.config full)
          | inr part ↦
              rw (backfill_remote_json_config, asks, part)
                (λ h. filled-HasBoth config (derive_service_for_rule r.id services))
        ]
      ]

  IsComplete-IsKept : IsKept env IsComplete
  IsComplete-IsKept = record {
    kept_main = λ o sign_in chain e. main-IsComplete o sign_in chain;
    kept_health = λ o h. not_remote h;
    kept_sign_in = λ name o r r' k e. sign_in-IsComplete name o.sign_in (with_options o r) r' k e;
    kept_rule = λ id services r e. backfill-IsComplete services (record r { id = id });
  }

-- No sequence of requests to create, change and delete services, access rules and the services of
-- organisations stores a rule that asks OPA (`remote_json`) without saying where it is and what to ask
-- it, if there was none at the start and the address of OPA is not blank. What a request leaves out is
-- filled in, also by a change of the sign-in methods. The import of a bundle is not among these requests.
pub run-IsComplete :
    (env : Env) (redis : Redis)
    → is_blank env.opa_authz_remote ≡ false
    → (rs : List Request) (s : State redis) → All IsComplete s.rules
    → All IsComplete (run env redis rs s).rules
run-IsComplete env redis remote rs s h = run-All _ env redis (IsComplete-IsKept env remote) rs s h
