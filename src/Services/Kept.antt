-- ===== src/Services/Kept.antt =====
-- What holds of every rule that an operation writes holds of all stored rules.
use jinbe.Prelude.{
  all, String, ◌≡◌, subst, inl, inr, Bool, true, ◌==◌, some, List, [], ◌∷◌, ok, All, All-append,
  Bool-cases, Option-cases, Result-cases, or_else, is_some, truthy, find?,
}
use mathlib.Core.Option.{some-injective}
use jinbe.Redis.{Redis}
use jinbe.Rbac.{FlatRolesMap, RouteRule}
use jinbe.Gateway.{
  OathkeeperRule, Handler, Env, SignInMethod, cookie, handlers_enabled,
  build_sign_in_authenticators, backfill_remote_json_config,
}
use jinbe.Services.{
  CreateServiceOptions, UpdateServiceOptions, health_id, main_rule, health_rule, has_rule,
  add_access_rule, replace_rule, update_access_rule, without_rule, add_if_absent,
}
use jinbe.Services.Store.{State, service_exists, is_system_service}
use jinbe.Services.Operations.{
  with_options, with_sign_in, write_service, create_service, erase_service, delete_service,
  update_service_config, update_service_routes, update_service_roles, create_access_rule,
  replace_access_rule, delete_access_rule, set_org_service_mapping, delete_org_service_mapping,
}
use jinbe.Services.Runs.{
  Request, create, delete, configure, set_routes, set_roles, create_rule, replace_rule_of,
  delete_rule, map_org, unmap_org, perform, run,
}

-- `P` holds of every rule that an operation writes.
pub record IsKept (env : Env) (P : OathkeeperRule → Type 0) : Type 0 where
  pub kept_main :
      (o : CreateServiceOptions) (sign_in : List SignInMethod) (chain : List Handler)
      → build_sign_in_authenticators env sign_in ≡ ok chain
      → P (main_rule env o sign_in chain)
  pub kept_health : (o : CreateServiceOptions) → P (health_rule env o)
  pub kept_sign_in :
      (name : String) (o : UpdateServiceOptions) (r r' : OathkeeperRule)
      → P r
      → with_sign_in env name o.sign_in (with_options o r) ≡ ok r'
      → P r'
  pub kept_rule :
      (id : String) (services : List String) (r : OathkeeperRule)
      → handlers_enabled env r ≡ true
      → P (backfill_remote_json_config env services (record r { id = id }))

module _ (P : OathkeeperRule → Type 0) where
  add_if_absent-All :
      (rules : List OathkeeperRule) (r : OathkeeperRule)
      → All P rules
      → P r
      → All P (add_if_absent rules r)
  unfolding add_access_rule
  add_if_absent-All rules r h p = elim (Bool-cases (has_rule r.id rules)) [
    | inl there ↦ rw (add_access_rule, there) h
    | inr new ↦ rw (add_access_rule, new) (All-append P rules (r ∷ []) h (p, tt))
  ]

  replace_rule-All :
      (id : String) (r : OathkeeperRule) (rules : List OathkeeperRule)
      → All P rules
      → P r
      → All P (replace_rule id r rules)
  replace_rule-All id r [] h p = tt
  replace_rule-All id r (x ∷ xs) (q, h) p = elim (Bool-cases (x.id == id)) [
    | inl here ↦ rw here (p, h)
    | inr later ↦ rw later (q, replace_rule-All id r xs h p)
  ]

  without_rule-All :
      (id : String) (rules : List OathkeeperRule) → All P rules → All P (without_rule id rules)
  without_rule-All id [] h = tt
  without_rule-All id (x ∷ xs) (q, h) = elim (Bool-cases (x.id == id)) [
    | inl here ↦ rw here (without_rule-All id xs h)
    | inr later ↦ rw later (q, without_rule-All id xs h)
  ]

  find?-All :
      (p : OathkeeperRule → Bool) (rules : List OathkeeperRule) (r : OathkeeperRule)
      → All P rules
      → find? p rules ≡ some r
      → P r
  find?-All p [] r h e = cc
  find?-All p (x ∷ xs) r (q, h) e = elim (Bool-cases (p x)) [
    | inl here ↦ subst P (some-injective x r (rw here at e)) q
    | inr later ↦ find?-All p xs r h (rw later at e)
  ]

  module _ (env : Env) (redis : Redis) (kept : IsKept env P) (s : State redis)
      (h : All P s.rules) where
    create_service-All : (o : CreateServiceOptions) → All P (create_service env redis o s).1.rules
    unfolding create_service write_service
    create_service-All o = elim (Bool-cases (service_exists redis s o.name)) [
      | inl there ↦ rw (create_service, there) h
      | inr new ↦
          elim (Result-cases (build_sign_in_authenticators env (or_else o.sign_in (cookie ∷ [])))) [
            | inl (status, e) ↦ rw (create_service, new, e) h
            | inr (chain, e) ↦
                let main = add_if_absent-All s.rules _ h (kept.kept_main o _ chain e) in
                elim (Bool-cases (is_some (truthy o.match_url))) [
                  | inl custom ↦ rw (create_service, new, e, write_service, custom) main
                  | inr plain ↦
                      rw (create_service, new, e, write_service, plain)
                        (add_if_absent-All _ _ main (kept.kept_health o))
                ]
          ]
    ]

    delete_service-All : (name : String) → All P (delete_service env redis name s).1.rules
    unfolding delete_service erase_service
    delete_service-All name = elim (Bool-cases (service_exists redis s name)) [
      | inr missing ↦ rw (delete_service, missing) h
      | inl there ↦ elim (Bool-cases (is_system_service redis s name)) [
        | inl system ↦ rw (delete_service, there, system) h
        | inr free ↦
            rw (delete_service, there, free, erase_service)
              (without_rule-All (health_id name) _ (without_rule-All name s.rules h))
      ]
    ]

    update_service_config-All :
        (name : String) (o : UpdateServiceOptions)
        → All P (update_service_config env redis name o s).1.rules
    unfolding update_service_config
    update_service_config-All name o = elim (Bool-cases (service_exists redis s name)) [
      | inr missing ↦ rw (update_service_config, missing) h
      | inl there ↦ elim (Option-cases (find? (λ (r : OathkeeperRule). r.id == name) s.rules)) [
        | inl absent ↦ rw (update_service_config, there, absent) h
        | inr (r, e) ↦ elim (Result-cases (with_sign_in env name o.sign_in (with_options o r))) [
          | inl (status, f) ↦ rw (update_service_config, there, e, f) h
          | inr (r', f) ↦
              rw (update_service_config, there, e, f)
                (replace_rule-All name r' s.rules h
                  (kept.kept_sign_in name o r r' (find?-All _ s.rules r h e) f))
        ]
      ]
    ]

    update_service_routes-All :
        (name : String) (rules : List RouteRule)
        → All P (update_service_routes env redis name rules s).1.rules
    unfolding update_service_routes
    update_service_routes-All name rules = elim (Bool-cases (service_exists redis s name)) [
      | inr missing ↦ rw (update_service_routes, missing) h
      | inl there ↦ rw (update_service_routes, there) h
    ]

    update_service_roles-All :
        (name : String) (roles : FlatRolesMap)
        → All P (update_service_roles env redis name roles s).1.rules
    unfolding update_service_roles
    update_service_roles-All name roles = elim (Bool-cases (service_exists redis s name)) [
      | inr missing ↦ rw (update_service_roles, missing) h
      | inl there ↦ rw (update_service_roles, there) h
    ]

    create_access_rule-All : (r : OathkeeperRule) → All P (create_access_rule env redis r s).1.rules
    unfolding create_access_rule add_access_rule
    create_access_rule-All r =
        let complete = backfill_remote_json_config env (redis.smembers s.services) r in
        elim (Bool-cases (handlers_enabled env r)) [
          | inr bad ↦ rw (create_access_rule, bad) h
          | inl good ↦ elim (Bool-cases (has_rule complete.id s.rules)) [
            | inl there ↦ rw (create_access_rule, good, add_access_rule, there) h
            | inr new ↦
                rw (create_access_rule, good, add_access_rule, new)
                  (All-append P s.rules (complete ∷ []) h (kept.kept_rule r.id _ r good, tt))
          ]
        ]

    replace_access_rule-All :
        (id : String) (r : OathkeeperRule) → All P (replace_access_rule env redis id r s).1.rules
    unfolding replace_access_rule update_access_rule
    replace_access_rule-All id r = elim (Bool-cases (handlers_enabled env r)) [
      | inr bad ↦ rw (replace_access_rule, bad) h
      | inl good ↦ elim (Bool-cases (has_rule id s.rules)) [
        | inr missing ↦ rw (replace_access_rule, good, update_access_rule, missing) h
        | inl there ↦
            rw (replace_access_rule, good, update_access_rule, there)
              (replace_rule-All id _ s.rules h (kept.kept_rule id _ r good))
      ]
    ]

    delete_access_rule-All : (id : String) → All P (delete_access_rule env redis id s).1.rules
    unfolding delete_access_rule
    delete_access_rule-All id = elim (Bool-cases (has_rule id s.rules)) [
      | inr missing ↦ rw (delete_access_rule, missing) h
      | inl there ↦ rw (delete_access_rule, there) (without_rule-All id s.rules h)
    ]

    set_org_service_mapping-All :
        (o : String) (services : List String)
        → All P (set_org_service_mapping env redis o services s).1.rules
    unfolding set_org_service_mapping
    set_org_service_mapping-All o services =
        elim (Bool-cases (all (service_exists redis s) services)) [
          | inr phantom ↦ rw (set_org_service_mapping, phantom) h
          | inl there ↦ rw (set_org_service_mapping, there) h
        ]

    delete_org_service_mapping-All :
        (o : String) → All P (delete_org_service_mapping env redis o s).1.rules
    unfolding delete_org_service_mapping
    delete_org_service_mapping-All o =
        elim (Bool-cases (is_some (redis.hget (List String) s.org_services o))) [
          | inr missing ↦ rw (delete_org_service_mapping, missing) h
          | inl there ↦ rw (delete_org_service_mapping, there) h
        ]

    perform-All : (r : Request) → All P (perform env redis r s).1.rules
    perform-All (create o) = create_service-All o
    perform-All (delete name) = delete_service-All name
    perform-All (configure name o) = update_service_config-All name o
    perform-All (set_routes name rules) = update_service_routes-All name rules
    perform-All (set_roles name roles) = update_service_roles-All name roles
    perform-All (create_rule r) = create_access_rule-All r
    perform-All (replace_rule_of id r) = replace_access_rule-All id r
    perform-All (delete_rule id) = delete_access_rule-All id
    perform-All (map_org o services) = set_org_service_mapping-All o services
    perform-All (unmap_org o) = delete_org_service_mapping-All o

  pub run-All :
      (env : Env) (redis : Redis)
      → IsKept env P
      → (rs : List Request) (s : State redis) → All P s.rules
      → All P (run env redis rs s).rules
  unfolding run
  run-All env redis kept [] s h = h
  run-All env redis kept (r ∷ rs) s h =
      run-All env redis kept rs (perform env redis r s).1 (perform-All env redis kept s h r)
