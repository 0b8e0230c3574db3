-- ===== src/Services/Posture.antt =====
-- The sign-in methods of a service, and what they make of its rule.
use jinbe.Prelude.{
  all, ℕ, String, ◌≡◌, refl, ap, subst, sym, ◌∙◌, inl, inr, Bool, true, false, ◌==◌, Option, none,
  some, List, [], ◌∷◌, ◌++◌, ◌||◌, ◌&&◌, arith, Result, ok, Bool-cases, Option-cases, Result-cases,
  find?, find?-passes, any, if◌then◌else◌,
}
use jinbe.Redis.{Redis}
use jinbe.Gateway.{
  is_handler_enabled, authenticator, cookie, bearer, introspection, is_cookie, is_bearer,
  is_introspection, when, x_session_token, OathkeeperRule, Handler, Env, SignInMethod, plain,
  sign_in_chain, build_sign_in_authenticators,
}
use jinbe.Services.{UpdateServiceOptions, replace_rule}
use jinbe.Services.Store.{State, Outcome, service_exists}
use jinbe.Services.Operations.{with_options, with_sign_in, is_header, update_service_config}

abbrev pub is_named : String → Handler → Bool
is_named h x = x.handler == h

-- The authenticator is that of one of the methods.
abbrev pub asked_for : List SignInMethod → String → Bool
asked_for [] h = false
asked_for (cookie ∷ ms) h = "cookie_session" == h || asked_for ms h
asked_for (bearer ∷ ms) h = "bearer_token" == h || asked_for ms h
asked_for (introspection ∷ ms) h = "oauth2_introspection" == h || asked_for ms h

-- The authenticators are those of the methods and no others, so that a request passes only with a
-- credential of one of them, and with the consent of an authorizer that is not the one that allows all;
-- and the service is told who asks.
pub record IsProtected (methods : List SignInMethod) (r : OathkeeperRule) : Type 0 where
  pub credentials : (h : String) → any (is_named h) r.authenticators ≡ asked_for methods h
  pub not_allow_all : (r.authorizer.handler == "allow") ≡ false
  pub identity_header : any is_header r.mutators ≡ true

-- Everyone passes, and the service is told nothing.
pub record IsPublic (r : OathkeeperRule) : Type 0 where
  pub no_authentication : r.authenticators ≡ plain "noop" ∷ []
  pub allow_all : r.authorizer ≡ plain "allow"
  pub no_header : r.mutators ≡ plain "noop" ∷ []

-- what is asked for: nothing, a public service, or methods
abbrev pub HasPosture : Option (List SignInMethod) → OathkeeperRule → OathkeeperRule → Type 0
HasPosture none before r =
    (r.authenticators ≡ before.authenticators)
    × (r.authorizer ≡ before.authorizer)
    × (r.mutators ≡ before.mutators)
HasPosture (some []) before r = IsPublic r
HasPosture (some (m ∷ ms)) before r = IsProtected (m ∷ ms) r

rule-injective : (a b : OathkeeperRule) → ◌≡◌ {A = Result ℕ OathkeeperRule} (ok a) (ok b) → a ≡ b
rule-injective a b h = cc

chain-injective : (a b : List Handler) → ◌≡◌ {A = Result ℕ (List Handler)} (ok a) (ok b) → a ≡ b
chain-injective a b h = cc

abbrev pub has_id : String → OathkeeperRule → Bool
has_id id r = r.id == id

find?-replace_rule :
    (id : String) (r e : OathkeeperRule) (rules : List OathkeeperRule)
    → (r.id == id) ≡ true
    → find? (has_id id) rules ≡ some e
    → find? (has_id id) (replace_rule id r rules) ≡ some r
find?-replace_rule id r e [] same h = cc
find?-replace_rule id r e (x ∷ xs) same h = elim (Bool-cases (x.id == id)) [
  | inl here ↦ rw (here, same) refl
  | inr later ↦ rw (later, later) (find?-replace_rule id r e xs same (rw later at h))
]

asks-not_allow :
    (a c : Handler)
    → (c.handler == "allow") ≡ false
    → ((if a.handler == "allow" then c else a).handler == "allow") ≡ false
asks-not_allow a c k = elim (Bool-cases (a.handler == "allow")) [ inl e ↦ rw e k | inr e ↦ rw e e ]

keeps-header :
    (ms : List Handler)
    → any is_header (if any is_header ms then ms else plain "header" ∷ []) ≡ true
keeps-header ms = elim (Bool-cases (any is_header ms)) [ inl e ↦ rw e e | inr e ↦ rw e refl ]

any-chained :
    (h : String) (xs ys : List Handler)
    → any (is_named h) (xs ++ ys) ≡ (any (is_named h) xs || any (is_named h) ys)
any-chained h [] ys = refl
any-chained h (x ∷ xs) ys = ap (λ b. is_named h x || b) (any-chained h xs ys) ∙ ground arith

any-when :
    (h : String) (b : Bool) (x : Handler) → any (is_named h) (when b x) ≡ (b && x.handler == h)
any-when h true x = ground arith
any-when h false x = refl

abbrev one_of : Bool → Bool → Bool → Bool → Bool → Bool → Bool
one_of a b c x y z = ((a && x) || (b && y)) || (c && z)

one_of-first : (a b c x y z r : Bool) → one_of a b c x y z ≡ r → one_of true b c x y z ≡ (x || r)
one_of-first a b c x y z r h = ground (arith, h)

one_of-second : (a b c x y z r : Bool) → one_of a b c x y z ≡ r → one_of a true c x y z ≡ (y || r)
one_of-second a b c x y z r h = ground (arith, h)

one_of-third : (a b c x y z r : Bool) → one_of a b c x y z ≡ r → one_of a b true x y z ≡ (z || r)
one_of-third a b c x y z r h = ground (arith, h)

abbrev asked_by : List SignInMethod → String → Bool
asked_by ms h =
    one_of (any is_cookie ms) (any is_bearer ms) (any is_introspection ms) ("cookie_session" == h)
      ("bearer_token" == h) ("oauth2_introspection" == h)

asked_by-asked_for : (h : String) (ms : List SignInMethod) → asked_by ms h ≡ asked_for ms h
asked_by-asked_for h [] = refl
asked_by-asked_for h (cookie ∷ ms) =
    one_of-first (any is_cookie ms) (any is_bearer ms) (any is_introspection ms) _ _ _ _
      (asked_by-asked_for h ms)
asked_by-asked_for h (bearer ∷ ms) =
    one_of-second (any is_cookie ms) (any is_bearer ms) (any is_introspection ms) _ _ _ _
      (asked_by-asked_for h ms)
asked_by-asked_for h (introspection ∷ ms) =
    one_of-third (any is_cookie ms) (any is_bearer ms) (any is_introspection ms) _ _ _ _
      (asked_by-asked_for h ms)

any-sign_in_chain :
    (h : String) (ms : List SignInMethod) → any (is_named h) (sign_in_chain ms) ≡ asked_for ms h
any-sign_in_chain h ms =
    let config = if any is_introspection ms then some x_session_token else none in
    let bearer_handler : Handler = record { handler = "bearer_token"; config = config } in
    let first = when (any is_cookie ms) (plain "cookie_session") in
    let second = when (any is_bearer ms) bearer_handler in
    let third = when (any is_introspection ms) (plain "oauth2_introspection") in
    any-chained h (first ++ second) third
    ∙ ap (λ b. b || any (is_named h) third) (any-chained h first second)
    ∙ ap (λ b. (b || any (is_named h) second) || any (is_named h) third)
        (any-when h (any is_cookie ms) (plain "cookie_session"))
    ∙ ap (λ b. ((any is_cookie ms && "cookie_session" == h) || b) || any (is_named h) third)
        (any-when h (any is_bearer ms) bearer_handler)
    ∙ ap
        (λ b.
          ((any is_cookie ms && "cookie_session" == h) || (any is_bearer ms && "bearer_token" == h))
          || b)
        (any-when h (any is_introspection ms) (plain "oauth2_introspection"))
    ∙ asked_by-asked_for h ms

module _ (env : Env) where
  build-chain :
      (m : SignInMethod) (ms : List SignInMethod) (chain : List Handler)
      → build_sign_in_authenticators env (m ∷ ms) ≡ ok chain
      → chain ≡ sign_in_chain (m ∷ ms)
  unfolding build_sign_in_authenticators
  build-chain m ms chain h =
      elim (Bool-cases (
        all (λ (x : Handler). is_handler_enabled env authenticator x.handler)
          (sign_in_chain (m ∷ ms)))) [
            | inl good ↦ sym (chain-injective _ _ (rw (build_sign_in_authenticators, good) at h))
            | inr bad ↦ cc (rw (build_sign_in_authenticators, bad) at h)
          ]

  with_sign_in-HasPosture :
      (name : String) (sign_in : Option (List SignInMethod)) (r r' : OathkeeperRule)
      → with_sign_in env name sign_in r ≡ ok r'
      → HasPosture sign_in r r' × (r'.id ≡ r.id)
  unfolding with_sign_in
  with_sign_in-HasPosture name none r r' h =
      subst (λ x. HasPosture none r x × (x.id ≡ r.id)) (rule-injective _ _ h)
        ((refl, refl, refl), refl)
  with_sign_in-HasPosture name (some []) r r' h =
      subst (λ x. IsPublic x × (x.id ≡ r.id)) (rule-injective _ _ h)
        (record { no_authentication = refl; allow_all = refl; no_header = refl }, refl)
  with_sign_in-HasPosture name (some (m ∷ ms)) r r' h =
      elim (Result-cases (build_sign_in_authenticators env (m ∷ ms))) [
        | inl (status, b) ↦ cc (rw (with_sign_in, b) at h)
        | inr (chain, b) ↦
            subst (λ x. IsProtected (m ∷ ms) x × (x.id ≡ r.id))
              (rule-injective _ _ (rw (with_sign_in, b) at h))
              (
                record {
                  credentials = λ h.
                      ap (any (is_named h)) (build-chain m ms chain b)
                      ∙ any-sign_in_chain h (m ∷ ms);
                  not_allow_all = asks-not_allow r.authorizer _ refl;
                  identity_header = keeps-header r.mutators;
                },
                refl,
              )
      ]

  -- the address and the methods of HTTP are no part of the posture
  with_options-HasPosture :
      (sign_in : Option (List SignInMethod)) (o : UpdateServiceOptions) (e r : OathkeeperRule)
      → HasPosture sign_in (with_options o e) r
      → HasPosture sign_in e r
  with_options-HasPosture none o e r h = h
  with_options-HasPosture (some []) o e r h = h
  with_options-HasPosture (some (m ∷ ms)) o e r h = h

  -- A change of a service that succeeds leaves its rule with the posture that was asked for. With
  -- sign-in methods, the authenticators are those of the methods and no others, so that each request
  -- needs one of their credentials, and it needs the consent of an authorizer
  -- that does not allow all, also if the service was public before; with none, everyone passes; and
  -- if no methods are named, the rule keeps its posture.
  pub update_service_config-HasPosture :
      (redis : Redis) (name : String) (o : UpdateServiceOptions) (s s' : State redis)
      → update_service_config env redis name o s ≡ (ok tt, s')
      → (before : OathkeeperRule) × (r : OathkeeperRule) × (find? (has_id name) s.rules
          ≡ some before)
        × (find? (has_id name) s'.rules ≡ some r)
        × HasPosture o.sign_in before r
  unfolding update_service_config
  update_service_config-HasPosture redis name o s s' h =
      elim (Bool-cases (service_exists redis s name)) [
        | inr missing ↦ cc (rw (update_service_config, missing) at h)
        | inl there ↦ elim (Option-cases (find? (has_id name) s.rules)) [
          | inl no_rule ↦ cc (rw (update_service_config, there, no_rule) at h)
          | inr (e, f) ↦ elim (Result-cases (with_sign_in env name o.sign_in (with_options o e))) [
            | inl (status, g) ↦ cc (rw (update_service_config, there, f, g) at h)
            | inr (r, g) ↦
                let (posture, same) =
                  with_sign_in-HasPosture name o.sign_in (with_options o e) r g in
                let id : (r.id == name) ≡ true =
                  ap (λ x. x == name) same ∙ find?-passes (has_id name) s.rules e f in
                let rules : replace_rule name r s.rules ≡ s'.rules =
                  ap (λ (x : Outcome redis). x.1.rules)
                    (rw (update_service_config, there, f, g) at h) in
                (
                  e,
                  r,
                  f,
                  ap (find? (has_id name)) (sym rules) ∙ find?-replace_rule name r e s.rules id f,
                  with_options-HasPosture o.sign_in o e r posture,
                )
          ]
        ]
      ]
