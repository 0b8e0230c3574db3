-- ===== src/Middleware/Credentials.antt =====
-- Whose context the hooks of src/server.ts hand on.
use jinbe.Prelude.{
  String, ◌≡◌, refl, sym, inl, inr, ◌⊎◌, false, ◌&&◌, ◌||◌, ◌==◌, Bool-cases, Option, Option-cases,
  none, some, Result-cases, ok, truthy,
}
use mathlib.Core.Option.{some-injective}
use jinbe.Access.{identified}
use jinbe.Middleware.{
  Environment, Incoming, Extracted, UserContext, K8sPrincipal, ValidatedSession, extract_cookie,
  extract_identity, machine_context, session_context, is_public_route, require_auth, caller,
}

truthy-some : (o : Option String) (s : String) → truthy o ≡ some s → o ≡ some s
truthy-some none s h = cc
truthy-some (some t) s h = elim (Bool-cases (t == "")) [
  | inl e ↦ cc (rw e at h)
  | inr e ↦ rw e at h
]

identified-some : (o : Option String) (e : String) → identified o ≡ some e → o ≡ some e
identified-some none e h = cc
identified-some (some t) e h = elim (Bool-cases (t == "" || t == "unknown")) [
  | inl b ↦ cc (rw b at h)
  | inr b ↦ rw b at h
]

module _ (env : Environment) where
  -- The context is that of a token that the API server accepts, or of a cookie that Kratos accepts.
  abbrev pub OfMachine : Incoming → UserContext → Type 0
  OfMachine r c =
      (token : String) × (p : K8sPrincipal) × (r.bearer ≡ some token)
      × (env.review_token token ≡ some p)
      × (c ≡ machine_context env p)

  abbrev pub OfSession : Incoming → UserContext → Type 0
  OfSession r c =
      (cookie : String) × (s : ValidatedSession) × (r.session_cookie ≡ some cookie)
      × (env.validate_session cookie ≡ ok s)
      × (c ≡ session_context env s)

  extract_cookie-OfSession :
      (r : Incoming) (error : Option String) (c : UserContext)
      → (extract_cookie env error r.session_cookie).user_context ≡ some c
      → OfSession r c
  unfolding extract_cookie
  extract_cookie-OfSession r error c h = elim (Option-cases (truthy r.session_cookie)) [
    | inl e ↦ cc (rw (e, extract_cookie) at h)
    | inr (cookie, e) ↦ elim (Result-cases (env.validate_session cookie)) [
      | inl (why, refused) ↦ cc (rw (e, extract_cookie, refused) at h)
      | inr (s, valid) ↦ (
        cookie,
        s,
        truthy-some r.session_cookie cookie e,
        valid,
        sym (some-injective _ c (rw (e, extract_cookie, valid) at h)),
      )
    ]
  ]

  pub extract_identity-credential :
      (r : Incoming) (c : UserContext)
      → env.dev_bypass ≡ false
      → (extract_identity env r).user_context ≡ some c
      → OfMachine r c ⊎ OfSession r c
  unfolding extract_identity
  extract_identity-credential r c d h = elim (Option-cases (truthy r.bearer)) [
    | inl e ↦ inr (extract_cookie-OfSession r none c (rw (d, e, extract_identity) at h))
    | inr (token, e) ↦
        elim (Bool-cases (env.sa_auth_enabled && env.looks_like_service_account_token token)) [
          | inr other ↦
              inr (extract_cookie-OfSession r none c (rw (d, e, extract_identity, other) at h))
          | inl looked ↦ elim (Option-cases (env.review_token token)) [
            | inl refused ↦
                inr (
                  extract_cookie-OfSession r _ c
                    (rw (d, e, extract_identity, looked, refused) at h))
            | inr (p, accepted) ↦ inl (
              token,
              p,
              truthy-some r.bearer token e,
              accepted,
              sym (some-injective _ c (rw (d, e, extract_identity, looked, accepted) at h)),
            )
          ]
        ]
  ]

  pub require_auth-context :
      (path : String) (x : Extracted) (c : Option UserContext)
      → require_auth env path x ≡ ok c
      → c ≡ x.user_context
  unfolding require_auth
  require_auth-context path x c h = elim (Bool-cases (is_public_route env path)) [
    | inl e ↦ cc (rw e at h)
    | inr e ↦ elim (Option-cases x.user_context) [
      | inl missing ↦ cc (rw (e, missing) at h)
      | inr (u, there) ↦ elim (Bool-cases (u.email == "unknown")) [
        | inl unknown ↦ cc (rw (e, there, unknown) at h)
        | inr known ↦ cc (rw (e, there, known) at h, there)
      ]
    ]
  ]

  pub caller-some :
      (c : Option UserContext) (email : String)
      → caller env c ≡ some email
      → (u : UserContext) × (c ≡ some u) × (u.email ≡ email)
  caller-some none email h = cc
  caller-some (some u) email h =
      (u, refl, some-injective u.email email (identified-some (some u.email) email h))
