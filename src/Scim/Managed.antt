-- ===== src/Scim/Managed.antt =====
-- What the SCIM routes may do to the users that there are.
use jinbe.Prelude.{
  append, String, ◌≡◌, sym, ap, subst, ◌⊎◌, inl, inr, Option, none, some, List, [], ◌∷◌, ok, err,
  TextOps,
}
use mathlib.Core.Option.{some-injective}
use jinbe.Kratos.{Kratos, Identity}
use jinbe.Scim.{to_scim_user, scim_error, passed_on, ScimUser}
use jinbe.Scim.Writes.{Reply}
use jinbe.Scim.Routes.{
  Request, get_one, post_one, put_one, patch_one, delete_one, ScimEffect, audited, notified,
  Response, sent, to_outcome, shown, authenticated, handle,
}
use jinbe.Scim.Preserved.{
  IsWritten, Shows, replace_user-Shows, patch_user-Shows, deactivate_user-Shows,
}

module _ (k : Kratos) (js : TextOps) where
  -- the answer to a write
  abbrev pub Answers : Response → Identity → Type 0
  Answers r i = (r ≡ sent 204 none) ⊎ (r ≡ sent 200 (some (to_scim_user i)))

  -- the user on whom a request may write; a POST makes a new one
  abbrev pub written_id : Request → Option String
  written_id (put_one id body) = some id
  written_id (patch_one id operations) = some id
  written_id (delete_one id) = some id
  written_id _ = none

  to_outcome-ok :
      (f : ScimUser → Response × List ScimEffect) (reply : Reply k) (r : Response) (e : ScimEffect)
      (es : List ScimEffect) (w' : k.World)
      → to_outcome k js f reply ≡ (r, e ∷ es, w')
      → (user : ScimUser) × (reply ≡ (ok user, w')) × (r ≡ (f user).0)
  to_outcome-ok f (err (scim_error n t), w) r e es w' h = cc
  to_outcome-ok f (err (passed_on x), w) r e es w' h = cc
  to_outcome-ok f (ok user, w) r e es w' h = (
    user,
    ap (λ (o : Response × List ScimEffect × k.World). (ok user, o.2)) h,
    sym (ap (λ (o : Response × List ScimEffect × k.World). o.0) h),
  )

  outcome :
      {w w' : k.World} {x id t : String} {user : ScimUser} {r : Response}
      → Shows k w w' x t user
      → some x ≡ some id
      → (r ≡ sent 204 none) ⊎ (r ≡ sent 200 (some user))
      → (current : Identity) × (i : Identity) × (k.get w id ≡ ok current)
        × IsWritten k w w' t current i
        × Answers r i
  outcome {w} {w'} {x} {id} {t} {user} {r} (current, i, held, shows, written) q answer = (
    current,
    i,
    subst (λ y. k.get w y ≡ ok current) (some-injective x id q) held,
    written,
    subst (λ u. (r ≡ sent 204 none) ⊎ (r ≡ sent 200 (some u))) shows answer,
  )

  -- A PUT, PATCH or DELETE that the audit trail shows as done has made one PUT, of the user with the
  -- same groups and other admin metadata, the same id, and the mark of the token that wrote. The state
  -- after is that after this PUT, or that after the end of the user's sessions on top of it; the answer
  -- shows what was stored, or is empty. The read and the PUT count as one step: a change that another
  -- writer makes between them is not part of the statement.
  pub handle-IsWritten :
      (w w' : k.World) (id token_id : String) (q : Request) (r : Response) (e : ScimEffect)
      (es : List ScimEffect)
      → written_id q ≡ some id
      → handle k js w (some token_id) q ≡ (r, e ∷ es, w')
      → (current : Identity) × (i : Identity) × (k.get w id ≡ ok current)
        × IsWritten k w w' token_id current i
        × Answers r i
  unfolding handle authenticated
  handle-IsWritten w w' id t (get_one x) r e es q h = cc
  handle-IsWritten w w' id t (post_one x) r e es q h = cc
  handle-IsWritten w w' id t (put_one x body) r e es q h =
      let (user, done, answer) = to_outcome-ok (shown k js "update" "updated" 200) _ r e es w' h in
      outcome (replace_user-Shows k js w w' x t body user done) q (inr answer)
  handle-IsWritten w w' id t (patch_one x os) r e es q h =
      let (user, done, answer) = to_outcome-ok (shown k js "update" "updated" 200) _ r e es w' h in
      outcome (patch_user-Shows k js w w' x t os user done) q (inr answer)
  handle-IsWritten w w' id t (delete_one x) r e es q h =
      let (user, done, answer) =
        to_outcome-ok
          (λ u. (sent 204 none, audited "delete" (append "user:" x) ∷ notified "deleted" x ∷ [])) _
          r e es w' h in
      outcome (deactivate_user-Shows k js w w' x t user done) q (inl answer)
