-- ===== src/Scim/Routes.antt =====
-- The routes for users of src/routes/scim.routes.ts under the hook `scimAuth` of
-- src/middleware/scim-auth.ts: the response, and the audit events and notifications that are sent.
use jinbe.Prelude.{ℕ, String, Option, none, some, List, [], ◌∷◌, ok, err, TextOps, or_else, append}
use jinbe.Kratos.{Kratos, Failure}
use jinbe.Scim.{scim_error, passed_on, ScimUserInput, ScimUser, get_user}
use jinbe.Scim.Writes.{Reply, create_user, replace_user, deactivate_user}
use jinbe.Scim.Patch.{PatchOperation, patch_user}

pub data Request : Type 0 where
  get_one : String → Request
  post_one : ScimUserInput → Request
  put_one : String → ScimUserInput → Request
  patch_one : String → List PatchOperation → Request
  delete_one : String → Request

pub data ScimEffect : Type 0 where
  audited : String → String → ScimEffect
  notified : String → String → ScimEffect
  denied : String → ScimEffect

-- what the client gets: a response, or the error that the handler of the server turns into one
pub data Response : Type 0 where
  sent : ℕ → Option ScimUser → Response
  thrown : Failure → Response

-- the user of the audit trail
abbrev pub target_of : Option String → String
target_of user_name = append "user:" (or_else user_name "undefined")

module _ (k : Kratos) (js : TextOps) where
  abbrev pub Outcome : Type 0
  Outcome = Response × List ScimEffect × k.World

  -- `scimHandler`
  abbrev pub to_outcome : (ScimUser → Response × List ScimEffect) → Reply k → Outcome
  to_outcome f (err (scim_error status scim_type), w) = (sent status none, [], w)
  to_outcome f (err (passed_on e), w) = (thrown e, [], w)
  to_outcome f (ok user, w) = let (r, effects) = f user in (r, effects, w)

  abbrev pub shown : String → String → ℕ → ScimUser → Response × List ScimEffect
  shown verb action status user = (
    sent status (some user),
    audited verb (target_of user.user_name) ∷ notified action user.id ∷ [],
  )

  unfoldable pub authenticated : k.World → String → Request → Outcome
  authenticated w token_id (get_one id) =
      to_outcome (λ user. (sent 200 (some user), [])) (get_user k w id, w)
  authenticated w token_id (post_one body) =
      to_outcome (shown "create" "created" 201) (create_user k js w body token_id)
  authenticated w token_id (put_one id body) =
      to_outcome (shown "update" "updated" 200) (replace_user k js w id body token_id)
  authenticated w token_id (patch_one id operations) =
      to_outcome (shown "update" "updated" 200) (patch_user k js w id operations token_id)
  authenticated w token_id (delete_one id) =
      to_outcome
        (λ user. (sent 204 none, audited "delete" (append "user:" id) ∷ notified "deleted" id ∷ []))
        (deactivate_user k w id token_id)

  -- `principal`: the token id that `scimTokenService.verify` finds for the bearer token
  unfoldable pub handle : k.World → Option String → Request → Outcome
  handle w none r = (sent 401 none, denied "scim" ∷ [], w)
  handle w (some token_id) r = authenticated w token_id r
