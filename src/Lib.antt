-- ===== src/Lib.antt =====
-- Verification library of jinbe, the access-control service (src/services, TypeScript).
--
-- The program keeps groups, roles and metadata in Redis, the users and their groups in Ory Kratos,
-- and asks OPA who may do what. This library models the parts that change who has access:
--
-- - Redis (Redis, Redis/Memory): what the repositories rely on of hashes and sets, as an
--   interface with laws, and a server in memory that meets them.
-- - Kratos (Kratos, Kratos/Laws, Kratos/Memory): src/services/kratos.service.ts. The admin API is
--   the record `Kratos`, one field for each request, with two laws of a successful PUT. On it
--   stand updateIdentity, getUserGroups, findByEmail, updateUserGroups, removeGroupFromAllUsers.
--   Kratos/Directory with Walks has the walks over all pages of identities.
-- - Opa: src/services/opa.service.ts. A response is a failure, a status that is not 2xx, or a
--   body; each query gives what the code makes of it.
-- - Rbac, Rbac/SuperAdmin, Rbac/Power: the predicates of src/services/rbac.service.ts that tell
--   which groups confer global or admin power, over src/services/redis-rbac.repository.ts.
-- - Rbac/Groups with Guards, SystemGroups: createGroup, updateGroup and deleteGroup.
-- - Gateway, Gateway/Derived: the access rules of Oathkeeper, the handlers that are enabled
--   (src/services/oathkeeper-handlers.ts), and what rbac.service.ts builds for the rules of a service.
-- - Services with Store, Operations: services, access rules and the services of organisations, in
--   rbac.service.ts. Runs are sequences of their requests, Kept what holds of all stored rules;
--   Enabled, Complete, Deletion and Posture hold the properties. Services/Reads: the routes of a
--   service and getBindingsFromKratos; Services/Reads/Everyone joins it to the walk of the directory.
-- - Bootstrap, Bootstrap/Merging: src/bootstrap/merge-route-map.ts and src/bootstrap/upsert-rules.ts.
-- - UserGroups with Gates, Authority, Factors, Effects: src/services/user-groups.service.ts,
--   applyGroupUpdate: the pre-image, the privilege gate, the MFA gate, the step-up gate, the write.
-- - Recert: src/services/recert.service.ts over src/services/redis-recert.repository.ts. The stored
--   state and the group revocation are in Recert itself, the data and the report in Types; then
--   Campaigns (create, delete), Generation (activate), Decisions (decide), Closing (close).
--   Recert/Sweep treats the loops over all items, Recert/Membership the revocation, Recert/Frames,
--   Recert/Lifecycle and Recert/Traces the states of a campaign over runs of requests, and
--   Recert/Sweeper the sweep of src/services/recert-scheduler.service.ts.
-- - Resolver, Resolver/Permissions: src/services/rbac-resolver.service.ts, from groups to roles to
--   permissions. A JavaScript Set is the list of its elements.
-- - Access, Access/Tenancy: src/middleware/require-service-admin.ts and
--   src/middleware/require-manageable-org.ts, chained as src/routes/organization-user.routes.ts
--   hooks them. The stored text of an organisation's services is taken as the list it stands for.
-- - AccessReview: src/services/access-review.service.ts. The classification of groups is in
--   AccessReview itself, the tiers and scores in Scores, the loop over the directory in Identities;
--   Admins and Tiers hold what is shown of them.
-- - AuditDiff with Texts: src/services/audit-diff.ts. Sets is about added and removed identifiers,
--   Routes about the flag of a change of routes.
-- - ScimTokens: src/services/scim-token.service.ts. Format is the text of a token, Table what the
--   service promises, Verified and Refinement how the store keeps it, Revival a revocation that comes
--   between the read and the write of a verification.
-- - Lock with Exclusion, Waiting: src/services/redis-lock.ts, withRedisLock. Calls on one key as a
--   step relation: a step is a turn of the loop that acquires, the end of a call, a crash, or time
--   that passes. The loop alone is on fuel in Lock/Waiting, which shows how much is enough.
-- - Scim: src/services/scim.service.ts on the same Kratos. The views are in Scim itself; then Writes
--   (create, replace, deactivate), Patch (the operations of a PATCH), Filter (the filter, character
--   by character), Listing (the walk of the directory, and pages), and Routes, the routes for users
--   of src/routes/scim.routes.ts under src/middleware/scim-auth.ts. Preserved, Managed, Deactivation,
--   Refusals and Paging hold what is shown of them. The check of a bearer token is a parameter.
-- - Middleware with Credentials, Admission: src/middleware/identity-extractor.ts,
--   src/middleware/require-auth.ts and src/middleware/require-admin.ts, chained as src/server.ts and
--   src/routes/rbac.routes.ts hook them. The check of a session and the review of a service account's
--   token are fields of `Environment`.
-- - ImpactPreview: src/services/impact-preview.service.ts. Whom a change affects is in ImpactPreview
--   itself, the sample in Sample, the evaluation and the comparison in Preview; what OPA answers is a
--   parameter of the documents that the query overrides. Datasets, Pushes, Exact, Affected and
--   Covered hold what is shown of them. Of the counts of a sample the result keeps the total.
-- - Samples and the modules named Tests and Samples below: concrete runs.
--
-- How the code is rendered. A method is a function from the state before to its result and the
-- state after; what was written before an error stays written. A thrown error is a value that
-- carries the status code, without its text. Where the code holds the lock of a user or of a
-- campaign (src/services/redis-lock.ts), the call is one step; whether the lock of a campaign that is
-- closed is granted is an argument of `close_under_lock` and of the sweep, and a request that a lock
-- refuses is none of the requests of a run. A write of SCIM is one step too, although the code holds
-- no lock between its read and its PUT. A large handler is cut at its
-- guards into functions that are composed in the order of the code.
-- The clock, random UUIDs, the names of the defined groups and the snapshot of the directory are
-- arguments. A time is a number of milliseconds. JSON texts are not modelled: a hash stores the
-- values themselves. JavaScript's trim and toLowerCase are arguments (`TextOps`).
-- Loops are structural recursions over the lists that the code walks. Some count: the walks of
-- directories have the bound of 1000 pages of the code, and the loop that waits for a lock has fuel.
--
-- Not modelled: audit texts and log lines, the notification of OPAL beyond its event, the cache of
-- the Kratos directory beyond the snapshot it may give, the reads of campaigns and inboxes, the
-- discovery documents and timestamps of SCIM, the import of a bundle
-- (src/services/rbac-bundle.service.ts), which writes groups and access rules beside the requests
-- that are modelled, and the other services: tokens of Hydra, clusters and backups.
pub mod Prelude
pub mod Redis
pub mod Kratos
pub mod Opa
pub mod Rbac
pub mod UserGroups
pub mod Recert
pub mod Resolver
pub mod Access
pub mod AccessReview
pub mod AuditDiff
pub mod Middleware
pub mod ImpactPreview
pub mod Lock
pub mod Scim
pub mod ScimTokens
pub mod Gateway
pub mod Services
pub mod Bootstrap
pub mod Samples
