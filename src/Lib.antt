-- ===== src/Lib.antt =====
-- AuthGuard answers whether a principal may do an action on a resource. Resources are named by
-- URNs, role bindings grant or deny the actions of a role on the resources of a URN pattern under
-- conditions, and HTTP requests are mapped to an action and a resource by the route matchers of
-- the actions. The catalog of actions, roles and bindings is compiled into an immutable runtime
-- catalog, which the policy handler replaces as a whole under a revision; the decision is
-- delivered to the services behind the gateway as a signed context, or as a token under which the
-- context is cached.
--
-- This library models these parts and proves what makes them correct. Functions keep the names of
-- the source, fields and constructors too; a method of a type that has the name of a keyword or of
-- another method has the type's noun with it (`open_handler`, `new_cache`, `new_context`).
--
-- Urn (src/common/src/utils/policy_urn.rs): `ResourceUrn` with its `from_str` and `to_string` in
-- Urn/Exact, `UrnPattern` with `from_str`, `to_string` and `matches` in Urn/Pattern. Urn/Pieces,
-- Urn/ExactTrip, Urn/PatternTrip and Urn/Covers hold proofs.
-- Model (src/common/src/model/role.rs, policy.rs, principal.rs): the records of the catalog and of
-- requests. Model/Condition (src/common/src/utils/context.rs, module `condition`): conditions.
-- Http (src/common/src/utils/http_matcher.rs): Http/Compile for `CompiledHttpRoute::compile`,
-- Http/Template for `expand_template`, Http/Route for `match_path` and `resolve_route`.
-- Policy (src/authz/src/handler/policy/mod.rs): Policy/Evaluator for `AuthorizationEvaluator`,
-- Policy/Catalog for `CompiledPolicy::compile`. Policy/Mutation and Policy/Handler model
-- `PolicyHandler` (src/authz/src/handler/policy/policy.rs); Policy/Change states what each of its
-- changes means, Policy/Runs the sequences of changes.
-- Sql (src/common/src/utils/sql.rs): Sql/Compile for `ResourceSqlMapping::compile_scope`;
-- Sql/Meaning says what a clause asks of a row, Sql/Text how a condition is to be written. The other files of Sql hold proofs.
-- Cache (src/common/src/cache/memory.rs): Cache/Memory for `MemoryAuthorizationCache`.
-- Access (src/common/src/utils/context.rs, module `access`): Access/Signer for
-- `AccessContextSigner`, Access/Context for `AccessContext`.
-- Identity (src/common/src/model/identity.rs): Identity/Claims for `AuthenticatedPrincipalContext`,
-- Identity/Headers for `gateway_token`, Identity/External for `ExternalIdentity` and its key,
-- Identity/Canonical for `validate_canonical` (src/common/src/utils/mod.rs), Identity/Json for JSON
-- values. Jwt (src/common/src/utils/jwt.rs): Jwt/Signing for `sign` and `verify`.
-- Principals: Principals/Store for the trait `PrincipalRepository`
-- (src/common/src/storage/authz/mod.rs), Principals/Resolve and Principals/Manage for
-- `PrincipalHandler` (src/authz/src/handler/principal.rs), Principals/Discovery for the types of a
-- federated search (src/common/src/principal/mod.rs).
-- Delivery (src/authz/src/handler/authorization.rs): Delivery/Request for `WorkloadRequest`,
-- Delivery/Evaluate for `evaluate_request`, Delivery/Authorize for `allowed` and `check`,
-- Delivery/Failure for the refusals, Delivery/Check for `prepare_delivery` and `resolve_scope`,
-- Delivery/Response for the headers of the answers, Delivery/Resign for `resign_token`.
-- Authn (src/authn): Authn/Linking for `AccountLinkingService` (principal/jit.rs), Authn/Token for
-- `TokenIssuer` (authentication/token.rs), Authn/Projection and Authn/Pipeline for
-- `AuthenticationPipeline` (handler/authentication.rs), Authn/Challenge for one-time challenges
-- (authentication/challenge.rs), Authn/Application for `ApplicationResolver` (route/application.rs),
-- Authn/Provider, Authn/Login and Authn/Oauth2 for the flow of OAuth (handler/oauth2.rs,
-- handler/mod.rs, provider/mod.rs), Authn/Failure for `ApiError` (handler/error.rs). All of these
-- stand under src/authn/src.
-- Adapter: Adapter/Access for the resolvers of a service (src/adapters/rust/src/access.rs, model.rs).
-- Base: lists, texts, results, maps and the splitting and sorting of texts that the parts share.
--
-- A text is the list of its Unicode scalar values, and `len` counts the bytes of its UTF-8 form.
-- Maps are association lists; where a `HashMap` is walked, the order in the list stands for the
-- order that the source leaves open. Counters and times are natural numbers, and the places where
-- a u64 ends (`checked_add`, `saturating_add`) are written out. `Result` is a data type and `?` is
-- its bind. An operation that changes state gives the new state beside its result.
--
-- Code of other crates is a parameter: IP networks (`Net`), HMAC and Base64URL (`Crypto`), JSON
-- (`Json`, `Serde`, `Codec`), RSA (`Rsa`), header names and values (`HttpTypes`), URLs (`Urls`),
-- the adapters of identity providers (`IProviderAdapter`), the caches (`ScopeCache`, `ICache`),
-- and the databases behind the repositories: `PolicyRepository`, `PrincipalRepository` and
-- `IdentityBindingRepository`, with the laws that the theorems need of them (`KeepsPolicies`,
-- `FindsStored`, `KeepsBindings`, `KeepsScopes`, which the cache in memory has). `IsLike` is the
-- `LIKE` of a database that tells upper from lower case, on values without a sign that means
-- something to it. The clock is an argument of what reads it. Locks are not modelled as such: what
-- runs under one lock is one step, and runs are sequences of steps in any order. The runs of the
-- policy handler are those of one handler that is the only writer of the stored policy; opening it
-- again, which starts its revisions anew, is no step of a run.
--
-- Recursion is structural, except in `expand_template`, whose loop looks for the next brace: it
-- runs on fuel, one more than the length of the template, and the theorem on its fuel shows that
-- this is enough.
--
-- The parts meet in three places. `check` of Delivery/Authorize reads the identity from the
-- request, resolves it to principals, maps the request to a resource, asks the catalog, and
-- delivers the scope. `callback` of Authn/Oauth2 takes the challenge, asks the provider for an
-- identity, resolves it to a principal and issues the token that `check` later reads. The
-- resolvers of Adapter/Access read at a service what `check` has delivered.
--
-- Not modelled: metrics, logs, trace propagation, the HTTP and gRPC servers and their routes, the
-- loading of configuration and keys, the SQL of the repositories, the Redis cache, passwords,
-- passkeys and wallets, the clients of identity providers and directories, the command line, the
-- SQL filter of the Rust adapter, the other adapters, and the sample services: input and output,
-- or planned.
mod Base
pub mod Urn
pub mod Model
pub mod Policy
pub mod Access
pub mod Adapter
pub mod Delivery
pub mod Sql
pub mod Cache
pub mod Http
pub mod Identity
pub mod Jwt
pub mod Authn
pub mod Principals
