-- ===== src/Lib.antt =====
-- SecureAuthX Pro: the authentication server.
--
-- The program is a hono API (apps/api) over packages. A request reaches a service, the service
-- checks the state in the database through the repositories, writes rows and audit logs, and
-- answers or throws. The development models the routes with their middlewares, the services, the
-- repositories, the security primitives and the API client of the web application (apps/web).
--
-- Parts, and the files that model them:
--   Schema (Rows, State): packages/database/prisma/schema.prisma, packages/types/src/auth.ts, and
--     the record `Store` of all tables, the cache, the outgoing mail, the clock and a counter of
--     random draws. Columns that no code reads are left out.
--   Prisma (Table, Rows, Sorted, Unique): the queries of the client `@prisma/client`, which is a
--     parameter `db : Prisma` everywhere; `IsPrisma db` states their documented meaning over lists
--     of rows. Rows of one key come in any order in a list query, and pages need not share it.
--   World: the environment (packages/config/src/env.ts) and the packages node:crypto, bcryptjs,
--     jose and @simplewebauthn/server, a parameter `w : World`. A random value is a function of
--     the number of earlier draws. A request runs at one value of the clock.
--   Exec: apps/api/src/utils/errors.ts, and actions that read and write the store and return or
--     throw; what was written before a throw stays. Exec.Inversion takes them apart.
--   Repositories (Users, Sessions, EmailVerifications, Audits, Mfa, Security): packages/database/src/
--     repositories; Repositories.Effects has each call as an equation on the store.
--   Http, Text: packages/shared/src/http.ts, resolveAccessToken of apps/api/src/middlewares/
--     authenticate.ts, safeEqual of packages/shared/src/crypto.ts. Characters are code points and
--     letters are ASCII letters. Text.Split and Text.Percent: `split` and `decodeURIComponent`;
--     Text.Integers: `parseInt`.
--   Jwt: packages/security/src/jwt.ts, packages/auth/src/password.service.ts.
--   Cipher: packages/security/src/encryption.ts. Totp: packages/security/src/totp.ts.
--   Cache: MemoryCache of apps/api/src/config/cache.ts and the two TtlStores of mfa.service.ts.
--   Mfa (Challenges, Devices, Verification, WebAuthn, Enrollment, RecoveryCodes, Settings):
--     apps/api/src/services/mfa.service.ts.
--   Auth (Registration, Login, Completion, Tokens, Refresh, Logout):
--     apps/api/src/services/auth.service.ts. `login` is split at the source's early throws.
--     Auth.Renewal: chains of issueTokens and refresh, over a hypothesis on the tokens of jose.
--   Admin: setUserRole and setUserStatus of apps/api/src/services/admin.service.ts; Admin.Listing:
--     listUsers. Security: apps/api/src/services/security.service.ts, over Repositories.Security.
--   System: the services of Auth, Mfa and Admin as a step relation on the store; System.Lifecycle
--     has the life of one session as a state machine, System.Ended its end.
--   Api: apps/api/src. Environment, Requests and Cookies (utils/request-context.ts, utils/cookies.ts),
--     Guards (middlewares/authenticate.ts, csrf.ts, require-admin.ts, require-mfa-challenge.ts),
--     Replies (utils/response.ts, middlewares/error-handler.ts, validate.ts), Pipeline (request id,
--     rate limiters and error handler around a handler), Controllers (Auth, Mfa, Admin, Security), Routes
--     (routes/v1). A handler of hono is an action; a schema of zod is a parameter, a test on the
--     body. Renewal follows a browser that renews its tokens over and over.
--   Web.Client: apps/web/lib/api/client.ts; `fetch` is a parameter on a state of the browser and of
--     the server behind it.
--   RateLimit: packages/security/src/rate-limit.ts. Pagination: packages/shared/src/pagination.ts.
--   Examples: an installation with one account, to which the theorems are applied.
--
-- Numbers are natural numbers: times are milliseconds since the epoch, and a subtraction that
-- could go below 0 is written as the source guards it. The loops are structural recursions, but
-- for apiFetch, which calls itself to renew the tokens: it runs on fuel, one unit for each nested
-- call and one for itself. Requests are handled one after the other: an interleaving of two
-- requests within a service method is not modelled.
--
-- The types of columns are not modelled: an IP address longer than VARCHAR(45), or an id that is not
-- a UUID, makes the client throw in the program, and is stored or looked up here. The theorems are
-- about requests without such values.
--
-- Not modelled: the analytics of the administration pages, CORS and security headers, the health
-- probe, startup, logging, mail templates and transports, Redis, the schemas of zod and the pages
-- of the web application.
pub mod Prelude
pub mod Prisma
pub mod World
pub mod Schema
pub mod Exec
pub mod Http
pub mod Repositories
pub mod Text
pub mod Totp
pub mod Jwt
pub mod Cipher
pub mod Cache
pub mod Mfa
pub mod Auth
pub mod Admin
pub mod Security
pub mod RateLimit
pub mod Pagination
pub mod System
pub mod Api
pub mod Web
pub mod Examples
