-- ===== src/Exec.antt =====
-- Errors and effects. A service method is an action: it reads and writes the store, and returns or
-- throws. What was written before a throw stays written.
-- Models apps/api/src/utils/errors.ts.
pub mod Inversion
pub mod Keeps
use secure_auth_x_pro.Prelude.{ℕ, ◌+◌, Bool, true, false, Option, none, some, List, String}
use secure_auth_x_pro.Schema.{Store}

-- AppError, with the one kind of `details` that the services attach.
pub record AppError : Type 0 where
  pub status_code : ℕ
  pub code : String
  pub message : String
  pub retry_after_seconds : Option ℕ

abbrev pub app_error : ℕ → String → String → AppError
app_error status code message = record {
  status_code = status;
  code = code;
  message = message;
  retry_after_seconds = none;
}

-- The constructors of `Errors`.
abbrev pub bad_request : String → AppError
bad_request message = app_error 400 "BAD_REQUEST" message

abbrev pub unauthorized : String → AppError
unauthorized message = app_error 401 "UNAUTHORIZED" message

abbrev pub forbidden : String → AppError
forbidden message = app_error 403 "FORBIDDEN" message

abbrev pub not_found : String → AppError
not_found message = app_error 404 "NOT_FOUND" message

abbrev pub internal : String → AppError
internal message = app_error 500 "INTERNAL_ERROR" message

-- A field that a validation schema refuses, and why.
pub record FieldIssue : Type 0 where
  pub field : String
  pub message : String

-- What a method throws: an AppError (`invalid` is Errors.validation with its details), the client's
-- exception for a missing row or a unique column, or an exception of a library.
pub data Failure : Type 0 where
  app : AppError → Failure
  invalid : List FieldIssue → Failure
  record_missing unique_violation library_error : Failure

pub data Result {ℓ} (A : Type ℓ) : Type ℓ where
  ok : A → Result A
  err : Failure → Result A

abbrev pub Action : Type 0 → Type 0
Action A = Store → Result A × Store

abbrev pub pure : {A : Type 0} → A → Action A
pure a s = (ok a, s)

abbrev pub throw : {A : Type 0} → Failure → Action A
throw e s = (err e, s)

abbrev pub gets : {A : Type 0} → (Store → A) → Action A
gets f s = (ok (f s), s)

abbrev pub modify : (Store → Store) → Action (Unit {0})
modify f s = (ok tt, f s)

-- What follows a step that has ended.
abbrev pub proceed : {A B : Type 0} → Result A → (A → Action B) → Action B
proceed (ok a) k s = k a s
proceed (err e) k s = (err e, s)

infixl 5 ◌>>=◌ ◌>>◌
abbrev pub ◌>>=◌ : {A B : Type 0} → Action A → (A → Action B) → Action B
◌>>=◌ m k s = let (r, t) = m s in proceed r k t

abbrev pub ◌>>◌ : {A B : Type 0} → Action A → Action B → Action B
m >> k = m >>= λ _. k

-- `if (!test) throw …`
abbrev pub require : Bool → AppError → Action (Unit {0})
require true e = pure tt
require false e = throw (app e)

-- `if (!value) throw …`
abbrev pub or_throw : {A : Type 0} → Option A → Failure → Action A
or_throw (some a) e = pure a
or_throw none e = throw e

-- A value, or what the caller does where there is none.
abbrev pub or_reject : {A : Type 0} → Option A → Action A → Action A
or_reject (some a) rejection = pure a
or_reject none rejection = rejection

-- `if (test) { … }`
abbrev pub when : Bool → Action (Unit {0}) → Action (Unit {0})
when true m = m
when false m = pure tt

-- The next random value.
abbrev pub draw : {A : Type 0} → (ℕ → A) → Action A
draw f s = (ok (f s.draws), record s { draws = s.draws + 1 })
