-- ===== src/Api/Controllers/Auth.antt =====
-- apps/api/src/controllers/auth.controller.ts.
use secure_auth_x_pro.Prelude.{Option, [], ◌∷◌, String, lookup}
use secure_auth_x_pro.Prisma.{Prisma}
use secure_auth_x_pro.World.{World}
use secure_auth_x_pro.Http.{RequestContext, non_empty, or_else, refresh_token_cookie}
use secure_auth_x_pro.Exec.{Action, Failure, app, unauthorized, pure, or_throw, ◌>>=◌}
use secure_auth_x_pro.Auth.Responses.{SignedIn, LoginResponse, signed_in, mfa_required}
use secure_auth_x_pro.Auth.Registration
use secure_auth_x_pro.Auth.Registration.{
  RegisterInput, RegisterResponse, VerifyEmailResponse, ResendResponse,
}
use secure_auth_x_pro.Auth.Login
use secure_auth_x_pro.Auth.Login.{LoginInput}
use secure_auth_x_pro.Auth.Refresh
use secure_auth_x_pro.Auth.Logout
use secure_auth_x_pro.Auth.Logout.{LoggedOut}
use secure_auth_x_pro.Api.Environment.{ApiEnv}
use secure_auth_x_pro.Api.Guards.{AuthenticatedUser}
use secure_auth_x_pro.Api.Cookies.{auth_cookies, cleared_auth_cookies, set_mfa_challenge_cookie}
use secure_auth_x_pro.Api.Replies.{Reply, reply}

abbrev pub missing_refresh_token : Failure
missing_refresh_token = app (unauthorized "Missing refresh token.")

module _ (db : Prisma) (w : World) (env : ApiEnv) where
  unfoldable pub register : RegisterInput → RequestContext → Action (Reply RegisterResponse)
  register body req = do
    response ← Registration.register db w body req
    pure (record {
      code = "REGISTERED";
      message = "Account created. Please verify your email address.";
      content = response;
      status = 201;
      cookies = [];
    })

  -- The cookies and the envelope of each of the two responses of a login.
  unfoldable pub login_reply : LoginResponse → Reply LoginResponse
  login_reply (signed_in r) =
      reply "LOGIN_SUCCESS" "Signed in successfully." (signed_in r)
        (auth_cookies env r.tokens w.jwt_access_ttl r.tokens.expires_in)
  login_reply (mfa_required c) =
      reply "MFA_REQUIRED" "Second factor required." (mfa_required c)
        (set_mfa_challenge_cookie env c.challenge_id w.mfa_challenge_ttl ∷ [])

  unfoldable pub login : LoginInput → RequestContext → Action (Reply LoginResponse)
  unfolding login_reply
  login body req = do response ← Login.login db w body req; pure (login_reply response)

  -- `body_token` is `refreshToken` of the body, where it is a text.
  unfoldable pub refresh : Option String → RequestContext → Action (Reply SignedIn)
  refresh body_token req = do
    token ←
        or_throw (non_empty (or_else (lookup refresh_token_cookie req.cookies) body_token))
          missing_refresh_token
    response ← Refresh.refresh db w token req
    pure (
        reply "TOKEN_REFRESHED" "Tokens refreshed." response
          (auth_cookies env response.tokens w.jwt_access_ttl response.tokens.expires_in))

  unfoldable pub verify_email : String → RequestContext → Action (Reply VerifyEmailResponse)
  verify_email token req = do
    response ← Registration.verify_email db w token req
    pure (reply "EMAIL_VERIFIED" "Email verified successfully." response [])

  unfoldable pub resend_verification : String → RequestContext → Action (Reply ResendResponse)
  resend_verification email req = do
    response ← Registration.resend_verification db w email req
    pure (
        reply "VERIFICATION_SENT"
          "If the account exists and is unverified, a verification email has been sent." response
          [])

  unfoldable pub me : AuthenticatedUser → Action (Reply AuthenticatedUser)
  me user = pure (reply "USER_FETCHED" "Authenticated user." user [])

  unfoldable pub logout : RequestContext → Action (Reply LoggedOut)
  logout req = do
    response ← Logout.logout db w req
    pure (reply "LOGGED_OUT" "Signed out successfully." response (cleared_auth_cookies env))
