-- ===== src/Web/Client/Attempts.antt =====
-- apiFetch ends, and how often it sends a request.
use secure_auth_x_pro.Prelude.{
  ℕ, suc, ◌≡◌, refl, Bool, true, false, Option, none, some, List, [], ◌∷◌, ◌++◌, String,
  append_assoc, inl, inr, Bool-cases, arith, if◌then◌else◌,
}
use secure_auth_x_pro.Web.Client.{
  RequestOptions, Attempt, Browser, Response, Outcome, execute, wants_refresh, refreshed,
  after_first, api_fetch, attempt_of, refresh_path, refresh_options, concluded,
}

module _ {B : Type 0} (fetch : Attempt → B → Option Response × B) (cookie : B → String) where
  -- The call that renews the tokens does not renew them again.
  renewal_once :
      (res : Option Response) → wants_refresh fetch cookie refresh_path refresh_options res ≡ false
  renewal_once none = refl
  renewal_once (some res) = ground arith

  without_refresh :
      (path : String) (options : RequestOptions) (rest : Option (Outcome × Browser B))
      (first : Option Response × Browser B)
      → wants_refresh fetch cookie path options first.0 ≡ false
      → after_first fetch cookie path options rest first
        ≡ some (concluded fetch cookie first.0, first.1)
  unfolding after_first
  without_refresh path options none (res, b) h = rw h
  without_refresh path options (some (outcome, c)) (res, b) h = rw h

  execute-attempts :
      (path : String) (options : RequestOptions) (b : Browser B)
      → (execute fetch cookie path options b).1.attempts
        ≡ b.attempts ++ attempt_of fetch cookie path options b.state ∷ []
  unfolding execute
  execute-attempts path options b = refl

  with_refresh :
      (path : String) (options : RequestOptions) (outcome : Outcome) (c : Browser B)
      (first : Option Response × Browser B)
      → wants_refresh fetch cookie path options first.0 ≡ true
      → after_first fetch cookie path options (some (outcome, c)) first ≡ (
          if refreshed fetch cookie outcome
          then (let again = execute fetch cookie path options c in
              some (concluded fetch cookie again.0, again.1))
          else some (concluded fetch cookie first.0, c))
  unfolding after_first
  with_refresh path options outcome c (res, b) h = rw h refl

  api_fetch_step :
      (path : String) (options : RequestOptions) (fuel : ℕ) (b : Browser B)
      → api_fetch fetch cookie (suc fuel) path options b ≡ (
          let first = execute fetch cookie path options b in
          after_first fetch cookie path options
            (api_fetch fetch cookie fuel refresh_path refresh_options first.1)
            first)
  unfolding api_fetch
  api_fetch_step path options fuel b = refl

  renewal_runs :
      (fuel : ℕ) (b : Browser B)
      → api_fetch fetch cookie (suc fuel) refresh_path refresh_options b ≡ (
          let r = execute fetch cookie refresh_path refresh_options b in
          some (concluded fetch cookie r.0, r.1))
  unfolding api_fetch
  renewal_runs fuel b =
      without_refresh refresh_path refresh_options _
        (execute fetch cookie refresh_path refresh_options b) (renewal_once _)

  -- What a call comes to: at most one renewal, and at most one more attempt.
  module _ (path : String) (options : RequestOptions) (b : Browser B) where
    abbrev first : Option Response × Browser B
    first = execute fetch cookie path options b

    abbrev renewal : Option Response × Browser B
    renewal = execute fetch cookie refresh_path refresh_options first.1

    abbrev again : Option Response × Browser B
    again = execute fetch cookie path options renewal.1

    abbrev renews : Bool
    renews = wants_refresh fetch cookie path options first.0

    abbrev renewed : Bool
    renewed = refreshed fetch cookie (concluded fetch cookie renewal.0)

    abbrev pub reference : Outcome × Browser B
    reference =
        if renews
        then (if renewed
            then (concluded fetch cookie again.0, again.1)
            else (concluded fetch cookie first.0, renewal.1))
        else (concluded fetch cookie first.0, first.1)

    -- The requests that the call sends, the renewal only after a first 401.
    abbrev pub sent : List Attempt
    sent =
        attempt_of fetch cookie path options b.state
        ∷ (if renews
            then attempt_of fetch cookie refresh_path refresh_options first.1.state
              ∷ (if renewed then attempt_of fetch cookie path options renewal.1.state ∷ [] else [])
            else [])

    api_fetch-reference :
        (fuel : ℕ) → api_fetch fetch cookie (suc (suc fuel)) path options b ≡ some reference
    api_fetch-reference fuel =
        rw (api_fetch_step path options (suc fuel) b, renewal_runs fuel first.1)
          (elim (Bool-cases renews) [
            | inl h ↦
                rw (with_refresh path options _ renewal.1 first h, h)
                  (elim (Bool-cases renewed) [ inl e ↦ rw e refl | inr e ↦ rw e refl ])
            | inr h ↦ rw (without_refresh path options _ first h, h) refl
          ])

    reference-sent : reference.1.attempts ≡ b.attempts ++ sent
    reference-sent = elim (Bool-cases renews) [
      | inl h ↦ rw h (elim (Bool-cases renewed) [
        | inl e ↦ rw e (
            rw
              (
                execute-attempts path options renewal.1,
                execute-attempts refresh_path refresh_options first.1,
                execute-attempts path options b,
              )
              (simp append_assoc))
        | inr e ↦ rw e (
            rw
              (
                execute-attempts refresh_path refresh_options first.1,
                execute-attempts path options b,
              )
              (simp append_assoc))
      ])
      | inr h ↦ rw h (execute-attempts path options b)
    ]

    -- With fuel for one nested call or more, a call of apiFetch ends, whatever the server answers: it sends the
    -- request, then, only after a first 401 to a request that may be renewed, one POST to /auth/refresh, and only
    -- if that succeeded the request once more, with the CSRF header of the cookies then held. It comes to the
    -- second answer if the request was repeated, and to the first answer else.
    pub api_fetch-sent :
        (fuel : ℕ)
        → (api_fetch fetch cookie (suc (suc fuel)) path options b ≡ some reference)
          × (reference.1.attempts ≡ b.attempts ++ sent)
    api_fetch-sent fuel = (api_fetch-reference fuel, reference-sent)
