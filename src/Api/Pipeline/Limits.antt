-- ===== src/Api/Pipeline/Limits.antt =====
-- rate-limit.ts, as the application uses it: a limiter that still has room lets a request pass.
use secure_auth_x_pro.Prelude.{
  ℕ, suc, ◌+◌, ◌≤◌, ◌≡◌, refl, true, Option, none, some, [], ◌∷◌, String, lookup, set_key, ◌⊎◌, inl,
  inr, Bool-cases, Option-cases, All, All-weaken, arith, leb, ltb, length, ◌==◌,
}
use secure_auth_x_pro.Http.{get_client_ip}
use secure_auth_x_pro.RateLimit.{
  Bucket, Buckets, drop_expired, sweep, sweep_above, current, consume, limit_request,
}
use secure_auth_x_pro.Api.Environment.{ApiEnv}
use secure_auth_x_pro.Api.Requests.{HttpRequest, to_request_context}
use secure_auth_x_pro.Api.Pipeline.{judge}

pub judge_status :
    (env : ApiEnv) (req : HttpRequest) (limit : ℕ) (bs : Buckets) (now : ℕ)
    → ((judge env req limit bs now).0.status ≡ none)
      ⊎ ((judge env req limit bs now).0.status ≡ some 429)
unfolding judge limit_request
judge_status env req limit bs now =
    elim (Bool-cases
      (consume (get_client_ip (to_request_context req)) env.rate_limit_window_ms limit now
        bs).0.success) [ inl passes ↦ inl (rw passes) | inr fails ↦ inr (rw fails) ]

-- A bucket of the key counts at most `k`.
abbrev AtMost : String → ℕ → String × Bucket → Type 0
AtMost key k c = (c.0 == key) ≡ true → c.1.count ≤ k

abbrev pub Counted : String → ℕ → Buckets → Type 0
Counted key k bs = All (AtMost key k) bs

drop_expired-Counted :
    (key : String) (k now : ℕ) (bs : Buckets)
    → Counted key k bs
    → Counted key k (drop_expired now bs)
unfolding drop_expired
drop_expired-Counted key k now [] h = tt
drop_expired-Counted key k now ((j, b) ∷ bs) (hb, h) = elim (Bool-cases (leb b.reset_at now)) [
  | inl old ↦ rw old (drop_expired-Counted key k now bs h)
  | inr fresh ↦ rw fresh (hb, drop_expired-Counted key k now bs h)
]

sweep-Counted :
    (key : String) (k now : ℕ) (bs : Buckets) → Counted key k bs → Counted key k (sweep now bs)
unfolding sweep
sweep-Counted key k now bs h = elim (Bool-cases (ltb sweep_above (length bs))) [
  | inl many ↦ rw many (drop_expired-Counted key k now bs h)
  | inr few ↦ rw few h
]

set_key-Counted :
    (key : String) (k : ℕ) (b : Bucket) (bs : Buckets)
    → b.count ≤ suc k
    → Counted key k bs
    → Counted key (suc k) (set_key key b bs)
unfolding set_key
set_key-Counted key k b [] hb h = ((λ e. hb), tt)
set_key-Counted key k b ((j, c) ∷ bs) hb (hc, h) = elim (Bool-cases (j == key)) [
  | inl here ↦ rw here ((λ e. hb), All-weaken bs (λ x hx e. omega (arith, hx e)) h)
  | inr there ↦ rw there ((λ e. omega (arith, hc e)), set_key-Counted key k b bs hb h)
]

lookup-Counted :
    (key : String) (k : ℕ) (bs : Buckets) {b : Bucket}
    → Counted key k bs
    → lookup key bs ≡ some b
    → b.count ≤ k
unfolding lookup
lookup-Counted key k [] h found = cc
lookup-Counted key k ((j, c) ∷ bs) (hc, h) found = elim (Bool-cases (j == key)) [
  | inl here ↦ ground (arith, hc here)
  | inr there ↦ lookup-Counted key k bs h (rw there at found)
]

current-Counted :
    (o : Option Bucket) (now k : ℕ) {b : Bucket}
    → ((c : Bucket) → o ≡ some c → c.count ≤ k)
    → current o now ≡ some b
    → b.count ≤ k
current-Counted none now k h found = cc
current-Counted (some c) now k h found = elim (Bool-cases (leb c.reset_at now)) [
  | inl old ↦ absurd (ground arith)
  | inr fresh ↦ ground (arith, h c refl)
]

-- With fewer requests counted than the limit, the next one passes, and one more is counted.
pub consume-Counted :
    (key : String) (window limit now k : ℕ) (bs : Buckets)
    → Counted key k bs
    → suc k ≤ limit
    → ((consume key window limit now bs).0.success ≡ true)
      × Counted key (suc k) (consume key window limit now bs).1
unfolding consume
consume-Counted key window limit now k bs h room =
    let swept = sweep-Counted key k now bs h in
    elim (Option-cases (current (lookup key (sweep now bs)) now)) [
      | inl none_now ↦
          rw (consume, none_now)
            (
              refl,
              set_key-Counted key k (record { count = 1; reset_at = now + window }) (sweep now bs)
                  (omega arith) swept,
            )
      | inr (b, counts) ↦
          let few =
            current-Counted (lookup key (sweep now bs)) now k
              (λ c e. lookup-Counted key k (sweep now bs) swept e) counts in
          rw (consume, counts)
            (
              ground arith,
              set_key-Counted key k (record { count = b.count + 1; reset_at = b.reset_at })
                  (sweep now bs) (omega arith) swept,
            )
    ]

-- The same for a limiter of the application.
pub judge-Counted :
    (env : ApiEnv) (req : HttpRequest) (limit k now : ℕ) (bs : Buckets)
    → Counted (get_client_ip (to_request_context req)) k bs
    → suc k ≤ limit
    → ((judge env req limit bs now).0.status ≡ none)
      × Counted (get_client_ip (to_request_context req)) (suc k) (judge env req limit bs now).1
unfolding judge limit_request
judge-Counted env req limit k now bs h room =
    let (passes, counted) =
      consume-Counted (get_client_ip (to_request_context req)) env.rate_limit_window_ms limit now k
        bs h room in
    (rw passes, counted)
