-- ===== src/Cache.antt =====
-- MemoryCache of apps/api/src/config/cache.ts, and TtlStore of
-- apps/api/src/services/mfa.service.ts over it.
pub mod Laws
use secure_auth_x_pro.Text.{concat}
use secure_auth_x_pro.Prelude.{
  ℕ, ◌+◌, ◌*◌, ◌/◌, Bool, false, Option, none, some, List, String, ltb, is_zero, lookup, set_key,
  delete_key, if◌then◌else◌,
}
use secure_auth_x_pro.Schema.{
  Store, CacheItem, CacheValue, challenge, ceremony, LoginChallengeState, WebAuthnCeremonyState,
}
use secure_auth_x_pro.Exec.{Action, ok, err}

-- `item.expiresAt !== null && item.expiresAt < Date.now()`
abbrev pub is_stale : Option ℕ → ℕ → Bool
is_stale none now = false
is_stale (some t) now = ltb t now

-- Cache.get: an entry that has expired is dropped, and is null.
unfoldable pub cache_get : String → Action (Option CacheValue)
cache_get key s = elim (lookup key s.cache) [
  | none ↦ (ok none, s)
  | some item ↦
      if is_stale item.expires_at s.now
      then (ok none, record s { cache = delete_key key s.cache })
      else (ok (some item.value), s)
]

-- Cache.set: a time to live of 0 seconds counts as none.
unfoldable pub cache_set : String → CacheValue → ℕ → Action (Unit {0})
cache_set key value ttl_seconds s = (
  ok tt,
  record s {
    cache =
        set_key key
          (record {
            value = value;
            expires_at = if is_zero ttl_seconds then none else some (s.now + ttl_seconds * 1000);
          })
          s.cache;
  },
)

unfoldable pub cache_del : String → Action (Unit {0})
cache_del key s = (ok tt, record s { cache = delete_key key s.cache })

abbrev pub challenge_prefix : String
challenge_prefix = "mfa:login-challenge"

abbrev pub ceremony_prefix : String
ceremony_prefix = "mfa:ceremony"

-- `${prefix}:${id}`
unfoldable pub key : String → String → String
key prefix id = concat prefix (concat ":" id)

-- `Math.ceil(ttlMs / 1000)`
abbrev pub ceil_seconds : ℕ → ℕ
ceil_seconds ms = (ms + 999) / 1000

-- The two stores are made with `env.MFA_CHALLENGE_TTL * 1000` milliseconds.
unfoldable pub set_challenge : ℕ → String → LoginChallengeState → Action (Unit {0})
unfolding cache_set
set_challenge ttl id state =
    cache_set (key challenge_prefix id) (challenge state) (ceil_seconds (ttl * 1000))

abbrev pub as_challenge : Option CacheValue → Option LoginChallengeState
as_challenge (some (challenge state)) = some state
as_challenge _ = none

unfoldable pub get_challenge : String → Action (Option LoginChallengeState)
unfolding cache_get
get_challenge id s =
    let (r, t) = cache_get (key challenge_prefix id) s in
    (elim r [ ok v ↦ ok (as_challenge v) | err e ↦ err e ], t)

unfoldable pub delete_challenge : String → Action (Unit {0})
unfolding cache_del
delete_challenge id = cache_del (key challenge_prefix id)

unfoldable pub set_ceremony : ℕ → String → WebAuthnCeremonyState → Action (Unit {0})
unfolding cache_set
set_ceremony ttl id state =
    cache_set (key ceremony_prefix id) (ceremony state) (ceil_seconds (ttl * 1000))

abbrev pub as_ceremony : Option CacheValue → Option WebAuthnCeremonyState
as_ceremony (some (ceremony state)) = some state
as_ceremony _ = none

unfoldable pub get_ceremony : String → Action (Option WebAuthnCeremonyState)
unfolding cache_get
get_ceremony id s =
    let (r, t) = cache_get (key ceremony_prefix id) s in
    (elim r [ ok v ↦ ok (as_ceremony v) | err e ↦ err e ], t)

unfoldable pub delete_ceremony : String → Action (Unit {0})
unfolding cache_del
delete_ceremony id = cache_del (key ceremony_prefix id)
