-- ===== src/Cache/Laws.antt =====
-- What the stores of pending challenges and ceremonies guarantee.
use secure_auth_x_pro.Prelude.{
  ℕ, zero, suc, ◌+◌, ◌*◌, ◌<◌, ◌≡◌, refl, ap, false, Option, none, some, String, ◌==◌, eq_iff,
  eq_refl, arith, ltb, Bool-cases, Option-cases, inl, inr, lookup, set_key, delete_key, is_zero,
  List, lookup-set_key, lookup-delete_key, if◌then◌else◌,
}
use Prim.Native.Char.{code}
use Prim.Native.String.{[], ◌∷◌}
use secure_auth_x_pro.Text.{concat}
use secure_auth_x_pro.Schema.{
  Store, CacheItem, LoginChallengeState, WebAuthnCeremonyState, challenge,
}
use secure_auth_x_pro.Exec.{ok}
use secure_auth_x_pro.Cache.{
  key, challenge_prefix, ceremony_prefix, is_stale, as_challenge, cache_get, cache_set, cache_del,
  set_challenge, get_challenge, delete_challenge, set_ceremony, get_ceremony, delete_ceremony,
  ceil_seconds,
}

-- The code of the character at a place.
code_at : ℕ → String → ℕ
code_at i [] = 0
code_at zero (c ∷ s) = code c
code_at (suc i) (c ∷ s) = code_at i s

keys_apart : (a b : String) → key challenge_prefix a ≡ key ceremony_prefix b → ⊥
unfolding key concat code_at
keys_apart a b e =
    let differ : code_at 4 (key challenge_prefix a) ≡ code_at 4 (key ceremony_prefix b) =
      ap (code_at 4) e in
    omega arith

key_ne : (a b : String) → (key ceremony_prefix b == key challenge_prefix a) ≡ false
key_ne a b = ground (arith, keys_apart a b, eq_iff (key ceremony_prefix b) (key challenge_prefix a))

ceil-mul : (ttl : ℕ) → ceil_seconds (ttl * 1000) ≡ ttl
ceil-mul ttl = omega arith

not_found_here {ℓ} : {A : Type ℓ} {a : A} → none ≡ some a → ⊥
not_found_here h = cc

-- What a read answers, as a function of the entry and the time.
abbrev pub fresh : Option CacheItem → ℕ → Option LoginChallengeState
fresh none now = none
fresh (some item) now =
    if is_stale item.expires_at now then none else as_challenge (some item.value)

pub get_challenge-fresh :
    (id : String) (s : Store)
    → (get_challenge id s).0 ≡ ok (fresh (lookup (key challenge_prefix id) s.cache) s.now)
unfolding get_challenge
get_challenge-fresh id s = elim (Option-cases (lookup (key challenge_prefix id) s.cache)) [
  | inl absent ↦ rw (absent, get_challenge, cache_get)
  | inr (item, found) ↦ elim (Bool-cases (is_stale item.expires_at s.now)) [
    | inl stale ↦ rw (found, get_challenge, cache_get, stale)
    | inr kept ↦ rw (found, get_challenge, cache_get, kept)
  ]
]

stored_fresh :
    (ttl : ℕ) (state : LoginChallengeState) (now : ℕ)
    → ok (
        fresh
          (some (record {
            value = challenge state;
            expires_at =
                if is_zero (ceil_seconds (ttl * 1000))
                then none
                else some (now + ceil_seconds (ttl * 1000) * 1000);
          }))
          now)
      ≡ ok (some state)
stored_fresh zero state now = refl
stored_fresh (suc n) state now = rw ceil-mul (ground arith)

-- A challenge that was stored with a positive time to live of `ttl` seconds is found, whenever it
-- is asked for up to the end of that time, and is not found after it.
pub get-set_challenge :
    (ttl : ℕ) (id : String) (state : LoginChallengeState) (s : Store) (later : ℕ)
    → 0 < ttl
    → let t = (set_challenge ttl id state s).1 in
      (get_challenge id (record t { now = later })).0
      ≡ ok (if ltb (s.now + ttl * 1000) later then none else some state)
get-set_challenge zero id state s later h = elim h [ ]
get-set_challenge (suc n) id state s later h =
    rw get_challenge-fresh
      (unfold set_challenge in rw (lookup-set_key, eq_refl, ceil-mul) (ground arith))

-- The cache after a challenge was stored.
abbrev pub stored : ℕ → String → LoginChallengeState → Store → List (String × CacheItem)
stored ttl id state s =
    set_key (key challenge_prefix id)
      (record {
        value = challenge state;
        expires_at =
            if is_zero (ceil_seconds (ttl * 1000))
            then none
            else some (s.now + ceil_seconds (ttl * 1000) * 1000);
      })
      s.cache

pub set_challenge_runs :
    (ttl : ℕ) (id : String) (state : LoginChallengeState) (s : Store)
    → set_challenge ttl id state s ≡ (ok tt, record s { cache = stored ttl id state s })
unfolding set_challenge cache_set
set_challenge_runs ttl id state s = refl

-- It is there at the time that it was stored.
pub get_challenge-stored :
    (ttl : ℕ) (id : String) (state : LoginChallengeState) (s t : Store)
    → t.cache ≡ stored ttl id state s
    → t.now ≡ s.now
    → (get_challenge id t).0 ≡ ok (some state)
get_challenge-stored ttl id state s t same at_time =
    rw (get_challenge-fresh id t, same, at_time, lookup-set_key, eq_refl)
      (stored_fresh ttl state s.now)

get_challenge-get_ceremony :
    (id other : String) (s : Store)
    → (get_challenge id (get_ceremony other s).1).0 ≡ (get_challenge id s).0
unfolding get_ceremony
get_challenge-get_ceremony id other s =
    rw (get_challenge-fresh id (get_ceremony other s).1, get_challenge-fresh id s)
      (elim (Option-cases (lookup (key ceremony_prefix other) s.cache)) [
        | inl absent ↦ rw (absent, get_ceremony, cache_get)
        | inr (item, found) ↦ elim (Bool-cases (is_stale item.expires_at s.now)) [
          | inl stale ↦
              rw (found, get_ceremony, cache_get, stale, lookup-delete_key, key_ne id other)
          | inr kept ↦ rw (found, get_ceremony, cache_get, kept)
        ]
      ])

-- Reading, writing or deleting a ceremony, of whatever id, does not change what a read of a
-- challenge answers.
pub get_challenge-ceremony :
    (ttl : ℕ) (id other : String) (state : WebAuthnCeremonyState) (s : Store)
    → ((get_challenge id (set_ceremony ttl other state s).1).0 ≡ (get_challenge id s).0)
      × ((get_challenge id (delete_ceremony other s).1).0 ≡ (get_challenge id s).0)
      × ((get_challenge id (get_ceremony other s).1).0 ≡ (get_challenge id s).0)
get_challenge-ceremony ttl id other state s = (
  rw (get_challenge-fresh id (set_ceremony ttl other state s).1, get_challenge-fresh id s)
      (unfold set_ceremony in rw (lookup-set_key, key_ne id other)),
  rw (get_challenge-fresh id (delete_ceremony other s).1, get_challenge-fresh id s)
      (unfold delete_ceremony in rw (lookup-delete_key, key_ne id other)),
  get_challenge-get_ceremony id other s,
)

-- The pending challenge of an id.
abbrev pub pending : String → Store → Option LoginChallengeState
pending id s = fresh (lookup (key challenge_prefix id) s.cache) s.now

pub get_challenge_found :
    (id : String) (s : Store) {state : LoginChallengeState}
    → pending id s ≡ some state
    → get_challenge id s ≡ (ok (some state), s)
unfolding get_challenge
get_challenge_found id s h = elim (Option-cases (lookup (key challenge_prefix id) s.cache)) [
  | inl absent ↦ absurd (not_found_here (rw absent at h))
  | inr (item, found) ↦ elim (Bool-cases (is_stale item.expires_at s.now)) [
    | inl stale ↦ absurd (not_found_here (rw (found, stale) at h))
    | inr kept ↦ rw (found, get_challenge, cache_get, kept) (rw (rw (found, kept) at h))
  ]
]

pub delete_challenge_runs :
    (id : String) (s : Store)
    → delete_challenge id s
      ≡ (ok tt, record s { cache = delete_key (key challenge_prefix id) s.cache })
unfolding delete_challenge cache_del
delete_challenge_runs id s = refl

-- Once deleted, no challenge is pending, at whatever time.
pub pending-delete_key :
    (id : String) (s t : Store)
    → t.cache ≡ delete_key (key challenge_prefix id) s.cache
    → pending id t ≡ none
pending-delete_key id s t same = rw (same, lookup-delete_key, eq_refl)
