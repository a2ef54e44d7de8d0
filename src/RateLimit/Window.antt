-- ===== src/RateLimit/Window.antt =====
-- How many requests of one key pass within one window.
use Prim.Native.Nat.{min}
use secure_auth_x_pro.Prelude.{
  ℕ, ◌+◌, ◌-◌, ◌<◌, ◌≡◌, true, false, none, some, List, [], ◌∷◌, String, ◌==◌, eq_iff, eq_refl,
  arith, leb, lookup, lookup-set_key, ◌&&◌, Bool-cases, Option-cases, inl, inr, if◌then◌else◌, All,
}
use secure_auth_x_pro.RateLimit.{Bucket, Buckets, drop_expired, sweep, current, consume}

-- A request: its time and its key.
abbrev pub Hit : Type 0
Hit = ℕ × String

-- The requests of `key` among `hits` that the limiter lets pass.
pub passed : String → ℕ → ℕ → List Hit → Buckets → ℕ
passed key window limit [] bs = 0
passed key window limit ((now, k) ∷ hits) bs =
    let (r, bs') = consume k window limit now bs in
    (if (k == key) && r.success then 1 else 0) + passed key window limit hits bs'

-- A sweep keeps a bucket that has not expired.
lookup-drop_expired :
    (key : String) (now : ℕ) (b : Bucket) (bs : Buckets)
    → lookup key bs ≡ some b
    → now < b.reset_at
    → lookup key (drop_expired now bs) ≡ some b
unfolding lookup drop_expired
lookup-drop_expired key now b [] e h = cc
lookup-drop_expired key now b ((k, c) ∷ bs) e h = ground (arith, lookup-drop_expired key now b bs)

lookup-sweep :
    (key : String) (now : ℕ) (b : Bucket) (bs : Buckets)
    → lookup key bs ≡ some b
    → now < b.reset_at
    → lookup key (sweep now bs) ≡ some b
unfolding sweep
lookup-sweep key now b bs e h = ground (arith, lookup-drop_expired key now b bs)

-- The requests of `key`.
pub requests : String → List Hit → ℕ
requests key [] = 0
requests key ((now, k) ∷ hits) = (if k == key then 1 else 0) + requests key hits

module _ (key : String) (window limit : ℕ) where
  consume_live :
      (now : ℕ) (b : Bucket) (bs : Buckets)
      → lookup key bs ≡ some b
      → now < b.reset_at
      → ((consume key window limit now bs).0.success ≡ leb (b.count + 1) limit)
        × (lookup key (consume key window limit now bs).1
            ≡ some (record { count = b.count + 1; reset_at = b.reset_at }))
  unfolding consume
  consume_live now b bs e h =
      let found = lookup-sweep key now b bs e h in
      (
        rw (found, consume) (ground arith),
        rw (found, consume)
            (ground (
              arith,
              eq_iff key key,
              lookup-set_key key key (record { count = b.count + 1; reset_at = b.reset_at })
                  (sweep now bs),
            )),
      )

  consume_other :
      (k : String) (now : ℕ) (b : Bucket) (bs : Buckets)
      → k == key ≡ false
      → lookup key bs ≡ some b
      → now < b.reset_at
      → lookup key (consume k window limit now bs).1 ≡ some b
  unfolding consume
  consume_other k now b bs other e h = elim (Option-cases (current (lookup k (sweep now bs)) now)) [
    | inl opened ↦ rw (opened, consume) (rw (lookup-set_key, other) (lookup-sweep key now b bs e h))
    | inr (c, counted) ↦
        rw (counted, consume) (rw (lookup-set_key, other) (lookup-sweep key now b bs e h))
  ]

  consume_open :
      (now : ℕ) (bs : Buckets)
      → current (lookup key (sweep now bs)) now ≡ none
      → ((consume key window limit now bs).0.success ≡ true)
        × (lookup key (consume key window limit now bs).1
            ≡ some (record { count = 1; reset_at = now + window }))
  unfolding consume
  consume_open now bs e = (rw (e, consume), rw (e, consume) (rw (lookup-set_key, eq_refl)))

  -- While a bucket lasts, exactly the requests that its count leaves room for pass.
  passed_live :
      (hits : List Hit) (b : Bucket) (bs : Buckets)
      → lookup key bs ≡ some b
      → All (λ h. h.0 < b.reset_at) hits
      → passed key window limit hits bs ≡ min (limit - b.count) (requests key hits)
  unfolding passed requests
  passed_live [] b bs e all = omega arith
  passed_live ((now, k) ∷ hits) b bs e (early, all) = elim (Bool-cases (k == key)) [
    | inl same ↦
        let (verdict, kept) = consume_live now b bs e early in
        let ih =
          passed_live hits (record { count = b.count + 1; reset_at = b.reset_at })
            (consume key window limit now bs).1 kept all in
        let is_key : k ≡ key = (eq_iff k key).0 same in
        rw (is_key, eq_refl, verdict, ih) (ground arith)
    | inr other ↦
        let ih =
          passed_live hits b (consume k window limit now bs).1
            (consume_other k now b bs other e early) all in
        rw (other, ih) (omega arith)
  ]

-- A window opens with a request that finds no running bucket for its key. Of the later requests of
-- the key within the window, at any times and mixed with those of other keys, exactly the first
-- `limit - 1` pass (so `limit` in all, or 1 where the limit is 0).
pub passed_in_window :
    (key : String) (window limit start : ℕ) (hits : List Hit) (bs : Buckets)
    → current (lookup key (sweep start bs)) start ≡ none
    → All (λ h. h.0 < start + window) hits
    → passed key window limit ((start, key) ∷ hits) bs ≡ 1 + min (limit - 1) (requests key hits)
unfolding passed
passed_in_window key window limit start hits bs opens early =
    let (verdict, kept) = consume_open key window limit start bs opens in
    let later =
      passed_live key window limit hits (record { count = 1; reset_at = start + window })
        (consume key window limit start bs).1 kept early in
    rw (eq_refl, verdict, later)
