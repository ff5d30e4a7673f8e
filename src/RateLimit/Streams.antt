-- ===== src/RateLimit/Streams.antt =====
-- The slots of open event streams: `acquireConcurrentKeys` and `releaseConcurrentKeys`.
use redbox.Prelude.{
  ℕ, suc, ◌+◌, ◌<◌, String, ◌≡◌, refl, ◌≢◌, true, ◌&&◌, List, [], ◌∷◌, ◌++◌, map, arith, ◌===◌,
  if◌then◌else◌, eq_iff, ===_refl, ltb, pos, ok, exceeds, Bool-cases, inl, inr,
}
use redbox.Redis.{Counters}
use redbox.RateLimit.{
  Entry, count_of, take_key, release_key, release_concurrent_keys, acquire_loop,
  acquire_concurrent_keys,
}
use redbox.RateLimit.Window.{succeeds}

abbrev pub occurs : String → List String → ℕ
occurs j [] = 0
occurs j (k ∷ ks) = (if k === j then 1 else 0) + occurs j ks

occurs-snoc :
    (j k : String) (ks : List String) → occurs j (ks ++ k ∷ []) ≡ occurs j ks + occurs j (k ∷ [])
occurs-snoc j k [] = omega arith
occurs-snoc j k (x ∷ ks) = omega (arith, occurs-snoc j k ks)

abbrev keys_of : List Entry → List String
keys_of = map (λ e. e.key)

module _ (redis : Counters) where
  open redis use {State, read}

  -- One release takes one slot back, and deletes a key that reaches zero.
  count-release_key :
      (k : String) (s : State) (n : ℕ) (j : String) (m : ℕ)
      → count_of redis s k ≡ pos (suc n)
      → count_of redis s j ≡ pos (m + occurs j (k ∷ []))
      → count_of redis (release_key redis k s).1 j ≡ pos m
  unfolding release_key
  count-release_key k s n j m e h = ground (
    arith,
    redis.decr_reply s k,
    redis.read-decr s k j,
    redis.read-del (redis.decr s k).0 k j,
    eq_iff k j,
  )

  release_key_ok : (k : String) (s : State) → (release_key redis k s).0 ≡ ok tt
  unfolding release_key
  release_key_ok k s = ground arith

  count-release :
      (ks : List String) (s : State) (n : String → ℕ)
      → ((j : String) → count_of redis s j ≡ pos (n j + occurs j ks))
      → (j : String) → count_of redis (release_concurrent_keys redis ks s).1 j ≡ pos (n j)
  unfolding release_concurrent_keys
  count-release [] s n h j = ground (arith, h j)
  count-release (k ∷ ks) s n h j = rw (release_key_ok k s) (
      count-release ks (release_key redis k s).1 n
        (λ i.
          count-release_key k s (n k + occurs k ks) i (n i + occurs i ks)
            (ground (arith, h k, ===_refl k)) (ground (arith, h i)))
        j)

  release_ok : (ks : List String) (s : State) → (release_concurrent_keys redis ks s).0 ≡ ok tt
  unfolding release_concurrent_keys
  release_ok [] s = refl
  release_ok (k ∷ ks) s = rw (release_key_ok k s) (release_ok ks (release_key redis k s).1)

  take_key_reply :
      (k : String) (ttl : ℕ) (s : State) (m : ℕ)
      → count_of redis s k ≡ pos m
      → (take_key redis k ttl s).0 ≡ ok (pos (suc m))
  unfolding take_key
  take_key_reply k ttl s m e = ground (arith, redis.incr_reply s k)

  count-take_key :
      (k : String) (ttl : ℕ) (s : State) (j : String) (m : ℕ)
      → 0 < ttl
      → count_of redis s j ≡ pos m
      → count_of redis (take_key redis k ttl s).1 j ≡ pos (m + occurs j (k ∷ []))
  unfolding take_key
  count-take_key k ttl s j m t e = ground (
    arith,
    redis.incr_reply s k,
    redis.read-incr s k j,
    redis.read-expire (redis.incr s k).0 k j ttl t,
    eq_iff k j,
  )

  -- DECR of a key that the refused entry has just taken.
  count-decr :
      (k : String) (s : State) (j : String) (m : ℕ) (n : ℕ)
      → count_of redis s k ≡ pos (suc n)
      → count_of redis s j ≡ pos (m + occurs j (k ∷ []))
      → count_of redis (redis.decr s k).0 j ≡ pos m
  count-decr k s j m n e h = ground (arith, redis.read-decr s k j, eq_iff k j)

  -- What a stopped acquisition does to the counters, and a completed one.
  count-acquire_loop :
      (taken : List String) (es : List Entry) (ttl : ℕ) (s : State) (n : String → ℕ)
      → 0 < ttl
      → ((j : String) → count_of redis s j ≡ pos (n j + occurs j taken))
      → (j : String)
      → count_of redis (acquire_loop redis taken es ttl s).1 j
        ≡ pos (
            n j
            + (if succeeds (acquire_loop redis taken es ttl s).0
                then occurs j taken + occurs j (keys_of es)
                else 0))
  unfolding acquire_loop
  count-acquire_loop taken [] ttl s n t h j = ground (arith, h j)
  count-acquire_loop taken (e ∷ es) ttl s n t h j =
      let k = e.key in
      let m = n k + occurs k taken in
      let u = (take_key redis k ttl s).1 in
      let spread = λ (i : String). count-take_key k ttl s i (n i + occurs i taken) t (h i) in
      rw (take_key_reply k ttl s m (h k)) (elim (Bool-cases (exceeds (pos (suc m)) e.limit)) [
        | inl over ↦ rw over (
            rw (release_ok taken (redis.decr u k).0) (
              ground (
                arith,
                count-release taken (redis.decr u k).0 n
                    (λ i.
                      count-decr k u i (n i + occurs i taken) m
                        (ground (arith, spread k, ===_refl k)) (spread i))
                    j,
              )))
        | inr room ↦ rw room (
            ground (
              arith,
              count-acquire_loop (taken ++ k ∷ []) es ttl u n t
                  (λ i. ground (arith, spread i, occurs-snoc i k taken)) j,
              occurs-snoc j k taken,
            ))
      ])

  -- A refused event stream leaves every counter as it was, also the keys that it took before the
  -- one that was full; an accepted one adds one slot at each of its keys and changes no other.
  pub count-acquire_concurrent_keys :
      (es : List Entry) (ttl : ℕ) (s : State) (n : String → ℕ)
      → 0 < ttl
      → ((j : String) → count_of redis s j ≡ pos (n j))
      → (j : String)
      → count_of redis (acquire_concurrent_keys redis es ttl s).1 j
        ≡ pos (
            n j
            + (if succeeds (acquire_concurrent_keys redis es ttl s).0
                then occurs j (keys_of es)
                else 0))
  unfolding acquire_concurrent_keys
  count-acquire_concurrent_keys es ttl s n t h j =
      ground (arith, count-acquire_loop [] es ttl s n t (λ i. ground (arith, h i)) j)

  -- Closing a stream gives back what opening it took.
  pub release-acquire :
      (es : List Entry) (ttl : ℕ) (s : State) (n : String → ℕ)
      → 0 < ttl
      → ((j : String) → count_of redis s j ≡ pos (n j))
      → succeeds (acquire_concurrent_keys redis es ttl s).0 ≡ true
      → (j : String)
      → count_of redis
          (release_concurrent_keys redis (keys_of es) (acquire_concurrent_keys redis es ttl s).1).1
          j
        ≡ count_of redis s j
  release-acquire es ttl s n t h done j = ground (
    arith,
    h j,
    count-release (keys_of es) (acquire_concurrent_keys redis es ttl s).1 n
        (λ i. ground (arith, count-acquire_concurrent_keys es ttl s n t h i)) j,
  )

  acquire_loop_admits :
      (taken : List String) (e : Entry) (es : List Entry) (ttl m : ℕ) (s : State)
      → count_of redis s e.key ≡ pos m
      → succeeds (acquire_loop redis taken (e ∷ es) ttl s).0 ≡ (
          ltb m e.limit
          && succeeds
              (acquire_loop redis (taken ++ e.key ∷ []) es ttl (take_key redis e.key ttl s).1).0)
  unfolding acquire_loop
  acquire_loop_admits taken e es ttl m s h =
      rw (take_key_reply e.key ttl s m h) (elim (Bool-cases (exceeds (pos (suc m)) e.limit)) [
        | inl over ↦ rw over (
            rw (release_ok taken (redis.decr (take_key redis e.key ttl s).1 e.key).0)
              (ground arith))
        | inr room ↦ rw room (ground arith)
      ])

  -- The two keys of `trackConcurrentSse`: a stream is accepted exactly when the user and the
  -- address both have a slot left.
  pub acquire_concurrent_keys_admits :
      (user ip : Entry) (ttl a b : ℕ) (s : State)
      → 0 < ttl
      → user.key ≢ ip.key
      → count_of redis s user.key ≡ pos a
      → count_of redis s ip.key ≡ pos b
      → succeeds (acquire_concurrent_keys redis (user ∷ ip ∷ []) ttl s).0
        ≡ (ltb a user.limit && ltb b ip.limit)
  unfolding acquire_concurrent_keys
  acquire_concurrent_keys_admits user ip ttl a b s t d ea eb =
      let u = (take_key redis user.key ttl s).1 in
      let free : count_of redis u ip.key ≡ pos b =
        ground (arith, eq_iff user.key ip.key, count-take_key user.key ttl s ip.key b t eb) in
      rw
        (
          acquire_loop_admits [] user (ip ∷ []) ttl a s ea,
          acquire_loop_admits (user.key ∷ []) ip [] ttl b u free,
        )
        (unfold acquire_loop in ground arith)
