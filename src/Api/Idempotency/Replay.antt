-- ===== src/Api/Idempotency/Replay.antt =====
-- Requests that share an idempotency key share one answer (apps/api/src/idempotency.ts).
use aws_architecture.Base.{
  ℕ, ◌+◌, ◌*◌, ◌<◌, String, false, Option, none, some, List, [], ◌∷◌, ◌≡◌, ◌≢◌, leb, ◌===◌, ok, All,
  arith, eq_iff, refl, Bool-cases, Option-cases, inl, inr, ◌∙◌,
}
use aws_architecture.Base.Map.{get, delete, get-set, get-delete, get-set_self}
use aws_architecture.Api.Idempotency.{
  IdempotentResponse, Entry, port_get, put_if_absent, day, store_get, commit_or_read, Event, looks,
  commits, Reply, serve, serve_all,
}

module _ {Bytes : Type 0} where
  -- Another key's reads and writes leave an entry where it is.
  port_get-other :
      (now : ℕ) (key other : String) (m : List (String × Entry Bytes))
      → other ≢ key
      → get key (port_get now other m).0 ≡ get key m
  unfolding port_get
  port_get-other now key other m d = elim (Option-cases (get other m)) [
    | inl e ↦ rw e refl
    | inr (x, e) ↦ elim (Bool-cases (leb x.expires_at now)) [
      | inl old ↦ rw (e, old) (ground (arith, get-delete other key m, eq_iff other key))
      | inr live ↦ rw (e, live) refl
    ]
  ]

  put_if_absent-other :
      (now : ℕ) (key other : String) (b : Bytes) (ttl : ℕ) (m : List (String × Entry Bytes))
      → other ≢ key
      → get key (put_if_absent now other b ttl m).0 ≡ get key m
  unfolding put_if_absent
  put_if_absent-other now key other b ttl m d = elim (Option-cases (get other m)) [
    | inl e ↦
        let fresh : Entry Bytes = record { value = b; expires_at = now + ttl * 1000 } in
        rw e (ground (arith, get-set other key fresh m, eq_iff other key))
    | inr (x, e) ↦ elim (Bool-cases (leb x.expires_at now)) [
      | inl old ↦
          let fresh : Entry Bytes = record { value = b; expires_at = now + ttl * 1000 } in
          rw (e, old)
            (ground (
              arith,
              get-set other key fresh (delete other m),
              get-delete other key m,
              eq_iff other key,
            ))
      | inr live ↦ rw (e, live) refl
    ]
  ]

  -- A live entry is read and stays, and is not written over.
  module _ (now : ℕ) (key : String) (m : List (String × Entry Bytes)) {e : Entry Bytes}
      (stored : get key m ≡ some e) (live : now < e.expires_at) where
    still : leb e.expires_at now ≡ false
    still = ground arith

    port_get-live : port_get now key m ≡ (m, some e.value)
    unfolding port_get
    port_get-live = rw (stored, still) refl

    put_if_absent-live : (b : Bytes) (ttl : ℕ) → put_if_absent now key b ttl m ≡ (m, false)
    unfolding put_if_absent
    put_if_absent-live b ttl = rw (stored, still) refl

-- An event of which all times are before this one.
abbrev pub Before : ℕ → Event → Type 0
Before t (looks now key) = now < t
Before t (commits now later key response) = (now < t) × (later < t)

-- What is read back is what was stored.
module _ {Bytes : Type 0} (encode : IdempotentResponse → Bytes)
    (decode : Bytes → Option IdempotentResponse)
    (returns : (r : IdempotentResponse) → decode (encode r) ≡ some r) where
  -- A store in which a key has a response until a time.
  abbrev pub IsHeld : String → IdempotentResponse → ℕ → List (String × Entry Bytes) → Type 0
  IsHeld key r t m = get key m ≡ some (record { value = encode r; expires_at = t })

  store_get-held :
      (now t : ℕ) (key : String) (r : IdempotentResponse) (m : List (String × Entry Bytes))
      → IsHeld key r t m
      → now < t
      → store_get encode decode now key m ≡ (m, ok (some r))
  unfolding store_get
  store_get-held now t key r m h l = rw (port_get-live now key m h l, returns r) refl

  commit_or_read-held :
      (now later t : ℕ) (key : String) (r other : IdempotentResponse)
      (m : List (String × Entry Bytes))
      → IsHeld key r t m
      → now < t
      → later < t
      → commit_or_read encode decode now later key other m ≡ (m, ok r)
  unfolding commit_or_read
  commit_or_read-held now later t key r other m h l l' =
      rw (put_if_absent-live now key m h l (encode other) day, store_get-held later t key r m h l')
        refl

  store_get-other :
      (now : ℕ) (key other : String) (m : List (String × Entry Bytes))
      → other ≢ key
      → get key (store_get encode decode now other m).0 ≡ get key m
  unfolding store_get
  store_get-other now key other m d = port_get-other now key other m d

  commit_or_read-other :
      (now later : ℕ) (key other : String) (r : IdempotentResponse)
      (m : List (String × Entry Bytes))
      → other ≢ key
      → get key (commit_or_read encode decode now later other r m).0 ≡ get key m
  unfolding commit_or_read
  commit_or_read-other now later key other r m d =
      let written = put_if_absent-other now key other (encode r) day m d in
      elim (Bool-cases (put_if_absent now other (encode r) day m).1) [
        | inl won ↦ rw won written
        | inr lost ↦ rw lost (
            store_get-other later key other (put_if_absent now other (encode r) day m).0 d
            ∙ written)
      ]

  -- A reply to this key is this response.
  abbrev pub Repeats : String → IdempotentResponse → Reply → Type 0
  Repeats key r x = x.to ≡ key → x.answer ≡ ok (some r)

  serve-IsHeld :
      (t : ℕ) (key : String) (r : IdempotentResponse) (m : List (String × Entry Bytes)) (e : Event)
      → IsHeld key r t m
      → Before t e
      → IsHeld key r t (serve encode decode e m).0 × Repeats key r (serve encode decode e m).1
  unfolding serve
  serve-IsHeld t key r m (looks now other) h l = elim (Bool-cases (other === key)) [
    | inl same ↦
        let own : other ≡ key = ground (arith, eq_iff other key) in
        let read = store_get-held now t key r m h l in rw (own, read) (h, λ e. refl)
    | inr differs ↦
        let apart : other ≢ key = ground (arith, eq_iff other key) in
        (store_get-other now key other m apart ∙ h, λ e. absurd (apart e))
  ]
  serve-IsHeld t key r m (commits now later other response) h (l, l') =
      elim (Bool-cases (other === key)) [
        | inl same ↦
            let own : other ≡ key = ground (arith, eq_iff other key) in
            let read = commit_or_read-held now later t key r response m h l l' in
            rw (own, read) (h, λ e. refl)
        | inr differs ↦
            let apart : other ≢ key = ground (arith, eq_iff other key) in
            (commit_or_read-other now later key other response m apart ∙ h, λ e. absurd (apart e))
      ]

  serve_all-held :
      (t : ℕ) (key : String) (r : IdempotentResponse) (m : List (String × Entry Bytes))
      (es : List Event)
      → IsHeld key r t m
      → All (Before t) es
      → All (Repeats key r) (serve_all encode decode es m)
  unfolding serve_all
  serve_all-held t key r m [] h l = tt
  serve_all-held t key r m (e ∷ es) h (l, ls) =
      let (next, here) = serve-IsHeld t key r m e h l in
      (here, serve_all-held t key r (serve encode decode e m).0 es next ls)

  commit_or_read-fresh :
      (now later : ℕ) (key : String) (r : IdempotentResponse) (m : List (String × Entry Bytes))
      → get key m ≡ none
      → IsHeld key r (now + day * 1000) (commit_or_read encode decode now later key r m).0
        × ((commit_or_read encode decode now later key r m).1 ≡ ok r)
  unfolding commit_or_read put_if_absent
  commit_or_read-fresh now later key r m h =
      rw h (get-set_self key (record { value = encode r; expires_at = now + day * 1000 }) m, refl)

  -- Where decoding gives back what was encoded and the store has nothing under an idempotency key: of
  -- all requests with that key that run within a day of the first commit, however their look-ups and
  -- commits and those of requests with other keys fall between one another, every one gets the response
  -- of that first commit.
  pub serve_all-first :
      (now later : ℕ) (key : String) (r : IdempotentResponse) (es : List Event)
      (m : List (String × Entry Bytes))
      → get key m ≡ none
      → All (Before (now + day * 1000)) es
      → ((serve encode decode (commits now later key r) m).1.answer ≡ ok (some r))
        × All
            (Repeats key r)
            (serve_all encode decode es (serve encode decode (commits now later key r) m).0)
  unfolding serve
  serve_all-first now later key r es m free early =
      let (held, first) = commit_or_read-fresh now later key r m free in
      (
        rw first refl,
        serve_all-held (now + day * 1000) key r (commit_or_read encode decode now later key r m).0
            es held early,
      )
