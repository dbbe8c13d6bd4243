-- ===== src/Sdk/Cache/Recency.antt =====
-- What the cache keeps, and how large it gets (packages/platform-sdk/src/fallbacks.ts).
use aws_architecture.Base.{
  ℕ, ◌+◌, ◌≤◌, ◌<◌, String, false, Option, none, some, List, [], ◌∷◌, ◌++◌, ◌≡◌, ◌≢◌, refl, sym,
  subst, arith, eq_iff, Bool-cases, inl, inr, ◌===◌, length, length-append, if◌then◌else◌, All,
}
use aws_architecture.Base.Map.{get, delete, get-delete, length-delete-le}
use aws_architecture.Sdk.Cache.{
  Slot, Cache, is_expired, touch, read_slot, read, expiry, evict, write, remove,
}

pub data Call (V : Type 0) : Type 0 where
  reads : (now : ℕ) → String → Call V
  writes : (now : ℕ) → String → V → Option ℕ → Call V
  removes : String → Call V

module _ {V : Type 0} where
  unfoldable pub call : Call V → Cache V → Cache V
  call (reads now k) c = (read now k c).0
  call (writes now k v ttl) c = write now k v ttl c
  call (removes k) c = remove k c

  unfoldable pub all_calls : List (Call V) → Cache V → Cache V
  all_calls [] c = c
  all_calls (x ∷ xs) c = all_calls xs (call x c)

  -- A key and its entry stand in the map, with at most this many younger entries.
  abbrev pub Kept : String → Slot V → ℕ → List (String × Slot V) → Type 0
  Kept k s n [] = ⊥
  Kept k s n ((j, w) ∷ m) =
      if j === k then ((w ≡ s) × (length m ≤ n) × (get k m ≡ none)) else Kept k s n m

  Kept-get :
      (k : String) (s : Slot V) (n : ℕ) (m : List (String × Slot V))
      → Kept k s n m
      → get k m ≡ some s
  unfolding get
  Kept-get k s n [] h = absurd h
  Kept-get k s n ((j, w) ∷ m) h = ground (arith, Kept-get k s n m)

  Kept-delete :
      (j k : String) (s : Slot V) (n : ℕ) (m : List (String × Slot V))
      → j ≢ k
      → Kept k s n m
      → Kept k s n (delete j m)
  unfolding get delete
  Kept-delete j k s n [] ne h = absurd h
  Kept-delete j k s n ((i, w) ∷ m) ne h = ground (
    arith,
    eq_iff i j,
    eq_iff i k,
    eq_iff j k,
    get-delete j k m,
    length-delete-le j m,
    Kept-delete j k s n m ne,
  )

  get-append :
      (k : String) (m : List (String × Slot V)) (j : String) (w : Slot V)
      → j ≢ k
      → get k m ≡ none
      → get k (m ++ (j, w) ∷ []) ≡ none
  unfolding get
  get-append k [] j w ne h = ground (arith, eq_iff j k)
  get-append k ((i, u) ∷ m) j w ne h = ground (arith, eq_iff i k, get-append k m j w ne)

  Kept-append :
      (j k : String) (s w : Slot V) (n : ℕ) (m : List (String × Slot V))
      → j ≢ k
      → Kept k s n m
      → Kept k s (n + 1) (m ++ (j, w) ∷ [])
  unfolding get
  Kept-append j k s w n [] ne h = absurd h
  Kept-append j k s w n ((i, u) ∷ m) ne h = ground (
    arith,
    eq_iff j k,
    get-append k m j w ne,
    length-append m ((j, w) ∷ []),
    Kept-append j k s w n m ne,
  )

  Kept-last :
      (k : String) (s : Slot V) (m : List (String × Slot V))
      → get k m ≡ none
      → Kept k s 0 (m ++ (k, s) ∷ [])
  unfolding get
  Kept-last k s [] h = ground (arith, eq_iff k k)
  Kept-last k s ((i, u) ∷ m) h = ground (arith, Kept-last k s m)

  Kept-length :
      (k : String) (s : Slot V) (n : ℕ) (m : List (String × Slot V)) → Kept k s n m → 1 ≤ length m
  Kept-length k s n [] h = absurd h
  Kept-length k s n (e ∷ m) h = omega arith

  Kept-evict :
      (max : ℕ) (k : String) (s : Slot V) (n : ℕ) (m : List (String × Slot V))
      → n < max
      → Kept k s n m
      → Kept k s n (evict max m)
  unfolding evict
  Kept-evict max k s n [] lt h = absurd h
  Kept-evict max k s n ((i, u) ∷ m) lt h = ground (arith, Kept-evict max k s n m lt)

  Kept-le :
      (k : String) (s : Slot V) (n p : ℕ) (m : List (String × Slot V))
      → n ≤ p
      → Kept k s n m
      → Kept k s p m
  Kept-le k s n p [] le h = absurd h
  Kept-le k s n p ((j, w) ∷ m) le h = ground (arith, Kept-le k s n p m le)

  -- A call that leaves the entry of a key alone: no write or removal of the key, and no read of it after
  -- its end.
  abbrev pub Spares : String → Slot V → Call V → Type 0
  Spares k s (reads now j) = (j ≡ k) → is_expired now s ≡ false
  Spares k s (writes now j v ttl) = j ≢ k
  Spares k s (removes j) = j ≢ k

  Kept-touch :
      (j k : String) (s w : Slot V) (n : ℕ) (m : List (String × Slot V))
      → j ≢ k
      → Kept k s n m
      → Kept k s (n + 1) (touch j w m)
  Kept-touch j k s w n m ne h = Kept-append j k s w n (delete j m) ne (Kept-delete j k s n m ne h)

  Kept-touch_self :
      (k : String) (s : Slot V) (n : ℕ) (m : List (String × Slot V)) → Kept k s n (touch k s m)
  Kept-touch_self k s n m =
      Kept-le k s 0 n (touch k s m) (omega arith)
        (Kept-last k s (delete k m) (ground (arith, eq_iff k k, get-delete k k m)))

  read-Kept :
      (now : ℕ) (j k : String) (s : Slot V) (n : ℕ) (c : Cache V)
      → ((j ≡ k) → is_expired now s ≡ false)
      → Kept k s n c.entries
      → Kept k s (n + 1) (read now j c).0.entries
  unfolding read
  read-Kept now j k s n c alive h = elim (Bool-cases (j === k)) [
    | inl e ↦
        let same : j ≡ k = ground (arith, eq_iff j k) in
        let found = subst (λ i. get i c.entries ≡ some s) (sym same) (Kept-get k s n c.entries h) in
        rw (found, alive same)
          (subst (λ i. Kept k s (n + 1) (touch i s c.entries)) (sym same)
            (Kept-touch_self k s (n + 1) c.entries))
    | inr e ↦ other (λ same. ground (arith, eq_iff j k)) (get j c.entries)
  ]
    where
      other : j ≢ k → (o : Option (Slot V)) → Kept k s (n + 1) (read_slot now j o c).0.entries
      other ne none = Kept-le k s n (n + 1) c.entries (omega arith) h
      other ne (some w) = elim (Bool-cases (is_expired now w)) [
        | inl e ↦ rw e (Kept-le k s n (n + 1) _ (omega arith) (Kept-delete j k s n c.entries ne h))
        | inr e ↦ rw e (Kept-touch j k s w n c.entries ne h)
      ]

  call-Kept :
      (x : Call V) (k : String) (s : Slot V) (n : ℕ) (c : Cache V)
      → n + 1 < c.max_entries
      → Spares k s x
      → Kept k s n c.entries
      → Kept k s (n + 1) (call x c).entries
  unfolding call write remove
  call-Kept (reads now j) k s n c lt alive h = read-Kept now j k s n c alive h
  call-Kept (writes now j v ttl) k s n c lt ne h =
      Kept-evict c.max_entries k s (n + 1) (touch j _ c.entries) lt
        (Kept-touch j k s _ n c.entries ne h)
  call-Kept (removes j) k s n c lt ne h =
      Kept-le k s n (n + 1) (delete j c.entries) (omega arith) (Kept-delete j k s n c.entries ne h)

  read-max_entries :
      (now : ℕ) (k : String) (c : Cache V) → (read now k c).0.max_entries ≡ c.max_entries
  unfolding read
  read-max_entries now k c = by_slot (get k c.entries)
    where
      by_slot : (o : Option (Slot V)) → (read_slot now k o c).0.max_entries ≡ c.max_entries
      by_slot none = refl
      by_slot (some w) = elim (Bool-cases (is_expired now w)) [
        | inl e ↦ rw e refl
        | inr e ↦ rw e refl
      ]

  call-max_entries : (x : Call V) (c : Cache V) → (call x c).max_entries ≡ c.max_entries
  unfolding call write remove
  call-max_entries (reads now k) c = read-max_entries now k c
  call-max_entries (writes now k v ttl) c = refl
  call-max_entries (removes k) c = refl

  all_calls-Kept :
      (xs : List (Call V)) (k : String) (s : Slot V) (n : ℕ) (c : Cache V)
      → n + length xs < c.max_entries
      → All (Spares k s) xs
      → Kept k s n c.entries
      → Kept k s (n + length xs) (all_calls xs c).entries
  unfolding all_calls
  all_calls-Kept [] k s n c lt spared h = Kept-le k s n (n + 0) c.entries (omega arith) h
  all_calls-Kept (x ∷ xs) k s n c lt (here, spared) h =
      Kept-le k s ((n + 1) + length xs) (n + length (x ∷ xs)) _ (omega arith) (
        all_calls-Kept xs k s (n + 1) (call x c) (omega (arith, call-max_entries x c)) spared
          (call-Kept x k s n c (omega arith) here h))

  -- Least recently used means: after a write of a key, any calls that do not write or remove the key, fewer
  -- than the cache's limit, leave its entry in the cache, so that a read before its end gives the
  -- written value.
  pub write-read :
      (k : String) (v : V) (ttl : Option ℕ) (start now : ℕ) (xs : List (Call V)) (c : Cache V)
      → length xs < c.max_entries
      → All (Spares k (record { value = v; expires_at = expiry start ttl })) xs
      → is_expired now (record { value = v; expires_at = expiry start ttl }) ≡ false
      → (read now k (all_calls xs (write start k v ttl c))).1 ≡ some v
  unfolding read write
  write-read k v ttl start now xs c lt spared alive =
      let s : Slot V = record { value = v; expires_at = expiry start ttl } in
      let kept = all_calls-Kept xs k s 0 (write start k v ttl c) (omega arith) spared (
        Kept-evict c.max_entries k s 0 (touch k s c.entries) (omega arith)
          (Kept-touch_self k s 0 c.entries)) in
      rw (Kept-get k s _ _ kept, alive) refl
