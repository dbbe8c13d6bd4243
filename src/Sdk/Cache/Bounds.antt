-- ===== src/Sdk/Cache/Bounds.antt =====
-- How large the cache gets (packages/platform-sdk/src/fallbacks.ts).
use aws_architecture.Base.{
  ℕ, ◌+◌, ◌≤◌, String, Option, none, some, List, [], ◌∷◌, ◌++◌, ◌≡◌, refl, subst, arith, eq_iff,
  Bool-cases, inl, inr, ltb, length, length-append, ok, ok-injective,
}
use aws_architecture.Base.Map.{
  get, delete, get-delete, length-delete-le, HasDistinctKeys, delete-HasDistinctKeys,
}
use aws_architecture.Sdk.Cache.{
  Slot, Cache, make, is_expired, touch, read_slot, read, evict, write, remove, size,
}
use aws_architecture.Sdk.Cache.Recency.{Call, reads, writes, removes, call, all_calls}

module _ {V : Type 0} where
  -- At most as many entries as the limit, no key twice.
  pub record IsBounded (limit : ℕ) (c : Cache V) : Type 0 where
    pub limited : c.max_entries ≡ limit
    pub size_bound : size c ≤ limit
    pub distinct : HasDistinctKeys c.entries

  length-evict : (n : ℕ) (m : List (String × Slot V)) → length (evict n m) ≤ n
  unfolding evict
  length-evict n [] = omega arith
  length-evict n (e ∷ m) = ground (arith, length-evict n m)

  evict-HasDistinctKeys :
      (n : ℕ) (m : List (String × Slot V)) → HasDistinctKeys m → HasDistinctKeys (evict n m)
  unfolding evict
  evict-HasDistinctKeys n [] h = tt
  evict-HasDistinctKeys n ((k, w) ∷ m) (new, h) = elim (Bool-cases (ltb n (length ((k, w) ∷ m)))) [
    | inl e ↦ rw e (evict-HasDistinctKeys n m h)
    | inr e ↦ rw e (new, h)
  ]

  append-HasDistinctKeys :
      (k : String) (w : Slot V) (m : List (String × Slot V))
      → get k m ≡ none
      → HasDistinctKeys m
      → HasDistinctKeys (m ++ (k, w) ∷ [])
  unfolding get
  append-HasDistinctKeys k w [] new h = (refl, tt)
  append-HasDistinctKeys k w ((j, u) ∷ m) new (first, h) =
      (still (ground (arith, eq_iff j k)) m first, append-HasDistinctKeys k w m (ground arith) h)
    where
      still :
          ¬ (k ≡ j)
          → (m : List (String × Slot V)) → get j m ≡ none
          → get j (m ++ (k, w) ∷ []) ≡ none
      still ne [] h = ground (arith, eq_iff k j)
      still ne ((i, x) ∷ m) h = ground (arith, still ne m)

  touch-HasDistinctKeys :
      (k : String) (w : Slot V) (m : List (String × Slot V))
      → HasDistinctKeys m
      → HasDistinctKeys (touch k w m)
  touch-HasDistinctKeys k w m h =
      append-HasDistinctKeys k w (delete k m) (ground (arith, eq_iff k k, get-delete k k m))
        (delete-HasDistinctKeys k m h)

  length-delete_of_get :
      (k : String) (s : Slot V) (m : List (String × Slot V))
      → get k m ≡ some s
      → length (delete k m) + 1 ≤ length m
  unfolding get delete
  length-delete_of_get k s [] h = cc
  length-delete_of_get k s ((j, w) ∷ m) h =
      ground (arith, length-delete-le k m, length-delete_of_get k s m)

  read-IsBounded :
      (limit now : ℕ) (k : String) (c : Cache V)
      → IsBounded limit c
      → IsBounded limit (read now k c).0
  unfolding read
  read-IsBounded limit now k c b = by_slot (get k c.entries) refl
    where
      by_slot :
          (o : Option (Slot V)) → get k c.entries ≡ o → IsBounded limit (read_slot now k o c).0
      by_slot none e = b
      by_slot (some w) e = elim (Bool-cases (is_expired now w)) [
        | inl x ↦ rw x (record {
          limited = b.limited;
          size_bound = omega (arith, b.size_bound, length-delete-le k c.entries);
          distinct = delete-HasDistinctKeys k c.entries b.distinct;
        })
        | inr x ↦ rw x (record {
          limited = b.limited;
          size_bound = omega (
            arith,
            b.size_bound,
            length-delete_of_get k w c.entries e,
            length-append (delete k c.entries) ((k, w) ∷ []),
          );
          distinct = touch-HasDistinctKeys k w c.entries b.distinct;
        })
      ]

  call-IsBounded :
      (limit : ℕ) (x : Call V) (c : Cache V) → IsBounded limit c → IsBounded limit (call x c)
  unfolding call write remove
  call-IsBounded limit (reads now k) c b = read-IsBounded limit now k c b
  call-IsBounded limit (writes now k v ttl) c b = record {
    limited = b.limited;
    size_bound = omega (arith, b.limited, length-evict c.max_entries (touch k _ c.entries));
    distinct =
        evict-HasDistinctKeys c.max_entries (touch k _ c.entries)
          (touch-HasDistinctKeys k _ c.entries b.distinct);
  }
  call-IsBounded limit (removes k) c b = record {
    limited = b.limited;
    size_bound = omega (arith, b.size_bound, length-delete-le k c.entries);
    distinct = delete-HasDistinctKeys k c.entries b.distinct;
  }

  all_calls-IsBounded :
      (limit : ℕ) (xs : List (Call V)) (c : Cache V)
      → IsBounded limit c
      → IsBounded limit (all_calls xs c)
  unfolding all_calls
  all_calls-IsBounded limit [] c b = b
  all_calls-IsBounded limit (x ∷ xs) c b =
      all_calls-IsBounded limit xs (call x c) (call-IsBounded limit x c b)

  -- A cache that the constructor made with a limit has a positive limit, and after any calls it holds no
  -- more entries than the limit and no key twice.
  pub make-IsBounded :
      (limit : ℕ) (c : Cache V) (xs : List (Call V))
      → make limit ≡ ok c
      → (1 ≤ limit) × IsBounded limit (all_calls xs c)
  unfolding make
  make-IsBounded limit c xs h = elim (Bool-cases (ltb limit 1)) [
    | inl e ↦ cc
    | inr e ↦
        let made : Path (Cache V) (record { entries = []; max_entries = limit }) c =
          ok-injective (subst (λ r. r ≡ ok c) (rw e refl) h) in
        (
          ground arith,
          all_calls-IsBounded limit xs c (
              subst (IsBounded limit) made
                (record { limited = refl; size_bound = omega arith; distinct = tt })),
        )
  ]
