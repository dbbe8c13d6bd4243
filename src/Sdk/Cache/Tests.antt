-- ===== src/Sdk/Cache/Tests.antt =====
-- Runs of the cache in memory on concrete calls.
use aws_architecture.Base.{ℕ, none, some, List, [], ◌∷◌, ◌≡◌, refl, arith, eq_iff, All, ok, ◌≤◌}
use aws_architecture.Base.Map.{get, delete}
use aws_architecture.Sdk.Cache.{Cache, make, read, write, evict, expiry}
use aws_architecture.Sdk.Cache.Recency.{Call, reads, writes, call, all_calls, write-read, Spares}
use aws_architecture.Sdk.Cache.Bounds.{make-IsBounded, IsBounded}

abbrev two : Cache ℕ
two = record { entries = []; max_entries = 2 }

abbrev some_calls : List (Call ℕ)
some_calls = writes 6 "b" 20 (some 1) ∷ []

-- The least recently used key goes first, not the oldest one.
evicts_least_recent :
    (read 9 "b" (
      all_calls
        (writes 5 "b" 20 none ∷ reads 6 "a" ∷ writes 7 "c" 30 none ∷ [])
        (write 4 "a" 10 none two))).1
    ≡ none
unfolding write evict delete all_calls call read get
evicts_least_recent = refl

spared : All (Spares "a" (record { value = 10; expires_at = expiry 4 (some 1) })) some_calls
spared = ((λ same. absurd (ground (arith, eq_iff "b" "a"))), tt)

write-read_example :
    (read 1003 "a" (all_calls some_calls (write 4 "a" 10 (some 1) two))).1 ≡ some 10
write-read_example = write-read "a" 10 (some 1) 4 1003 some_calls two (omega arith) spared refl

made : make 2 ≡ ok two
unfolding make
made = refl

make-IsBounded_example : (1 ≤ 2) × IsBounded 2 (all_calls some_calls two)
make-IsBounded_example = make-IsBounded 2 two some_calls made
