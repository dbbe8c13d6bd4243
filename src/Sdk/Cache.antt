-- ===== src/Sdk/Cache.antt =====
-- The least recently used cache in memory (`MemoryCacheAdapter` of
-- packages/platform-sdk/src/fallbacks.ts). Its map goes from the least to the most recently used key.
-- Lifetimes and times are natural numbers; the clock is an argument.
pub mod Recency
pub mod Bounds
mod Tests
use aws_architecture.Base.{
  ℕ, ◌+◌, ◌*◌, String, Bool, true, false, not, ◌&&◌, Option, none, some, List, [], ◌∷◌, ◌++◌, ◌==◌,
  leb, ltb, length, if◌then◌else◌, Result, ok, throw, error,
}
use aws_architecture.Base.Map.{get, delete}

pub record Slot (V : Type 0) : Type 0 where
  pub value : V
  pub expires_at : Option ℕ

pub record Cache (V : Type 0) : Type 0 where
  pub entries : List (String × Slot V)
  pub max_entries : ℕ

-- `ttlSeconds ? Date.now() + ttlSeconds * 1000 : undefined`.
abbrev pub expiry : (now : ℕ) → Option ℕ → Option ℕ
expiry now none = none
expiry now (some ttl) = if ttl == 0 then none else some (now + ttl * 1000)

module _ {V : Type 0} where
  -- The constructor.
  unfoldable pub make : (max_entries : ℕ) → Result (Cache V)
  make n =
      if ltb n 1
      then throw (error "INVALID_MEMORY_CACHE_LIMIT")
      else ok (record { entries = []; max_entries = n })

  -- `entry.expiresAt && entry.expiresAt <= Date.now()`.
  abbrev pub is_expired : (now : ℕ) → Slot V → Bool
  is_expired now slot = elim slot.expires_at [ none ↦ false | some t ↦ not (t == 0) && leb t now ]

  -- An entry goes to the end of the map.
  abbrev pub touch : String → Slot V → List (String × Slot V) → List (String × Slot V)
  touch key slot m = delete key m ++ (key, slot) ∷ []

  abbrev pub read_slot : (now : ℕ) → String → Option (Slot V) → Cache V → Cache V × Option V
  read_slot now key none c = (c, none)
  read_slot now key (some slot) c =
      if is_expired now slot
      then (record c { entries = delete key c.entries }, none)
      else (record c { entries = touch key slot c.entries }, some slot.value)

  unfoldable pub read : (now : ℕ) → String → Cache V → Cache V × Option V
  unfolding get
  read now key c = read_slot now key (get key c.entries) c

  -- The loop that deletes the oldest entries.
  unfoldable pub evict : (max_entries : ℕ) → List (String × Slot V) → List (String × Slot V)
  evict n [] = []
  evict n (e ∷ m) = let rest = evict n m in if ltb n (length (e ∷ m)) then rest else e ∷ m

  unfoldable pub write : (now : ℕ) → String → V → (ttl : Option ℕ) → Cache V → Cache V
  unfolding evict delete
  write now key value ttl c = record c {
    entries =
        evict c.max_entries
          (touch key (record { value = value; expires_at = expiry now ttl }) c.entries);
  }

  unfoldable pub remove : String → Cache V → Cache V
  unfolding delete
  remove key c = record c { entries = delete key c.entries }

  abbrev pub size : Cache V → ℕ
  size c = length c.entries
