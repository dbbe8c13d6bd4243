-- ===== src/Api/RateLimit.antt =====
-- The fixed-window rate limiter in memory (apps/api/src/rate-limit.ts). The time is an argument;
-- limits, windows and times are natural numbers.
pub mod Bounds
pub mod Burst
use aws_architecture.Base.{
  ℕ, zero, suc, ◌+◌, ◌-◌, ◌%◌, String, Bool, true, false, not, ◌||◌, Option, none, some, List, [],
  ◌∷◌, ltb, leb, ◌==◌, if◌then◌else◌, truthy, length, filter, Result, ok, throw, error, http,
  reject_if,
}
use aws_architecture.Base.Map.{get, set, delete}

pub record RateLimitResult : Type 0 where
  pub allowed : Bool
  pub limit : ℕ
  pub remaining : ℕ
  pub reset_at : ℕ

pub record WindowState : Type 0 where
  pub count : ℕ
  pub reset_at : ℕ

pub record Limiter : Type 0 where
  pub max : ℕ
  pub window_ms : ℕ
  pub max_tracked_keys : ℕ
  pub windows : List (String × WindowState)
  pub operations : ℕ

-- The constructor.
unfoldable pub limiter : (max window_ms max_tracked_keys : ℕ) → Result Limiter
limiter max window_ms max_tracked_keys =
    if max == 0
    then throw (error "INVALID_LIMIT_MAX")
    else if window_ms == 0
    then throw (error "INVALID_LIMIT_WINDOW")
    else ok (record {
      max = max;
      window_ms = window_ms;
      max_tracked_keys = max_tracked_keys;
      windows = [];
      operations = 0;
    })

-- The first loop of `removeExpired`.
unfoldable pub drop_expired : ℕ → List (String × WindowState) → List (String × WindowState)
drop_expired now [] = []
drop_expired now ((k, w) ∷ m) =
    let rest = drop_expired now m in if leb w.reset_at now then rest else (k, w) ∷ rest

-- The second: while there are too many keys the oldest goes; an empty one ends the loop.
unfoldable pub drop_oldest : ℕ → List (String × WindowState) → List (String × WindowState)
drop_oldest most [] = []
drop_oldest most ((k, w) ∷ m) =
    let rest = drop_oldest most m in
    if ltb most (length ((k, w) ∷ m)) then (if truthy k then rest else (k, w) ∷ m) else (k, w) ∷ m

unfoldable pub remove_expired : ℕ → Limiter → Limiter
unfolding drop_expired drop_oldest
remove_expired now l = record l {
  windows = drop_oldest l.max_tracked_keys (drop_expired now l.windows);
}

-- The housekeeping at the head of `consume`.
unfoldable pub tidy : ℕ → Limiter → Limiter
tidy now l =
    let n = l.operations + 1 in
    if n % 1000 == 0 || leb l.max_tracked_keys (length l.windows)
    then remove_expired now (record l { operations = n })
    else record l { operations = n }

unfoldable pub open_window : ℕ → String → Limiter → Limiter × RateLimitResult
open_window now key l =
    let reset_at = now + l.window_ms in
    (
      record l { windows = set key (record { count = 1; reset_at = reset_at }) l.windows },
      record { allowed = true; limit = l.max; remaining = l.max - 1; reset_at = reset_at },
    )

unfoldable pub count_request : String → WindowState → Limiter → Limiter × RateLimitResult
count_request key w l =
    if leb l.max w.count
    then (l, record { allowed = false; limit = l.max; remaining = 0; reset_at = w.reset_at })
    else (
      record l { windows = set key (record w { count = w.count + 1 }) l.windows },
      record {
        allowed = true;
        limit = l.max;
        remaining = l.max - (w.count + 1);
        reset_at = w.reset_at;
      },
    )

unfoldable pub decide : ℕ → String → Limiter → Option WindowState → Limiter × RateLimitResult
unfolding open_window count_request
decide now key l none = open_window now key l
decide now key l (some w) =
    if leb w.reset_at now then open_window now key l else count_request key w l

unfoldable pub consume : (now : ℕ) → (key : String) → Limiter → Limiter × RateLimitResult
unfolding decide
consume now key l = let t = tidy now l in decide now key t (get key t.windows)

-- `clear(key?)`; an empty key clears all, as no key does.
unfoldable pub clear : Option String → Limiter → Limiter
clear none l = record l { windows = [] }
clear (some key) l =
    if truthy key then record l { windows = delete key l.windows } else record l { windows = [] }

unfoldable pub enforce_rate_limit : RateLimitResult → (code message : String) → Result (Unit {0})
enforce_rate_limit result code message = reject_if (not result.allowed) (http 429 code message)
