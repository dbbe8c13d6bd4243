-- ===== src/Api/RateLimit/Burst.antt =====
-- How many requests of one key a window lets through (apps/api/src/rate-limit.ts).
use aws_architecture.Base.{
  ℕ, ◌+◌, ◌-◌, ◌≤◌, ◌<◌, min, String, Bool, true, false, some, List, [], ◌∷◌, ◌≡◌, ◌==◌, ◌%◌, ◌||◌,
  leb, length, All, arith, refl, leb→le, ◌===◌, Bool-cases, inl, inr,
}
use mathlib.Core.Path.{ap}
use std.Option.{some-injective}
use aws_architecture.Base.Map.{get, get-set_self, length-set_of_get}
use aws_architecture.Api.RateLimit.{
  WindowState, Limiter, drop_expired, drop_oldest, remove_expired, tidy, count_request, decide,
  consume,
}
use aws_architecture.Api.RateLimit.Bounds.{length-drop_expired-le}

drop_oldest_small : (n : ℕ) (m : List (String × WindowState)) → length m ≤ n → drop_oldest n m ≡ m
unfolding drop_oldest
drop_oldest_small n [] h = refl
drop_oldest_small n ((k, w) ∷ m) h = ground arith

get-drop_expired :
    (now : ℕ) (key : String) (m : List (String × WindowState)) {w : WindowState}
    → get key m ≡ some w
    → now < w.reset_at
    → get key (drop_expired now m) ≡ some w
unfolding get drop_expired
get-drop_expired now key [] e h = cc
get-drop_expired now key ((k, v) ∷ m) {w} e h = elim (Bool-cases (k === key)) [
  | inl here ↦
      let same : v ≡ w = some-injective (ground arith) in
      let live : leb v.reset_at now ≡ false = rw same (ground arith) in
      rw (live, here) (ap some same)
  | inr further ↦
      let rest = get-drop_expired now key m (ground arith) h in
      elim (Bool-cases (leb v.reset_at now)) [
        | inl gone ↦ rw gone rest
        | inr stays ↦ rw (stays, further) rest
      ]
]

-- A limiter in which no key is over the number that may be tracked, and one key has a live window.
pub record IsLive (key : String) (max tracked count reset : ℕ) (l : Limiter) : Type 0 where
  pub limit : l.max ≡ max
  pub most : l.max_tracked_keys ≡ tracked
  pub found : get key l.windows ≡ some (record { count = count; reset_at = reset })
  pub fits : length l.windows ≤ tracked

leb-false : (n m : ℕ) → leb n m ≡ false → m < n
leb-false n m h = ground arith

module _ (key : String) (max tracked count reset : ℕ) (l : Limiter) (now : ℕ)
    (early : now < reset) where
  remove_expired-IsLive :
      (n : ℕ)
      → IsLive key max tracked count reset l
      → IsLive key max tracked count reset (remove_expired now (record l { operations = n }))
  unfolding remove_expired
  remove_expired-IsLive n h =
      let small : length (drop_expired now l.windows) ≤ l.max_tracked_keys =
        omega (arith, length-drop_expired-le now l.windows, h.fits, h.most) in
      let same = drop_oldest_small l.max_tracked_keys (drop_expired now l.windows) small in
      record {
        limit = h.limit;
        most = h.most;
        found = rw same (get-drop_expired now key l.windows h.found early);
        fits = rw same (omega (arith, length-drop_expired-le now l.windows, h.fits));
      }

  tidy-IsLive :
      IsLive key max tracked count reset l → IsLive key max tracked count reset (tidy now l)
  unfolding tidy
  tidy-IsLive h =
      elim (Bool-cases
        ((l.operations + 1) % 1000 == 0 || leb l.max_tracked_keys (length l.windows))) [
          | inl e ↦ rw e (remove_expired-IsLive (l.operations + 1) h)
          | inr e ↦ rw e (record { limit = h.limit; most = h.most; found = h.found; fits = h.fits })
        ]

abbrev pub bit : Bool → ℕ
bit true = 1
bit false = 0

-- How many of the requests of a key at these times are allowed.
unfoldable pub allowed_count : String → List ℕ → Limiter → ℕ
allowed_count key [] l = 0
allowed_count key (t ∷ ts) l =
    bit (consume t key l).1.allowed + allowed_count key ts (consume t key l).0

-- One request in a live window.
record IsCountedOn (key : String) (max tracked count reset now : ℕ) (l : Limiter) : Type 0 where
  next : IsLive key max tracked (min max (count + 1)) reset (consume now key l).0
  answer : bit (consume now key l).1.allowed ≡ min 1 (max - count)

consume-IsLive :
    (key : String) (max tracked count reset now : ℕ) (l : Limiter)
    → now < reset
    → count ≤ max
    → IsLive key max tracked count reset l
    → IsCountedOn key max tracked count reset now l
unfolding consume decide count_request
consume-IsLive key max tracked count reset now l early below h =
    let k = tidy-IsLive key max tracked count reset l now early h in
    let live : leb reset now ≡ false = ground arith in
    elim (Bool-cases (leb (tidy now l).max count)) [
      | inl full ↦
          let top : count ≡ max =
            omega (arith, leb→le (tidy now l).max count full, k.limit, below) in
          let clip : min max (count + 1) ≡ count = omega (arith, top) in
          record {
            next = rw (k.found, live, full, clip) k;
            answer = rw (k.found, live, full) (omega (arith, top));
          }
      | inr free ↦
          let room : count < max = omega (arith, leb-false (tidy now l).max count free, k.limit) in
          let step : min max (count + 1) ≡ count + 1 = omega (arith, room) in
          let same =
            length-set_of_get key (record { count = count + 1; reset_at = reset })
              (record { count = count; reset_at = reset }) (tidy now l).windows k.found in
          record {
            next =
                rw (k.found, live, free, step)
                  (record {
                    limit = k.limit;
                    most = k.most;
                    found =
                        get-set_self key (record { count = count + 1; reset_at = reset })
                          (tidy now l).windows;
                    fits = rw same k.fits;
                  });
            answer = rw (k.found, live, free) (omega (arith, room));
          }
    ]

-- While a key's window is open, exactly as many of its requests are let through as the limit leaves
-- after those already counted, whatever their number and times, and though the expired windows of
-- other keys are dropped meanwhile; the limiter must not hold more keys than it may track.
pub allowed_count-eq :
    (key : String) (max tracked count reset : ℕ) (times : List ℕ) (l : Limiter)
    → IsLive key max tracked count reset l
    → count ≤ max
    → All (λ t. t < reset) times
    → allowed_count key times l ≡ min (length times) (max - count)
unfolding allowed_count
allowed_count-eq key max tracked count reset [] l h below early = omega arith
allowed_count-eq key max tracked count reset (t ∷ ts) l h below (now, early) =
    let one = consume-IsLive key max tracked count reset t l now below h in
    let rest =
      allowed_count-eq key max tracked (min max (count + 1)) reset ts (consume t key l).0 one.next
        (omega arith) early in
    omega (arith, one.answer, rest, below)
