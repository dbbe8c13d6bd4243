-- ===== src/Api/RateLimit/Bounds.antt =====
-- The limiter's counts and its memory stay bounded (apps/api/src/rate-limit.ts).
use aws_architecture.Base.{
  ℕ, ◌+◌, ◌≤◌, String, true, some, List, [], ◌∷◌, ◌≡◌, ltb, leb, ◌==◌, ◌%◌, ◌||◌, leb→le, truthy,
  length, All, arith, refl, Bool-cases, Option-cases, inl, inr, ok,
}
use aws_architecture.Base.Map.{
  get, set, Values, set-Values, get-Values, length-set-le, get-set_self,
}
use aws_architecture.Api.RateLimit.{
  WindowState, Limiter, limiter, RateLimitResult, drop_expired, drop_oldest, remove_expired, tidy,
  open_window, count_request, decide, consume,
}

-- A window counts at least one request and never more than the limit; there is at most one key more
-- than may be tracked, and no key is empty.
abbrev pub IsCounted : ℕ → WindowState → Type 0
IsCounted max w = (1 ≤ w.count) × (w.count ≤ max)

abbrev pub HasKeys : List (String × WindowState) → Type 0
HasKeys m = All (λ e. truthy e.0 ≡ true) m

pub record IsBounded (l : Limiter) : Type 0 where
  pub positive : 1 ≤ l.max
  pub counted : Values (IsCounted l.max) l.windows
  pub keyed : HasKeys l.windows
  pub small : length l.windows ≤ l.max_tracked_keys + 1

module _ (P : String × WindowState → Type 0) where
  drop_expired-All :
      (now : ℕ) (m : List (String × WindowState)) → All P m → All P (drop_expired now m)
  unfolding drop_expired
  drop_expired-All now [] h = tt
  drop_expired-All now ((k, w) ∷ m) (p, h) = elim (Bool-cases (leb w.reset_at now)) [
    | inl e ↦ rw e (drop_expired-All now m h)
    | inr e ↦ rw e (p, drop_expired-All now m h)
  ]

  drop_oldest-All : (n : ℕ) (m : List (String × WindowState)) → All P m → All P (drop_oldest n m)
  unfolding drop_oldest
  drop_oldest-All n [] h = tt
  drop_oldest-All n ((k, w) ∷ m) (p, h) = elim (Bool-cases (ltb n (length ((k, w) ∷ m)))) [
    | inr e ↦ rw e (p, h)
    | inl e ↦ elim (Bool-cases (truthy k)) [
      | inl t ↦ rw (e, t) (drop_oldest-All n m h)
      | inr t ↦ rw (e, t) (p, h)
    ]
  ]

pub length-drop_expired-le :
    (now : ℕ) (m : List (String × WindowState)) → length (drop_expired now m) ≤ length m
unfolding drop_expired
length-drop_expired-le now [] = omega arith
length-drop_expired-le now ((k, w) ∷ m) = ground (arith, length-drop_expired-le now m)

length-drop_oldest-le :
    (n : ℕ) (m : List (String × WindowState)) → HasKeys m → length (drop_oldest n m) ≤ n
unfolding drop_oldest
length-drop_oldest-le n [] h = omega arith
length-drop_oldest-le n ((k, w) ∷ m) (t, h) = ground (arith, length-drop_oldest-le n m)

-- A limiter with room for one more key, as it is after housekeeping.
record IsTidy (l : Limiter) : Type 0 where
  positive : 1 ≤ l.max
  counted : Values (IsCounted l.max) l.windows
  keyed : HasKeys l.windows
  room : length l.windows ≤ l.max_tracked_keys

remove_expired-IsTidy :
    (now n : ℕ) (l : Limiter)
    → IsBounded l
    → IsTidy (remove_expired now (record l { operations = n }))
unfolding remove_expired
remove_expired-IsTidy now n l h =
    let keyed = drop_expired-All (λ e. truthy e.0 ≡ true) now l.windows h.keyed in
    record {
      positive = h.positive;
      counted =
          drop_oldest-All (λ e. IsCounted l.max e.1) l.max_tracked_keys _
            (drop_expired-All (λ e. IsCounted l.max e.1) now l.windows h.counted);
      keyed = drop_oldest-All (λ e. truthy e.0 ≡ true) l.max_tracked_keys _ keyed;
      room = length-drop_oldest-le l.max_tracked_keys _ keyed;
    }

tidy-IsTidy : (now : ℕ) (l : Limiter) → IsBounded l → IsTidy (tidy now l)
unfolding tidy
tidy-IsTidy now l h =
    elim (Bool-cases
      ((l.operations + 1) % 1000 == 0 || leb l.max_tracked_keys (length l.windows))) [
        | inl e ↦ rw e (remove_expired-IsTidy now (l.operations + 1) l h)
        | inr e ↦ rw e (record {
          positive = h.positive;
          counted = h.counted;
          keyed = h.keyed;
          room = ground arith;
        })
      ]

set-HasKeys :
    (k : String) (v : WindowState) (m : List (String × WindowState))
    → truthy k ≡ true
    → HasKeys m
    → HasKeys (set k v m)
unfolding set
set-HasKeys k v [] t h = (t, tt)
set-HasKeys k v ((j, w) ∷ m) t (q, h) = ground (arith, set-HasKeys k v m)

-- What an answer says of the key's window: it counts at least one request and at most the limit, and
-- the requests counted and those that remain make the limit.
pub record IsAccounted (key : String) (l : Limiter) (r : RateLimitResult) : Type 0 where
  pub limit : r.limit ≡ l.max
  pub window : WindowState
  pub found : get key l.windows ≡ some window
  pub exact : window.count + r.remaining ≡ r.limit
  pub reset : r.reset_at ≡ window.reset_at

abbrev Answered : String → Limiter × RateLimitResult → Type 0
Answered key (l, r) = IsBounded l × IsAccounted key l r

open_window-Answered :
    (now : ℕ) (key : String) (l : Limiter)
    → truthy key ≡ true
    → IsTidy l
    → Answered key (open_window now key l)
unfolding open_window
open_window-Answered now key l t h =
    let w : WindowState = record { count = 1; reset_at = now + l.window_ms } in
    let p = h.positive in
    (
      record {
        positive = p;
        counted = set-Values (IsCounted l.max) key w l.windows h.counted (omega arith, p);
        keyed = set-HasKeys key w l.windows t h.keyed;
        small = omega (arith, h.room, length-set-le key w l.windows);
      },
      record {
        limit = refl;
        window = w;
        found = get-set_self key w l.windows;
        exact = omega arith;
        reset = refl;
      },
    )

count_request-Answered :
    (key : String) (w : WindowState) (l : Limiter)
    → truthy key ≡ true
    → IsTidy l
    → get key l.windows ≡ some w
    → Answered key (count_request key w l)
unfolding count_request
count_request-Answered key w l t h e =
    let c = get-Values (IsCounted l.max) key l.windows h.counted e in
    elim (Bool-cases (leb l.max w.count)) [
      | inl full ↦ rw full (
        record {
          positive = h.positive;
          counted = h.counted;
          keyed = h.keyed;
          small = omega (arith, h.room);
        },
        record {
          limit = refl;
          window = w;
          found = e;
          exact = omega (arith, leb→le l.max w.count full, c.1);
          reset = refl;
        },
      )
      | inr free ↦
          let w' : WindowState = record w { count = w.count + 1 } in
          let below : w.count + 1 ≤ l.max = ground arith in
          rw free (
            record {
              positive = h.positive;
              counted =
                  set-Values (IsCounted l.max) key w' l.windows h.counted (omega arith, below);
              keyed = set-HasKeys key w' l.windows t h.keyed;
              small = omega (arith, h.room, length-set-le key w' l.windows);
            },
            record {
              limit = refl;
              window = w';
              found = get-set_self key w' l.windows;
              exact = omega arith;
              reset = refl;
            },
          )
    ]

-- A request with a key that is not empty keeps a limiter within its bounds: every window counts at
-- least one request and at most the limit, and there is never more than one key above those that may
-- be tracked. The answer is exact: the requests counted for the key and those that it says remain make
-- the limit.
pub consume-IsBounded :
    (now : ℕ) (key : String) (l : Limiter)
    → truthy key ≡ true
    → IsBounded l
    → IsBounded (consume now key l).0 × IsAccounted key (consume now key l).0 (consume now key l).1
unfolding consume decide
consume-IsBounded now key l t h = elim (Option-cases (get key (tidy now l).windows)) [
  | inl e ↦ rw e (open_window-Answered now key (tidy now l) t (tidy-IsTidy now l h))
  | inr (w, e) ↦ elim (Bool-cases (leb w.reset_at now)) [
    | inl old ↦ rw (e, old) (open_window-Answered now key (tidy now l) t (tidy-IsTidy now l h))
    | inr live ↦ rw (e, live) (count_request-Answered key w (tidy now l) t (tidy-IsTidy now l h) e)
  ]
]

pub limiter-IsBounded :
    (max window_ms most : ℕ) {l : Limiter} → limiter max window_ms most ≡ ok l → IsBounded l
unfolding limiter
limiter-IsBounded max window_ms most h = ground arith
