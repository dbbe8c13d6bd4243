-- ===== src/Control/Secrets/Spelling.antt =====
-- How the keys of secrets may be spelled (`normalizedKey` of
-- apps/platform-control-api/src/secret-metadata.ts).
use aws_architecture.Base.{
  ℕ, String, true, false, List, [], ◌∷◌, ◌+◌, ◌≡◌, ◌&&◌, ◌||◌, leb, ◌==◌, ◌===◌, refl, arith,
  eq_iff, includes, Bool-cases, inl, inr, sym, subst, ◌∙◌, ap,
}
use aws_architecture.Base.Text.{codes, lower, same_codes, includes_codes}
use aws_architecture.Control.Secrets.{
  is_forbidden, normalized_key, forbidden_secret_fields, alphanumeric, is_alphanumeric,
}

abbrev pub IsUpper : ℕ → Type 0
IsUpper c = (leb b'A' c && leb c b'Z') ≡ true

abbrev pub IsPlain : ℕ → Type 0
IsPlain c = ((leb b'a' c && leb c b'z') || (leb b'0' c && leb c b'9')) ≡ true

-- A key that spells a word: its letters in either case, its digits, and any other ASCII characters
-- between them.
pub data Spells : List ℕ → List ℕ → Type 0 where
  done : Spells [] []
  upper : (c : ℕ) {ks ws : List ℕ} → IsUpper c → Spells ks ws → Spells (c ∷ ks) ((c + 32) ∷ ws)
  plain : (c : ℕ) {ks ws : List ℕ} → IsPlain c → Spells ks ws → Spells (c ∷ ks) (c ∷ ws)
  other :
      (c : ℕ) {ks ws : List ℕ}
      → leb c 127 ≡ true
      → (leb b'A' c && leb c b'Z') ≡ false
      → ((leb b'a' c && leb c b'z') || (leb b'0' c && leb c b'9')) ≡ false
      → Spells ks ws
      → Spells (c ∷ ks) ws

lower-upper : (c : ℕ) (cs : List ℕ) → IsUpper c → lower (c ∷ cs) ≡ (c + 32) ∷ lower cs
unfolding lower
lower-upper c cs h = rw h refl

lower-same :
    (c : ℕ) (cs : List ℕ)
    → (leb b'A' c && leb c b'Z') ≡ false
    → leb c 127 ≡ true
    → lower (c ∷ cs) ≡ c ∷ lower cs
unfolding lower
lower-same c cs h k =
    let kelvin : (c == 0x212a) ≡ false = ground arith in
    let dotted : (c == 0x130) ≡ false = ground arith in rw (h, kelvin, dotted) refl

kept : (c : ℕ) (cs : List ℕ) → IsPlain c → alphanumeric (c ∷ cs) ≡ c ∷ alphanumeric cs
unfolding alphanumeric is_alphanumeric
kept c cs h = rw h refl

dropped :
    (c : ℕ) (cs : List ℕ)
    → ((leb b'a' c && leb c b'z') || (leb b'0' c && leb c b'9')) ≡ false
    → alphanumeric (c ∷ cs) ≡ alphanumeric cs
unfolding alphanumeric is_alphanumeric
dropped c cs h = rw h refl

spelled : {ks ws : List ℕ} → Spells ks ws → alphanumeric (lower ks) ≡ ws
unfolding alphanumeric lower
spelled done = refl
spelled (upper c {ks} {ws} h s) =
    let small : IsPlain (c + 32) = ground arith in
    ap alphanumeric (lower-upper c ks h)
    ∙ (kept (c + 32) (lower ks) small ∙ ap (λ xs. (c + 32) ∷ xs) (spelled s))
spelled (plain c {ks} {ws} h s) =
    let no_upper : (leb b'A' c && leb c b'Z') ≡ false = ground arith in
    let ascii : leb c 127 ≡ true = ground arith in
    ap alphanumeric (lower-same c ks no_upper ascii)
    ∙ (kept c (lower ks) h ∙ ap (λ xs. c ∷ xs) (spelled s))
spelled (other c {ks} {ws} ascii no_upper no_plain s) =
    ap alphanumeric (lower-same c ks no_upper ascii) ∙ (dropped c (lower ks) no_plain ∙ spelled s)

same_codes_refl : (cs : List ℕ) → same_codes cs cs ≡ true
unfolding same_codes
same_codes_refl [] = refl
same_codes_refl (c ∷ cs) = ground (arith, same_codes_refl cs)

includes_codes-includes :
    (xs : List String) (w : String) → includes xs w ≡ true → includes_codes xs (codes w) ≡ true
unfolding includes_codes
includes_codes-includes [] w h = h
includes_codes-includes (x ∷ xs) w h = elim (Bool-cases (x === w)) [
  | inl e ↦
      let same : x ≡ w = ground (arith, eq_iff x w) in
      let first =
        subst (λ y. same_codes (codes y) (codes w) ≡ true) (sym same) (same_codes_refl (codes w)) in
      rw first refl
  | inr e ↦ let rest = includes_codes-includes xs w (ground arith) in ground arith
]

-- A key that spells a forbidden word is forbidden.
pub is_forbidden-Spells :
    (key word : String)
    → includes forbidden_secret_fields word ≡ true
    → Spells (codes key) (codes word)
    → is_forbidden key ≡ true
unfolding is_forbidden normalized_key
is_forbidden-Spells key word h s =
    ap (includes_codes forbidden_secret_fields) (spelled s)
    ∙ includes_codes-includes forbidden_secret_fields word h
