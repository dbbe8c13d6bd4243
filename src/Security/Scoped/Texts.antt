-- ===== src/Security/Scoped/Texts.antt =====
-- Texts up to a separator, for the keys of packages/security/src/tenant-context.ts.
use aws_architecture.Base.{String, ◌≡◌, ◌≢◌, refl}
use Prim.Native.String
use Prim.Native.Char.{Char}
use text.Mathlib.TextLemmas.{nil-append, cons-append}

-- A text without this character.
abbrev pub Lacks : Char → String → Type 0
Lacks c String.[] = Unit
Lacks c (String.◌∷◌ d s) = (d ≢ c) × Lacks c s

-- The text before the first separator, and the text after it, are determined.
pub split_unique :
    (c : Char) (a b x y : String)
    → Lacks c a
    → Lacks c b
    → String.◌++◌ a (String.◌∷◌ c x) ≡ String.◌++◌ b (String.◌∷◌ c y)
    → (a ≡ b) × (x ≡ y)
split_unique c String.[] String.[] x y h k e =
    (refl, cc (e, nil-append (String.◌∷◌ c x), nil-append (String.◌∷◌ c y)))
split_unique c String.[] (String.◌∷◌ d b) x y h (ne, k) e =
    absurd (ne (cc (e, nil-append (String.◌∷◌ c x), cons-append d b (String.◌∷◌ c y))))
split_unique c (String.◌∷◌ d a) String.[] x y (ne, h) k e =
    absurd (ne (cc (e, nil-append (String.◌∷◌ c y), cons-append d a (String.◌∷◌ c x))))
split_unique c (String.◌∷◌ d a) (String.◌∷◌ d' b) x y (ne, h) (ne', k) e =
    let (first, rest) =
      split_unique c a b x y h k
        (cc (e, cons-append d a (String.◌∷◌ c x), cons-append d' b (String.◌∷◌ c y))) in
    (cc (e, first, cons-append d a (String.◌∷◌ c x), cons-append d' b (String.◌∷◌ c y)), rest)
