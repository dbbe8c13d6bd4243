-- ===== src/Services/Sensitive.antt =====
-- The regular expressions by which services/audit and services/integration know a sensitive key, on
-- code points. Without the `u` flag a case-insensitive ASCII pattern matches ASCII letters only, and
-- `.` one UTF-16 unit that ends no line.
use aws_architecture.Base.{
  ℕ, ◌+◌, String, Bool, true, false, not, ◌&&◌, ◌||◌, List, [], ◌∷◌, ltb, leb, ◌==◌, if◌then◌else◌,
}
use aws_architecture.Base.Text.{codes}

abbrev fold : ℕ → ℕ
fold c = if leb b'A' c && leb c b'Z' then c + 32 else c

-- Whether the text starts with this word.
unfoldable pub starts : List ℕ → List ℕ → Bool
starts [] cs = true
starts (w ∷ ws) [] = false
starts (w ∷ ws) (c ∷ cs) = fold c == w && starts ws cs

-- `.`.
abbrev any_char : ℕ → Bool
any_char c = ltb c 65536 && not (c == 10 || c == 13 || c == 8232 || c == 8233)

-- `.?key`, after `api`.
abbrev then_key : List ℕ → Bool
then_key [] = false
then_key (c ∷ cs) = starts (codes "key") (c ∷ cs) || (any_char c && starts (codes "key") cs)

-- `api.?key` at the head of a text.
unfoldable pub api_key : List ℕ → Bool
unfolding starts
api_key (a ∷ p ∷ i ∷ rest) = starts (codes "api") (a ∷ p ∷ i ∷ []) && then_key rest
api_key _ = false

abbrev any_starts : List String → List ℕ → Bool
any_starts [] cs = false
any_starts (w ∷ ws) cs = starts (codes w) cs || any_starts ws cs

-- `/w1|w2|...|api.?key/i.test(text)`.
unfoldable pub matches : List String → List ℕ → Bool
unfolding starts api_key
matches words [] = false
matches words (c ∷ cs) = any_starts words (c ∷ cs) || api_key (c ∷ cs) || matches words cs

-- `sensitiveKey` of services/audit/src/index.ts.
unfoldable pub is_sensitive : String → Bool
is_sensitive key =
    matches ("password" ∷ "authorization" ∷ "cookie" ∷ "token" ∷ "secret" ∷ "credential" ∷ [])
      (codes key)

-- `sensitiveConfigKey` of services/integration/src/index.ts.
unfoldable pub is_sensitive_config : String → Bool
is_sensitive_config key = matches ("password" ∷ "token" ∷ "secret" ∷ "credential" ∷ []) (codes key)
