-- ===== src/Security/Scoped/Tenants.antt =====
-- No call is that of two tenants (packages/security/src/tenant-scoped-ports.ts).
use aws_architecture.Base.{String, ◌≡◌, ◌≢◌, sym, ◌∙◌, Result, ok}
use Prim.Native.String
use Prim.Native.Char.{Char}
use text.Mathlib.TextLemmas.{append_cancel_left, nil-append, cons-append}
use aws_architecture.Security.Scoped.Ports.{
  gets, sets, deletes, looks_up, puts_if_absent, locks, puts, reads, erases, signs,
}
use aws_architecture.Security.Scoped.Texts.{Lacks, split_unique}
use aws_architecture.Security.Scoped.{
  Scope, Sent, to_cache, to_idempotency, to_lock, to_storage, to_search, to_queue, to_bus, to_model,
  to_secrets,
}
use aws_architecture.Security.Scoped.Separation.{
  Request, scoped, IsKeyOf, IsPathOf, IsOwn, scoped-IsOwn,
}

abbrev pub colon : Char
colon = ":"

abbrev pub slash : Char
slash = "/"

-- A tenant whose identifier has no colon, and its encoded form no slash.
pub record IsPlain (encode : String → String) (s : Scope) : Type 0 where
  pub colonless : Lacks colon s.tenant_id
  pub slashless : Lacks slash (encode s.tenant_id)

one-append : (c : Char) (s : String) → String.◌++◌ (String.◌∷◌ c String.[]) s ≡ String.◌∷◌ c s
one-append c s = cc (cons-append c String.[] s, nil-append s)

key_tenant :
    (s u : Scope) (key : String)
    → Lacks colon s.tenant_id
    → Lacks colon u.tenant_id
    → IsKeyOf s key
    → IsKeyOf u key
    → s.tenant_id ≡ u.tenant_id
key_tenant s u key h k (x, e) (y, f) =
    let both = append_cancel_left ":" _ _ (append_cancel_left "tenant" _ _ (sym e ∙ f)) in
    (split_unique colon s.tenant_id u.tenant_id x y h k
      (cc (both, one-append colon x, one-append colon y))).0

module _ (encode : String → String) (injective : (a b : String) → encode a ≡ encode b → a ≡ b) where
  path_tenant :
      (s u : Scope) (key : String)
      → IsPlain encode s
      → IsPlain encode u
      → IsPathOf encode s key
      → IsPathOf encode u key
      → s.tenant_id ≡ u.tenant_id
  path_tenant s u key h k (x, e) (y, f) =
      let both = append_cancel_left "tenants/" _ _ (sym e ∙ f) in
      injective _ _
        (split_unique slash (encode s.tenant_id) (encode u.tenant_id) x y h.slashless k.slashless
          (cc (both, one-append slash x, one-append slash y))).0

  IsOwn-unique :
      {V : Type 0} (s u : Scope) (x : Sent V)
      → IsPlain encode s
      → IsPlain encode u
      → IsOwn encode s x
      → IsOwn encode u x
      → s.tenant_id ≡ u.tenant_id
  IsOwn-unique s u (to_cache (gets key)) h k a b = key_tenant s u key h.colonless k.colonless a b
  IsOwn-unique s u (to_cache (sets key v ttl)) h k a b =
      key_tenant s u key h.colonless k.colonless a b
  IsOwn-unique s u (to_cache (deletes key)) h k a b = key_tenant s u key h.colonless k.colonless a b
  IsOwn-unique s u (to_idempotency (looks_up key)) h k a b =
      key_tenant s u key h.colonless k.colonless a b
  IsOwn-unique s u (to_idempotency (puts_if_absent key v ttl)) h k a b =
      key_tenant s u key h.colonless k.colonless a b
  IsOwn-unique s u (to_lock (locks key ttl)) h k a b =
      key_tenant s u key h.colonless k.colonless a b
  IsOwn-unique s u (to_storage (puts key body metadata)) h k a b = path_tenant s u key h k a b
  IsOwn-unique s u (to_storage (reads key)) h k a b = path_tenant s u key h k a b
  IsOwn-unique s u (to_storage (erases key)) h k a b = path_tenant s u key h k a b
  IsOwn-unique s u (to_storage (signs key expires)) h k a b = path_tenant s u key h k a b
  IsOwn-unique s u (to_search q) h k a b = cc
  IsOwn-unique s u (to_queue queue envelope options) h k a b = cc
  IsOwn-unique s u (to_bus event) h k a b = cc
  IsOwn-unique s u (to_model r) h k a b = cc
  IsOwn-unique s u (to_secrets name) h k a b = path_tenant s u name h k a b

  -- The tenant-scoped ports keep two tenants apart, where encoding is injective, no tenant has a colon in
  -- its identifier and none a slash in its encoded form: every request that is answered is a call of the
  -- wrapped port whose key, path, query, envelope or event names the tenant, and it is not such a call
  -- of the other tenant.
  pub scoped-separates :
      {V A : Type 0} (port : Sent V → Result A) (s u : Scope) (r : Request V) (a : A)
      → IsPlain encode s
      → IsPlain encode u
      → s.tenant_id ≢ u.tenant_id
      → scoped encode port s r ≡ ok a
      → (x : Sent V) × (port x ≡ ok a) × IsOwn encode s x × (¬ IsOwn encode u x)
  scoped-separates port s u r a h k other done =
      let (x, own, answer) = scoped-IsOwn encode port s r a done in
      (x, answer, own, λ theirs. other (IsOwn-unique s u x h k own theirs))
