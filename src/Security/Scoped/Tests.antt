-- ===== src/Security/Scoped/Tests.antt =====
-- Concrete requests to the tenant-scoped ports.
use aws_architecture.Base.{
  ℕ, String, none, some, [], ◌∷◌, ◌≡◌, ◌≢◌, refl, arith, eq_iff, Result, ok, throw, error,
}
use aws_architecture.Security.Scoped.Ports.{reads}
use aws_architecture.Security.Scoped.{
  Scope, Sent, to_storage, scoped_storage, relative_storage_key, storage_prefix, tenant_key,
}
use aws_architecture.Security.Scoped.Separation.{Request, of_storage, scoped, IsOwn}
use aws_architecture.Security.Scoped.Tenants.{IsPlain, scoped-separates}

abbrev as_is : String → String
as_is s = s

abbrev acme : Scope
acme = record { tenant_id = "a"; workspace_id = none }

abbrev other : Scope
other = record { tenant_id = "b"; workspace_id = some "w" }

abbrev reading : Request ℕ
reading = of_storage (reads "/docs/a.pdf")

-- The wrapped port shows what it is asked.
abbrev shown : Sent ℕ → Result (Sent ℕ)
shown x = ok x

abbrev asked : Sent ℕ
asked = to_storage (reads "tenants/a/workspaces/_root/docs/a.pdf")

reads_own : scoped as_is shown acme reading ≡ ok asked
unfolding scoped scoped_storage relative_storage_key storage_prefix
reads_own = refl

refuses_parent :
    scoped as_is shown acme (of_storage (reads "docs/../../other"))
    ≡ throw (error "INVALID_TENANT_STORAGE_KEY")
unfolding scoped scoped_storage relative_storage_key
refuses_parent = refl

IsPlain-acme : IsPlain as_is acme
IsPlain-acme = record { colonless = ((λ e. cc), tt); slashless = ((λ e. cc), tt) }

IsPlain-other : IsPlain as_is other
IsPlain-other = record { colonless = ((λ e. cc), tt); slashless = ((λ e. cc), tt) }

two_tenants : acme.tenant_id ≢ other.tenant_id
two_tenants = ground (arith, eq_iff "a" "b")

scoped-separates_example :
    (x : Sent ℕ) × (shown x ≡ ok asked) × IsOwn as_is acme x × (¬ IsOwn as_is other x)
scoped-separates_example =
    scoped-separates as_is (λ a b e. e) shown acme other reading asked IsPlain-acme IsPlain-other
      two_tenants reads_own

-- A workspace that names a kind of key: without the colon in its name the two keys would differ.
colon_collides :
    tenant_key (record { tenant_id = "a"; workspace_id = some "w" }) ("cache" ∷ "lock:k" ∷ [])
    ≡ tenant_key (record { tenant_id = "a"; workspace_id = some "w:cache" }) ("lock" ∷ "k" ∷ [])
unfolding tenant_key
colon_collides = refl
