-- ===== src/Access/Freshness.antt =====
-- The key cache of server/internal/auth/verifier.go.
use open_rtc.Base.{
  ℕ, ◌-◌, ◌≤◌, String, ◌≡◌, sym, ap, ◌∙◌, ◌||◌, Option, none, some, arith, nat_eq, ltb, Bool-cases,
  inl, inr, ◌⊎◌,
}
use open_rtc.Cluster.{Bytes}
use open_rtc.Dict.{Dict, size}
use open_rtc.Access.Keys.{PublicKey, KeyResponse, Verifier, fetch_keys, choose_key, lookup_key}

module _ (base64_decode : String → Option Bytes) where
  -- A key that is handed out belongs to the keys that are cached after the call, and these came either
  -- with this call or at most the lifetime of the cache before it.
  pub lookup_key-fresh :
      (v : Verifier) (now fetched : ℕ) (response : Option KeyResponse) (kid : String)
      (v' : Verifier) (key : PublicKey)
      → lookup_key base64_decode v now fetched response kid ≡ (v', some key)
      → (choose_key v'.keys kid ≡ some key)
        × ((v' ≡ v) × (now - v.cached_at ≤ v.cached_ttl)
            ⊎ (v'.cached_at ≡ fetched) × (fetch_keys base64_decode response ≡ some v'.keys))
  unfolding lookup_key
  lookup_key-fresh v now fetched response kid v' key h =
      elim (Bool-cases (ltb v.cached_ttl (now - v.cached_at) || nat_eq (size v.keys) 0)) [
        | inl e ↦ go (fetch_keys base64_decode response) (rw e at h)
        | inr e ↦ kept (rw e at h) (ground arith)
      ]
    where
      go :
          (o : Option (Dict PublicKey))
          → ◌≡◌ {A = Verifier × Option PublicKey}
              (elim o [
                | none ↦ (v, none)
                | some keys ↦ (record v { keys = keys; cached_at = fetched }, choose_key keys kid)
              ])
              (v', some key)
          → (choose_key v'.keys kid ≡ some key)
            × ((v' ≡ v) × (now - v.cached_at ≤ v.cached_ttl)
                ⊎ (v'.cached_at ≡ fetched) × (o ≡ some v'.keys))
      go none k = cc
      go (some keys) k =
          let same : v'.keys ≡ keys = ap (λ (x : Verifier × Option PublicKey). x.0.keys) (sym k) in
          let at : v'.cached_at ≡ fetched =
            ap (λ (x : Verifier × Option PublicKey). x.0.cached_at) (sym k) in
          let chosen : choose_key keys kid ≡ some key =
            ap (λ (x : Verifier × Option PublicKey). x.1) k in
          (
            ap (λ (d : Dict PublicKey). choose_key d kid) same ∙ chosen,
            inr (at, ap some (sym same)),
          )

      kept :
          ◌≡◌ {A = Verifier × Option PublicKey} (v, choose_key v.keys kid) (v', some key)
          → now - v.cached_at ≤ v.cached_ttl
          → (choose_key v'.keys kid ≡ some key)
            × ((v' ≡ v) × (now - v.cached_at ≤ v.cached_ttl)
                ⊎ (v'.cached_at ≡ fetched) × (fetch_keys base64_decode response ≡ some v'.keys))
      kept k a =
          let same : v' ≡ v = ap (λ (x : Verifier × Option PublicKey). x.0) (sym k) in
          let chosen : choose_key v.keys kid ≡ some key =
            ap (λ (x : Verifier × Option PublicKey). x.1) k in
          (ap (λ (w : Verifier). choose_key w.keys kid) same ∙ chosen, inl (same, a))
