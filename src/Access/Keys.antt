-- ===== src/Access/Keys.antt =====
-- The keys that verify tokens: lookupKey and fetchKeys of server/internal/auth/verifier.go. The
-- answer of the key server is an argument: its status and the decoded document, or no answer.
use open_rtc.Base.{
  ℕ, ◌+◌, ◌-◌, ◌*◌, ◌%◌, ◌^◌, String, not, ◌||◌, Option, none, some, List, [], ◌∷◌, ◌==◌,
  if◌then◌else◌, nat_eq, ltb, leb,
}
use open_rtc.Cluster.{Bytes}
use open_rtc.Dict.{Dict, empty, get, put, size}

-- rsa.PublicKey
pub record PublicKey : Type 0 where
  pub modulus : ℕ
  pub exponent : ℕ

-- An entry of the key document.
pub record Jwk : Type 0 where
  pub kty : String
  pub kid : String
  pub n : String
  pub e : String

pub record KeyResponse : Type 0 where
  pub status : ℕ
  -- none: the body is not such a document
  pub document : Option (List Jwk)

pub record Verifier : Type 0 where
  pub cached_at : ℕ
  pub cached_ttl : ℕ
  pub keys : Dict PublicKey

-- new(big.Int).SetBytes(bytes)
unfoldable pub big_endian : ℕ → Bytes → ℕ
big_endian n [] = n
big_endian n (b ∷ bs) = big_endian (n * 256 + b) bs

-- The exponent is the low 64 bits as a signed number, which has to be positive.
unfoldable pub public_key : Bytes → Bytes → Option PublicKey
unfolding big_endian
public_key modulus_bytes exponent_bytes =
    let modulus = big_endian 0 modulus_bytes in
    let exponent = big_endian 0 exponent_bytes % 2 ^ 64 in
    if nat_eq exponent 0 || (leb (2 ^ 63) exponent || nat_eq modulus 0)
    then none
    else some (record { modulus = modulus; exponent = exponent })

-- The only key stands for a token that names none.
unfoldable pub only_key : List (String × PublicKey) → Option PublicKey
only_key ((kid, key) ∷ []) = some key
only_key _ = none

unfoldable pub choose_key : Dict PublicKey → String → Option PublicKey
unfolding only_key get
choose_key keys kid = elim (if kid == "" then only_key keys.entries else none) [
  | some key ↦ some key
  | none ↦ get keys kid
]

module _ (base64_decode : String → Option Bytes) where
  unfoldable pub rsa_key_from_jwk : String → String → Option PublicKey
  unfolding public_key
  rsa_key_from_jwk n_value e_value = elim (base64_decode n_value) [
    | none ↦ none
    | some modulus_bytes ↦ elim (base64_decode e_value) [
      | none ↦ none
      | some exponent_bytes ↦ public_key modulus_bytes exponent_bytes
    ]
  ]

  -- The keys of type RSA; one that cannot be read spoils the document.
  unfoldable pub read_keys : List Jwk → Dict PublicKey → Option (Dict PublicKey)
  unfolding rsa_key_from_jwk put
  read_keys [] keys = some keys
  read_keys (jwk ∷ jwks) keys =
      if not (jwk.kty == "RSA") then read_keys jwks keys else elim (rsa_key_from_jwk jwk.n jwk.e) [
        | none ↦ none
        | some key ↦ read_keys jwks (put keys jwk.kid key)
      ]

  unfoldable pub fetch_keys : Option KeyResponse → Option (Dict PublicKey)
  unfolding read_keys size empty
  fetch_keys none = none
  fetch_keys (some response) =
      if ltb response.status 200 || leb 300 response.status then none else elim response.document [
        | none ↦ none
        | some jwks ↦ elim (read_keys jwks empty) [
          | none ↦ none
          | some keys ↦ if nat_eq (size keys) 0 then none else some keys
        ]
      ]

  -- `now` is the time at which the age is taken, `fetched` the time after the keys have come.
  unfoldable pub lookup_key :
      Verifier → ℕ → ℕ → Option KeyResponse → String → Verifier × Option PublicKey
  unfolding fetch_keys choose_key size
  lookup_key v now fetched response kid =
      if ltb v.cached_ttl (now - v.cached_at) || nat_eq (size v.keys) 0
      then (elim (fetch_keys response) [
        | none ↦ (v, none)
        | some keys ↦ (record v { keys = keys; cached_at = fetched }, choose_key keys kid)
      ])
      else (v, choose_key v.keys kid)
