-- ===== src/Jwt/Signing.antt =====
-- `load_signing_key`, `sign` and `verify` of src/common/src/utils/jwt.rs.
use authguard.Base.{
  ℕ, Bool, not, ◌||◌, Option, List, [], ◌∷◌, ◌++◌, Text, codes, ◌==◌, is_empty, ltb, split, Result,
  ok, err, ◌>>=◌, ok_or, if◌then◌else◌,
}
use authguard.Access.Signer.{Bytes, Crypto}

pub data JwtError : Type 0 where
  invalid_signing_key invalid_token_format invalid_signature : JwtError

-- Reading, measuring and validating a private key; the public key as PEM, and its reading; the
-- signature of a text; whether bytes are a signature, and whether it is one of a text.
pub record Rsa (Key Public : Type 0) : Type 0 where
  pub from_pkcs8_pem : Text → Option Key
  pub bits : Key → ℕ
  pub is_valid : Key → Bool
  pub to_pkcs1_pem : Key → Option Text
  pub from_pkcs1_pem : Text → Option Public
  pub sign : Key → Text → Bytes
  pub is_signature : Bytes → Bool
  pub verify : Public → Text → Bytes → Bool

abbrev pub jwt_header : Text
jwt_header = codes "eyJhbGciOiJSUzI1NiIsInR5cCI6IkpXVCJ9"

abbrev pub min_rsa_bits : ℕ
min_rsa_bits = 2048

abbrev pub signing_input : Text → Text
signing_input payload = jwt_header ++ (b'.' ∷ payload)

-- The parts of a token, with the first one checked.
unfoldable pub jwt_parts : List Text → Result JwtError (Text × Text)
jwt_parts (header ∷ payload ∷ signature ∷ []) =
    if not (header == jwt_header) || is_empty payload || is_empty signature
    then err invalid_token_format
    else ok (payload, signature)
jwt_parts _ = err invalid_token_format

module _ {Key Public : Type 0} (rsa : Rsa Key Public) where
  unfoldable pub load_signing_key : Text → Result JwtError Key
  load_signing_key private_key_pem = do
    key ← ok_or invalid_signing_key (rsa.from_pkcs8_pem private_key_pem)
    if ltb (rsa.bits key) min_rsa_bits
        then err invalid_signing_key
        else (if rsa.is_valid key then ok key else err invalid_signing_key)

  unfoldable pub public_key_pem : Key → Result JwtError Text
  public_key_pem key = ok_or invalid_signing_key (rsa.to_pkcs1_pem key)

  module _ (crypto : Crypto) where
    unfoldable pub sign : Key → Bytes → Text
    sign key payload =
        let input = signing_input (crypto.encode payload) in
        input ++ (b'.' ∷ crypto.encode (rsa.sign key input))

    unfoldable pub verify : Text → Text → Result JwtError Bytes
    unfolding jwt_parts split
    verify public_pem token = do
      public ← ok_or invalid_signing_key (rsa.from_pkcs1_pem public_pem)
      parts ← jwt_parts (split b'.' token)
      signature ← ok_or invalid_token_format (crypto.decode parts.1)
      if not (rsa.is_signature signature)
          then err invalid_token_format
          else if not (rsa.verify public (signing_input parts.0) signature)
          then err invalid_signature
          else ok_or invalid_token_format (crypto.decode parts.0)
