-- ===== src/Access/Signer.antt =====
-- `AccessContextSigner` of src/common/src/utils/context.rs. HMAC-SHA256 (`hmac`, `sha2`) and unpadded
-- Base64URL (`base64`) are the parameter `Crypto`.
use authguard.Base.{
  ℕ, not, ◌||◌, Option, List, [], ◌∷◌, ◌++◌, Text, codes, ◌==◌, is_empty, length, ltb, split,
  Result, ok, err, ◌>>=◌, ok_or, if◌then◌else◌,
}

-- Bytes are numbers.
abbrev pub Bytes : Type 0
Bytes = List ℕ

-- The libraries: the tag of a text under a key, none when the key is refused, and `verify_slice` as the
-- equality of tags; `URL_SAFE_NO_PAD.encode` and `decode`.
pub record Crypto : Type 0 where
  pub mac : Bytes → Text → Option Bytes
  pub encode : Bytes → Text
  pub decode : Text → Option Bytes

-- Without the text of the library's errors.
pub data AccessContextError : Type 0 where
  base64 json : AccessContextError
  unsupported_version : ℕ → AccessContextError
  expired issued_in_future invalid_lifetime invalid_signing_key invalid_signed_format
        invalid_signature :
      AccessContextError

abbrev pub signed_context_prefix : Text
signed_context_prefix = codes "agctx1"

abbrev pub min_signing_key_bytes : ℕ
min_signing_key_bytes = 32

pub record AccessContextSigner : Type 0 where
  pub key : Bytes

-- `AccessContextSigner::new`
unfoldable pub new_signer : Bytes → Result AccessContextError AccessContextSigner
new_signer key =
    if ltb (length key) min_signing_key_bytes
    then err invalid_signing_key
    else ok (record { key = key })

abbrev pub signing_input_of : Text → Text
signing_input_of encoded = signed_context_prefix ++ (b'.' ∷ encoded)

-- The three parts between the dots; the format is refused when there are more, or fewer.
unfoldable pub signed_parts : List Text → Result AccessContextError (Text × Text)
signed_parts (prefix ∷ payload ∷ signature ∷ []) =
    if not (prefix == signed_context_prefix) || is_empty payload || is_empty signature
    then err invalid_signed_format
    else ok (payload, signature)
signed_parts _ = err invalid_signed_format

module _ (crypto : Crypto) where
  unfoldable pub sign_encoded : AccessContextSigner → Text → Result AccessContextError Text
  sign_encoded signer encoded = do
    tag ← ok_or invalid_signing_key (crypto.mac signer.key (signing_input_of encoded))
    ok (signing_input_of encoded ++ (b'.' ∷ crypto.encode tag))

  unfoldable pub verify : AccessContextSigner → Text → Result AccessContextError Text
  unfolding signed_parts split
  verify signer signed = do
    parts ← signed_parts (split b'.' signed)
    signature ← ok_or invalid_signed_format (crypto.decode parts.1)
    tag ← ok_or invalid_signing_key (crypto.mac signer.key (signing_input_of parts.0))
    if tag == signature then ok parts.0 else err invalid_signature
