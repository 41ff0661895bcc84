-- ===== src/Access/Examples.antt =====
-- Tests of the signed access context, and its theorems at a toy cipher.
use authguard.Base.{
  ◌≡◌, ◌↔◌, refl, sym, ap, arith, ◌-◌, ◌+◌, ◌≤◌, false, some, [], ◌∷◌, Text, codes, length, map,
  is_empty, Lacks, ok, err, split, ◌==◌, some_inj,
}
use authguard.Cache.Memory.{as_secs, u64_max}
use authguard.Access.Signer.{
  Bytes, Crypto, AccessContextSigner, sign_encoded, verify, invalid_signature,
}
use authguard.Access.SignerLaws.{IsUrlSafe, IsSigned, verify_iff, verify-sign_encoded}
use authguard.Access.Context.{AccessContextInput, AccessContext, Json, new_context, encode}
use authguard.Access.Lifetime.{IsCurrent, ReadsBack}

-- The tag of a text is its length beside the key, and bytes are written as the characters from `/` on.
abbrev pub toy : Crypto
toy = record {
  mac = λ key text. some (length text ∷ key);
  encode = map (λ b. b + 47);
  decode = λ text. some (map (λ c. c - 47) text);
}

abbrev pub signer : AccessContextSigner
signer = record { key = 1 ∷ 2 ∷ [] }

shift_back : (bytes : Bytes) → map (λ c. c - 47) (map (λ b. b + 47) bytes) ≡ bytes
shift_back [] = refl
shift_back (b ∷ bytes) =
    let same : b + 47 - 47 ≡ b = omega arith in λ i. same i ∷ shift_back bytes i

no_dots : (bytes : Bytes) → Lacks b'.' (map (λ b. b + 47) bytes)
no_dots [] = refl
no_dots (b ∷ bytes) = ground (arith, no_dots bytes)

tag_filled :
    (text : Text) (key tag : Bytes)
    → toy.mac key text ≡ some tag
    → is_empty (toy.encode tag) ≡ false
tag_filled text key [] h = let e = some_inj h in cc
tag_filled text key (x ∷ xs) h = refl

pub toy-IsUrlSafe : IsUrlSafe toy
toy-IsUrlSafe = record {
  decoded = λ bytes. ap some (shift_back bytes);
  no_dot = no_dots;
  filled = λ key text tag. tag_filled text key tag;
}

-- `agctx1.ab` has nine characters.
pub signs : sign_encoded toy signer (codes "ab") ≡ ok (codes "agctx1.ab.801")
unfolding sign_encoded
signs = refl

refuses : verify toy signer (codes "agctx1.ab.811") ≡ err invalid_signature
unfolding verify split ◌==◌
refuses = refl

verify_iff_example :
    (verify toy signer (codes "agctx1.ab.801") ≡ ok (codes "ab"))
    ↔ IsSigned toy signer (codes "ab") (codes "agctx1.ab.801")
verify_iff_example = verify_iff toy signer (codes "agctx1.ab.801") (codes "ab")

verify-sign_encoded_example : verify toy signer (codes "agctx1.ab.801") ≡ ok (codes "ab")
verify-sign_encoded_example =
    verify-sign_encoded toy signer (codes "ab") (codes "agctx1.ab.801") toy-IsUrlSafe refl refl
      signs

abbrev input : AccessContextInput
input = record {
  principal_id = codes "p";
  action = codes "r";
  resource_urn = codes "u";
  allow_resource_urns = [];
  deny_resource_urns = [];
  policy_revision = 4;
}

-- Issued at 100 for a minute.
abbrev pub minute : AccessContext
minute = record {
  version = 3;
  principal_id = codes "p";
  action = codes "r";
  resource_urn = codes "u";
  allow_resource_urns = [];
  deny_resource_urns = [];
  policy_revision = 4;
  issued_at_epoch_seconds = 100;
  expires_at_epoch_seconds = 160;
}

issues : new_context input 100 60000000000 ≡ minute
unfolding new_context
issues = refl

pub minute-IsCurrent : IsCurrent minute 80
minute-IsCurrent = record {
  version = refl;
  lifetime = omega arith;
  issued = omega arith;
  live = omega arith;
}

abbrev pub serde : Json
serde = record { to_vec = λ context. some (50 ∷ 51 ∷ []); from_slice = λ bytes. some minute }

short : 100 + as_secs 60000000000 ≤ u64_max
unfolding as_secs
short = omega arith

pub writes : encode toy serde minute ≡ some (codes "ab")
unfolding encode
writes = refl

pub reads : ReadsBack toy serde minute
reads = record {
  read = λ bytes e. refl;
  filled = λ bytes e. ap is_empty (ap (map (λ b. b + 47)) (some_inj (sym e)));
}
