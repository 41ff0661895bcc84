-- ===== src/Authn/FlowCodec.antt =====
-- Challenges of OAuth as bytes, for the tests: what is written is read back.
use authguard.Base.{
  ℕ, zero, suc, ◌≡◌, refl, sym, ap, ◌∙◌, Bool, true, false, Option, none, some, some_inj, [], ◌∷◌,
  ◌++◌, Text, length,
}
use authguard.Access.Signer.{Bytes}
use authguard.Authn.Challenge.{Codec}
use authguard.Authn.Oauth2.{OAuthChallenge}
use authguard.Authn.OneTime.{ReadsBack}

-- A text is written as its length and its characters.
abbrev put_text : Text → Bytes → Bytes
put_text text rest = length text ∷ (text ++ rest)

abbrev cut : ℕ → Bytes → Text × Bytes
cut zero bytes = ([], bytes)
cut (suc n) [] = ([], [])
cut (suc n) (b ∷ bytes) = let r = cut n bytes in (b ∷ r.0, r.1)

abbrev get_text : Bytes → Text × Bytes
get_text [] = ([], [])
get_text (n ∷ bytes) = cut n bytes

abbrev put_option : Option Text → Bytes → Bytes
put_option none rest = 0 ∷ rest
put_option (some text) rest = 1 ∷ put_text text rest

abbrev get_option : Bytes → Option Text × Bytes
get_option [] = (none, [])
get_option (zero ∷ bytes) = (none, bytes)
get_option (suc n ∷ bytes) = let r = get_text bytes in (some r.0, r.1)

abbrev put_bool : Bool → Bytes → Bytes
put_bool true rest = 1 ∷ rest
put_bool false rest = 0 ∷ rest

abbrev get_bool : Bytes → Bool × Bytes
get_bool [] = (false, [])
get_bool (zero ∷ bytes) = (false, bytes)
get_bool (suc n ∷ bytes) = (true, bytes)

cut-append : (text rest : Bytes) → cut (length text) (text ++ rest) ≡ (text, rest)
cut-append [] rest = refl
cut-append (c ∷ text) rest = ap (λ r. (c ∷ r.0, r.1)) (cut-append text rest)

get_option-put_option :
    (value : Option Text) (rest : Bytes) → get_option (put_option value rest) ≡ (value, rest)
get_option-put_option none rest = refl
get_option-put_option (some text) rest = ap (λ r. (some r.0, r.1)) (cut-append text rest)

get_bool-put_bool : (value : Bool) (rest : Bytes) → get_bool (put_bool value rest) ≡ (value, rest)
get_bool-put_bool true rest = refl
get_bool-put_bool false rest = refl

abbrev pub write : OAuthChallenge → Bytes
write flow = put_text flow.provider (
    put_text flow.return_uri (
      put_bool flow.redirect_after_login (
        put_option flow.nonce
          (put_option flow.pkce_verifier (put_option flow.link_principal_id [])))))

abbrev pub read : Bytes → OAuthChallenge
read bytes =
    let a = get_text bytes in
    let b = get_text a.1 in
    let c = get_bool b.1 in
    let d = get_option c.1 in
    let e = get_option d.1 in
    record {
      provider = a.0;
      return_uri = b.0;
      redirect_after_login = c.0;
      nonce = d.0;
      pkce_verifier = e.0;
      link_principal_id = (get_option e.1).0;
    }

read-write : (flow : OAuthChallenge) → read (write flow) ≡ flow
read-write flow =
    rw
      (
        cut-append flow.provider _,
        cut-append flow.return_uri _,
        get_bool-put_bool flow.redirect_after_login _,
        get_option-put_option flow.nonce _,
        get_option-put_option flow.pkce_verifier _,
        get_option-put_option flow.link_principal_id _,
      )
      refl

abbrev pub codec : Codec OAuthChallenge
codec = record { to_vec = λ flow. some (write flow); from_slice = λ bytes. some (read bytes) }

pub reads_back : ReadsBack (λ text. text) codec
reads_back = record {
  reads = λ flow payload written. ap some (ap read (sym (some_inj written)) ∙ read-write flow);
}
