-- ===== src/Model/Condition.antt =====
-- Conditions on a role binding: the module `condition` of src/common/src/utils/context.rs. The crate
-- `ipnet` is the parameter `Net`.
use authguard.Base.{
  Bool, true, false, not, ◌&&◌, ◌||◌, Option, none, some, List, Text, codes, ◌==◌,
  eq_ignore_ascii_case, any, all, is_empty, lookup, Result, ok, ◌>>=◌, try_map, map_err,
  if◌then◌else◌, ◌++◌,
}

-- IP addresses and networks: `str::parse::<IpNet>` with the text of its error, `IpNet::contains`.
pub record Net (Addr Cidr : Type 0) : Type 0 where
  pub parse : Text → Result Text Cidr
  pub contains : Cidr → Addr → Bool

pub record SourceIpConditionSpec : Type 0 where
  pub in_cidr : List Text
  pub not_in_cidr : List Text

pub record RequestConditionSpec : Type 0 where
  pub methods : List Text
  pub secure_transport : Option Bool

pub record SubjectConditionSpec : Type 0 where
  pub mfa : Option Bool
  pub claims : List (Text × Text)

pub record AuthorizationConditionSpec : Type 0 where
  pub source_ip : Option SourceIpConditionSpec
  pub request : RequestConditionSpec
  pub subject : SubjectConditionSpec

pub record EvaluationContext (Addr : Type 0) : Type 0 where
  pub source_ip : Option Addr
  pub request_method : Option Text
  pub secure_transport : Option Bool
  pub claims : List (Text × Text)

pub record SourceIpConditions (Cidr : Type 0) : Type 0 where
  pub in_cidr : List Cidr
  pub not_in_cidr : List Cidr

pub record AuthorizationConditions (Cidr : Type 0) : Type 0 where
  pub source_ip : Option (SourceIpConditions Cidr)
  pub request : RequestConditionSpec
  pub subject : SubjectConditionSpec

-- `Option::is_none_or`
abbrev pub is_none_or {ℓ} : {A : Type ℓ} → Option A → (A → Bool) → Bool
is_none_or none p = true
is_none_or (some a) p = p a

abbrev pub is_some_and {ℓ} : {A : Type ℓ} → Option A → (A → Bool) → Bool
is_some_and none p = false
is_some_and (some a) p = p a

abbrev bool_eq : Bool → Bool → Bool
bool_eq true b = b
bool_eq false b = not b

-- `str::parse::<bool>().ok()`
unfoldable pub parse_bool : Text → Option Bool
parse_bool value =
    if value == codes "true" then some true else if value == codes "false" then some false else none

-- `RequestConditionSpec::matches`
unfoldable pub request_matches :
    {Addr : Type 0} → RequestConditionSpec → EvaluationContext Addr → Bool
request_matches spec context =
    (is_empty spec.methods
      || is_some_and context.request_method
          (λ method. any (λ allowed. eq_ignore_ascii_case allowed method) spec.methods))
    && is_none_or spec.secure_transport
        (λ expected. is_some_and context.secure_transport (bool_eq expected))

-- The test of one claim: `context.claims.get(key) == Some(value)`.
unfoldable pub claim_holds : List (Text × Text) → Text → Text → Bool
claim_holds claims key value = is_some_and (lookup key claims) (λ found. found == value)

-- `SubjectConditionSpec::matches`
unfoldable pub subject_matches :
    {Addr : Type 0} → SubjectConditionSpec → EvaluationContext Addr → Bool
unfolding parse_bool claim_holds
subject_matches spec context =
    is_none_or spec.mfa (λ expected.
      is_some_and (lookup (codes "mfa") context.claims)
        (λ value. is_some_and (parse_bool value) (bool_eq expected)))
    && all (λ c. claim_holds context.claims c.0 c.1) spec.claims

module _ {Addr Cidr : Type 0} (net : Net Addr Cidr) where
  -- `parse` of `SourceIpConditionSpec::compile`
  unfoldable pub parse_cidrs : Text → List Text → Result Text (List Cidr)
  parse_cidrs field values =
      try_map
        (λ value.
          map_err
            (λ error.
              field ++ (codes " contains invalid CIDR `" ++ (value ++ (codes "`: " ++ error))))
            (net.parse value))
        values

  -- `SourceIpConditionSpec::compile`
  unfoldable pub compile_source_ip : SourceIpConditionSpec → Result Text (SourceIpConditions Cidr)
  unfolding parse_cidrs
  compile_source_ip spec = do
    in_cidr ← parse_cidrs (codes "sourceIp.inCidr") spec.in_cidr
    not_in_cidr ← parse_cidrs (codes "sourceIp.notInCidr") spec.not_in_cidr
    ok (record { in_cidr = in_cidr; not_in_cidr = not_in_cidr })

  -- `source_ip.as_ref().map(compile).transpose()`
  unfoldable pub compile_optional :
      Option SourceIpConditionSpec → Result Text (Option (SourceIpConditions Cidr))
  unfolding compile_source_ip
  compile_optional none = ok none
  compile_optional (some spec) = do source_ip ← compile_source_ip spec; ok (some source_ip)

  -- `AuthorizationConditionSpec::compile`
  unfoldable pub compile : AuthorizationConditionSpec → Result Text (AuthorizationConditions Cidr)
  unfolding compile_optional
  compile spec = do
    source_ip ← compile_optional spec.source_ip
    ok (record { source_ip = source_ip; request = spec.request; subject = spec.subject })

  -- `SourceIpConditions::matches`
  unfoldable pub source_ip_matches : SourceIpConditions Cidr → Option Addr → Bool
  source_ip_matches conditions none = false
  source_ip_matches conditions (some source_ip) =
      (is_empty conditions.in_cidr || any (λ cidr. net.contains cidr source_ip) conditions.in_cidr)
      && not (any (λ cidr. net.contains cidr source_ip) conditions.not_in_cidr)

  -- `AuthorizationConditions::matches`
  unfoldable pub matches : AuthorizationConditions Cidr → EvaluationContext Addr → Bool
  unfolding source_ip_matches request_matches subject_matches
  matches conditions context =
      is_none_or conditions.source_ip (λ c. source_ip_matches c context.source_ip)
      && request_matches conditions.request context
      && subject_matches conditions.subject context
