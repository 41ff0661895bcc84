-- ===== src/Model.antt =====
-- The data of the authorization catalog: src/common/src/model/role.rs, policy.rs and principal.rs.
pub mod Condition
use authguard.Base.{ℕ, Bool, Option, List, Text, codes, ◌==◌, if◌then◌else◌, Result, ok, err}
use authguard.Urn.{ResourceUrn}
use authguard.Model.Condition.{AuthorizationConditionSpec, EvaluationContext}

pub data Effect : Type 0 where
  allow deny : Effect

abbrev pub is_deny : Effect → Bool
is_deny allow = Bool.false
is_deny deny = Bool.true

pub record HttpRouteMatcher : Type 0 where
  pub id : Text
  pub methods : List Text
  pub hosts : List Text
  pub path : Text
  pub resource_urn : Text
  pub parent_urns : List Text

pub record IamActionInfo : Type 0 where
  pub identifier : Text
  pub description : Text
  pub route_matchers : List HttpRouteMatcher

pub record IamRoleInfo : Type 0 where
  pub id : Text
  pub name : Text
  pub description : Text
  pub action_ids : List Text

pub record IamRoleBindingInfo : Type 0 where
  pub id : Text
  pub principal_id : Text
  pub role_id : Text
  pub effect : Effect
  pub resource_urn : Text
  pub conditions : AuthorizationConditionSpec

-- `revision` is a u64.
pub record IamPolicyInfo : Type 0 where
  pub revision : ℕ
  pub actions : List IamActionInfo
  pub roles : List IamRoleInfo
  pub role_bindings : List IamRoleBindingInfo

pub record AuthorizationRequest (Addr : Type 0) : Type 0 where
  pub principal_id : Text
  pub group_principal_ids : List Text
  pub action : Text
  pub resource_urn : ResourceUrn
  pub parent_urns : List ResourceUrn
  pub context : EvaluationContext Addr

pub record AuthorizationDecision : Type 0 where
  pub allowed : Bool
  pub reason : Text
  pub role_binding_id : Option Text

pub record AuthorizationScope : Type 0 where
  pub allow_resource_urns : List Text
  pub deny_resource_urns : List Text

pub data PrincipalKind : Type 0 where
  user workload group : PrincipalKind

-- `PrincipalKind::as_str`
abbrev pub kind_text : PrincipalKind → Text
kind_text user = codes "USER"
kind_text workload = codes "WORKLOAD"
kind_text group = codes "GROUP"

-- The equality of kinds
abbrev pub same_kind : PrincipalKind → PrincipalKind → Bool
same_kind user user = Bool.true
same_kind workload workload = Bool.true
same_kind group group = Bool.true
same_kind _ _ = Bool.false

pub data PrincipalStatus : Type 0 where
  active disabled : PrincipalStatus

-- `Json` is the map of the authorization state.
pub record IamPrincipalInfo (Json : Type 0) : Type 0 where
  pub id : Text
  pub kind : PrincipalKind
  pub display_name : Text
  pub status : PrincipalStatus
  pub authorization_state : Json

abbrev pub is_active : PrincipalStatus → Bool
is_active active = Bool.true
is_active disabled = Bool.false
