-- ===== src/Rbac.antt =====
-- src/typescript/lib/rbac-helper/mod.ts: the records, and the functions in the modules below.
pub mod Glob
pub mod Policy
pub mod Records
pub mod Authorize
mod Tests
use compute_contract_referen.Base.{Text, Dict, Option, List}

-- `properties.capability.enum` is the field `capability`; `body` is never read.
pub record RbacSchema : Type 0 where
  pub capability : List Text

pub record RbacPolicy : Type 0 where
  pub meta : Dict Text
  pub schemas : Dict RbacSchema

pub record RbacRoleDefinition : Type 0 where
  pub iss : Text
  pub aud : Option Text
  pub sub : Text
  pub policies : List Text

pub record RbacRole : Type 0 where
  pub role_name : Text
  pub definition : RbacRoleDefinition

pub record RbacProtects : Type 0 where
  pub service : Text
  pub scope : Option Text

pub record RbacRecord : Type 0 where
  pub protects : Dict RbacProtects
  pub policies : Dict RbacPolicy
  pub roles : Dict RbacRole

pub record ServiceAllowlistRecord : Type 0 where
  pub protects : Dict RbacProtects
  pub allowed : Dict (List Text)

-- What is thrown: an UnauthorizedException by its message, or another Error.
pub data AuthError : Type 0 where
  unsupported_method : Text → AuthError
  no_matching_role : Text → AuthError
  denied : List Text → AuthError
  no_policy_covers : Text → Text → AuthError
  not_on_allowlist : Text → AuthError
  no_token : AuthError
  invalid_token : AuthError
  invalid_audience : Text → AuthError
  failed_validation : AuthError
  rbac_lookup_failed : Text → AuthError
  iss_not_did : AuthError
  unresolved_handle : Text → AuthError
  unsupported_did_method : Text → AuthError
  resolution_failed : Text → AuthError
  no_pds : Text → AuthError
  list_records_failed : Text → AuthError
  no_protecting_record : Text → AuthError
  still_paging : AuthError
