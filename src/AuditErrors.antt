-- ===== src/AuditErrors.antt =====
-- lib/services/audit-errors.ts: the public codes for the reasons of the URL validation and for the
-- categories of a failed crawl. The messages follow from the codes.
mod Tests
use growth_sent.Prelude.{
  ℕ, ◌≡◌, refl, ◌⊎◌, inl, inr, Option, none, some, Bool, true, false, ◌==◌, ◌∙◌, ap, sym, arith,
  not,
}
use growth_sent.Types.{
  FailureCategory, blocked_by_safety_policy, invalid_redirect, response_body_unavailable,
  response_size_limit, timeout, network, redirect_limit, missing_root_result, non_html_response,
  unexpected_http_status,
}
use growth_sent.Ssrf.Validate.{
  Reason, not_a_text, invalid_format, only_http, only_standard_ports, credentials, no_hostname,
  local_hostname, private_ip, unresolved, restricted_answer, unsupported_family,
}

pub data AuditTargetErrorCode : Type 0 where
  url_invalid url_unsupported target_restricted host_unresolvable : AuditTargetErrorCode

pub record AuditTargetValidationError : Type 0 where
  pub code : AuditTargetErrorCode
  pub status_code : ℕ

unfoldable pub audit_target_validation_error : Option Reason → AuditTargetValidationError
audit_target_validation_error (some only_http) = record {
  code = url_unsupported;
  status_code = 400;
}
audit_target_validation_error (some only_standard_ports) = record {
  code = url_unsupported;
  status_code = 400;
}
audit_target_validation_error (some credentials) = record {
  code = url_unsupported;
  status_code = 400;
}
audit_target_validation_error (some local_hostname) = record {
  code = target_restricted;
  status_code = 400;
}
audit_target_validation_error (some private_ip) = record {
  code = target_restricted;
  status_code = 400;
}
audit_target_validation_error (some restricted_answer) = record {
  code = target_restricted;
  status_code = 400;
}
audit_target_validation_error (some unsupported_family) = record {
  code = target_restricted;
  status_code = 400;
}
audit_target_validation_error (some unresolved) = record {
  code = host_unresolvable;
  status_code = 422;
}
audit_target_validation_error _ = record { code = url_invalid; status_code = 400 }

pub data PublicAuditFailureCode : Type 0 where
  audit_target_restricted audit_redirect_invalid audit_response_unreadable : PublicAuditFailureCode
  audit_response_too_large audit_timed_out audit_connection_failed : PublicAuditFailureCode
  audit_redirect_limit audit_root_unavailable audit_root_not_html : PublicAuditFailureCode
  audit_root_http_error audit_failed : PublicAuditFailureCode

-- A category that the code does not know is `none`.
unfoldable pub public_audit_failure : Option FailureCategory → PublicAuditFailureCode
public_audit_failure (some blocked_by_safety_policy) = audit_target_restricted
public_audit_failure (some invalid_redirect) = audit_redirect_invalid
public_audit_failure (some response_body_unavailable) = audit_response_unreadable
public_audit_failure (some response_size_limit) = audit_response_too_large
public_audit_failure (some timeout) = audit_timed_out
public_audit_failure (some network) = audit_connection_failed
public_audit_failure (some redirect_limit) = audit_redirect_limit
public_audit_failure (some missing_root_result) = audit_root_unavailable
public_audit_failure (some non_html_response) = audit_root_not_html
public_audit_failure (some unexpected_http_status) = audit_root_http_error
public_audit_failure none = audit_failed

category_behind : PublicAuditFailureCode → Option FailureCategory
category_behind audit_target_restricted = some blocked_by_safety_policy
category_behind audit_redirect_invalid = some invalid_redirect
category_behind audit_response_unreadable = some response_body_unavailable
category_behind audit_response_too_large = some response_size_limit
category_behind audit_timed_out = some timeout
category_behind audit_connection_failed = some network
category_behind audit_redirect_limit = some redirect_limit
category_behind audit_root_unavailable = some missing_root_result
category_behind audit_root_not_html = some non_html_response
category_behind audit_root_http_error = some unexpected_http_status
category_behind audit_failed = none

behind_public : (c : Option FailureCategory) → category_behind (public_audit_failure c) ≡ c
unfolding category_behind public_audit_failure
behind_public none = refl
behind_public (some blocked_by_safety_policy) = refl
behind_public (some invalid_redirect) = refl
behind_public (some response_body_unavailable) = refl
behind_public (some response_size_limit) = refl
behind_public (some timeout) = refl
behind_public (some network) = refl
behind_public (some redirect_limit) = refl
behind_public (some missing_root_result) = refl
behind_public (some non_html_response) = refl
behind_public (some unexpected_http_status) = refl

-- Two crawls with the same public code failed in the same category, so that no two categories are
-- shown alike, and none is shown like an unknown one.
pub public_audit_failure-injective :
    (c d : Option FailureCategory) → public_audit_failure c ≡ public_audit_failure d → c ≡ d
public_audit_failure-injective c d e =
    sym (behind_public c) ∙ ap category_behind e ∙ behind_public d
