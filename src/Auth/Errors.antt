-- ===== src/Auth/Errors.antt =====
-- auth/errors.go: the package's error variables.
use idp_sdk.Common.{GoError}
use idp_sdk.Common.Failure.{variable}

abbrev pub err_missing_token : GoError
err_missing_token = variable "auth.ErrMissingToken" "auth: missing bearer token"

abbrev pub err_invalid_token : GoError
err_invalid_token = variable "auth.ErrInvalidToken" "auth: invalid token"

abbrev pub err_token_expired : GoError
err_token_expired = variable "auth.ErrTokenExpired" "auth: token expired"

abbrev pub err_token_inactive : GoError
err_token_inactive = variable "auth.ErrTokenInactive" "auth: token inactive"

abbrev pub err_insufficient_role : GoError
err_insufficient_role = variable "auth.ErrInsufficientRole" "auth: insufficient role"

abbrev pub err_discovery_failed : GoError
err_discovery_failed = variable "auth.ErrDiscoveryFailed" "auth: OIDC discovery falied"
