-- ===== src/Http/Guards.antt =====
-- apps/gateway/src/middleware/{requires,session-auth,api-key,size-limit,correlation-id}.ts. A
-- handler that calls `next` is `ok`; what it passes to `next` is thrown.
pub mod Access
use vibe_shield.Prelude.{
  ℕ, ◌≡◌, Bool, true, false, ◌&&◌, ◌||◌, not, List, [], ◌∷◌, ◌++◌, Option, none, some, Text, codes,
  same_text, leb, ltb, ◌==◌, length, all, take, drop, decimal, is_digit, is_space, if◌then◌else◌,
  Result, ok, err,
}
use vibe_shield.Auth.UserSessions
use vibe_shield.Auth.UserSessions.{UserSession, session_invalid}
use vibe_shield.Auth.Users
use vibe_shield.Auth.Users.{
  Area, Role, UserWithRoles, role_satisfies, is_null, find_by_id_with_roles,
}
use vibe_shield.Auth.ApiKeys
use vibe_shield.Auth.ApiKeys.{ApiKey, ResolvedKey, key_revoked, key_invalid, is_alphanumeric}
use vibe_shield.Http.Errors.{
  HttpError, Thrown, http, unknown, authentication_error, permission_error, invalid_request_error,
}

abbrev pub role_name : Role → Text
role_name Users.viewer = codes "viewer"
role_name Users.operator = codes "operator"
role_name Users.admin = codes "admin"

abbrev pub area_name : Area → Text
area_name Users.redact = codes "redact"
area_name Users.scan = codes "scan"
area_name Users.compliance = codes "compliance"

abbrev pub insufficient : Area → Role → HttpError
insufficient area minimum = permission_error (
    codes "insufficient role: requires "
    ++ (role_name minimum ++ (codes "+ on " ++ area_name area)))

abbrev pub check_role : Area → Role → Option Role → Result HttpError (Unit {0})
check_role area minimum none = err (insufficient area minimum)
check_role area minimum (some have) =
    if role_satisfies have minimum then ok tt else err (insufficient area minimum)

unfoldable pub requires : Area → Role → Option UserWithRoles → Result HttpError (Unit {0})
requires area minimum none = err (authentication_error (codes "sign-in required"))
requires area minimum (some user) =
    if user.user.is_org_admin then ok tt else check_role area minimum (user.roles area)

unfoldable pub requires_org_admin : Option UserWithRoles → Result HttpError (Unit {0})
requires_org_admin none = err (authentication_error (codes "sign-in required"))
requires_org_admin (some user) =
    if user.user.is_org_admin then ok tt else err (permission_error (codes "org_admin required"))

-- `req.user`, for a session token that the store accepts or not.
abbrev pub enabled : Option UserWithRoles → Option UserWithRoles
enabled none = none
enabled (some user) = if is_null user.user.disabled_at then some user else none

-- The user of the request and the sessions that are left; `validate` throws nothing but
-- `SessionInvalidError`.
unfoldable pub session_auth :
    (Text → Text)
    → ℕ
    → Option Text
    → ℕ
    → Users.Db
    → List UserSession
    → Option UserWithRoles × List UserSession
session_auth hash ttl none now db sessions = (none, sessions)
session_auth hash ttl (some token) now db sessions =
    elim (UserSessions.validate hash ttl token now sessions) [
      | err e ↦ (none, sessions)
      | ok ((user_id, expires), sessions') ↦ (enabled (find_by_id_with_roles user_id db), sessions')
    ]

-- \S+ up to the end.
abbrev pub unspaced : Text → Option Text
unspaced [] = none
unspaced (c ∷ s) = if all (λ d. not (is_space d)) (c ∷ s) then some (c ∷ s) else none

abbrev pub after_spaces : Text → Option Text
after_spaces [] = none
after_spaces (c ∷ s) = let rest = after_spaces s in if is_space c then rest else unspaced (c ∷ s)

-- Group 1 of /^Bearer\s+(\S+)$/
abbrev pub bearer : Text → Option Text
bearer s =
    if same_text (take 6 s) (codes "Bearer")
    then elim (drop 6 s) [ [] ↦ none | c ∷ rest ↦ if is_space c then after_spaces rest else none ]
    else none

unfoldable pub api_key :
    (Text → Text) → Option Text → ℕ → List ApiKey → Result Thrown (ResolvedKey × List ApiKey)
api_key hash none now keys =
    err (http (authentication_error (codes "missing Authorization header")))
api_key hash (some header) now keys = elim (bearer header) [
  | none ↦ err (http (authentication_error (codes "Authorization must be a Bearer token")))
  | some key ↦ elim (ApiKeys.resolve hash key now keys) [
    | ok found ↦ ok found
    | err ApiKeys.key_revoked ↦ err (http (permission_error (codes "API key revoked")))
    | err ApiKeys.key_invalid ↦ err (http (authentication_error (codes "invalid API key")))
    | err ApiKeys.unique_violation ↦ err unknown
  ]
]

-- The declared length as `Number` reads it, `none` for NaN.
unfoldable pub size_limit : (Text → Option ℕ) → ℕ → Option Text → Result HttpError (Unit {0})
size_limit number max_bytes none = ok tt
size_limit number max_bytes (some declared) = elim (number declared) [
  | none ↦ err (invalid_request_error (codes "invalid content-length"))
  | some n ↦
      if ltb max_bytes n
      then err (invalid_request_error (codes "request exceeds max_bytes=" ++ decimal max_bytes))
      else ok tt
]

-- [A-Za-z0-9_:.-]
abbrev pub is_safe : ℕ → Bool
is_safe c = is_alphanumeric c || (c == b'_') || (c == b':') || (c == b'.') || (c == b'-')

-- /^[A-Za-z0-9_:.-]{1,128}$/
abbrev pub is_safe_cid : Text → Bool
is_safe_cid s = leb 1 (length s) && leb (length s) 128 && all is_safe s

-- The id of the request, which is also sent back; the second argument is a new uuid.
unfoldable pub correlation_id : Option Text → Text → Text
correlation_id none uuid = uuid
correlation_id (some incoming) uuid = if is_safe_cid incoming then incoming else uuid
