-- ===== src/Http/Errors.antt =====
-- apps/gateway/src/errors.ts: the errors of the gateway and what the client sees of them. A seconds
-- value of an error is whole; logging, which reads the error's name alone, is left out.
use vibe_shield.Prelude.{ℕ, max, List, [], ◌∷◌, ◌++◌, Option, none, some, Text, codes, decimal}

pub data Kind : Type 0 where
  invalid_request authentication permission not_found rate_limit api overloaded : Kind

pub record HttpError : Type 0 where
  pub status : ℕ
  pub kind : Kind
  pub message : Text
  pub retry_after_seconds : Option ℕ

-- What a handler may throw: an error of the gateway, the paths of a failed validation, malformed
-- JSON, or anything else.
pub data Thrown : Type 0 where
  http : HttpError → Thrown
  zod : List (List Text) → Thrown
  malformed_json : Thrown
  unknown : Thrown

pub record AnthropicError : Type 0 where
  pub kind : Kind
  pub message : Text
  pub correlation_id : Option Text

pub record Reply : Type 0 where
  pub status : ℕ
  pub retry_after : Option Text
  pub body : AnthropicError

abbrev pub plain : ℕ → Kind → Text → HttpError
plain status kind message = record {
  status = status;
  kind = kind;
  message = message;
  retry_after_seconds = none;
}

abbrev pub authentication_error : Text → HttpError
authentication_error = plain 401 authentication

abbrev pub permission_error : Text → HttpError
permission_error = plain 403 permission

abbrev pub not_found_error : Text → HttpError
not_found_error = plain 404 not_found

abbrev pub invalid_request_error : Text → HttpError
invalid_request_error = plain 400 invalid_request

abbrev pub conflict_error : Text → HttpError
conflict_error = plain 409 invalid_request

abbrev pub not_implemented_error : Text → HttpError
not_implemented_error = plain 501 api

abbrev pub engine_unavailable_error : Text → HttpError
engine_unavailable_error = plain 503 api

-- `parts.join(separator)`
abbrev pub join : Text → List Text → Text
join sep [] = []
join sep (t ∷ []) = t
join sep (t ∷ u ∷ ts) = t ++ (sep ++ join sep (u ∷ ts))

-- The dotted paths that are not empty.
abbrev pub field_paths : List (List Text) → List Text
field_paths [] = []
field_paths (path ∷ paths) = elim (join (codes ".") path) [
  | [] ↦ field_paths paths
  | c ∷ s ↦ (c ∷ s) ∷ field_paths paths
]

abbrev pub retry_after_header : Option ℕ → Option Text
retry_after_header none = none
retry_after_header (some n) = some (decimal (max 1 n))

unfoldable pub error_handler : Option Text → Thrown → Reply
error_handler cid (http e) = record {
  status = e.status;
  retry_after = retry_after_header e.retry_after_seconds;
  body = record { kind = e.kind; message = e.message; correlation_id = cid };
}
error_handler cid (zod issues) = record {
  status = 400;
  retry_after = none;
  body = record {
    kind = invalid_request;
    message = codes "validation failed: " ++ join (codes ", ") (field_paths issues);
    correlation_id = cid;
  };
}
error_handler cid malformed_json = record {
  status = 400;
  retry_after = none;
  body = record {
    kind = invalid_request;
    message = codes "malformed JSON body";
    correlation_id = cid;
  };
}
error_handler cid unknown = record {
  status = 500;
  retry_after = none;
  body = record { kind = api; message = codes "Internal server error"; correlation_id = cid };
}
