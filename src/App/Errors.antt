-- ===== src/App/Errors.antt =====
-- apperr/apperr.go: structured errors, and app.go: what the default error handler makes of an error.
use bebo.Prelude.{ℕ, Option, none, some, [], ◌∷◌, ◌++◌}
use bebo.Prelude.Text.{Bytes, bytes}
use bebo.Prelude.Dict.{Dict, lookup, nat_eq}

-- apperr.Error without its cause.
pub record AppError : Type 0 where
  pub code : Bytes
  pub status : ℕ
  pub message : Bytes

-- The errors of the program: a structured one with no cause, one with a cause, one of fmt.Errorf
-- with %w, and one that wraps none.
pub data Error : Type 0 where
  app : AppError → Error
  app_caused : AppError → Error → Error
  wrapped : Bytes → Error → Error
  plain : Bytes → Error

-- As: the first structured error of the chain.
unfoldable pub as_app : Error → Option AppError
as_app (app e) = some e
as_app (app_caused e cause) = some e
as_app (wrapped text inner) = as_app inner
as_app (plain text) = none

-- Error.Error
unfoldable pub error_text : Error → Bytes
error_text (app e) = e.code ++ (bytes ": " ++ e.message)
error_text (app_caused e cause) =
    e.code ++ (bytes ": " ++ (e.message ++ (bytes ": " ++ error_text cause)))
error_text (wrapped text inner) = text ++ (bytes ": " ++ error_text inner)
error_text (plain text) = text

abbrev pub not_found : Bytes → Error
not_found message = app (record { code = bytes "not_found"; status = 404; message = message })

abbrev pub method_not_allowed : Bytes → Error
method_not_allowed message =
    app (record { code = bytes "method_not_allowed"; status = 405; message = message })

abbrev pub timeout_error : Bytes → Error → Error
timeout_error message cause =
    app_caused (record { code = bytes "timeout"; status = 504; message = message }) cause

abbrev pub payload_too_large : Bytes → Error → Error
payload_too_large message cause =
    app_caused (record { code = bytes "payload_too_large"; status = 413; message = message }) cause

abbrev reported_as : Option AppError → AppError
reported_as (some e) = e
reported_as none = record {
  code = bytes "internal";
  status = 500;
  message = bytes "internal server error";
}

-- defaultErrorHandler: the status, the code and the message that it reports.
unfoldable pub reported : Error → AppError
unfolding as_app
reported e = reported_as (as_app e)

abbrev or_default : Option Bytes → Option Bytes → Option Bytes
or_default (some name) other = some name
or_default none other = other

-- errorTemplateName
unfoldable pub error_template_name : Dict ℕ Bytes → ℕ → Option Bytes
unfolding lookup
error_template_name [] status = none
error_template_name (t ∷ templates) status =
    or_default (lookup status (t ∷ templates)) (lookup 0 (t ∷ templates))
