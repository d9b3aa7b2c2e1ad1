-- ===== src/Errors.antt =====
-- pkg/errors/httperrors.go, with the fields that Error reads, and ExtractUserFromJWT of
-- pkg/utils/authutil/util.go.
use bke_console_service.Prelude.{[], if◌then◌else◌}
use bke_console_service.Text.{Text, codes, text_eq}
use bke_console_service.World.{Outcome, ok, err, panic, Env}

-- TokenExpiredError, HttpResponseNotOKError, InvalidJsonHttpBodyError and FieldNotFoundError
pub data HttpError : Type 0 where
  token_expired : Text → HttpError
  http_response_not_ok : Text → HttpError
  invalid_json_http_body : Text → HttpError
  field_not_found : Text → Text → HttpError

-- The methods Error
unfoldable pub error_text : HttpError → Text
unfolding text_eq
error_text (token_expired message) =
    if text_eq message [] then message else codes "token has expired"
error_text (http_response_not_ok message) = message
error_text (invalid_json_http_body message) = message
error_text (field_not_found message field) = message

-- user.DefaultInfo, with the field that is set
pub record UserInfo : Type 0 where
  pub name : Text

unfoldable pub user_of_subject : Outcome Text → Outcome UserInfo
user_of_subject (ok subject) = ok (record { name = subject })
user_of_subject (err e) = err e
user_of_subject panic = panic

-- ExtractUserFromJWT
unfoldable pub extract_user_from_jwt : {S : Type 0} → Env S → Text → Outcome UserInfo
unfolding user_of_subject
extract_user_from_jwt env token = user_of_subject (env.jwt_subject token)
