-- ===== src/Web/Envelopes.antt =====
-- The bodies of responses: src/shared/filters/global.filter.ts and
-- src/shared/interceptors/response.interceptor.ts, with src/shared/interfaces/response.interface.ts.
use gov_jobs_backend.Base.{ℕ, Option, none, some, List, Text, codes}
use gov_jobs_backend.Notifications.{join_with}
use gov_jobs_backend.Pagination.{PaginationMeta, PaginatedResponse}

-- The property `message` of an exception's body: texts, one text, or neither.
pub data BodyMessage : Type 0 where
  many_messages : List Text → BodyMessage
  one_message : Text → BodyMessage
  no_message : BodyMessage

pub data ExceptionBody : Type 0 where
  text_body : Text → ExceptionBody
  object_body : BodyMessage → ExceptionBody
  other_body : ExceptionBody

-- What a handler throws: an `HttpException`, or anything else.
pub data Exception : Type 0 where
  http_exception : ℕ → ExceptionBody → Exception
  unhandled : Exception

pub record ErrorResponse : Type 0 where
  pub status : Text
  pub status_code : ℕ
  pub message : Text

abbrev pub internal_server_error : Text
internal_server_error = codes "Internal server error"

unfoldable pub message_of : ExceptionBody → Text
unfolding join_with
message_of (text_body body) = body
message_of (object_body (many_messages messages)) = join_with (codes ", ") messages
message_of (object_body (one_message message)) = message
message_of (object_body no_message) = internal_server_error
message_of other_body = internal_server_error

-- `catch` of `GlobalExceptionFilter`; the status of the response is that of the body.
unfoldable pub catch_exception : Exception → ErrorResponse
unfolding message_of
catch_exception unhandled = record {
  status = codes "error";
  status_code = 500;
  message = internal_server_error;
}
catch_exception (http_exception status body) = record {
  status = codes "error";
  status_code = status;
  message = message_of body;
}

-- What a handler returns.
pub data HandlerResult {ℓ} (T : Type ℓ) : Type ℓ where
  paginated : PaginatedResponse T → HandlerResult T
  messaged : T → Text → HandlerResult T
  payload : T → HandlerResult T

pub data Data {ℓ} (T : Type ℓ) : Type ℓ where
  rows : List T → Data T
  single : T → Data T

pub record ApiResponse {ℓ} (T : Type ℓ) : Type ℓ where
  pub status : Text
  pub status_code : Option ℕ
  pub message : Option Text
  pub content : Data T
  pub meta : Option PaginationMeta

-- `intercept` of `ResponseFormatInterceptor`.
unfoldable pub intercept {ℓ} : {T : Type ℓ} → HandlerResult T → ApiResponse T
intercept (paginated page) = record {
  status = codes "success";
  status_code = none;
  message = none;
  content = rows page.data_rows;
  meta = some page.meta;
}
intercept (messaged result message) = record {
  status = codes "success";
  status_code = some 200;
  message = some message;
  content = single result;
  meta = none;
}
intercept (payload result) = record {
  status = codes "success";
  status_code = some 200;
  message = none;
  content = single result;
  meta = none;
}
