-- ===== src/Exception.antt =====
-- exception/ErrorResponse.go, exception/GlobalExceptionHandler.go: the bodies of error responses.
pub mod Fields
use parallelis_distributed_e.Base.{
  ℕ, put, ◌++◌, Bool, Option, none, some, List, [], ◌∷◌, Str, bytes, str_eq, if◌then◌else◌,
}
use parallelis_distributed_e.Model.{Time}
use parallelis_distributed_e.Services.{Services, Exec, ◌>>=◌, pure, now}

-- `map[string]string`
abbrev pub StringMap : Type 0
StringMap = List (Str × Str)

-- `ErrorResponse`
pub record ErrorResponse : Type 0 where
  pub timestamp : Time
  pub status : ℕ
  pub error : Str
  pub message : Str
  pub validation_errors : StringMap

-- `validator.FieldError`, by the two of its methods that are called.
pub record FieldError : Type 0 where
  pub field : Str
  pub tag : Str

-- An `error` as `HandleValidationError` tells it apart.
pub data BindingError : Type 0 where
  validation_errors : List FieldError → BindingError
  other_error : Str → BindingError

-- The text of a field error
unfoldable pub field_text : FieldError → Str
field_text fe = fe.tag ++ bytes " validation failed"

-- The loop of `HandleValidationError`
unfoldable pub collect : List FieldError → StringMap → StringMap
collect [] m = m
collect (fe ∷ ve) m = collect ve (put fe.field (field_text fe) m)

unfoldable pub field_errors : BindingError → StringMap
field_errors (validation_errors ve) = collect ve []
field_errors (other_error e) = []

module _ ⦃S : Services⦄ where
  -- `NewErrorResponse`
  unfoldable pub new_error_response : ℕ → Str → Str → Exec ErrorResponse
  new_error_response status error message = do
    at ← now
    pure (record {
      timestamp = at;
      status = status;
      error = error;
      message = message;
      validation_errors = [];
    })

  -- `NewValidationErrorResponse`
  unfoldable pub new_validation_error_response : ℕ → Str → Str → StringMap → Exec ErrorResponse
  new_validation_error_response status error message errors = do
    at ← now
    pure (record {
      timestamp = at;
      status = status;
      error = error;
      message = message;
      validation_errors = errors;
    })

  -- `HandleJobNotFound`: the status and the body that it sends.
  unfoldable pub handle_job_not_found : Str → Exec (ℕ × ErrorResponse)
  handle_job_not_found message = do
    response ← new_error_response 404 (bytes "Job Not Found") message
    pure (404, response)

  -- `HandleValidationError`
  unfoldable pub handle_validation_error : BindingError → Exec (ℕ × ErrorResponse)
  handle_validation_error e = do
    response ←
        new_validation_error_response 400 (bytes "Validation Failed")
          (bytes "Invalid request parameters") (field_errors e)
    pure (400, response)

  -- `HandleInternalError`
  unfoldable pub handle_internal_error : Exec (ℕ × ErrorResponse)
  handle_internal_error = do
    response ←
        new_error_response 500 (bytes "Internal Server Error")
          (bytes "An unexpected error occurred")
    pure (500, response)

  -- What the deferred function of `ErrorHandlerMiddleware` sends: nothing, unless the rest of the
  -- chain has panicked.
  unfoldable pub recovered : Option Str → Exec (Option (ℕ × ErrorResponse))
  recovered none = pure none
  recovered (some panic) = do
    response ←
        new_error_response 500 (bytes "Internal Server Error")
          (bytes "An unexpected error occurred")
    pure (some (500, response))

  -- `ErrorHandlerMiddleware` around the rest of the chain, which returns or gives its panic.
  unfoldable pub error_handler_middleware : Exec (Option Str) → Exec (Option (ℕ × ErrorResponse))
  error_handler_middleware chain = do panic ← chain; recovered panic
