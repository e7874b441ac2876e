-- ===== src/Exception/Fields.antt =====
-- Which errors of a request's fields the response shows.
use parallelis_distributed_e.Base.{
  put, value_of, value_of-put, ◌≡◌, refl, ◌∙◌, ap, Option, none, some, List, [], ◌∷◌, Str, str_eq,
  if◌then◌else◌,
}
use parallelis_distributed_e.Services.{Services, World}
use parallelis_distributed_e.Exception.{
  StringMap, FieldError, field_text, collect, validation_errors, field_errors,
  new_validation_error_response, handle_validation_error,
}

-- The text of the last error of a field in a list, or else what there was before.
unfoldable pub last_error : List FieldError → Str → Option Str → Option Str
last_error [] name before = before
last_error (fe ∷ ve) name before =
    last_error ve name (if str_eq fe.field name then some (field_text fe) else before)

value_of-collect :
    (ve : List FieldError) (m : StringMap) (name : Str)
    → value_of (collect ve m) name ≡ last_error ve name (value_of m name)
unfolding collect last_error
value_of-collect [] m name = refl
value_of-collect (fe ∷ ve) m name =
    value_of-collect ve (put fe.field (field_text fe) m) name
    ∙ ap (last_error ve name) (value_of-put fe.field (field_text fe) m name)

module _ ⦃S : Services⦄ where
  -- The response to a request whose fields do not pass has the code 400, in its body too, and shows
  -- for a name of a field the text of the last error of that field, and nothing if it has none.
  pub handle_validation_error_lem :
      (ve : List FieldError) (name : Str) (w : World)
      → let (code, response) = (handle_validation_error (validation_errors ve) w).0 in
        (code ≡ 400)
        × (response.status ≡ 400)
        × (value_of response.validation_errors name ≡ last_error ve name none)
  unfolding handle_validation_error new_validation_error_response field_errors value_of
  handle_validation_error_lem ve name w = (refl, refl, value_of-collect ve [] name)
