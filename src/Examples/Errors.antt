-- ===== src/Examples/Errors.antt =====
-- A request with two bad fields, one of them wrong in two ways.
use parallelis_distributed_e.Base.{value_of, ◌≡◌, none, List, [], ◌∷◌, bytes}
use parallelis_distributed_e.Memory.{memory, empty_world}
use parallelis_distributed_e.Exception.{FieldError, validation_errors, handle_validation_error}
use parallelis_distributed_e.Exception.Fields.{last_error, handle_validation_error_lem}

abbrev bad_fields : List FieldError
bad_fields =
    record { field = bytes "Type"; tag = bytes "required" }
    ∷ record { field = bytes "Payload"; tag = bytes "required" }
    ∷ record { field = bytes "Type"; tag = bytes "oneof" }
    ∷ []

handle_validation_error_lem_example :
    let (code, response) = (handle_validation_error (validation_errors bad_fields) empty_world).0 in
    (code ≡ 400)
    × (response.status ≡ 400)
    × (value_of response.validation_errors (bytes "Type")
        ≡ last_error bad_fields (bytes "Type") none)
handle_validation_error_lem_example =
    handle_validation_error_lem bad_fields (bytes "Type") empty_world
