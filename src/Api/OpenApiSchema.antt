-- ===== src/Api/OpenApiSchema.antt =====
-- internal/api/requests_advanced.go inferOpenAPISchema: the schema that describes a JSON value.
pub mod Fits
use hookwatch.Prelude.{Bool, List, String, [], if◌then◌else◌, ◌∷◌}

-- What json.Unmarshal makes of a text, but for the contents of scalars: of a number only whether it is
-- equal to its integer part.
mutual
  pub data Json : Type 0 where
    json_object : JsonFields → Json
    json_array : JsonItems → Json
    json_bool : Json
    json_number : Bool → Json
    json_null : Json
    json_text : Json

  pub data JsonFields : Type 0 where
    no_fields : JsonFields
    field : String → Json → JsonFields → JsonFields

  pub data JsonItems : Type 0 where
    no_items : JsonItems
    item : Json → JsonItems → JsonItems

-- A schema; `any_value` is the empty one, and `nullable` says nothing but that null is allowed.
mutual
  pub data Schema : Type 0 where
    object_schema : Properties → List String → Schema
    array_schema : Schema → Schema
    typed : String → Schema
    nullable : Schema
    any_value : Schema

  pub data Properties : Type 0 where
    no_properties : Properties
    property : String → Schema → Properties → Properties

unfoldable pub field_names : JsonFields → List String
field_names no_fields = []
field_names (field k v fs) = k ∷ field_names fs

-- `sort` is slices.Sort.
module _ (sort : List String → List String) where
  unfoldable mutual
    unfolding field_names

    pub infer_schema : Json → Schema
    infer_schema (json_object fs) = object_schema (infer_fields fs) (sort (field_names fs))
    infer_schema (json_array items) = array_schema (infer_first items)
    infer_schema json_bool = typed "boolean"
    infer_schema (json_number whole) = if whole then typed "integer" else typed "number"
    infer_schema json_null = nullable
    infer_schema json_text = typed "string"

    pub infer_fields : JsonFields → Properties
    infer_fields no_fields = no_properties
    infer_fields (field k v fs) = property k (infer_schema v) (infer_fields fs)

    -- Of an array the first element.
    pub infer_first : JsonItems → Schema
    infer_first no_items = any_value
    infer_first (item v vs) = infer_schema v
