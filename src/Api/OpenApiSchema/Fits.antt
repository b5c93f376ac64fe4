-- ===== src/Api/OpenApiSchema/Fits.antt =====
-- internal/api/requests_advanced.go inferOpenAPISchema: a value fits the schema that is inferred from it.
use hookwatch.Api.OpenApiSchema.{
  Json, JsonFields, JsonItems, Properties, Schema, any_value, array_schema, field, field_names,
  infer_fields, infer_first, infer_schema, item, json_array, json_bool, json_null, json_number,
  json_object, json_text, no_fields, no_items, no_properties, nullable, object_schema, property,
  typed,
}
use hookwatch.Prelude.{
  All, All-map, Bool, List, String, [], arith, count, eq_iff, eq_refl, false, if◌then◌else◌, inl,
  nat_eq, not, refl, string_eq, subst, true, ◌==◌, ◌||◌, ◌∙◌, ◌∷◌, ◌≡◌, ◌⊎◌,
}

abbrev pub has_field : String → JsonFields → Bool
has_field key no_fields = false
has_field key (field k v fs) = k == key || has_field key fs

-- The schema of a property; one that is not declared may be anything.
abbrev pub property_at : String → Properties → Schema
property_at key no_properties = any_value
property_at key (property k s ps) = if k == key then s else property_at key ps

-- Whether a schema of OpenAPI 3.0 allows a value; whole numbers are integers and numbers.
unfoldable mutual
  pub Fits : Json → Schema → Type 0
  Fits v nullable = Unit
  Fits v any_value = Unit
  Fits (json_object fs) (object_schema ps required) =
      FieldsFit fs ps × All (λ key. has_field key fs ≡ true) required
  Fits (json_object fs) (array_schema s) = ⊥
  Fits (json_object fs) (typed t) = t ≡ "object"
  Fits (json_array items) (array_schema s) = ItemsFit items s
  Fits (json_array items) (object_schema ps required) = ⊥
  Fits (json_array items) (typed t) = t ≡ "array"
  Fits json_bool (typed t) = t ≡ "boolean"
  Fits (json_number true) (typed t) = (t ≡ "integer") ⊎ (t ≡ "number")
  Fits (json_number false) (typed t) = t ≡ "number"
  Fits json_text (typed t) = t ≡ "string"
  Fits v s = ⊥

  pub FieldsFit : JsonFields → Properties → Type 0
  FieldsFit no_fields ps = Unit
  FieldsFit (field k v fs) ps = Fits v (property_at k ps) × FieldsFit fs ps

  pub ItemsFit : JsonItems → Schema → Type 0
  ItemsFit no_items s = Unit
  ItemsFit (item v vs) s = Fits v s × ItemsFit vs s

-- The values of which a schema says all: every array has elements of one schema, and every object each
-- key once, as a map of Go has.
module _ (sort : List String → List String) where
  abbrev AllInfer : JsonItems → Schema → Type 0
  AllInfer no_items s = Unit
  AllInfer (item v vs) s = (infer_schema sort v ≡ s) × AllInfer vs s

  unfoldable mutual
    unfolding infer_schema

    pub IsUniform : Json → Type 0
    IsUniform (json_object fs) = UniformFields fs
    IsUniform (json_array items) = AllInfer items (infer_first sort items) × UniformItems items
    IsUniform json_bool = Unit
    IsUniform (json_number whole) = Unit
    IsUniform json_null = Unit
    IsUniform json_text = Unit

    UniformFields : JsonFields → Type 0
    UniformFields no_fields = Unit
    UniformFields (field k v fs) = (has_field k fs ≡ false) × IsUniform v × UniformFields fs

    UniformItems : JsonItems → Type 0
    UniformItems no_items = Unit
    UniformItems (item v vs) = IsUniform v × UniformItems vs

another_key : (j k : String) (b : Bool) → ((j == k) || b) ≡ false → (k == j) ≡ false
another_key j k b e = ground (arith, e, eq_iff j k, eq_iff k j)

-- A property that no field has changes nothing for the fields.
weaken :
    (fs : JsonFields) (ps : Properties) (k : String) (s : Schema)
    → has_field k fs ≡ false
    → FieldsFit fs ps
    → FieldsFit fs (property k s ps)
unfolding Fits
weaken no_fields ps k s e h = tt
weaken (field j v fs) ps k s e h =
    (rw (another_key j k (has_field k fs) e) h.0, weaken fs ps k s (ground (arith, e)) h.1)

none_counted :
    {A : Type 0} (p : A → Bool) (xs : List A) → count p xs ≡ 0 → All (λ x. p x ≡ false) xs
none_counted p [] e = tt
none_counted p (x ∷ xs) e = (ground (arith, e), none_counted p xs (ground (arith, e)))

count_none : {A : Type 0} (p : A → Bool) (xs : List A) → All (λ x. p x ≡ false) xs → count p xs ≡ 0
count_none p [] h = refl
count_none p (x ∷ xs) h = rw h.0 (count_none p xs h.1)

names_present : (fs : JsonFields) → All (λ key. has_field key fs ≡ true) (field_names fs)
unfolding field_names
names_present no_fields = tt
names_present (field k v fs) = (
  rw (eq_refl k) refl,
  All-map (λ key. has_field key fs ≡ true) (λ key. has_field key (field k v fs) ≡ true)
      (λ key. λ e. ground (arith, e)) (field_names fs) (names_present fs),
)

module _ (sort : List String → List String)
    (same_texts : (p : String → Bool) (xs : List String) → count p (sort xs) ≡ count p xs) where
  required_present :
      (fs : JsonFields) → All (λ key. has_field key fs ≡ true) (sort (field_names fs))
  required_present fs =
      All-map (λ key. not (has_field key fs) ≡ false) (λ key. has_field key fs ≡ true)
        (λ key. λ e. ground (arith, e)) (sort (field_names fs))
        (none_counted (λ key. not (has_field key fs)) (sort (field_names fs))
          (same_texts (λ key. not (has_field key fs)) (field_names fs)
            ∙ count_none (λ key. not (has_field key fs)) (field_names fs)
                (All-map (λ key. has_field key fs ≡ true) (λ key. not (has_field key fs) ≡ false)
                  (λ key. λ e. ground (arith, e)) (field_names fs) (names_present fs))))

  mutual
    unfolding infer_schema Fits IsUniform

    inferred : (v : Json) → IsUniform sort v → Fits v (infer_schema sort v)
    inferred (json_object fs) u = (inferred_fields fs u, required_present fs)
    inferred (json_array items) u = inferred_items items (infer_first sort items) u.0 u.1
    inferred json_bool u = refl
    inferred (json_number true) u = inl refl
    inferred (json_number false) u = refl
    inferred json_null u = tt
    inferred json_text u = refl

    inferred_fields :
        (fs : JsonFields) → UniformFields sort fs → FieldsFit fs (infer_fields sort fs)
    inferred_fields no_fields u = tt
    inferred_fields (field k v fs) u = (
      rw (eq_refl k) (inferred v u.1),
      weaken fs (infer_fields sort fs) k (infer_schema sort v) u.0 (inferred_fields fs u.2),
    )

    inferred_items :
        (vs : JsonItems) (s : Schema) → AllInfer sort vs s → UniformItems sort vs → ItemsFit vs s
    inferred_items no_items s a u = tt
    inferred_items (item v vs) s a u =
        (subst (λ t. Fits v t) a.0 (inferred v u.0), inferred_items vs s a.1 u.1)

  -- A JSON value in which every array has elements of one schema and every object has each key once fits
  -- the schema that is inferred from it: with every required key, with values that fit their properties,
  -- and with elements that fit the schema of the first one. The sort of the required keys is any that
  -- keeps the same texts.
  pub infer_schema-Fits : (v : Json) → IsUniform sort v → Fits v (infer_schema sort v)
  infer_schema-Fits v u = inferred v u
