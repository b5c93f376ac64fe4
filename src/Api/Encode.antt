-- ===== src/Api/Encode.antt =====
-- internal/api/capture.go: the texts that a capture stores of headers and forms.
use hookwatch.Header.{Header}
use hookwatch.Models.{Request}
use hookwatch.Prelude.{
  Bool, List, Option, String, [], if◌then◌else◌, map, nat_eq, none, not, some, string_eq,
  trim_space, ℕ, ◌==◌, ◌∷◌,
}

-- The texts of one key: one, or several.
pub data Values : Type 0 where
  single : String → Values
  several : List String → Values

-- A value of the maps that are encoded: texts, or the files of a form field.
pub data FormValue : Type 0 where
  texts : Values → FormValue
  files : List (String × ℕ × List (String × Values)) → FormValue

-- The files of a multipart form: name, size and header.
pub record Form : Type 0 where
  pub value : Header
  pub file : List (String × List (String × ℕ × Header))

-- What the handler calls of the standard library and of google/uuid; nothing is assumed of it.
-- `marshal` is json.Marshal of a map, `none` for an error; `parse_media_type` gives the media type and
-- the boundary; `request_uri` is URL.RequestURI of the request's URL with another query.
pub record Libs : Type 0 where
  pub parse_uuid : String → Bool
  pub hash : String → String
  pub hmac : String → String → String
  pub parse_query : String → Option Header
  pub encode_query : Header → String
  pub marshal : List (String × FormValue) → Option String
  pub parse_media_type : String → Option (String × String)
  pub read_form : String → String → Option Form
  pub split_host_port : String → Option String
  pub request_uri : String → String → String
  pub encode_created : Request → ℕ → Option String

-- The value of a header in encodeHeaders.
unfoldable pub header_value : List String → Values
header_value [] = single ""
header_value (v ∷ []) = single v
header_value (v ∷ w ∷ vs) = several (v ∷ w ∷ vs)

unfoldable pub encode_headers : Libs → Header → Option String
unfolding header_value
encode_headers lib header =
    lib.marshal (map (λ entry. (entry.0, texts (header_value entry.1))) header)

unfoldable pub normalize_string_values : List String → Values
normalize_string_values [] = several []
normalize_string_values (v ∷ []) = single v
normalize_string_values (v ∷ w ∷ vs) = several (v ∷ w ∷ vs)

-- flattenMIMEHeader
unfoldable pub flatten : Header → List (String × Values)
unfolding normalize_string_values
flatten values = map (λ entry. (entry.0, normalize_string_values entry.1)) values

-- What encodeURLValues gives to marshalMap.
unfoldable pub url_values : Header → List (String × FormValue)
unfolding normalize_string_values
url_values values = map (λ entry. (entry.0, texts (normalize_string_values entry.1))) values

unfoldable pub encode_files : List (String × ℕ × Header) → FormValue
unfolding flatten
encode_files fs = files (map (λ f. (f.0, f.1, flatten f.2)) fs)

unfoldable pub put : String → FormValue → List (String × FormValue) → List (String × FormValue)
put key v [] = (key, v) ∷ []
put key v ((k, w) ∷ rest) =
    let rest' = put key v rest in if k == key then (k, v) ∷ rest else (k, w) ∷ rest'

-- A field of files replaces a field of values with the same name.
unfoldable pub put_files :
    List (String × List (String × ℕ × Header))
    → List (String × FormValue)
    → List (String × FormValue)
unfolding put encode_files
put_files [] encoded = encoded
put_files ((key, fs) ∷ rest) encoded = put_files rest (put key (encode_files fs) encoded)

abbrev marshal_form : Libs → Option Form → Option String
marshal_form lib none = none
marshal_form lib (some form) = lib.marshal (put_files form.file (url_values form.value))

abbrev marshal_values : Libs → Option Header → Option String
marshal_values lib none = none
marshal_values lib (some values) = lib.marshal (url_values values)

-- An error of ParseMediaType counts unless the content type is blank.
unfoldable pub encode_typed : Libs → String → String → Option (String × String) → Option String
unfolding url_values put_files
encode_typed lib content_type body none =
    if not (trim_space content_type == "") then none else some "{}"
encode_typed lib content_type body (some (media_type, boundary)) =
    if media_type == "application/x-www-form-urlencoded"
    then marshal_values lib (lib.parse_query body)
    else if media_type == "multipart/form-data"
    then marshal_form lib (lib.read_form boundary body)
    else some "{}"

unfoldable pub encode_form_data : Libs → String → String → Option String
unfolding encode_typed
encode_form_data lib content_type body =
    encode_typed lib content_type body (lib.parse_media_type content_type)
