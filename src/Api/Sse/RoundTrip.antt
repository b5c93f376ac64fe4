-- ===== src/Api/Sse/RoundTrip.antt =====
-- internal/api/events.go: an event comes back from the text that is written of it.
use hookwatch.Api.Sse.{newline}
use hookwatch.Api.Sse.Reader.{Reading, is_line}
use hookwatch.Prelude.{
  All, List, String, [], if◌then◌else◌, nat_eq, split, string_eq, true, ◌==◌, ◌≡◌,
}

abbrev reading_of : String → String → List String → Reading
reading_of id type lines = record { id = id; type = type; lines = lines }

payload_lines : String → List String
payload_lines payload = if payload == "" then [] else split newline payload

abbrev AllLines : List String → Type 0
AllLines = All (λ l. is_line l ≡ true)
