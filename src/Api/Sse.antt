-- ===== src/Api/Sse.antt =====
-- internal/api/events.go: the text of an event on the stream. A text stands for its bytes.
pub mod Reader
pub mod RoundTrip
use Prim.Native.String as NativeString
use hookwatch.Hub.{Event}
use hookwatch.Prelude.{
  List, String, [], if◌then◌else◌, map, nat_eq, split, string_eq, ℕ, ◌++◌, ◌==◌, ◌∷◌,
}

abbrev pub newline : ℕ
newline = b'\n'

-- What is written after a text.
unfoldable pub after : String → String → String
after NativeString.[] v = v
after (NativeString.◌∷◌ c s) v = NativeString.◌∷◌ c (after s v)

-- Each line, and the end of the line after it.
unfoldable pub unlines : List String → String
unfolding after
unlines [] = ""
unlines (line ∷ lines) = after line (NativeString.◌∷◌ "\n" (unlines lines))

abbrev pub data_line : String → String
data_line line = after "data: " line

-- The lines of an event: a field that is empty has none.
unfoldable pub event_lines : Event → List String
unfolding after
event_lines event =
    (if event.id == "" then [] else after "id: " event.id ∷ [])
    ++ ((if event.type == "" then [] else after "event: " event.type ∷ [])
        ++ (if event.payload == "" then [] else map data_line (split newline event.payload)))

-- writeSSEEvent: the bytes that are written, with an empty line at the end.
unfoldable pub write_sse_event : Event → String
unfolding unlines event_lines
write_sse_event event = unlines (event_lines event ++ "" ∷ [])
