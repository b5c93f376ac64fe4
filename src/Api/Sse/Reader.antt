-- ===== src/Api/Sse/Reader.antt =====
-- internal/api/events.go: what a client reads of the stream, by the event stream format of the HTML
-- standard: the line ends, the fields, and which events are dispatched.
use Prim.Native.String as NativeString
use Prim.Native.Char.{Char, code}
use hookwatch.Api.Sse.{after, newline, unlines}
use hookwatch.Hub.{Event}
use hookwatch.Prelude.{
  All, Bool, Bool-cases, List, Option, String, [], ap, arith, cons_first, cut, cut_prefix, eq_iff,
  false, if◌then◌else◌, inl, inr, nat_eq, none, not, or_else, refl, some, split, string_eq, sym,
  true, ℕ, ◌&&◌, ◌++◌, ◌==◌, ◌∙◌, ◌∷◌, ◌≡◌, ◌≢◌,
}
use text.Mathlib.TextEquality.{Char-path}

-- A field's value, without one space at its beginning.
abbrev unspaced : String → String
unspaced v = or_else (cut_prefix " " v) v

-- The identifier, the type and the data that have been read so far.
pub record Reading : Type 0 where
  pub id : String
  pub type : String
  pub lines : List String

-- An identifier with a NUL is ignored.
abbrev pub has_no_nul : String → Bool
has_no_nul NativeString.[] = true
has_no_nul (NativeString.◌∷◌ c s) = not (code c == 0) && has_no_nul s

abbrev set_field : String → String → Reading → Reading
set_field name v r =
    if name == "data"
    then record r { lines = r.lines ++ v ∷ [] }
    else if name == "event"
    then record r { type = v }
    else if name == "id" && has_no_nul v
    then record r { id = v }
    else r

-- The name of a field is what stands before the first colon, and the whole line where there is none. A
-- line that is none of the three fields, as a comment is, is ignored.
unfoldable pub read_field : String → Reading → Reading
unfolding cut cut_prefix
read_field line r = elim (cut b':' line) [
  | none ↦ set_field line "" r
  | some (name, v) ↦ set_field name (unspaced v) r
]

unfoldable pub join_lines : List String → String
join_lines [] = ""
join_lines (line ∷ []) = line
join_lines (line ∷ next ∷ lines) = after line (NativeString.◌∷◌ "\n" (join_lines (next ∷ lines)))

unfoldable pub read_lines : List String → Reading → Option Reading
read_lines [] r = none
read_lines (line ∷ lines) r = if line == "" then some r else read_lines lines (read_field line r)

-- An event without data is not dispatched, and one without a type is a "message".
unfoldable pub event_read : Option Reading → Option Event
unfolding join_lines
event_read none = none
event_read (some r) = elim r.lines [
  | [] ↦ none
  | line ∷ lines ↦ some (record {
    id = r.id;
    type = if r.type == "" then "message" else r.type;
    payload = join_lines (line ∷ lines);
  })
]

abbrev pub carriage_return : ℕ
carriage_return = 13

abbrev starts_line : String → Bool
starts_line NativeString.[] = false
starts_line (NativeString.◌∷◌ c s) = code c == newline

-- A line ends at LF, at CR LF, and at CR alone: all of them as LF.
unfoldable pub with_newlines : String → String
with_newlines NativeString.[] = NativeString.[]
with_newlines (NativeString.◌∷◌ c s) =
    let rest = with_newlines s in
    if code c == carriage_return
    then if starts_line s then rest else NativeString.◌∷◌ "\n" rest
    else NativeString.◌∷◌ c rest

-- What the first empty line of a stream dispatches, if it does.
unfoldable pub read_sse_event : String → Option Event
unfolding event_read read_lines with_newlines
read_sse_event stream =
    event_read (
      read_lines (split newline (with_newlines stream)) (record { id = ""; type = ""; lines = [] }))

-- No character of a text is CR.
abbrev pub has_no_return : String → Bool
has_no_return NativeString.[] = true
has_no_return (NativeString.◌∷◌ c s) = not (code c == carriage_return) && has_no_return s

-- No character of a text ends a line.
abbrev pub is_line : String → Bool
is_line NativeString.[] = true
is_line (NativeString.◌∷◌ c s) =
    not (code c == newline) && not (code c == carriage_return) && is_line s

with_newlines-line :
    (line s : String)
    → is_line line ≡ true
    → with_newlines (after line (NativeString.◌∷◌ "\n" s))
      ≡ after line (NativeString.◌∷◌ "\n" (with_newlines s))
unfolding with_newlines after
with_newlines-line NativeString.[] s h = refl
with_newlines-line (NativeString.◌∷◌ c l) s h =
    let no : (code c == carriage_return) ≡ false = ground (arith, h) in
    rw no (ap (λ t. NativeString.◌∷◌ c t) (with_newlines-line l s (ground (arith, h))))

pub with_newlines-unlines :
    (lines : List String)
    → All (λ l. is_line l ≡ true) lines
    → with_newlines (unlines lines) ≡ unlines lines
unfolding unlines with_newlines
with_newlines-unlines [] h = refl
with_newlines-unlines (l ∷ ls) h =
    with_newlines-line l (unlines ls) h.0
    ∙ ap (λ t. after l (NativeString.◌∷◌ "\n" t)) (with_newlines-unlines ls h.1)

split-line :
    (line s : String)
    → is_line line ≡ true
    → split newline (after line (NativeString.◌∷◌ "\n" s)) ≡ line ∷ split newline s
unfolding split after cons_first
split-line NativeString.[] s h = refl
split-line (NativeString.◌∷◌ c l) s h =
    let rest = split-line l s (ground (arith, h)) in
    let no : (code c == newline) ≡ false = ground (arith, h) in rw (no, rest) refl

pub split-unlines :
    (lines : List String)
    → All (λ l. is_line l ≡ true) lines
    → split newline (unlines lines) ≡ lines ++ "" ∷ []
unfolding unlines split
split-unlines [] h = refl
split-unlines (l ∷ ls) h =
    split-line l (unlines ls) h.0 ∙ ap (λ rest. l ∷ rest) (split-unlines ls h.1)

cons_first-lines :
    (c : Char) (ls : List String)
    → (code c == newline) ≡ false
    → (code c == carriage_return) ≡ false
    → All (λ l. is_line l ≡ true) ls
    → All (λ l. is_line l ≡ true) (cons_first c ls)
unfolding cons_first
cons_first-lines c [] n m h = (rw (n, m) refl, tt)
cons_first-lines c (l ∷ ls) n m h = (rw (n, m) h.0, h.1)

pub split-lines :
    (s : String) → has_no_return s ≡ true → All (λ l. is_line l ≡ true) (split newline s)
unfolding split
split-lines NativeString.[] h = (refl, tt)
split-lines (NativeString.◌∷◌ c s) h =
    let rest = split-lines s (ground (arith, h)) in
    elim (Bool-cases (code c == newline)) [
      | inl e ↦ rw e (refl, rest)
      | inr e ↦ rw e (cons_first-lines c (split newline s) e (ground (arith, h)) rest)
    ]

abbrev is_nil : String → Bool
is_nil NativeString.[] = true
is_nil (NativeString.◌∷◌ c s) = false

pub cons_not_empty : (c : Char) (s : String) → (NativeString.◌∷◌ c s == "") ≡ false
cons_not_empty c s = elim (Bool-cases (NativeString.◌∷◌ c s == "")) [
  | inl e ↦ ground (arith, ap is_nil ((eq_iff (NativeString.◌∷◌ c s) "").0 e))
  | inr e ↦ e
]

abbrev is_empty : List String → Bool
is_empty [] = true
is_empty (l ∷ ls) = false

cons_first_full : (c : Char) (ls : List String) → is_empty (cons_first c ls) ≡ false
unfolding cons_first
cons_first_full c [] = refl
cons_first_full c (l ∷ ls) = refl

split_full : (s : String) → is_empty (split newline s) ≡ false
unfolding split
split_full NativeString.[] = refl
split_full (NativeString.◌∷◌ c s) = elim (Bool-cases (code c == newline)) [
  | inl e ↦ rw e refl
  | inr e ↦ rw e (cons_first_full c (split newline s))
]

join_first :
    (c : Char) (ls : List String)
    → ls ≢ []
    → join_lines (cons_first c ls) ≡ NativeString.◌∷◌ c (join_lines ls)
unfolding join_lines cons_first after
join_first c [] n = absurd (n refl)
join_first c (l ∷ []) n = refl
join_first c (l ∷ m ∷ ls) n = refl

join_next :
    (ls : List String) → ls ≢ [] → join_lines ("" ∷ ls) ≡ NativeString.◌∷◌ "\n" (join_lines ls)
unfolding join_lines after
join_next [] n = absurd (n refl)
join_next (l ∷ ls) n = refl

pub split-nonempty : (s : String) → split newline s ≢ []
split-nonempty s e = ground (arith, ap is_empty e, split_full s)

is_newline : (c : Char) → (code c == newline) ≡ true → c ≡ "\n"
is_newline c e = Char-path c "\n" (ground (arith, e))

pub join_lines-split : (s : String) → join_lines (split newline s) ≡ s
unfolding split join_lines
join_lines-split NativeString.[] = refl
join_lines-split (NativeString.◌∷◌ c s) = elim (Bool-cases (code c == newline)) [
  | inl e ↦ rw e (
      join_next (split newline s) (split-nonempty s)
      ∙ ap (λ t. NativeString.◌∷◌ "\n" t) (join_lines-split s)
      ∙ ap (λ d. NativeString.◌∷◌ d s) (sym (is_newline c e)))
  | inr e ↦ rw e (
      join_first c (split newline s) (split-nonempty s)
      ∙ ap (λ t. NativeString.◌∷◌ c t) (join_lines-split s))
]

pub read-data :
    (v : String) (r : Reading)
    → read_field (after "data: " v) r ≡ record r { lines = r.lines ++ v ∷ [] }
unfolding read_field after cut cut_prefix
read-data v r = refl

pub read-id :
    (v : String) (r : Reading)
    → has_no_nul v ≡ true
    → read_field (after "id: " v) r ≡ record r { id = v }
unfolding read_field after cut cut_prefix
read-id v r h = rw h refl

pub read-type :
    (v : String) (r : Reading) → read_field (after "event: " v) r ≡ record r { type = v }
unfolding read_field after cut cut_prefix
read-type v r = refl
