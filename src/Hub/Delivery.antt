-- ===== src/Hub/Delivery.antt =====
-- internal/hub/hub.go: who gets an event, and how the sets of subscribers behave.
use hookwatch.Hub.{
  Channel, Event, Hub, buffer_of, buffer_size, publish, send, send_all, subscribers_of,
}
use hookwatch.Prelude.{
  Bool, Bool-cases, List, String, [], any, ap, arith, false, if◌then◌else◌, inl, inr, length, ltb,
  nat_beq_iff, nat_eq, refl, string_eq, subst, true, ℕ, ◌&&◌, ◌++◌, ◌==◌, ◌||◌, ◌∙◌, ◌∷◌, ◌≡◌,
}

abbrev pub has : ℕ → List ℕ → Bool
has ch chs = any (λ c. c == ch) chs

-- The keys of a Go map, and of a set, are distinct.
abbrev pub Distinct : List ℕ → Type 0
Distinct [] = Unit
Distinct (c ∷ cs) = (has c cs ≡ false) × Distinct cs

-- What one send does to the buffer of a channel.
abbrev pub received : Bool → Event → List Event → List Event
received sent event buffer =
    if sent && ltb (length buffer) buffer_size then buffer ++ event ∷ [] else buffer

unfoldable pub made : ℕ → List Channel → Bool
made ch = any (λ c. c.number == ch)

send-buffer_of :
    (ch k : ℕ) (event : Event) (cs : List Channel)
    → made k cs ≡ true
    → buffer_of k (send ch event cs) ≡ received (ch == k) event (buffer_of k cs)
unfolding send made buffer_of
send-buffer_of ch k event [] m = cc
send-buffer_of ch k event (c ∷ cs) m = ground (arith, send-buffer_of ch k event cs)

made-send : (ch k : ℕ) (event : Event) (cs : List Channel) → made k (send ch event cs) ≡ made k cs
unfolding send made
made-send ch k event [] = refl
made-send ch k event (c ∷ cs) = ground (arith, made-send ch k event cs)

received_once :
    (c k : ℕ) (cs : List ℕ) (event : Event) (b : List Event)
    → has c cs ≡ false
    → received (has k cs) event (received (c == k) event b) ≡ received (c == k || has k cs) event b
received_once c k cs event b d = elim (Bool-cases (c == k)) [
  | inl e ↦
      let same : c ≡ k = (nat_beq_iff c k).0 e in
      let gone : has k cs ≡ false = subst (λ x. has x cs ≡ false) same d in rw (e, gone)
  | inr e ↦ rw e
]

send_all-buffer_of :
    (chs : List ℕ) (k : ℕ) (event : Event) (cs : List Channel)
    → Distinct chs
    → made k cs ≡ true
    → buffer_of k (send_all chs event cs) ≡ received (has k chs) event (buffer_of k cs)
unfolding send_all
send_all-buffer_of [] k event cs d m = refl
send_all-buffer_of (ch ∷ chs) k event cs d m =
    send_all-buffer_of chs k event (send ch event cs) d.1 (made-send ch k event cs ∙ m)
    ∙ ap (received (has k chs) event) (send-buffer_of ch k event cs m)
    ∙ received_once ch k chs event (buffer_of k cs) d.0

-- An event goes, once, to exactly the channels that are subscribed to its token and have room, at
-- the end of what they hold; every other channel keeps what it holds.
pub publish-buffer_of :
    (token : String) (event : Event) (h : Hub) (k : ℕ)
    → Distinct (subscribers_of token h.subscribers)
    → made k h.channels ≡ true
    → buffer_of k (publish token event h).channels ≡ (
        if has k (subscribers_of token h.subscribers) && ltb (length (buffer_of k h.channels)) 64
        then buffer_of k h.channels ++ event ∷ []
        else buffer_of k h.channels)
unfolding publish
publish-buffer_of token event h k d m =
    send_all-buffer_of (subscribers_of token h.subscribers) k event h.channels d m
