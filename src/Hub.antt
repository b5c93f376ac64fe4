-- ===== src/Hub.antt =====
-- internal/hub/hub.go: the subscribers of each token and their buffered channels.
-- Go's channels are allocated objects, so they are numbered here; a map is a list of keyed entries.
pub mod Delivery
pub mod Subscribers
pub mod Changes
use hookwatch.Prelude.{
  List, String, [], drop, if◌then◌else◌, length, ltb, nat_eq, not, select, string_eq, update_where,
  ℕ, ◌++◌, ◌+◌, ◌==◌, ◌∷◌,
}

pub record Event : Type 0 where
  pub id : String
  pub type : String
  pub payload : String

pub record Channel : Type 0 where
  pub number : ℕ
  pub buffer : List Event

pub record Hub : Type 0 where
  pub subscribers : List (String × List ℕ)
  pub channels : List Channel
  pub next : ℕ

-- make(chan Event, 64)
abbrev pub buffer_size : ℕ
buffer_size = 64

pub new : Hub
new = record { subscribers = []; channels = []; next = 0 }

-- h.subscribers[tokenID], where a missing entry is an empty set.
unfoldable pub subscribers_of : String → List (String × List ℕ) → List ℕ
subscribers_of token [] = []
subscribers_of token ((t, chs) ∷ rest) = if t == token then chs else subscribers_of token rest

add_subscriber : String → ℕ → List (String × List ℕ) → List (String × List ℕ)
add_subscriber token ch [] = (token, ch ∷ []) ∷ []
add_subscriber token ch ((t, chs) ∷ rest) =
    if t == token then (t, ch ∷ chs) ∷ rest else (t, chs) ∷ add_subscriber token ch rest

-- The new channel is empty, and stands in the set of the token.
unfoldable pub subscribe : String → Hub → ℕ × Hub
unfolding add_subscriber
subscribe token h = (
  h.next,
  record h {
    subscribers = add_subscriber token h.next h.subscribers;
    channels = (record { number = h.next; buffer = [] }) ∷ h.channels;
    next = h.next + 1;
  },
)

-- An entry whose set has become empty is deleted.
keep_entry : String → List ℕ → List (String × List ℕ) → List (String × List ℕ)
keep_entry t [] rest = rest
keep_entry t (ch ∷ chs) rest = (t, ch ∷ chs) ∷ rest

remove_subscriber : String → ℕ → List (String × List ℕ) → List (String × List ℕ)
unfolding keep_entry
remove_subscriber token ch [] = []
remove_subscriber token ch ((t, chs) ∷ rest) =
    if t == token
    then keep_entry t (select (λ c. not (c == ch)) chs) rest
    else (t, chs) ∷ remove_subscriber token ch rest

unfoldable pub unsubscribe : String → ℕ → Hub → Hub
unfolding remove_subscriber
unsubscribe token ch h = record h { subscribers = remove_subscriber token ch h.subscribers }

-- A send that would block is dropped.
offered : Event → Channel → Channel
offered event c =
    if ltb (length c.buffer) buffer_size then record c { buffer = c.buffer ++ event ∷ [] } else c

-- select { case ch <- event: default: }
send : ℕ → Event → List Channel → List Channel
unfolding offered
send ch event = update_where (λ c. c.number == ch) (offered event)

-- The loop over the channels that were copied under the lock.
unfoldable pub send_all : List ℕ → Event → List Channel → List Channel
unfolding send
send_all [] event channels = channels
send_all (ch ∷ chs) event channels = send_all chs event (send ch event channels)

-- Publish where no other call comes between the copy of the channels, which holds the lock, and the
-- sends, which do not.
unfoldable pub publish : String → Event → Hub → Hub
unfolding send_all subscribers_of
publish token event h = record h {
  channels = send_all (subscribers_of token h.subscribers) event h.channels;
}

-- What a channel holds; a channel that was never made holds nothing.
unfoldable pub buffer_of : ℕ → List Channel → List Event
buffer_of ch [] = []
buffer_of ch (c ∷ cs) = if c.number == ch then c.buffer else buffer_of ch cs

-- event := <-ch, in the loop of `stream`.
receive : ℕ → List Channel → List Channel
receive ch = update_where (λ c. c.number == ch) (λ c. record c { buffer = drop 1 c.buffer })

-- What the handlers do with the hub, one step at a time. `sends` is one send of a Publish that copied
-- the channels earlier: other steps may come in between, so the channel may be any one.
pub data HubStep : Type 0 where
  subscribes : String → HubStep
  unsubscribes : String → ℕ → HubStep
  publishes : String → Event → HubStep
  sends : ℕ → Event → HubStep
  receives : ℕ → HubStep

pub hub_step : HubStep → Hub → Hub
unfolding receive
hub_step (subscribes token) h = (subscribe token h).1
hub_step (unsubscribes token ch) h = unsubscribe token ch h
hub_step (publishes token event) h = publish token event h
hub_step (sends ch event) h = record h { channels = send_all (ch ∷ []) event h.channels }
hub_step (receives ch) h = record h { channels = receive ch h.channels }

pub hub_run : List HubStep → Hub → Hub
hub_run [] h = h
hub_run (s ∷ ss) h = hub_run ss (hub_step s h)
