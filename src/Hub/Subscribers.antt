-- ===== src/Hub/Subscribers.antt =====
-- internal/hub/hub.go: the invariant of the maps and the channels.
use hookwatch.Hub.{
  Channel, Event, Hub, HubStep, add_subscriber, buffer_size, hub_run, hub_step, keep_entry, new,
  offered, publish, publishes, receive, receives, remove_subscriber, send, send_all, sends,
  subscribe, subscribers_of, subscribes, unsubscribe, unsubscribes,
}
use hookwatch.Hub.Delivery.{Distinct, has}
use hookwatch.Prelude.{
  All, All-map, All-select, All-update_where, Bool, Bool-cases, List, String, [], any, arith, drop,
  eq_iff, false, inl, inr, length, length-append, ltb, nat_eq, not, refl, select, string_eq, tests,
  update_where, ℕ, ◌+◌, ◌<◌, ◌==◌, ◌∷◌, ◌≡◌, ◌≢◌, ◌≤◌,
}

abbrev pub has_key : String → List (String × List ℕ) → Bool
has_key token m = any (λ e. e.0 == token) m

abbrev pub DistinctKeys : List (String × List ℕ) → Type 0
DistinctKeys [] = Unit
DistinctKeys ((t, chs) ∷ m) = (has_key t m ≡ false) × DistinctKeys m

-- A set in the map is a set, is not empty, and holds channels that were made.
abbrev pub GoodSet : ℕ → String × List ℕ → Type 0
GoodSet next (t, chs) = Distinct chs × (chs ≢ []) × All (λ c. c < next) chs

pub record IsWellFormed (h : Hub) : Type 0 where
  pub keys : DistinctKeys h.subscribers
  pub sets : All (GoodSet h.next) h.subscribers
  pub bounded : All (λ c. (length c.buffer ≤ buffer_size) × (c.number < h.next)) h.channels

fresh : (n : ℕ) (chs : List ℕ) → All (λ c. c < n) chs → has n chs ≡ false
fresh n [] h = refl
fresh n (c ∷ chs) h = ground (arith, fresh n chs h.1)

GoodSet-suc : (n : ℕ) (e : String × List ℕ) → GoodSet n e → GoodSet (n + 1) e
GoodSet-suc n (t, chs) h = (h.0, h.1, All-map _ _ (λ c l. omega arith) chs h.2)

add-keys :
    (k token : String) (ch : ℕ) (m : List (String × List ℕ))
    → has_key k m ≡ false
    → token == k ≡ false
    → has_key k (add_subscriber token ch m) ≡ false
unfolding add_subscriber
add-keys k token ch [] h n = ground arith
add-keys k token ch ((t, chs) ∷ m) h n = elim (Bool-cases (t == token)) [
  | inl e ↦ rw e h
  | inr e ↦ rw e (ground (arith, add-keys k token ch m))
]

add-DistinctKeys :
    (token : String) (ch : ℕ) (m : List (String × List ℕ))
    → DistinctKeys m
    → DistinctKeys (add_subscriber token ch m)
unfolding add_subscriber
add-DistinctKeys token ch [] h = (refl, tt)
add-DistinctKeys token ch ((t, chs) ∷ m) h = elim (Bool-cases (t == token)) [
  | inl e ↦ rw e h
  | inr e ↦ rw e (
    add-keys t token ch m h.0 (ground (arith, eq_iff t token, eq_iff token t)),
    add-DistinctKeys token ch m h.1,
  )
]

add-sets :
    (token : String) (n : ℕ) (m : List (String × List ℕ))
    → All (GoodSet n) m
    → All (GoodSet (n + 1)) (add_subscriber token n m)
unfolding add_subscriber
add-sets token n [] h = (((refl, tt), (λ e. cc), (omega arith, tt)), tt)
add-sets token n ((t, chs) ∷ m) h = elim (Bool-cases (t == token)) [
  | inl e ↦ rw e (
    (
      (fresh n chs h.0.2, h.0.0),
      (λ q. cc),
      (omega arith, All-map _ _ (λ c l. omega arith) chs h.0.2),
    ),
    All-map _ _ (GoodSet-suc n) m h.1,
  )
  | inr e ↦ rw e (GoodSet-suc n (t, chs) h.0, add-sets token n m h.1)
]

subscribe-IsWellFormed :
    (token : String) (h : Hub) → IsWellFormed h → IsWellFormed (subscribe token h).1
unfolding subscribe
subscribe-IsWellFormed token h v = record {
  keys = add-DistinctKeys token h.next h.subscribers v.keys;
  sets = add-sets token h.next h.subscribers v.sets;
  bounded = (
    (omega arith, omega arith),
    All-map _ _ (λ c b. (b.0, omega (arith, b.1))) h.channels v.bounded,
  );
}

has-select :
    (p : ℕ → Bool) (c : ℕ) (chs : List ℕ) → has c chs ≡ false → has c (select p chs) ≡ false
has-select p c [] h = refl
has-select p c (x ∷ chs) h = ground (arith, has-select p c chs)

Distinct-select : (p : ℕ → Bool) (chs : List ℕ) → Distinct chs → Distinct (select p chs)
Distinct-select p [] h = tt
Distinct-select p (x ∷ chs) h = elim (Bool-cases (p x)) [
  | inl e ↦ rw e (has-select p x chs h.0, Distinct-select p chs h.1)
  | inr e ↦ rw e (Distinct-select p chs h.1)
]

keep-keys :
    (k t : String) (chs : List ℕ) (m : List (String × List ℕ))
    → t == k ≡ false
    → has_key k m ≡ false
    → has_key k (keep_entry t chs m) ≡ false
unfolding keep_entry
keep-keys k t [] m n h = h
keep-keys k t (c ∷ chs) m n h = ground arith

keep-DistinctKeys :
    (t : String) (chs : List ℕ) (m : List (String × List ℕ))
    → has_key t m ≡ false
    → DistinctKeys m
    → DistinctKeys (keep_entry t chs m)
unfolding keep_entry
keep-DistinctKeys t [] m n h = h
keep-DistinctKeys t (c ∷ chs) m n h = (n, h)

keep-sets :
    (n : ℕ) (t : String) (chs : List ℕ) (m : List (String × List ℕ))
    → Distinct chs
    → All (λ c. c < n) chs
    → All (GoodSet n) m
    → All (GoodSet n) (keep_entry t chs m)
unfolding keep_entry
keep-sets n t [] m d l h = h
keep-sets n t (c ∷ chs) m d l h = ((d, (λ q. cc), l), h)

remove-keys :
    (k token : String) (ch : ℕ) (m : List (String × List ℕ))
    → has_key k m ≡ false
    → has_key k (remove_subscriber token ch m) ≡ false
unfolding remove_subscriber
remove-keys k token ch [] h = refl
remove-keys k token ch ((t, chs) ∷ m) h = elim (Bool-cases (t == token)) [
  | inl e ↦ rw e (keep-keys k t (select (λ c. not (c == ch)) chs) m (ground arith) (ground arith))
  | inr e ↦ rw e (ground (arith, remove-keys k token ch m))
]

remove-DistinctKeys :
    (token : String) (ch : ℕ) (m : List (String × List ℕ))
    → DistinctKeys m
    → DistinctKeys (remove_subscriber token ch m)
unfolding remove_subscriber
remove-DistinctKeys token ch [] h = tt
remove-DistinctKeys token ch ((t, chs) ∷ m) h = elim (Bool-cases (t == token)) [
  | inl e ↦ rw e (keep-DistinctKeys t _ m h.0 h.1)
  | inr e ↦ rw e (remove-keys t token ch m h.0, remove-DistinctKeys token ch m h.1)
]

remove-sets :
    (n : ℕ) (token : String) (ch : ℕ) (m : List (String × List ℕ))
    → All (GoodSet n) m
    → All (GoodSet n) (remove_subscriber token ch m)
unfolding remove_subscriber
remove-sets n token ch [] h = tt
remove-sets n token ch ((t, chs) ∷ m) h = elim (Bool-cases (t == token)) [
  | inl e ↦ rw e (keep-sets n t _ m (Distinct-select _ chs h.0.0) (All-select _ _ chs h.0.2) h.1)
  | inr e ↦ rw e (h.0, remove-sets n token ch m h.1)
]

-- The bound on one channel.
abbrev GoodChannel : ℕ → Channel → Type 0
GoodChannel next c = (length c.buffer ≤ buffer_size) × (c.number < next)

offered-GoodChannel :
    (n : ℕ) (event : Event) (c : Channel) → GoodChannel n c → GoodChannel n (offered event c)
unfolding offered
offered-GoodChannel n event c h = elim (Bool-cases (ltb (length c.buffer) buffer_size)) [
  | inl e ↦ rw e (omega (tests, length-append c.buffer (event ∷ []), e), h.1)
  | inr e ↦ rw e h
]

send_all-bounded :
    (n : ℕ) (chs : List ℕ) (event : Event) (cs : List Channel)
    → All (GoodChannel n) cs
    → All (GoodChannel n) (send_all chs event cs)
unfolding send_all send
send_all-bounded n [] event cs h = h
send_all-bounded n (ch ∷ chs) event cs h =
    send_all-bounded n chs event (update_where (λ c. c.number == ch) (offered event) cs) (
      All-update_where (GoodChannel n) _ (offered event) cs (λ c m. offered-GoodChannel n event c)
        h)

length-drop_one : (b : List Event) → length (drop 1 b) ≤ length b
length-drop_one [] = omega arith
length-drop_one (x ∷ b) = omega arith

hub_step-IsWellFormed : (s : HubStep) (h : Hub) → IsWellFormed h → IsWellFormed (hub_step s h)
unfolding hub_step unsubscribe publish receive
hub_step-IsWellFormed (subscribes token) h v = subscribe-IsWellFormed token h v
hub_step-IsWellFormed (unsubscribes token ch) h v = record {
  keys = remove-DistinctKeys token ch h.subscribers v.keys;
  sets = remove-sets h.next token ch h.subscribers v.sets;
  bounded = v.bounded;
}
hub_step-IsWellFormed (publishes token event) h v = record {
  keys = v.keys;
  sets = v.sets;
  bounded = send_all-bounded h.next (subscribers_of token h.subscribers) event h.channels v.bounded;
}
hub_step-IsWellFormed (sends ch event) h v = record {
  keys = v.keys;
  sets = v.sets;
  bounded = send_all-bounded h.next (ch ∷ []) event h.channels v.bounded;
}
hub_step-IsWellFormed (receives ch) h v = record {
  keys = v.keys;
  sets = v.sets;
  bounded =
      All-update_where (GoodChannel h.next) _ (λ c. record c { buffer = drop 1 c.buffer })
        h.channels (λ c m b. (omega (arith, b.0, length-drop_one c.buffer), b.1)) v.bounded;
}

hub_run-keeps : (ss : List HubStep) (h : Hub) → IsWellFormed h → IsWellFormed (hub_run ss h)
unfolding hub_run
hub_run-keeps [] h v = v
hub_run-keeps (s ∷ ss) h v = hub_run-keeps ss (hub_step s h) (hub_step-IsWellFormed s h v)

-- Whatever the handlers do with a new hub, in any order, also where the sends of a publication are
-- spread over other steps: each token has one entry, which is a set
-- without repetition, never empty and of channels that were made, and no channel holds more than
-- 64 events.
pub hub_run-IsWellFormed : (ss : List HubStep) → IsWellFormed (hub_run ss new)
unfolding new
hub_run-IsWellFormed ss = hub_run-keeps ss new (record { keys = tt; sets = tt; bounded = tt })
