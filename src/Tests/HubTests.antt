-- ===== src/Tests/HubTests.antt =====
-- internal/hub at a concrete input.
use hookwatch.Hub.{
  Event, Hub, buffer_of, hub_run, new, publish, publishes, subscribe, subscribers_of, subscribes,
  unsubscribe, unsubscribes,
}
use hookwatch.Hub.Changes.{subscribers_of-subscribe}
use hookwatch.Hub.Delivery.{has, made, publish-buffer_of}
use hookwatch.Hub.Subscribers.{IsWellFormed, hub_run-IsWellFormed}
use hookwatch.Prelude.{
  [], arith, if◌then◌else◌, length, ltb, nat_eq, not, refl, select, string_eq, ◌&&◌, ◌++◌, ◌==◌,
  ◌∷◌, ◌≡◌,
}

abbrev created : Event
created = record { id = "1"; type = "request.created"; payload = "{}" }

-- A hub with one channel, subscribed to one token.
abbrev one_subscriber : Hub
one_subscriber = record {
  subscribers = ("hook", 0 ∷ []) ∷ [];
  channels = (record { number = 0; buffer = [] }) ∷ [];
  next = 1;
}

one_subscriber-IsWellFormed : IsWellFormed one_subscriber
one_subscriber-IsWellFormed = record {
  keys = (refl, tt);
  sets = (((refl, tt), (λ e. cc), (omega arith, tt)), tt);
  bounded = ((omega arith, omega arith), tt);
}

publish-buffer_of_example : buffer_of 0 (publish "hook" created one_subscriber).channels ≡ (
    if has 0 (subscribers_of "hook" one_subscriber.subscribers)
      && ltb (length (buffer_of 0 one_subscriber.channels)) 64
    then buffer_of 0 one_subscriber.channels ++ created ∷ []
    else buffer_of 0 one_subscriber.channels)
unfolding subscribers_of made
publish-buffer_of_example = publish-buffer_of "hook" created one_subscriber 0 (refl, tt) refl

hub_run-IsWellFormed_example :
    IsWellFormed
      (hub_run (subscribes "hook" ∷ publishes "hook" created ∷ unsubscribes "hook" 0 ∷ []) new)
hub_run-IsWellFormed_example =
    hub_run-IsWellFormed (subscribes "hook" ∷ publishes "hook" created ∷ unsubscribes "hook" 0 ∷ [])

subscribers_of-subscribe_example :
    (subscribers_of "hook" (subscribe "hook" one_subscriber).1.subscribers
      ≡ 1 ∷ subscribers_of "hook" one_subscriber.subscribers)
    × (subscribers_of "hook" (unsubscribe "hook" 0 one_subscriber).subscribers
        ≡ select (λ c. not (c == 0)) (subscribers_of "hook" one_subscriber.subscribers))
subscribers_of-subscribe_example =
    subscribers_of-subscribe one_subscriber "hook" "hook" 0 one_subscriber-IsWellFormed
