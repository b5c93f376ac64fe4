-- ===== src/Hub/Changes.antt =====
-- internal/hub/hub.go: what subscribing and unsubscribing change.
use hookwatch.Hub.{
  Hub, add_subscriber, keep_entry, remove_subscriber, subscribe, subscribers_of, unsubscribe,
}
use hookwatch.Hub.Subscribers.{DistinctKeys, IsWellFormed, has_key}
use hookwatch.Prelude.{
  Bool-cases, List, String, [], arith, eq_iff, false, if◌then◌else◌, inl, inr, nat_eq, not, refl,
  select, string_eq, subst, ℕ, ◌==◌, ◌∷◌, ◌≡◌,
}

subscribers_of-add :
    (token other : String) (ch : ℕ) (m : List (String × List ℕ))
    → subscribers_of other (add_subscriber token ch m)
      ≡ (if token == other then ch ∷ subscribers_of other m else subscribers_of other m)
unfolding subscribers_of add_subscriber
subscribers_of-add token other ch [] = refl
subscribers_of-add token other ch ((t, chs) ∷ m) =
    ground (
      arith,
      eq_iff t token,
      eq_iff t other,
      eq_iff token other,
      subscribers_of-add token other ch m,
    )

no_entry : (k : String) (m : List (String × List ℕ)) → has_key k m ≡ false → subscribers_of k m ≡ []
unfolding subscribers_of
no_entry k [] h = refl
no_entry k ((t, chs) ∷ m) h = ground (arith, no_entry k m)

subscribers_of-keep :
    (t other : String) (chs : List ℕ) (m : List (String × List ℕ))
    → has_key t m ≡ false
    → subscribers_of other (keep_entry t chs m)
      ≡ (if t == other then chs else subscribers_of other m)
unfolding subscribers_of keep_entry
subscribers_of-keep t other [] m h = elim (Bool-cases (t == other)) [
  | inl e ↦ rw e (no_entry other m (subst (λ k. has_key k m ≡ false) ((eq_iff t other).0 e) h))
  | inr e ↦ rw e
]
subscribers_of-keep t other (c ∷ chs) m h = refl

subscribers_of-remove :
    (token other : String) (ch : ℕ) (m : List (String × List ℕ))
    → DistinctKeys m
    → subscribers_of other (remove_subscriber token ch m) ≡ (
        if token == other
        then select (λ c. not (c == ch)) (subscribers_of other m)
        else subscribers_of other m)
unfolding subscribers_of remove_subscriber
subscribers_of-remove token other ch [] d = ground arith
subscribers_of-remove token other ch ((t, chs) ∷ m) d = elim (Bool-cases (t == token)) [
  | inl e ↦
      rw (e, subscribers_of-keep t other (select (λ c. not (c == ch)) chs) m d.0)
        (ground (arith, eq_iff t token, eq_iff t other, eq_iff token other))
  | inr e ↦ rw e (
      ground (
        arith,
        eq_iff t token,
        eq_iff t other,
        eq_iff token other,
        subscribers_of-remove token other ch m d.1,
      ))
]

-- Subscribing adds the new channel to the subscribers of its token, unsubscribing takes a channel
-- out of them, and neither changes the subscribers of another token.
pub subscribers_of-subscribe :
    (h : Hub) (token other : String) (ch : ℕ)
    → IsWellFormed h
    → (subscribers_of other (subscribe token h).1.subscribers ≡ (
        if token == other
        then h.next ∷ subscribers_of other h.subscribers
        else subscribers_of other h.subscribers))
      × (subscribers_of other (unsubscribe token ch h).subscribers ≡ (
          if token == other
          then select (λ c. not (c == ch)) (subscribers_of other h.subscribers)
          else subscribers_of other h.subscribers))
unfolding subscribe unsubscribe
subscribers_of-subscribe h token other ch v = (
  subscribers_of-add token other h.next h.subscribers,
  subscribers_of-remove token other ch h.subscribers v.keys,
)
