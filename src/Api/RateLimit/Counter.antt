-- ===== src/Api/RateLimit/Counter.antt =====
-- internal/store/rate_limits.go: the counters that the middleware reads.
use hookwatch.Api.RateLimit.{counted, window_start_of}
use hookwatch.Models.{Time}
use hookwatch.Prelude.{
  Bool-cases, List, String, [], arith, eq_iff, false, if◌then◌else◌, inl, inr, leb_ℤ, ltb_ℤ, nat_eq,
  ok, pos, refl, string_eq, suc, sym, true, ℕ, ℤ, ◌&&◌, ◌+◌, ◌==◌, ◌∙◌, ◌∷◌, ◌≡◌,
}
use hookwatch.Store.Db.{Db, RateLimit, format_time}
use hookwatch.Store.RateLimits.{increment, is_window, stored_count}

window-congruent :
    (ip id ip' id' : String) (w w' : Time) (r : RateLimit)
    → is_window ip' id' w' r ≡ true
    → is_window ip id w r ≡ (ip' == ip && id' == id && w' == w)
window-congruent ip id ip' id' w w' r e = grind (arith, e, eq_iff r.ip ip', eq_iff r.token_id id')

window-distinct :
    (ip id ip' id' : String) (w w' : Time) (r : RateLimit)
    → is_window ip' id' w' r ≡ false
    → is_window ip id w r ≡ true
    → (ip' == ip && id' == id && w' == w) ≡ false
window-distinct ip id ip' id' w w' r e f =
    grind (arith, e, f, eq_iff r.ip ip, eq_iff r.token_id id, eq_iff ip' ip, eq_iff id' id)

-- The counter of a caller after one more hit on it, or on another.
pub stored_count-increment :
    (ip id ip' id' : String) (w w' : Time) (rs : List RateLimit)
    → stored_count ip id w (increment ip' id' w' rs)
      ≡ stored_count ip id w rs + (if ip' == ip && id' == id && w' == w then 1 else 0)
unfolding stored_count increment
stored_count-increment ip id ip' id' w w' [] = ground arith
stored_count-increment ip id ip' id' w w' (r ∷ rs) = elim (Bool-cases (is_window ip' id' w' r)) [
  | inl e ↦ rw (e, sym (window-congruent ip id ip' id' w w' r e)) (ground arith)
  | inr e ↦ elim (Bool-cases (is_window ip id w r)) [
    | inl f ↦ rw e (ground (arith, f, window-distinct ip id ip' id' w w' r e f))
    | inr f ↦ rw e (ground (arith, f, stored_count-increment ip id ip' id' w w' rs))
  ]
]

pub window-whole : (t : Time) → format_time (window_start_of t) ≡ window_start_of t
unfolding format_time window_start_of
window-whole t = omega arith

pub counted-db :
    (limit : ℤ) (window : Time) (n : ℕ) (db : Db) → (counted limit window (ok n, db)).1 ≡ db
unfolding counted
counted-db limit window n db = elim (Bool-cases (ltb_ℤ limit (pos n))) [
  | inl e ↦ rw e refl
  | inr e ↦ rw e refl
]

pub positive-leb_ℤ : (n : ℕ) → leb_ℤ (pos (suc n)) (pos 0) ≡ false
positive-leb_ℤ n = ground arith

pub own-increment :
    (ip id : String) (window : Time) (rs : List RateLimit)
    → stored_count ip id window (increment ip id window rs) ≡ stored_count ip id window rs + 1
own-increment ip id window rs =
    stored_count-increment ip id ip id window window rs
    ∙ (rw ((eq_iff ip ip).1 refl, (eq_iff id id).1 refl) (ground arith))
