-- ===== src/Config/Limits/Counters.antt =====
-- The counters of app/security/rate_limit.py: what a request does to the one of a client, a bucket and a
-- window.
use matchmaking_backend.Prelude.{
  ℕ, suc, ◌+◌, ◌≤◌, ◌<◌, ◌==◌, ◌≡◌, refl, ap, ◌∙◌, Bool, true, false, ◌&&◌, not, Option, none, some,
  String, arith, leb, str_eq, eq_iff, ==_sound,
}
use matchmaking_backend.Errors.{Error, Code, is_ok}
use matchmaking_backend.World.{World, raise_if}
use matchmaking_backend.Config.Limits.{
  RateLimit, window_start, live_count, counted, set_count, check_rate,
}

-- A request of a client, while Redis answers.
pub record Attempt : Type 0 where
  pub bucket : String
  pub client : String
  pub now : ℕ

-- Whether a request is the client's, in the bucket and in the window.
unfoldable pub is_counted : String → String → RateLimit → ℕ → Attempt → Bool
is_counted bucket client rl start a =
    str_eq a.bucket bucket
    && str_eq a.client client
    && window_start rl.window_seconds a.now == start

-- What Redis counts, and a counter that lives as long as the window from `start` on.
abbrev pub count : Option (ℕ × ℕ) → ℕ
count none = 0
count (some (n, t)) = n

abbrev pub IsLasting : ℕ → ℕ → Option (ℕ × ℕ) → Type 0
IsLasting start window none = Unit
IsLasting start window (some (n, t)) = start + window ≤ t

raise_if-is_ok : (b : Bool) (e : Error) (w : World) → is_ok (raise_if (not b) e w).0 ≡ b
raise_if-is_ok true e w = refl
raise_if-is_ok false e w = refl

raise_if-counters :
    (b : Bool) (e : Error) (w : World) → (raise_if (not b) e w).1.counters ≡ w.counters
raise_if-counters true e w = refl
raise_if-counters false e w = refl

set_count-other :
    (b k b' k' : String) (s s' : ℕ) (c : ℕ × ℕ) (counters : String → String → ℕ → Option (ℕ × ℕ))
    → (str_eq b b' && str_eq k k' && s == s') ≡ false
    → set_count b k s c counters b' k' s' ≡ counters b' k' s'
set_count-other b k b' k' s s' c counters h = rw h refl

set_count-own :
    (b k b' k' : String) (s s' : ℕ) (c : ℕ × ℕ) (counters : String → String → ℕ → Option (ℕ × ℕ))
    → (str_eq b b' && str_eq k k' && s == s') ≡ true
    → set_count b k s c counters b' k' s' ≡ some c
set_count-own b k b' k' s s' c counters h = rw h refl

same_counter :
    (b k b' k' : String) (s s' : ℕ) (counters : String → String → ℕ → Option (ℕ × ℕ))
    → (str_eq b b' && str_eq k k' && s == s') ≡ true
    → counters b k s ≡ counters b' k' s'
same_counter b k b' k' s s' counters h =
    let eb = (eq_iff b b').0 (ground arith) in
    let ek = (eq_iff k k').0 (ground arith) in
    let es = ==_sound s s' (ground arith) in rw eb (rw ek (rw es refl))

-- A counter that lives as long as the window from `start` on is alive in it.
live_count-IsLasting :
    (window now start : ℕ) (o : Option (ℕ × ℕ))
    → window_start window now ≡ start
    → 0 < window
    → IsLasting start window o
    → live_count now o ≡ o
live_count-IsLasting window now start none e p h = refl
live_count-IsLasting window now start (some (n, t)) e p h = ground arith

pub counted-IsLasting :
    (window now start : ℕ) (o : Option (ℕ × ℕ))
    → window_start window now ≡ start
    → IsLasting start window o
    → IsLasting start window (some (counted now window o))
counted-IsLasting window now start none e h = omega arith
counted-IsLasting window now start (some (n, t)) e h = h

pub counted-count : (now window : ℕ) (o : Option (ℕ × ℕ)) → (counted now window o).0 ≡ suc (count o)
counted-count now window none = refl
counted-count now window (some (n, t)) = refl

module _ (bucket client : String) (start : ℕ) where
  -- A request of another client, or in another bucket or window, leaves the counter alone.
  pub other_check :
      (a : Attempt) (r : RateLimit) (w : World)
      → is_counted bucket client r start a ≡ false
      → (check_rate true r a.client a.bucket a.now w).1.counters bucket client start
        ≡ w.counters bucket client start
  unfolding check_rate is_counted
  other_check a r w h =
      let own = window_start r.window_seconds a.now in
      let c =
        counted a.now r.window_seconds (live_count a.now (w.counters a.bucket a.client own)) in
      ap (λ f. f bucket client start)
        (raise_if-counters (leb c.0 r.limit) (Error.too_many Code.rate_limit_exceeded)
          (record w { counters = set_count a.bucket a.client own c w.counters }))
      ∙ set_count-other a.bucket a.client bucket client own start c w.counters h

  pub own_check :
      (rl : RateLimit) (a : Attempt) (w : World) (o : Option (ℕ × ℕ))
      → w.counters bucket client start ≡ o
      → IsLasting start rl.window_seconds o
      → 0 < rl.window_seconds
      → is_counted bucket client rl start a ≡ true
      → (is_ok (check_rate true rl a.client a.bucket a.now w).0 ≡ leb (suc (count o)) rl.limit)
        × ((check_rate true rl a.client a.bucket a.now w).1.counters bucket client start
            ≡ some (counted a.now rl.window_seconds o))
  unfolding check_rate is_counted
  own_check rl a w o e h p q =
      let own = window_start rl.window_seconds a.now in
      let here = ==_sound own start (ground arith) in
      let known = same_counter a.bucket a.client bucket client own start w.counters q ∙ e in
      let live =
        ap (live_count a.now) known
        ∙ live_count-IsLasting rl.window_seconds a.now start o here p h in
      let c =
        counted a.now rl.window_seconds (live_count a.now (w.counters a.bucket a.client own)) in
      let same = ap (counted a.now rl.window_seconds) live in
      let v = record w { counters = set_count a.bucket a.client own c w.counters } in
      let refusal = Error.too_many Code.rate_limit_exceeded in
      (
        raise_if-is_ok (leb c.0 rl.limit) refusal v
            ∙ ap (λ n. leb n rl.limit)
                (ap (λ x. x.0) same ∙ counted-count a.now rl.window_seconds o),
        ap (λ f. f bucket client start) (raise_if-counters (leb c.0 rl.limit) refusal v)
            ∙ set_count-own a.bucket a.client bucket client own start c w.counters q
            ∙ ap some same,
      )
