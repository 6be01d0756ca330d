-- ===== src/Config/Limits/Bounded.antt =====
-- How many requests of a client `check_rate_limit` (app/security/rate_limit.py) lets pass in a window.
use matchmaking_backend.Prelude.{
  ℕ, suc, ◌+◌, ◌<◌, ◌==◌, ◌≡◌, refl, ap, sym, ◌∙◌, subst, Bool-cases, inl, inr, Bool, true, false,
  ◌&&◌, Option, none, some, String, List, [], ◌∷◌, arith, leb, if◌then◌else◌, str_eq, eq_iff,
  ==_sound,
}
use matchmaking_backend.Errors.{Error, Fault, Result, is_ok}
use matchmaking_backend.World.{World, raise}
use matchmaking_backend.Config.Limits.{
  RateLimit, rate_limit, window_start, counted, check_rate, check_parsed, check_rate_limit,
}
use matchmaking_backend.Config.Limits.Counters.{
  Attempt, is_counted, count, IsLasting, counted-IsLasting, counted-count, other_check, own_check,
}

abbrev pub min : ℕ → ℕ → ℕ
min a b = if leb a b then a else b

module _ (login_limit otp_limit : String) where
  abbrev attempt : Attempt → World → Result (Unit {0}) × World
  attempt a w = check_rate_limit login_limit otp_limit true true a.client a.bucket a.now w

  module _ (bucket client : String) (rl : RateLimit) (start : ℕ) where
    unfoldable pub attempts : List Attempt → ℕ
    attempts [] = 0
    attempts (a ∷ rest) =
        let n = attempts rest in if is_counted bucket client rl start a then suc n else n

    -- How many of them pass, among the requests of all clients.
    unfoldable pub accepted : List Attempt → World → ℕ
    accepted [] w = 0
    accepted (a ∷ rest) w =
        let n = accepted rest (attempt a w).1 in
        if is_counted bucket client rl start a && is_ok (attempt a w).0 then suc n else n

    same_rate :
        (b : String) (r : RateLimit)
        → b ≡ bucket
        → rate_limit login_limit otp_limit bucket ≡ some rl
        → rate_limit login_limit otp_limit b ≡ some r
        → r ≡ rl
    same_rate b r q e k =
        let twice = sym k ∙ ap (rate_limit login_limit otp_limit) q ∙ e in ground arith

    not_counted :
        (a : Attempt) (r : RateLimit) (same : Bool)
        → str_eq a.bucket bucket ≡ same
        → rate_limit login_limit otp_limit bucket ≡ some rl
        → rate_limit login_limit otp_limit a.bucket ≡ some r
        → is_counted bucket client rl start a ≡ false
        → is_counted bucket client r start a ≡ false
    unfolding is_counted
    not_counted a r true q e k h = rw (same_rate a.bucket r ((eq_iff a.bucket bucket).0 q) e k) h
    not_counted a r false q e k h = ground arith

    window_check :
        (a : Attempt) (r : RateLimit) (w : World) (empty : Bool)
        → is_counted bucket client r start a ≡ false
        → ((if empty
                then raise (Error.fault Fault.bad_rate)
                else check_rate true r a.client a.bucket a.now)
              w).1.counters
            bucket client start
          ≡ w.counters bucket client start
    window_check a r w true h = refl
    window_check a r w false h = other_check bucket client start a r w h

    -- A request outside the bucket, or outside the window or of another client.
    other_parsed :
        (a : Attempt) (w : World) (o : Option RateLimit)
        → rate_limit login_limit otp_limit bucket ≡ some rl
        → rate_limit login_limit otp_limit a.bucket ≡ o
        → is_counted bucket client rl start a ≡ false
        → (check_parsed true o a.client a.bucket a.now w).1.counters bucket client start
          ≡ w.counters bucket client start
    other_parsed a w none e k h = refl
    other_parsed a w (some r) e k h =
        window_check a r w (r.window_seconds == 0)
          (not_counted a r (str_eq a.bucket bucket) refl e k h)

    other_attempt :
        (a : Attempt) (w : World)
        → rate_limit login_limit otp_limit bucket ≡ some rl
        → is_counted bucket client rl start a ≡ false
        → (attempt a w).1.counters bucket client start ≡ w.counters bucket client start
    unfolding check_rate_limit
    other_attempt a w e h = other_parsed a w (rate_limit login_limit otp_limit a.bucket) e refl h

    own_attempt :
        (a : Attempt) (w : World)
        → rate_limit login_limit otp_limit bucket ≡ some rl
        → 0 < rl.window_seconds
        → is_counted bucket client rl start a ≡ true
        → attempt a w ≡ check_rate true rl a.client a.bucket a.now w
    unfolding is_counted check_rate_limit
    own_attempt a w e p h =
        let own =
          ap (rate_limit login_limit otp_limit) ((eq_iff a.bucket bucket).0 (ground arith)) ∙ e in
        let open_ = some_window rl.window_seconds p in rw own (rw open_ refl)
      where
        some_window : (n : ℕ) → 0 < n → (n == 0) ≡ false
        some_window n p = ground arith

    -- A request of the client: what it answers and what it leaves in Redis.
    own_outcome :
        (a : Attempt) (w : World) (o : Option (ℕ × ℕ))
        → rate_limit login_limit otp_limit bucket ≡ some rl
        → 0 < rl.window_seconds
        → w.counters bucket client start ≡ o
        → IsLasting start rl.window_seconds o
        → is_counted bucket client rl start a ≡ true
        → (is_ok (attempt a w).0 ≡ leb (suc (count o)) rl.limit)
          × ((attempt a w).1.counters bucket client start
              ≡ some (counted a.now rl.window_seconds o))
    own_outcome a w o e p k h q =
        rw (own_attempt a w e p q) (own_check bucket client start rl a w o k h p q)

    step :
        (n m c limit : ℕ) (passes : Bool)
        → passes ≡ leb (suc c) limit
        → n + min (suc c) limit ≡ min (suc c + m) limit
        → (if passes then suc n else n) + min c limit ≡ min (c + suc m) limit
    step n m c limit passes e h = ground arith

    own_window :
        (a : Attempt)
        → is_counted bucket client rl start a ≡ true
        → window_start rl.window_seconds a.now ≡ start
    unfolding is_counted
    own_window a h = ==_sound (window_start rl.window_seconds a.now) start (ground arith)

    accepted_lem :
        (rest : List Attempt) (w : World) (o : Option (ℕ × ℕ))
        → rate_limit login_limit otp_limit bucket ≡ some rl
        → 0 < rl.window_seconds
        → w.counters bucket client start ≡ o
        → IsLasting start rl.window_seconds o
        → accepted rest w + min (count o) rl.limit ≡ min (count o + attempts rest) rl.limit
    unfolding accepted attempts
    accepted_lem [] w o e p k h = ground arith
    accepted_lem (a ∷ rest) w o e p k h = elim (Bool-cases (is_counted bucket client rl start a)) [
      | inl mine ↦
          let (passes, kept) = own_outcome a w o e p k h mine in
          let c = counted a.now rl.window_seconds o in
          let lasting = counted-IsLasting rl.window_seconds a.now start o (own_window a mine) h in
          let later = accepted_lem rest (attempt a w).1 (some c) e p kept lasting in
          rw mine (
            step (accepted rest (attempt a w).1) (attempts rest) (count o) rl.limit
              (is_ok (attempt a w).0) passes
              (subst
                (λ n.
                  accepted rest (attempt a w).1 + min n rl.limit ≡ min (n + attempts rest) rl.limit)
                (counted-count a.now rl.window_seconds o) later))
      | inr other ↦
          rw other (accepted_lem rest (attempt a w).1 o e p (other_attempt a w e other ∙ k) h)
    ]

    -- Where the rate of a bucket can be read and has a window, and Redis has no counter for a
    -- client in a window, then of all requests, in any order and mixed with those of other clients,
    -- buckets and windows, exactly the smaller of the limit and their number pass for that client
    -- in that bucket and window, while Redis answers.
    pub accepted-attempts :
        (rest : List Attempt) (w : World)
        → rate_limit login_limit otp_limit bucket ≡ some rl
        → 0 < rl.window_seconds
        → w.counters bucket client start ≡ none
        → accepted rest w ≡ min (attempts rest) rl.limit
    accepted-attempts rest w e p k = ground (arith, accepted_lem rest w none e p k tt)
