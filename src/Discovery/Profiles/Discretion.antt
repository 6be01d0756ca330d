-- ===== src/Discovery/Profiles/Discretion.antt =====
-- What the endpoints of app/api/v1/users.py disclose of a user.
use matchmaking_backend.Prelude.{
  ℕ, ◌≡◌, refl, ap, subst, Bool, true, false, ◌&&◌, not, Option, none, some, String, arith, is_some,
  first_sound, ==_sound, ◌==◌, is_none,
}
use matchmaking_backend.Errors.{Result, ok, err}
use matchmaking_backend.Models.{User, Date, Profile, UserPrivacySettings}
use matchmaking_backend.World.{World, Exec, get_user, ◌>>=◌, pure}
use matchmaking_backend.Matching.Queries.{get_active_between}
use matchmaking_backend.Discovery.Feed.{get_by_user}
use matchmaking_backend.Discovery.Profiles.{
  MatchedProfile, PublicProfile, find_privacy, found_or_default, serialize_with, serialize_public,
  last_seen_of, shown_if, validated, online_of, view_found, as_matched, living, is_blocked,
  view_user,
}

-- Whether the user hides when he was last seen.
abbrev pub hides_last_seen : Option UserPrivacySettings → Bool
hides_last_seen none = false
hides_last_seen (some s) = not (s.show_online_status && s.show_last_seen)

abbrev pub is_living : Option User → Bool
is_living none = false
is_living (some u) = is_none u.deleted_at

-- What an answer gives away, where the user is living and blocked or not, and has the settings.
abbrev pub IsDiscreet : Bool → Bool → Option UserPrivacySettings → Result MatchedProfile → Type 0
IsDiscreet alive blocked settings (err e) = Unit
IsDiscreet alive blocked settings (ok r) =
    (alive ≡ true)
    × (blocked ≡ false)
    × ((is_some r.base.last_seen && hides_last_seen settings) ≡ false)
    × (r.phone_number ≡ none)
    × (r.email ≡ none)
    × (r.workplace ≡ none)

-- The settings that are shown by.
abbrev Shows : Option UserPrivacySettings → Result PublicProfile → Type 0
Shows o (err e) = Unit
Shows o (ok r) = (is_some r.last_seen && hides_last_seen o) ≡ false

validated-Shows :
    (target : User) (p : Profile) (s : UserPrivacySettings) (today : Date) (d : Option ℕ)
    (url : Option String)
    → (now : ℕ) (online : Option Bool) (w : World)
    → Shows (some s) (validated target p s today d url now online w).0
validated-Shows target p s today d url now none w = tt
validated-Shows target p s today d url now (some b) w =
    by s.show_online_status s.show_last_seen target.last_active_at
  where
    by :
        (online seen : Bool) (last : Option ℕ)
        → (is_some (shown_if online (last_seen_of (record s { show_last_seen = seen }) last now))
            && not (online && seen))
          ≡ false
    by true true none = refl
    by true true (some t) = refl
    by true false none = refl
    by true false (some t) = refl
    by false seen last = refl

unhidden : (r : Result PublicProfile) → Shows none r
unhidden (err e) = tt
unhidden (ok r) = ground arith

serialize_with-Shows :
    (target : User) (p : Profile) (matched : Bool) (today : Date) (d : Option ℕ)
    (url : Option String) (now : ℕ)
    → (w : World) (o : Option UserPrivacySettings)
    → Shows o (serialize_with target p matched today d url now o w).0
unfolding serialize_with found_or_default
serialize_with-Shows target p matched today d url now w none =
    unhidden (serialize_with target p matched today d url now none w).0
serialize_with-Shows target p matched today d url now w (some s) =
    validated-Shows target p s today d url now (online_of matched target.last_active_at now) w

shown :
    (target : User) (p : Profile) (matched : Bool) (today : Date) (d : Option ℕ)
    (url : Option String) (now : ℕ)
    → (w : World) (o : Option UserPrivacySettings) → find_privacy target.id w ≡ o
    → Shows o (serialize_public target p matched today d url now w).0
unfolding serialize_public
shown target p matched today d url now w o e =
    subst (λ o. Shows o (serialize_public target p matched today d url now w).0) e
      (serialize_with-Shows target p matched today d url now w (find_privacy target.id w))

matched-IsDiscreet :
    (m : Exec PublicProfile) (w : World) (o : Option UserPrivacySettings) (r : Result PublicProfile)
    → (m w).0 ≡ r
    → Shows o r
    → IsDiscreet true false o ((m >>= (λ x. pure (as_matched x))) w).0
matched-IsDiscreet m w o (ok r) e h = rw (e, ◌>>=◌) (refl, refl, h, refl, refl, refl)
matched-IsDiscreet m w o (err x) e h = rw (e, ◌>>=◌) tt

view_found-IsDiscreet :
    (t : Option User) (blocked : Bool) (p : Option Profile) (matched : Bool) (today : Date)
    → (d : Option ℕ) (url : Option String) (now : ℕ) (w : World) (o : Option UserPrivacySettings)
    → ((u : User) → t ≡ some u → find_privacy u.id w ≡ o)
    → IsDiscreet (is_some t) blocked o (view_found t blocked p matched today d url now w).0
unfolding view_found
view_found-IsDiscreet none blocked p matched today d url now w o k = tt
view_found-IsDiscreet (some u) true p matched today d url now w o k = tt
view_found-IsDiscreet (some u) false none matched today d url now w o k = tt
view_found-IsDiscreet (some u) false (some p) matched today d url now w o k =
    let m = serialize_public u p matched today d url now in
    matched-IsDiscreet m w o (m w).0 refl (shown u p matched today d url now w o (k u refl))

living-is_living : (o : Option User) → is_some (living o) ≡ is_living o
living-is_living none = refl
living-is_living (some u) = ground arith

living_found : (id : ℕ) (u : User) (o : Option User) → living o ≡ some u → o ≡ some u
living_found id u none e = e
living_found id u (some v) e = ground arith

own_settings :
    (user_id : ℕ) (w : World) (u : User)
    → living (get_user user_id w) ≡ some u
    → find_privacy u.id w ≡ find_privacy user_id w
own_settings user_id w u e =
    let found = living_found user_id u (get_user user_id w) e in
    let same = ==_sound u.id user_id (first_sound (λ x. x.id == user_id) w.users u found) in
    ap (λ n. find_privacy n w) same

-- Whatever the viewer asks, an answer about a user is given only while he is not deleted and
-- neither blocks the other, shows when he was last seen only where his settings show that and his
-- being online, and never shows his phone number, e-mail or workplace.
pub view_user-IsDiscreet :
    (viewer_id user_id : ℕ) (today : Date) (d : Option ℕ) (url : Option String) (now : ℕ)
    (w : World)
    → IsDiscreet
        (is_living (get_user user_id w))
        (is_blocked viewer_id user_id w)
        (find_privacy user_id w)
        (view_user viewer_id user_id today d url now w).0
unfolding view_user
view_user-IsDiscreet viewer_id user_id today d url now w =
    subst
      (λ b.
        IsDiscreet b (is_blocked viewer_id user_id w) (find_privacy user_id w)
          (view_user viewer_id user_id today d url now w).0)
      (living-is_living (get_user user_id w))
      (view_found-IsDiscreet (living (get_user user_id w)) (is_blocked viewer_id user_id w)
        (get_by_user user_id w) (is_some (get_active_between viewer_id user_id w)) today d url now w
        (find_privacy user_id w) (own_settings user_id w))
