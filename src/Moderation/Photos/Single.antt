-- ===== src/Moderation/Photos/Single.antt =====
-- The profile photo (app/services/photo_service.py).
use matchmaking_backend.Prelude.{
  ℕ, ◌==◌, ◌≤◌, ◌≡◌, refl, Bool, true, false, ◌&&◌, Option, none, some, String, List, [], ◌∷◌,
  arith, if◌then◌else◌, first, update, update_first, count_where, is_none, count_where-add,
  count_where-update_first, count_where-update_first-suc, count_where-update, count_where-cleared,
}
use matchmaking_backend.Errors.{Result, ok, err}
use matchmaking_backend.Enums.{PhotoVerificationStatus}
use matchmaking_backend.Models.{User, Photo}
use matchmaking_backend.World.{World, Exec, transaction}
use matchmaking_backend.Moderation.Photos.{
  is_listed, is_owned, is_live, new_photo, confirm_upload, PhotoUpdate, set_owned, not_profile,
  as_profile, at_position, with_visibility, make_profile, update_found, update_photo, removed,
  delete_found, delete_photo, judged, review_found, review_photo, review_endpoint, logged_again,
  entry_name, Request, dispatch, handle, run, find_owned, verdict,
}

-- A photo that is shown as the user's profile photo.
abbrev pub is_shown : ℕ → Photo → Bool
is_shown user_id p = p.user_id == user_id && is_none p.deleted_at && p.is_profile_photo

unfoldable pub profile_photos : ℕ → List Photo → ℕ
profile_photos user_id photos = count_where (is_shown user_id) photos

set_owned-profile_photos :
    (u id user_id : ℕ) (f : Photo → Photo) (photos : List Photo)
    → ((p : Photo) → is_shown u (f p) ≡ true → is_shown u p ≡ true)
    → profile_photos u (set_owned id user_id f photos) ≤ profile_photos u photos
unfolding profile_photos
set_owned-profile_photos u id user_id f photos h =
    count_where-update_first (is_shown u) (is_owned id user_id) f photos (λ p k. h p)

make_profile-profile_photos :
    (u id user_id : ℕ) (d : Option Bool) (photos : List Photo)
    → profile_photos u photos ≤ 1
    → profile_photos u (make_profile id user_id d photos) ≤ 1
unfolding make_profile profile_photos
make_profile-profile_photos u id user_id none photos h = h
make_profile-profile_photos u id user_id (some false) photos h = h
make_profile-profile_photos u id user_id (some true) photos h = by (user_id == u) refl
  where
    cleared : List Photo
    cleared = update (is_listed user_id) not_profile photos

    gone :
        (p : Photo)
        → (user_id == u) ≡ true
        → is_shown u (if is_listed user_id p then not_profile p else p) ≡ false
    gone p e = ground arith

    other :
        (p : Photo)
        → (user_id == u) ≡ false
        → is_owned id user_id p ≡ true
        → is_shown u (as_profile p) ≡ true
        → is_shown u p ≡ true
    other p e k l = ground arith

    hidden :
        (p : Photo)
        → is_listed user_id p ≡ true
        → is_shown u (not_profile p) ≡ true
        → is_shown u p ≡ true
    hidden p k l = ground arith

    by :
        (same : Bool)
        → (user_id == u) ≡ same
        → count_where (is_shown u) (update_first (is_owned id user_id) as_profile cleared) ≤ 1
    by true e = ground (
      arith,
      count_where-update_first-suc (is_shown u) (is_owned id user_id) as_profile cleared,
      count_where-cleared (is_shown u) (is_listed user_id) not_profile photos (λ p. gone p e),
    )
    by false e = ground (
      arith,
      count_where-update_first (is_shown u) (is_owned id user_id) as_profile cleared
          (λ p. other p e),
      count_where-update (is_shown u) (is_listed user_id) not_profile photos hidden,
    )

confirm_upload-profile_photos :
    (u : ℕ) (user : User) (key : String) (content_type : Option String) (now : ℕ) (w : World)
    → profile_photos u w.photos ≤ 1
    → profile_photos u (confirm_upload user key content_type now w).1.photos ≤ 1
unfolding confirm_upload profile_photos
confirm_upload-profile_photos u user key content_type now w h = ground (
  arith,
  count_where-add (is_shown u) (new_photo (w.uuid4 w.drawn) user.id key content_type now) w.photos,
)

update_found-profile_photos :
    (u : ℕ) (user : User) (id : ℕ) (d : PhotoUpdate) (now : ℕ) (found : Option Photo) (w : World)
    → profile_photos u w.photos ≤ 1
    → profile_photos u (update_found user id d now found w).1.photos ≤ 1
unfolding update_found
update_found-profile_photos u user id d now none w h = h
update_found-profile_photos u user id d now (some p) w h =
    let moved = set_owned id user.id (at_position d.position) w.photos in
    let made = make_profile id user.id d.is_profile_photo moved in
    let m = set_owned-profile_photos u id user.id (at_position d.position) w.photos (λ p k. k) in
    let n = make_profile-profile_photos u id user.id d.is_profile_photo moved (omega arith) in
    let l = set_owned-profile_photos u id user.id (with_visibility d.visibility) made (λ p k. k) in
    omega arith

delete_found-profile_photos :
    (u : ℕ) (user : User) (id now : ℕ) (found : Option Photo) (w : World)
    → profile_photos u w.photos ≤ 1
    → profile_photos u (delete_found user id now found w).1.photos ≤ 1
unfolding delete_found
delete_found-profile_photos u user id now none w h = h
delete_found-profile_photos u user id now (some p) w h =
    let m = set_owned-profile_photos u id user.id (removed now) w.photos gone in omega arith
  where
    gone : (p : Photo) → is_shown u (removed now p) ≡ true → is_shown u p ≡ true
    gone p k = ground arith

review_found-profile_photos :
    (u : ℕ) (admin : User) (id : ℕ) (reason : Option String) (now : ℕ)
    → (v : Option (String × PhotoVerificationStatus)) (found : Option Photo) (w : World)
    → profile_photos u w.photos ≤ 1
    → profile_photos u (review_found admin id reason now v found w).1.photos ≤ 1
unfolding review_found profile_photos
review_found-profile_photos u admin id reason now none found w h = h
review_found-profile_photos u admin id reason now (some v) none w h = h
review_found-profile_photos u admin id reason now (some (name, status)) (some p) w h =
    let m =
      count_where-update_first (is_shown u) (is_live id) (judged status) w.photos (λ p q k. k) in
    omega arith

logged_again-profile_photos :
    (u : ℕ) (admin : User) (id : ℕ) (name : String) (reason : Option String) (now : ℕ)
    → (r : Result (Unit {0})) (w : World) → profile_photos u w.photos ≤ 1
    → profile_photos u (logged_again admin id name reason now (r, w)).1.photos ≤ 1
logged_again-profile_photos u admin id name reason now (ok a) w h = h
logged_again-profile_photos u admin id name reason now (err e) w h = h

dispatch-profile_photos :
    (u : ℕ) (r : Request) (now : ℕ) (w : World)
    → profile_photos u w.photos ≤ 1
    → profile_photos u (dispatch r now w).1.photos ≤ 1
unfolding update_photo delete_photo review_photo review_endpoint
dispatch-profile_photos u (Request.confirm user key content_type) now w h =
    confirm_upload-profile_photos u user key content_type now w h
dispatch-profile_photos u (Request.change user id d) now w h =
    update_found-profile_photos u user id d now (find_owned id user.id w) w h
dispatch-profile_photos u (Request.remove user id) now w h =
    delete_found-profile_photos u user id now (find_owned id user.id w) w h
dispatch-profile_photos u (Request.review admin id action reason) now w h =
    let found = first (is_live id) w.photos in
    let (r, w') = review_found admin id reason now (verdict action) found w in
    logged_again-profile_photos u admin id (entry_name (verdict action)) reason now r w'
      (review_found-profile_photos u admin id reason now (verdict action) found w h)

transaction-profile_photos :
    {A : Type 0} (u : ℕ) (m : Exec A) (w : World) (r : Result A)
    → (m w).0 ≡ r
    → profile_photos u w.photos ≤ 1
    → profile_photos u (m w).1.photos ≤ 1
    → profile_photos u (transaction m w).1.photos ≤ 1
transaction-profile_photos u m w (ok a) e h k = rw (e, transaction) k
transaction-profile_photos u m w (err x) e h k = rw (e, transaction) h

-- A user who has at most one profile photo that is not deleted has at most one after any sequence
-- of uploads, updates, deletions and reviews, of whomever, whether each returns or raises.
pub run-profile_photos :
    (u : ℕ) (rs : List (Request × ℕ)) (w : World)
    → profile_photos u w.photos ≤ 1
    → profile_photos u (run rs w).photos ≤ 1
unfolding run handle
run-profile_photos u [] w h = h
run-profile_photos u ((r, now) ∷ rs) w h = run-profile_photos u rs (handle r now w).1 (
    transaction-profile_photos u (dispatch r now) w (dispatch r now w).0 refl h
      (dispatch-profile_photos u r now w h))
