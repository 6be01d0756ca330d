-- ===== src/Moderation/Photos.antt =====
-- `PhotoService` of app/services/photo_service.py, each call with the commit of its endpoint; object
-- storage is outside.
use matchmaking_backend.Prelude.{
  given, ℕ, ◌==◌, Bool, true, false, ◌&&◌, Option, none, some, String, List, [], ◌∷◌, if◌then◌else◌,
  str_eq, first, select, update, update_first, add, is_none,
}
use matchmaking_backend.Errors.{Error, Code, Result, ok, err}
use matchmaking_backend.Enums.{PhotoVerificationStatus}
use matchmaking_backend.Models.{or_null, Json, User, Photo}
use matchmaking_backend.World.{
  World, Exec, raise, ◌>>=◌, ◌>>◌, modify, gen_uuid, audit, transaction,
}
pub mod Single

-- The clauses of `PhotoRepository.list_for_user` and `get_for_user`, and that of `review`.
abbrev pub is_listed : ℕ → Photo → Bool
is_listed user_id p = p.user_id == user_id && is_none p.deleted_at

abbrev pub is_owned : ℕ → ℕ → Photo → Bool
is_owned id user_id p = p.id == id && is_listed user_id p

abbrev pub is_live : ℕ → Photo → Bool
is_live id p = p.id == id && is_none p.deleted_at

abbrev pub find_owned : ℕ → ℕ → World → Option Photo
find_owned id user_id w = first (is_owned id user_id) w.photos

-- `if content_type: photo.mime_type = content_type`.
abbrev mime_of : Option String → Option String
mime_of none = none
mime_of (some s) = if str_eq s "" then none else some s

abbrev pub new_photo : ℕ → ℕ → String → Option String → ℕ → Photo
new_photo id user_id object_key content_type now = record {
  id = id;
  user_id = user_id;
  url = object_key;
  position = 0;
  is_profile_photo = false;
  verification_status = PhotoVerificationStatus.unverified;
  visibility = "PUBLIC";
  mime_type = mime_of content_type;
  uploaded_at = now;
  deleted_at = none;
}

-- `PhotoService.confirm_upload`.
unfoldable pub confirm_upload : User → String → Option String → ℕ → Exec (Unit {0})
confirm_upload user object_key content_type now = do
  id ← gen_uuid
  modify λ w. record w { photos = add (new_photo id user.id object_key content_type now) w.photos }

-- `PhotoUpdate` without its unset fields.
pub record PhotoUpdate : Type 0 where
  pub position : Option ℕ
  pub is_profile_photo : Option Bool
  pub visibility : Option String

abbrev pub set_owned : ℕ → ℕ → (Photo → Photo) → List Photo → List Photo
set_owned id user_id f photos = update_first (is_owned id user_id) f photos

abbrev pub not_profile : Photo → Photo
not_profile p = record p { is_profile_photo = false }

abbrev pub as_profile : Photo → Photo
as_profile p = record p { is_profile_photo = true }

abbrev pub at_position : Option ℕ → Photo → Photo
at_position n p = record p { position = given p.position n }

abbrev pub with_visibility : Option String → Photo → Photo
with_visibility v p = record p { visibility = given p.visibility v }

-- `_clear_profile_photo`, and `photo.is_profile_photo = True`, where the value given is True.
unfoldable pub make_profile : ℕ → ℕ → Option Bool → List Photo → List Photo
make_profile id user_id (some true) photos =
    set_owned id user_id as_profile (update (is_listed user_id) not_profile photos)
make_profile id user_id _ photos = photos

abbrev audit_photo : String → ℕ → ℕ → List (String × Json) → ℕ → Exec (Unit {0})
audit_photo action actor id meta now = audit action (some actor) "photo" (Json.uuid id) meta now

-- `PhotoService.update` behind its lookup.
unfoldable pub update_found : User → ℕ → PhotoUpdate → ℕ → Option Photo → Exec (Unit {0})
update_found user id d now none = raise (Error.not_found Code.photo_not_found)
update_found user id d now (some p) = do
  modify λ w. record w { photos = set_owned id user.id (at_position d.position) w.photos }
  modify λ w. record w { photos = make_profile id user.id d.is_profile_photo w.photos }
  modify λ w. record w { photos = set_owned id user.id (with_visibility d.visibility) w.photos }
  audit_photo "photo.update" user.id id [] now

unfoldable pub update_photo : User → ℕ → PhotoUpdate → ℕ → Exec (Unit {0})
update_photo user id d now w = update_found user id d now (find_owned id user.id w) w

abbrev pub removed : ℕ → Photo → Photo
removed now p = record p { deleted_at = some now }

unfoldable pub delete_found : User → ℕ → ℕ → Option Photo → Exec (Unit {0})
delete_found user id now none = raise (Error.not_found Code.photo_not_found)
delete_found user id now (some p) = do
  modify λ w. record w { photos = set_owned id user.id (removed now) w.photos }
  audit_photo "photo.delete" user.id id [] now

-- `PhotoService.delete`.
unfoldable pub delete_photo : User → ℕ → ℕ → Exec (Unit {0})
delete_photo user id now w = delete_found user id now (find_owned id user.id w) w

-- The action of a review, none where it is none of the three, with its log entry and its verdict.
abbrev pub verdict : String → Option (String × PhotoVerificationStatus)
verdict action =
    if str_eq action "approve"
    then some ("photo.approve", PhotoVerificationStatus.verified)
    else if str_eq action "reject"
    then some ("photo.reject", PhotoVerificationStatus.rejected)
    else if str_eq action "request_replacement"
    then some ("photo.request_replacement", PhotoVerificationStatus.rejected)
    else none

abbrev pub judged : PhotoVerificationStatus → Photo → Photo
judged s p = record p { verification_status = s }

unfoldable pub review_found :
    User
    → ℕ
    → Option String
    → ℕ
    → Option (String × PhotoVerificationStatus)
    → Option Photo
    → Exec (Unit {0})
review_found admin id reason now none found = raise (Error.validation Code.invalid_action)
review_found admin id reason now (some v) none = raise (Error.not_found Code.photo_not_found)
review_found admin id reason now (some (name, status)) (some p) = do
  modify λ w. record w { photos = update_first (is_live id) (judged status) w.photos }
  audit_photo name admin.id id (("reason", or_null reason) ∷ []) now

-- `PhotoService.review`.
unfoldable pub review_photo : User → ℕ → String → Option String → ℕ → Exec (Unit {0})
review_photo admin id action reason now w =
    review_found admin id reason now (verdict action) (first (is_live id) w.photos) w

-- The endpoint of a review records once more what the service has recorded.
abbrev pub logged_again :
    User → ℕ → String → Option String → ℕ → Result (Unit {0}) × World → Result (Unit {0}) × World
logged_again admin id name reason now (err e, w) = (err e, w)
logged_again admin id name reason now (ok a, w) =
    audit_photo name admin.id id (("reason", or_null reason) ∷ []) now w

abbrev pub entry_name : Option (String × PhotoVerificationStatus) → String
entry_name none = ""
entry_name (some v) = v.0

unfoldable pub review_endpoint : User → ℕ → String → Option String → ℕ → Exec (Unit {0})
review_endpoint admin id action reason now w =
    logged_again admin id (entry_name (verdict action)) reason now
      (review_photo admin id action reason now w)

pub data Request : Type 0 where
  confirm : User → String → Option String → Request
  change : User → ℕ → PhotoUpdate → Request
  remove : User → ℕ → Request
  review : User → ℕ → String → Option String → Request

abbrev pub dispatch : Request → ℕ → Exec (Unit {0})
dispatch (Request.confirm user key content_type) now = confirm_upload user key content_type now
dispatch (Request.change user id d) now = update_photo user id d now
dispatch (Request.remove user id) now = delete_photo user id now
dispatch (Request.review admin id action reason) now = review_endpoint admin id action reason now

unfoldable pub handle : Request → ℕ → Exec (Unit {0})
handle r now = transaction (dispatch r now)

-- The world after the requests, each with its time.
unfoldable pub run : List (Request × ℕ) → World → World
run [] w = w
run ((r, now) ∷ rs) w = run rs (handle r now w).1
