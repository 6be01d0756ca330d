-- ===== src/Matching/Sharing.antt =====
-- `create`, `revoke` and `has_active_share` of app/services/share_service.py.
use matchmaking_backend.Prelude.{
  ℕ, ◌+◌, ◌*◌, ◌≤◌, ◌≡◌, refl, Bool, true, false, leb, ◌||◌, ◌==◌, ==_refl, Option, none, some,
  arith, List, [], ◌∷◌, first, exists, exists-add, update, first-exists, first-add,
}
use matchmaking_backend.Errors.{ok, is_ok}
use matchmaking_backend.Enums.{SharePermission}
use matchmaking_backend.Models.{User, ProfileShare}
use matchmaking_backend.World.{World}
use matchmaking_backend.Matching.Shares.{
  ℤ, is_share_of, is_live_share_of, share_expiry, new_share, insert_share, create_share,
  revoke_share, has_active_share,
}

-- Whether a share that was given some days at a time is to be active later: days of 86,400 seconds,
-- for ever without days or with 0 of them, and not at all with fewer.
abbrev pub lasts : Option ℤ → ℕ → ℕ → Bool
lasts none now later = true
lasts (some (ℤ.pos n)) now later = n == 0 || leb later (now + 86400 * n)
lasts (some (ℤ.negsuc n)) now later = false

abbrev unexpired_at : ℕ → Option ℕ → Bool
unexpired_at now none = true
unexpired_at now (some t) = leb now t

share_expiry-lasts :
    (d : Option ℤ) (now later : ℕ)
    → 1 ≤ now
    → now ≤ later
    → unexpired_at later (share_expiry d now) ≡ lasts d now later
share_expiry-lasts none now later start le = refl
share_expiry-lasts (some (ℤ.pos n)) now later start le = ground arith
share_expiry-lasts (some (ℤ.negsuc n)) now later start le = ground arith

-- A share that was created after the first second of 1970 is active at a later time, or the same,
-- exactly when at most the days that it was given have passed, always where it was given none or 0,
-- and never where it was given fewer than 0.
pub create_share-has_active_share :
    (owner : User) (t : ℕ) (p : SharePermission) (d : Option ℤ) (now later : ℕ) (w : World)
    {s : ProfileShare}
    → 1 ≤ now
    → now ≤ later
    → (create_share owner t p d now w).0 ≡ ok s
    → has_active_share owner.id t later (create_share owner t p d now w).1 ≡ lasts d now later
unfolding create_share insert_share has_active_share
create_share-has_active_share owner t p d now later w start le e =
    let r = new_share (w.uuid4 w.drawn) owner.id t p (share_expiry d now) now in
    ground (
      arith,
      share_expiry-lasts d now later start le,
      first-exists (is_live_share_of owner.id t) w.shares,
      first-add (is_live_share_of owner.id t) r w.shares,
      ==_refl owner.id,
      ==_refl t,
    )

-- A share that was created stands in the table.
created_stands :
    (owner : User) (t : ℕ) (p : SharePermission) (d : Option ℤ) (now : ℕ) (w : World)
    {s : ProfileShare}
    → (create_share owner t p d now w).0 ≡ ok s
    → exists (is_share_of owner.id t) (create_share owner t p d now w).1.shares ≡ true
unfolding create_share insert_share
created_stands owner t p d now w e =
    let r = new_share (w.uuid4 w.drawn) owner.id t p (share_expiry d now) now in
    ground (arith, exists-add (is_share_of owner.id t) r w.shares, ==_refl owner.id, ==_refl t)

exists-revoked :
    (a b id now : ℕ) (rows : List ProfileShare)
    → exists
        (is_share_of a b)
        (update (λ r. r.id == id) (λ r. record r { revoked_at = some now }) rows)
      ≡ exists (is_share_of a b) rows
exists-revoked a b id now [] = refl
exists-revoked a b id now (x ∷ xs) = ground (arith, exists-revoked a b id now xs)

revoke_keeps :
    (a b : ℕ) (user : User) (id now : ℕ) (w : World) (o : Option ProfileShare)
    → first (λ s. s.id == id) w.shares ≡ o
    → exists (is_share_of a b) (revoke_share user id now w).1.shares
      ≡ exists (is_share_of a b) w.shares
unfolding revoke_share
revoke_keeps a b user id now w none e = ground arith
revoke_keeps a b user id now w (some x) e = ground (arith, exists-revoked a b x.id now w.shares)

refused_twice :
    (owner : User) (t : ℕ) (p : SharePermission) (d : Option ℤ) (now : ℕ) (w : World)
    → exists (is_share_of owner.id t) w.shares ≡ true
    → is_ok (create_share owner t p d now w).0 ≡ false
unfolding create_share insert_share
refused_twice owner t p d now w h = ground arith

-- After a share was created and whatever share was then revoked by whomever, that one included, and
-- whether the revocation returned or raised, no share of the same two users can be created: the
-- second creation raises.
pub create_share_again :
    (owner user : User) (t id : ℕ) (p q : SharePermission) (d e : Option ℤ) (now then_ later : ℕ)
    (w : World) {s : ProfileShare}
    → (create_share owner t p d now w).0 ≡ ok s
    → is_ok
        (create_share owner t q e later
          (revoke_share user id then_ (create_share owner t p d now w).1).1).0
      ≡ false
create_share_again owner user t id p q d e now then_ later w {s} created =
    let w1 = (create_share owner t p d now w).1 in
    let w2 = (revoke_share user id then_ w1).1 in
    refused_twice owner t q e later w2 (
      rw (revoke_keeps owner.id t user id then_ w1 (first (λ s. s.id == id) w1.shares) refl)
        (created_stands owner t p d now w {s = s} created))
