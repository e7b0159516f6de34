-- ===== src/Registry/Bound.antt =====
-- A login binds a session to its user; NotifyKickUser takes it away again.
use my_music.Base.{
  ℤ, Bool, true, false, Bool-cases, inl, inr, ◌≡◌, ◌≢◌, refl, ap, Option, none, some, Text, text_eq,
  if◌then◌else◌,
}
use my_music.Registry.{
  check_valid, Registry, get_session, remove_found, clear_session, handle_accept, bind_user,
  notify_kick_user,
}

-- What happens to the registry meanwhile that does not concern the user or the session: a session with
-- another id is accepted, another user logs in over another session, another session is cleared, a user
-- who has not this session is kicked.
pub data Step (uid : ℤ) (id : Text) (r : Registry) : Registry → Type 0 where
  accepted : (i : Text) → i ≢ id → Step uid id r (handle_accept i r)
  bound : (u : ℤ) (i : Text) → u ≢ uid → i ≢ id → Step uid id r (bind_user u i r)
  cleared : (i : Text) → i ≢ id → Step uid id r (clear_session i r)
  kicked : (u : ℤ) → get_session u r ≢ some id → Step uid id r (notify_kick_user u r)

pub data Steps (uid : ℤ) (id : Text) (r : Registry) : Registry → Type 0 where
  done : Steps uid id r r
  more : {s t : Registry} → Steps uid id r s → Step uid id s t → Steps uid id r t

-- The session is the user's, carries the user's uid and is held by the server.
record IsBound (uid : ℤ) (id : Text) (r : Registry) : Type 0 where
  user : r.users uid ≡ some id
  uid_of : r.uid_of id ≡ uid
  held : r.held id ≡ true

removed_rest :
    (u : ℤ) (id : Text) (x : Option Text) (r : Registry)
    → ((remove_found u id x r).uid_of ≡ r.uid_of) × ((remove_found u id x r).held ≡ r.held)
removed_rest u id none r = (refl, refl)
removed_rest u id (some t) r = elim (Bool-cases (text_eq t id)) [
  | inl y ↦ rw y (refl, refl)
  | inr y ↦ rw y (refl, refl)
]

pub cleared_rest :
    (id : Text) (r : Registry) (s : Text)
    → ((clear_session id r).uid_of s ≡ r.uid_of s)
      × ((clear_session id r).held s ≡ (if text_eq s id then false else r.held s))
unfolding clear_session
cleared_rest id r s = elim (Bool-cases (r.held id)) [
  | inl y ↦
      let p = removed_rest (r.uid_of id) id (r.users (r.uid_of id)) r in
      rw y (
        ap (λ (f : Text → ℤ). f s) p.0,
        ap (λ (f : Text → Bool). if text_eq s id then false else f s) p.1,
      )
  | inr y ↦ rw y (refl, refl)
]

-- What a kick does to the registry.
pub record Kicked (uid : ℤ) (id : Text) (s t : Registry) : Type 0 where
  pub gone : get_session uid t ≡ none
  pub invalid : check_valid id t ≡ false
  pub others : (u : ℤ) → u ≢ uid → get_session u t ≡ get_session u s
  pub valid : (i : Text) → i ≢ id → check_valid i t ≡ check_valid i s
