-- ===== src/Entry/HomeCast.antt =====
-- The user and the token of Home Assistant Cast, custom_components/cast/home_assistant_cast.py. Users and
-- tokens are numbers that Home Assistant's auth draws from a counter.
use ha_int_gcast.Base.{
  ℕ, suc, ◌≡◌, refl, String, true, Option, none, some, List, [], ◌∷◌, is_some, Option-cases,
  Bool-cases, inl, inr, arith, nat_eq, if◌then◌else◌,
}
use ha_int_gcast.Base.Dict.{Dict, get, put, remove, get-put_self}
use ha_int_gcast.Base.Result.{Result, returned, raised}

-- The users with their refresh tokens, the `user_id` in the entry's data, and the token of the service
-- `show_lovelace_view`, once it is registered.
pub record CastUser : Type 0 where
  pub users : Dict ℕ (List ℕ)
  pub next_id : ℕ
  pub user_id : Option ℕ
  pub service_token : Option ℕ

-- `hass.auth.async_get_user(user_id)` with its tokens
abbrev pub tokens_of : Dict ℕ (List ℕ) → Option ℕ → Option (List ℕ)
tokens_of users none = none
tokens_of users (some user) = get users user

abbrev pub user_of : CastUser → Option (List ℕ)
user_of s = tokens_of s.users s.user_id

-- `async_create_system_user`, and the entry's data
abbrev create_user : CastUser → CastUser
create_user s = record s {
  users = put s.users s.next_id [];
  next_id = suc s.next_id;
  user_id = some s.next_id;
}

unfoldable pub with_user : CastUser → CastUser
with_user s = if is_some (user_of s) then s else create_user s

abbrev give_token : ℕ → CastUser → CastUser
give_token user s = record s {
  users = put s.users user (s.next_id ∷ []);
  next_id = suc s.next_id;
  service_token = some s.next_id;
}

-- The first token of the user, or a new one; then the service is registered with it.
abbrev token_for : ℕ → Option (List ℕ) → CastUser → CastUser
token_for user none s = s
token_for user (some []) s = give_token user s
token_for user (some (token ∷ tokens)) s = record s { service_token = some token }

abbrev with_token_of : Option ℕ → CastUser → CastUser
with_token_of none s = s
with_token_of (some user) s = token_for user (get s.users user) s

-- `async_setup_ha_cast`
unfoldable pub setup_ha_cast : CastUser → CastUser
setup_ha_cast s = let s' = with_user s in with_token_of s'.user_id s'

-- `async_remove_user`
abbrev removed_user : Option ℕ → CastUser → CastUser
removed_user none s = s
removed_user (some user) s =
    if is_some (get s.users user) then record s { users = remove s.users user } else s

unfoldable pub remove_user : CastUser → CastUser
remove_user s = removed_user s.user_id s

-- The data of `handle_show_view` and its signal
pub record ControllerData : Type 0 where
  pub hass_url : String
  pub hass_uuid : String
  pub client_id : Option String
  pub refresh_token : ℕ

pub record ShowView : Type 0 where
  pub controller : ControllerData
  pub entity_id : String
  pub view_path : String
  pub url_path : Option String

abbrev no_url_available_error : String
no_url_available_error =
    "Home Assistant Cast requires your instance to be reachable via HTTPS. Enable Home Assistant Cloud or set up an external URL with valid SSL certificates"

-- `handle_show_view`, with the answer of `get_url`, `none` if it raises
unfoldable pub handle_show_view :
    ℕ → Option String → String → String → String → Option String → Result String ShowView
handle_show_view token none hass_uuid entity_id view_path url_path = raised no_url_available_error
handle_show_view token (some hass_url) hass_uuid entity_id view_path url_path = returned (record {
  controller = record {
    hass_url = hass_url;
    hass_uuid = hass_uuid;
    client_id = none;
    refresh_token = token;
  };
  entity_id = entity_id;
  view_path = view_path;
  url_path = url_path;
})

-- The token of the service belongs to the user of the entry.
abbrev first_token : Option (List ℕ) → Option ℕ
first_token none = none
first_token (some []) = none
first_token (some (token ∷ tokens)) = some token

-- The entry names a user, and the user has these tokens.
record Names (s : CastUser) : Type 0 where
  user : ℕ
  tokens : List ℕ
  named_user : s.user_id ≡ some user
  known : get s.users user ≡ some tokens

existing :
    (users : Dict ℕ (List ℕ)) (o : Option ℕ)
    → is_some (tokens_of users o) ≡ true
    → (user : ℕ) × (tokens : List ℕ) × (o ≡ some user) × (get users user ≡ some tokens)
existing users none there = absurd (ground (arith, there))
existing users (some user) there = elim (Option-cases (get users user)) [
  | inl gone ↦ absurd (ground (arith, there, gone))
  | inr (tokens, found) ↦ (user, tokens, refl, found)
]

-- After its first step a set-up has a user, and the entry names it.
with_user-Names : (s : CastUser) → Names (with_user s)
unfolding with_user
with_user-Names s = elim (Bool-cases (is_some (user_of s))) [
  | inr missing ↦ rw missing (record {
    user = s.next_id;
    tokens = [];
    named_user = refl;
    known = get-put_self s.users s.next_id [];
  })
  | inl there ↦
      let (user, tokens, e, found) = existing s.users s.user_id there in
      rw there (record { user = user; tokens = tokens; named_user = e; known = found })
]

-- The service's token is the first one of the entry's user.
abbrev pub HasToken : CastUser → Type 0
HasToken s = (is_some s.service_token ≡ true) × (s.service_token ≡ first_token (user_of s))

token_for-HasToken :
    (s : CastUser) (user : ℕ) (tokens : List ℕ)
    → s.user_id ≡ some user
    → get s.users user ≡ some tokens
    → HasToken (token_for user (some tokens) s)
token_for-HasToken s user [] e found =
    (refl, rw (e, get-put_self s.users user (s.next_id ∷ [])) refl)
token_for-HasToken s user (token ∷ tokens) e found = (refl, rw (e, found) refl)

-- After a set-up the service has a token, the first one of the entry's user.
pub setup_ha_cast-HasToken : (s : CastUser) → HasToken (setup_ha_cast s)
unfolding setup_ha_cast with_user
setup_ha_cast-HasToken s =
    let n = with_user-Names s in
    rw (n.named_user, n.known)
      (token_for-HasToken (with_user s) n.user n.tokens n.named_user n.known)
