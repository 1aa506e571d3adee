-- ===== src/Services/Auth.antt =====
-- app/services/auth_service.py: login, registration, refreshing and the profile.
use asset_pilot_fastapi.Repositories.{insert_user, get_user}
use asset_pilot_fastapi.Database.{Db, Env}
use asset_pilot_fastapi.Enums.{role_value, UserRole}
use asset_pilot_fastapi.Models.{User}
use asset_pilot_fastapi.Security.{
  TokenType, create_refresh_token, decode_token, create_access_token, Settings, ExtraClaims,
  Libraries,
}
use asset_pilot_fastapi.Result.{
  value_error, not_found, conflict, unauthorized, raise_if, ok, or_raise, Result, ◌>>=◌, ◌>>◌,
}
use asset_pilot_fastapi.Prelude.{
  formatted, [], is_some, not, length, str_eq, true, if◌then◌else◌, Bool, ◌∷◌, List, Option, String,
  ℕ, none, some,
}

-- `user_repository.get_by_email`: the email column is unique, so there is at most one row.
unfoldable pub first_with_email : String → List User → Option User
first_with_email email [] = none
first_with_email email (u ∷ us) = if str_eq u.email email then some u else first_with_email email us

pub record TokenResult : Type 0 where
  pub access_token : String
  pub refresh_token : String
  pub token_type : String

pub record UserProfile : Type 0 where
  pub id : ℕ
  pub name : String
  pub email : String
  pub role : UserRole
  pub manager_id : Option ℕ
  pub is_active : Bool

unfoldable pub claims_for : User → ExtraClaims
claims_for user = record { role = role_value user.role; email = user.email }

unfoldable pub profile_from : User → UserProfile
profile_from user = record {
  id = user.id;
  name = user.name;
  email = user.email;
  role = user.role;
  manager_id = user.manager_id;
  is_active = user.is_active;
}

-- `verify_password`, whose ValueError no handler of the application catches.
unfoldable pub verify_password : Libraries → String → String → Result Bool
verify_password l password hashed = or_raise (l.checkpw password hashed) value_error

-- `user is None or user.password_hash is None or not verify_password(...)`
unfoldable pub refuses_password : Libraries → String → Option User → Result Bool
unfolding verify_password
refuses_password l password none = ok true
refuses_password l password (some user) = elim user.password_hash [
  | none ↦ ok true
  | some hashed ↦ verify_password l password hashed >>= λ passes. ok (not passes)
]

module _ (env : Env) where
  -- The row of a new user.
  unfoldable pub registered : String → String → String → UserRole → Db → User
  registered hashed name email role db = record {
    id = env.new_id (length db.users);
    name = name;
    email = email;
    password_hash = some hashed;
    role = role;
    manager_id = none;
    is_active = true;
    created_at = env.transaction_time;
    updated_at = env.transaction_time;
  }

  -- What `register` writes, with what `hash_password` gives for the password: its hash, or none for a ValueError.
  unfoldable pub register_user :
      Option String → String → String → UserRole → Db → Result (User × Db)
  unfolding registered
  register_user hash name email role db = do
    raise_if (is_some (first_with_email email db.users))
        (conflict (formatted "A user with email '" email "' already exists."))
    hashed ← or_raise hash value_error
    insert_user (registered hashed name email role db) db

module _ (l : Libraries) (settings : Settings) (env : Env) where
  -- The two tokens of a user; each reads the clock.
  unfoldable pub tokens_for : User → TokenResult
  unfolding claims_for
  tokens_for user = record {
    access_token =
        create_access_token l settings (env.clock 0) (l.show_id user.id) (claims_for user);
    refresh_token =
        create_refresh_token l settings (env.clock 1) (l.show_id user.id) (claims_for user);
    token_type = "bearer";
  }

  unfoldable pub authenticate : String → String → Db → Result TokenResult
  authenticate email password db = do
    let found = first_with_email email db.users
    refused ← refuses_password l password found
    raise_if refused (unauthorized "Invalid email or password.")
    user ← or_raise found (unauthorized "Invalid email or password.")
    raise_if (not user.is_active) (unauthorized "This account is inactive.")
    ok (tokens_for user)

  unfoldable pub register :
      String → String → String → UserRole → String → Db → Result (TokenResult × Db)
  unfolding register_user
  register salt name email role password db = do
    (created, db1) ← register_user env (l.hashpw salt password) name email role db
    ok (tokens_for created, db1)

  -- `uuid.UUID(user_id)` inside `try`.
  unfoldable pub parsed_id : String → Result ℕ
  parsed_id user_id =
      or_raise (l.parse_id user_id) (unauthorized "Token subject is not a valid user id.")

  unfoldable pub get_active_user : Option String → Db → Result User
  unfolding parsed_id
  get_active_user user_id db = do
    text ← or_raise user_id (unauthorized "Token is missing a subject claim.")
    k ← parsed_id text
    user ← or_raise (get_user k db) (not_found "User not found.")
    raise_if (not user.is_active) (unauthorized "This account is inactive.")
    ok user

  unfoldable pub refresh : ℕ → String → Db → Result TokenResult
  refresh now refresh_token db = do
    payload ← decode_token l settings now refresh_token TokenType.refresh
    user ← get_active_user payload.sub db
    ok (tokens_for user)

  unfoldable pub get_me : String → Db → Result UserProfile
  unfolding profile_from
  get_me user_id db = do user ← get_active_user (some user_id) db; ok (profile_from user)
