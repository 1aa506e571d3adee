-- ===== src/Examples/Auth.antt =====
-- The theorems on access, applied.
use asset_pilot_fastapi.Properties.Accounts.{register-role, register-authenticate}
use asset_pilot_fastapi.Properties.Deactivation.{deactivate-refresh, deactivate-served}
use asset_pilot_fastapi.Table.{find}
use asset_pilot_fastapi.Properties.Auth.{authenticate-admitted}
use asset_pilot_fastapi.Properties.Access.{
  serve_request-gated, serve_request-gated, tokens_separate,
}
use asset_pilot_fastapi.Enums.{UserRole}
use asset_pilot_fastapi.Repositories.{update_user, get_user, insert_user}
use asset_pilot_fastapi.Api.{serve, reject_call, Call}
use asset_pilot_fastapi.Database.{user_collides, Db}
use asset_pilot_fastapi.Models.{User}
use asset_pilot_fastapi.Security.{create_access_token, TokenPayload, Settings}
use asset_pilot_fastapi.Api.Guard.{with_actor, serve_request, admit}
use asset_pilot_fastapi.Services.Users.{has_active_devices_or_requests, get_user_or_404, deactivate}
use asset_pilot_fastapi.Examples.Libraries.{libraries, libraries-IsLawful}
use asset_pilot_fastapi.Examples.Data.{admin, employee, outside, waiting, value}
use asset_pilot_fastapi.Services.Auth.{
  claims_for, refuses_password, first_with_email, authenticate, register, TokenResult, tokens_for,
  registered, register_user, verify_password,
}
use asset_pilot_fastapi.Services.Auth.{refresh}
use asset_pilot_fastapi.Result.{Error, err, ok, unauthorized, forbidden, raise_if, or_raise, ◌>>=◌}
use asset_pilot_fastapi.Prelude.{
  false, ℕ, refl, ◌⊎◌, ◌⊎◌, arith, true, ◌≡◌, none, [], ◌≡◌, ◌∷◌, some, ◌∷◌, String,
}

abbrev settings : Settings
settings = record {
  jwt_secret_key = "secret";
  jwt_issuer = "asset-pilot";
  jwt_access_token_expire_minutes = 1;
  jwt_refresh_token_expire_minutes = 2;
}

-- The administrator with a password.
abbrev known : User
known = record admin { password_hash = libraries.hashpw "salt" "pw" }

abbrev accounts : Db
accounts = record waiting { users = known ∷ employee ∷ [] }

abbrev tokens : TokenResult
tokens =
    value (record { access_token = ""; refresh_token = ""; token_type = "" })
      (authenticate libraries settings outside "ada@example.com" "pw" accounts)

authenticate-admitted_example :
    (user : User) × (hashed : String) × (first_with_email "ada@example.com" accounts.users
      ≡ some user)
    × (user.is_active ≡ true)
    × (user.password_hash ≡ some hashed)
    × (libraries.checkpw "pw" hashed ≡ some true)
    × (((user.role ≡ UserRole.it_admin)
          × (admitted : TokenPayload) × (admit libraries settings 60 (some tokens.access_token)
              ≡ ok admitted)
          × (libraries.parse_id admitted.subject ≡ some user.id))
        ⊎ (¬ (user.role ≡ UserRole.it_admin)
            × (admit libraries settings 60 (some tokens.access_token)
                ≡ err (forbidden "IT Admin role is required for this action."))))
unfolding authenticate first_with_email refuses_password verify_password raise_if or_raise ◌>>=◌
authenticate-admitted_example =
    authenticate-admitted libraries libraries-IsLawful settings outside "ada@example.com" "pw"
      accounts tokens 60 refl (ground arith) (ground arith)

abbrev rejecting : Call
rejecting = reject_call 20 "no" none 99

abbrev admin_token : String
admin_token = create_access_token libraries settings 8 (libraries.show_id 1) (claims_for known)

serve_request-gated_example :
    ((e : Error) × (admit libraries settings 9 (some admin_token) ≡ err e)
      × (serve_request libraries settings outside 9 (some admin_token) rejecting accounts
          ≡ (some e, accounts)))
    ⊎ ((admin : TokenPayload) × (admit libraries settings 9 (some admin_token) ≡ ok admin)
        × ((actor : ℕ)
            → libraries.parse_id admin.subject ≡ some actor
            → serve_request libraries settings outside 9 (some admin_token) rejecting accounts
              ≡ serve outside (with_actor actor rejecting) accounts))
serve_request-gated_example =
    serve_request-gated libraries settings outside 9 (some admin_token) rejecting accounts

tokens_separate_example :
    (message : String) × (message' : String) × (admit libraries settings 9
        (some (tokens_for libraries settings outside known).refresh_token)
      ≡ err (unauthorized message))
    × (refresh libraries settings outside 9
          (tokens_for libraries settings outside known).access_token
          accounts
        ≡ err (unauthorized message'))
tokens_separate_example =
    tokens_separate libraries libraries-IsLawful settings outside known 9 accounts (ground arith)
      (ground arith)

abbrev joined : TokenResult × Db
joined =
    value (tokens, accounts)
      (register libraries settings outside "salt" "Bob" "bob@example.com" UserRole.it_admin "word"
        accounts)

register-authenticate_example :
    (user : User) × (first_with_email "bob@example.com" accounts.users ≡ none)
    × (first_with_email "bob@example.com" joined.1.users ≡ some user)
    × (user.role ≡ UserRole.it_admin)
    × (user.name ≡ "Bob")
    × (authenticate libraries settings outside "bob@example.com" "word" joined.1
        ≡ ok (tokens_for libraries settings outside user))
unfolding register register_user registered first_with_email insert_user user_collides find raise_if
    or_raise ◌>>=◌
register-authenticate_example =
    register-authenticate libraries settings outside outside "salt" "Bob" "bob@example.com"
      UserRole.it_admin "word" accounts joined.1 joined.0 libraries-IsLawful refl

register-role_example :
    (created : TokenResult) × (db' : Db) × (user : User) × (register libraries settings outside
        "salt" "Bob" "bob@example.com" UserRole.it_admin "word" accounts
      ≡ ok (created, db'))
    × (get_user user.id db' ≡ some user)
    × (user.email ≡ "bob@example.com")
    × (user.is_active ≡ true)
    × (user.role ≡ UserRole.it_admin)
    × (((UserRole.it_admin ≡ UserRole.it_admin)
          × (admitted : TokenPayload) × (admit libraries settings 9 (some created.access_token)
              ≡ ok admitted)
          × (libraries.parse_id admitted.subject ≡ some user.id))
        ⊎ (¬ (UserRole.it_admin ≡ UserRole.it_admin)
            × (admit libraries settings 9 (some created.access_token)
                ≡ err (forbidden "IT Admin role is required for this action."))))
unfolding first_with_email get_user find
register-role_example =
    register-role libraries settings outside "salt" "Bob" "bob@example.com" UserRole.it_admin "word"
      accounts 9 libraries-IsLawful (ground arith) refl refl (ground arith) (ground arith)

abbrev without : User × Db
without = value (known, accounts) (deactivate outside 1 accounts)

deactivate-refresh_example :
    (message : String) × (refresh libraries settings outside 9
        (tokens_for libraries settings outside known).refresh_token
        without.1
      ≡ err (unauthorized message))
unfolding deactivate get_user_or_404 get_user has_active_devices_or_requests update_user
    user_collides find raise_if or_raise ◌>>=◌
deactivate-refresh_example =
    deactivate-refresh libraries libraries-IsLawful settings outside outside outside known accounts
      without.1 without.0 9 refl (ground arith)

deactivate-served_example :
    (get_user 1 without.1 ≡ some without.0)
    × (without.0.is_active ≡ false)
    × (serve_request libraries settings outside 9
          (some (tokens_for libraries settings outside known).access_token)
          rejecting
          without.1
        ≡ serve outside (with_actor 1 rejecting) without.1)
unfolding deactivate get_user_or_404 get_user has_active_devices_or_requests update_user
    user_collides find raise_if or_raise ◌>>=◌
deactivate-served_example =
    deactivate-served libraries libraries-IsLawful settings outside outside outside known accounts
      without.1 without.0 9 rejecting refl refl (ground arith) (ground arith)
