-- ===== src/Properties/Deactivation.antt =====
-- What a user who has been deactivated can still do: app/services/user_service.py with the gate.
use asset_pilot_fastapi.Properties.Access.{serve_request-gated}
use asset_pilot_fastapi.Table.Laws.{find-replace_found}
use asset_pilot_fastapi.Security.Laws.{decode_token-expired, decode_token-create_token}
use asset_pilot_fastapi.Properties.Users.{deactivate-blocked, deactivate-ok}
use asset_pilot_fastapi.Repositories.{get_user}
use asset_pilot_fastapi.Properties.Auth.{admit-tokens_for}
use asset_pilot_fastapi.Services.Users.{deactivate}
use asset_pilot_fastapi.Result.Ensures.{of_Ensures}
use asset_pilot_fastapi.Enums.{UserRole}
use asset_pilot_fastapi.Models.{User}
use asset_pilot_fastapi.Database.{user_key, Db, Env}
use asset_pilot_fastapi.Security.{
  TokenType, TokenPayload, IsLawful, token_payload, create_refresh_token, Settings, Libraries,
}
use asset_pilot_fastapi.Api.Guard.{with_actor, serve_request}
use asset_pilot_fastapi.Services.Auth.{claims_for, tokens_for, parsed_id, get_active_user, refresh}
use asset_pilot_fastapi.Result.{unauthorized, or_raise, raise_if, ◌>>=◌, ok, err}
use asset_pilot_fastapi.Api.{Call, serve}
use asset_pilot_fastapi.Prelude.{
  sym, ◌∙◌, ◌∙◌, inr, inl, ltb, ap, Bool-cases, false, ◌*◌, ◌*◌, ◌+◌, arith, ◌+◌, ◌<◌, ◌<◌, ◌≤◌,
  ◌≤◌, ◌≡◌, ◌≡◌, String, ℕ, some,
}

module _ (l : Libraries) (lawful : IsLawful l) (settings : Settings) (issuing env env' : Env)
    (user : User) (db db' : Db) (result : User) (now : ℕ) where
  -- If `deactivate` returns, no refresh token that was ever given to the user, with whatever role and email, is of any use: refreshing with it is unauthorized, before it expires and after.
  pub deactivate-refresh :
      deactivate env user.id db ≡ ok (result, db')
      → issuing.clock 1 ≤ now
      → (message : String) × (refresh l settings env' now
            (tokens_for l settings issuing user).refresh_token
            db'
          ≡ err (unauthorized message))
  unfolding refresh get_active_user parsed_id get_user tokens_for create_refresh_token raise_if
      or_raise ◌>>=◌ token_payload
  deactivate-refresh h issued =
      let (old, found, free, stamped, database) =
        of_Ensures (deactivate-ok env user.id db) (result, db') h in
      let expiry = issuing.clock 1 + settings.jwt_refresh_token_expire_minutes * 60 in
      elim (Bool-cases (ltb now expiry)) [
        | inl live ↦ (
          "This account is inactive.",
          ground (
            arith,
            decode_token-create_token l lawful settings now (issuing.clock 1) (l.show_id user.id)
                TokenType.refresh settings.jwt_refresh_token_expire_minutes (claims_for user) issued
                (ground (arith, live)),
            lawful.parse_id-show_id user.id,
            stamped,
            database,
            find-replace_found user_key result user.id db.users {old = old} found,
          ),
        )
        | inr dead ↦ (
          "Token has expired.",
          ground (
            arith,
            decode_token-expired l lawful settings now (issuing.clock 1) (l.show_id user.id)
                TokenType.refresh TokenType.refresh settings.jwt_refresh_token_expire_minutes
                (claims_for user) (ground (arith, dead)),
          ),
        )
      ]

  -- An administrator who has been deactivated keeps every right until their access token expires: if `deactivate` returns, the user is stored as inactive, and yet a request that bears an access token which they were given as an administrator is served as their call, whatever it asks for, as if the service were called with their id as the actor.
  pub deactivate-served :
      (call : Call)
      → deactivate env user.id db ≡ ok (result, db')
      → user.role ≡ UserRole.it_admin
      → issuing.clock 0 ≤ now
      → now < issuing.clock 0 + settings.jwt_access_token_expire_minutes * 60
      → (get_user user.id db' ≡ some result)
        × (result.is_active ≡ false)
        × (serve_request l settings env' now
              (some (tokens_for l settings issuing user).access_token)
              call
              db'
            ≡ serve env' (with_actor user.id call) db')
  deactivate-served call h role issued live =
      let (stored, inactive, devices, requests) = deactivate-blocked env user.id db db' result h in
      let (admitted, passes, own) =
        admit-tokens_for l lawful settings issuing user now role issued live in
      let credentials = some (tokens_for l settings issuing user).access_token in
      (
        stored,
        inactive,
        elim (serve_request-gated l settings env' now credentials call db') [
          | inl (e, refused, answer) ↦ cc
          | inr (admin, admits, served) ↦
              let same : admitted ≡ admin = ground (arith, passes, admits) in
              served user.id (ap (λ (t : TokenPayload). l.parse_id t.subject) (sym same) ∙ own)
        ],
      )
