-- ===== src/Properties/Access.antt =====
-- What a request may do: the gate in front of the endpoints, and what becomes of tokens.
use asset_pilot_fastapi.Result.Ensures.{Result-cases}
use asset_pilot_fastapi.Security.Laws.{create_token_text, decode_token-other_type}
use asset_pilot_fastapi.Models.{User}
use asset_pilot_fastapi.Services.Auth.{claims_for, tokens_for, refresh}
use asset_pilot_fastapi.Api.{Call, update_booking_range_call}
use asset_pilot_fastapi.Database.{Db, Env}
use asset_pilot_fastapi.Api.{handle, Call, commit, serve, is_invalid}
use asset_pilot_fastapi.Security.{
  TokenType, create_refresh_token, create_access_token, TokenPayload, bearer, get_current_user,
  Settings, IsLawful, Libraries,
}
use asset_pilot_fastapi.Api.Guard.{is_anonymous, acting, admit, with_actor, guarded, serve_request}
use asset_pilot_fastapi.Result.{unauthorized, Error, raise_if, or_raise, ◌>>=◌, ok, err}
use asset_pilot_fastapi.Prelude.{
  inr, inl, ◌⊎◌, ◌⊎◌, ◌≤◌, ◌≤◌, true, refl, arith, String, Option, ◌≡◌, ◌≡◌, ℕ, some,
}

is_invalid-with_actor : (a : ℕ) (call : Call) → is_invalid (with_actor a call) ≡ is_invalid call
unfolding is_invalid with_actor
is_invalid-with_actor a (update_booking_range_call r from to) = refl
is_invalid-with_actor a _ = refl

with_actor-anonymous : (a : ℕ) (call : Call) → is_anonymous call ≡ true → with_actor a call ≡ call
unfolding is_anonymous with_actor
with_actor-anonymous a (update_booking_range_call r from to) h = refl
with_actor-anonymous a _ h = ground arith

-- A request is refused at the gate, with the gate's error and nothing changed, whatever it asks for; or the gate admits it, and where the subject of its token is a user's id it is served as this user's call: as if the service were called with this id as the actor, whatever actor the request claims.
pub serve_request-gated :
    (l : Libraries) (settings : Settings) (env : Env) (now : ℕ) (credentials : Option String)
    (call : Call) (db : Db)
    → ((e : Error) × (admit l settings now credentials ≡ err e)
        × (serve_request l settings env now credentials call db ≡ (some e, db)))
      ⊎ ((admin : TokenPayload) × (admit l settings now credentials ≡ ok admin)
          × ((actor : ℕ)
              → l.parse_id admin.subject ≡ some actor
              → serve_request l settings env now credentials call db
                ≡ serve env (with_actor actor call) db))
unfolding serve_request guarded commit serve handle acting or_raise ◌>>=◌ raise_if
serve_request-gated l settings env now credentials call db =
    elim (Result-cases (admit l settings now credentials)) [
      | inl (admin, admitted) ↦ inr (
        admin,
        admitted,
        λ actor parsed. ground (
          arith,
          admitted,
          parsed,
          is_invalid-with_actor actor call,
          with_actor-anonymous actor call,
        ),
      )
      | inr (e, refused) ↦ inl (e, refused, ground (arith, refused))
    ]

module _ (l : Libraries) (lawful : IsLawful l) (settings : Settings) where
  -- The two tokens of a user are not interchangeable: from their issue on, a request that bears the refresh token is unauthorized, and so is a refresh with the access token.
  pub tokens_separate :
      (env : Env) (user : User) (now : ℕ) (db : Db)
      → env.clock 0 ≤ now
      → env.clock 1 ≤ now
      → (message : String) × (message' : String) × (admit l settings now
            (some (tokens_for l settings env user).refresh_token)
          ≡ err (unauthorized message))
        × (refresh l settings env now (tokens_for l settings env user).access_token db
            ≡ err (unauthorized message'))
  unfolding admit get_current_user bearer refresh tokens_for create_access_token
      create_refresh_token raise_if or_raise ◌>>=◌
  tokens_separate env user now db first second =
      let (message, other) =
        decode_token-other_type l lawful settings now (env.clock 1) (l.show_id user.id)
          TokenType.refresh TokenType.access settings.jwt_refresh_token_expire_minutes
          (claims_for user) refl second in
      let (message', other') =
        decode_token-other_type l lawful settings now (env.clock 0) (l.show_id user.id)
          TokenType.access TokenType.refresh settings.jwt_access_token_expire_minutes
          (claims_for user) refl first in
      (
        message,
        message',
        ground (
          arith,
          other,
          create_token_text l lawful settings (env.clock 1) (l.show_id user.id) TokenType.refresh
              settings.jwt_refresh_token_expire_minutes (claims_for user),
        ),
        ground (arith, other'),
      )
