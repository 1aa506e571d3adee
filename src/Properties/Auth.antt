-- ===== src/Properties/Auth.antt =====
-- Who gets in: app/services/auth_service.py, app/core/security.py and app/api/v1/dependencies.py.
use asset_pilot_fastapi.Security.Laws.{create_token_text, decode_token-create_token}
use asset_pilot_fastapi.Result.Ensures.{
  bind-Ensures, returns, or_raise-Ensures, raise_if-Ensures, Ensures, of_Ensures,
}
use asset_pilot_fastapi.Enums.{role_value, UserRole}
use asset_pilot_fastapi.Models.{User}
use asset_pilot_fastapi.Database.{Db, Env}
use asset_pilot_fastapi.Services.Auth.{
  verify_password, claims_for, first_with_email, TokenResult, refuses_password, tokens_for,
  authenticate,
}
use asset_pilot_fastapi.Api.Guard.{admit}
use asset_pilot_fastapi.Security.{
  require_it_admin, TokenPayload, TokenType, token_payload, create_access_token, bearer,
  get_current_user, Settings, IsLawful, Libraries,
}
use asset_pilot_fastapi.Result.{forbidden, or_raise, raise_if, ◌>>=◌, ok, err}
use asset_pilot_fastapi.Prelude.{
  none, false, Option, refl, Option-cases, inr, inl, arith, ◌⊎◌, ◌⊎◌, true, ◌*◌, ◌*◌, ◌≡◌, ◌+◌, ◌≡◌,
  ◌+◌, ◌<◌, ◌<◌, ◌≤◌, ◌≤◌, String, ℕ, some,
}

-- The role claim decides the gate.
require_it_admin-role :
    (p : TokenPayload) (role : UserRole)
    → p.claims.role ≡ some (role_value role)
    → ((role ≡ UserRole.it_admin) × (require_it_admin p ≡ ok p))
      ⊎ (¬ (role ≡ UserRole.it_admin)
          × (require_it_admin p ≡ err (forbidden "IT Admin role is required for this action.")))
unfolding require_it_admin role_value raise_if ◌>>=◌
require_it_admin-role p UserRole.employee e = inr (λ q. cc, ground arith)
require_it_admin-role p UserRole.manager e = inr (λ q. cc, ground arith)
require_it_admin-role p UserRole.it_admin e = inl (refl, ground arith)

-- A password that is not refused is that of the user.
accepted_password :
    (l : Libraries) (password : String) (found : Option User) (user : User)
    → refuses_password l password found ≡ ok false
    → found ≡ some user
    → (hashed : String) × (user.password_hash ≡ some hashed)
      × (l.checkpw password hashed ≡ some true)
unfolding refuses_password verify_password or_raise ◌>>=◌
accepted_password l password none user h e = cc
accepted_password l password (some u) user h e = elim (Option-cases u.password_hash) [
  | inl none_stored ↦ ground (arith, none_stored, h)
  | inr (hashed, stored) ↦ elim (Option-cases (l.checkpw password hashed)) [
    | inl raised ↦ ground (arith, stored, raised, h)
    | inr (passes, checked) ↦
        (hashed, ground (arith, stored, e), ground (arith, stored, checked, h))
  ]
]

-- What a login that goes through has found.
authenticate-ok :
    (l : Libraries) (settings : Settings) (env : Env) (email password : String) (db : Db)
    → Ensures
        (λ tokens.
          (user : User) × (hashed : String) × (first_with_email email db.users ≡ some user)
          × (user.is_active ≡ true)
          × (user.password_hash ≡ some hashed)
          × (l.checkpw password hashed ≡ some true)
          × (tokens ≡ tokens_for l settings env user))
        (authenticate l settings env email password db)
unfolding authenticate
authenticate-ok l settings env email password db = bind-Ensures _ _ λ refused asked.
    raise_if-Ensures _ _ _ λ accepted. or_raise-Ensures _ _ _ λ user found.
      raise_if-Ensures _ _ _ λ active.
        let (hashed, stored, passed) =
          accepted_password l password (first_with_email email db.users) user
            (ground (arith, asked, accepted)) found in
        returns (user, hashed, found, ground arith, stored, passed, refl)

module _ (l : Libraries) (lawful : IsLawful l) (settings : Settings) where
  -- The access token of a user is admitted as theirs until it expires.
  get_current_user-tokens_for :
      (env : Env) (user : User) (now : ℕ)
      → env.clock 0 ≤ now
      → now < env.clock 0 + settings.jwt_access_token_expire_minutes * 60
      → get_current_user l settings now (some (tokens_for l settings env user).access_token)
        ≡ ok (record {
          subject = l.show_id user.id;
          claims =
              token_payload l settings
                (env.clock 0)
                (l.show_id user.id)
                TokenType.access
                settings.jwt_access_token_expire_minutes
                (claims_for user);
        })
  unfolding token_payload get_current_user bearer tokens_for create_access_token raise_if or_raise
      ◌>>=◌
  get_current_user-tokens_for env user now issued live = ground (
    arith,
    decode_token-create_token l lawful settings now (env.clock 0) (l.show_id user.id)
        TokenType.access settings.jwt_access_token_expire_minutes (claims_for user) issued live,
    create_token_text l lawful settings (env.clock 0) (l.show_id user.id) TokenType.access
        settings.jwt_access_token_expire_minutes (claims_for user),
    lawful.show_id_text user.id,
  )

  -- Until it expires, the access token of a user is admitted exactly if they are an administrator.
  pub gated_by_role :
      (env : Env) (user : User) (now : ℕ)
      → env.clock 0 ≤ now
      → now < env.clock 0 + settings.jwt_access_token_expire_minutes * 60
      → ((user.role ≡ UserRole.it_admin)
          × (admitted : TokenPayload) × (admit l settings now
                (some (tokens_for l settings env user).access_token)
              ≡ ok admitted)
          × (l.parse_id admitted.subject ≡ some user.id))
        ⊎ (¬ (user.role ≡ UserRole.it_admin)
            × (admit l settings now (some (tokens_for l settings env user).access_token)
                ≡ err (forbidden "IT Admin role is required for this action.")))
  unfolding admit token_payload claims_for ◌>>=◌
  gated_by_role env user now issued live =
      let current = get_current_user-tokens_for env user now issued live in
      let admitted : TokenPayload = record {
        subject = l.show_id user.id;
        claims =
            token_payload l settings (env.clock 0) (l.show_id user.id) TokenType.access
              settings.jwt_access_token_expire_minutes (claims_for user);
      } in
      elim (require_it_admin-role admitted user.role refl) [
        | inl (role, passes) ↦
            inl (role, admitted, ground (arith, current, passes), lawful.parse_id-show_id user.id)
        | inr (role, refuses) ↦ inr (role, ground (arith, current, refuses))
      ]

  -- The gate admits an administrator's access token until it expires.
  pub admit-tokens_for :
      (env : Env) (user : User) (now : ℕ)
      → user.role ≡ UserRole.it_admin
      → env.clock 0 ≤ now
      → now < env.clock 0 + settings.jwt_access_token_expire_minutes * 60
      → (admitted : TokenPayload) × (admit l settings now
            (some (tokens_for l settings env user).access_token)
          ≡ ok admitted)
        × (l.parse_id admitted.subject ≡ some user.id)
  admit-tokens_for env user now role issued live = elim (gated_by_role env user now issued live) [
    | inl (same, admitted, passes, own) ↦ (admitted, passes, own)
    | inr (other, refuses) ↦ absurd (other role)
  ]

  -- If `authenticate` returns, the email is that of a stored and active user whose stored hash the password passes; and until its access token expires, a request that bears it is admitted exactly if the user is an IT administrator, with the user's id as its subject, and is forbidden otherwise.
  pub authenticate-admitted :
      (env : Env) (email password : String) (db : Db) (tokens : TokenResult) (now : ℕ)
      → authenticate l settings env email password db ≡ ok tokens
      → env.clock 0 ≤ now
      → now < env.clock 0 + settings.jwt_access_token_expire_minutes * 60
      → (user : User) × (hashed : String) × (first_with_email email db.users ≡ some user)
        × (user.is_active ≡ true)
        × (user.password_hash ≡ some hashed)
        × (l.checkpw password hashed ≡ some true)
        × (((user.role ≡ UserRole.it_admin)
              × (admitted : TokenPayload) × (admit l settings now (some tokens.access_token)
                  ≡ ok admitted)
              × (l.parse_id admitted.subject ≡ some user.id))
            ⊎ (¬ (user.role ≡ UserRole.it_admin)
                × (admit l settings now (some tokens.access_token)
                    ≡ err (forbidden "IT Admin role is required for this action."))))
  authenticate-admitted env email password db tokens now h issued live =
      let (user, hashed, found, active, stored, passed, same) =
        of_Ensures (authenticate-ok l settings env email password db) tokens h in
      (
        user,
        hashed,
        found,
        active,
        stored,
        passed,
        rw same (gated_by_role env user now issued live),
      )
