-- ===== src/Properties/Accounts.antt =====
-- Accounts: registration, login and deactivation together.

use asset_pilot_fastapi.Table.Laws.{find-append}
use asset_pilot_fastapi.Repositories.{insert_user, get_user}
use asset_pilot_fastapi.Properties.Auth.{gated_by_role}
use asset_pilot_fastapi.Repositories.Laws.{insert_user-ok}
use asset_pilot_fastapi.Result.Ensures.{
  all_Ensures, or_raise-Ensures, then-Ensures, returns, raise_if-Ensures, of_Ensures, Ensures,
}
use asset_pilot_fastapi.Enums.{UserRole}
use asset_pilot_fastapi.Models.{User}
use asset_pilot_fastapi.Database.{user_collides, user_key, Db, Env}
use asset_pilot_fastapi.Security.{TokenPayload, IsLawful, Settings, Libraries}
use asset_pilot_fastapi.Api.Guard.{admit}
use asset_pilot_fastapi.Services.Auth.{
  verify_password, register_user, TokenResult, tokens_for, registered, refuses_password,
  authenticate, register, first_with_email,
}
use asset_pilot_fastapi.Result.{or_raise, raise_if, ◌>>=◌, ok, err}
use Prim.Native.String.{len}
use asset_pilot_fastapi.Result.{forbidden}
use asset_pilot_fastapi.Prelude.{
  ==_refl, sym, ◌∙◌, ◌∙◌, inr, ◌⊎◌, ◌⊎◌, inl, Option, ap, any, Bool-cases, false, length, refl, ◌*◌,
  ◌*◌, ◌+◌, arith, ◌+◌, ◌<◌, str_eq_iff, [], ◌<◌, ◌≤◌, ◌∷◌, ◌∷◌, ◌≤◌, ◌++◌, ◌++◌, true, str_eq, ◌≡◌,
  ◌≡◌, List, String, ℕ, none, some,
}

first_with_email-append :
    (email : String) (users : List User) (u : User)
    → first_with_email email users ≡ none
    → str_eq u.email email ≡ true
    → first_with_email email (users ++ u ∷ []) ≡ some u
unfolding first_with_email
first_with_email-append email [] u h e = ground (arith, e)
first_with_email-append email (x ∷ xs) u h e =
    ground (arith, e, h, first_with_email-append email xs u)

-- What a registration that goes through stores.
register_user-ok :
    (env : Env) (hash : Option String) (name email : String) (role : UserRole) (db : Db)
    → Ensures
        (λ p.
          (hashed : String) × (hash ≡ some hashed)
          × (first_with_email email db.users ≡ none)
          × (p.0 ≡ registered env hashed name email role db)
          × (p.1 ≡ record db { users = db.users ++ registered env hashed name email role db ∷ [] }))
        (register_user env hash name email role db)
unfolding register_user
register_user-ok env hash name email role db = raise_if-Ensures _ _ _ λ fresh.
    or_raise-Ensures _ _ _ λ hashed is_hash. all_Ensures _ λ p wrote.
      let (same_row, database) = insert_user-ok _ db {row = p.0} {db' = p.1} wrote in
      (hashed, is_hash, ground (arith, fresh), same_row, database)

register-ok :
    (l : Libraries) (settings : Settings) (env : Env) (salt name email : String) (role : UserRole)
    (password : String) (db : Db)
    → Ensures
        (λ p.
          (hashed : String) × (l.hashpw salt password ≡ some hashed)
          × (first_with_email email db.users ≡ none)
          × (p.0 ≡ tokens_for l settings env (registered env hashed name email role db))
          × (p.1 ≡ record db { users = db.users ++ registered env hashed name email role db ∷ [] }))
        (register l settings env salt name email role password db)
unfolding register
register-ok l settings env salt name email role password db =
    then-Ensures _ _ (register_user-ok env (l.hashpw salt password) name email role db)
      λ p (hashed, is_hash, fresh, row, database).
        returns (hashed, is_hash, fresh, ap (tokens_for l settings env) row, database)

-- If `register` returns, nobody had the email; and with the email and the password, `authenticate` then returns tokens of the new user, whose role is the one that was asked for.
pub register-authenticate :
    (l : Libraries) (settings : Settings) (env env' : Env) (salt name email : String)
    (role : UserRole) (password : String) (db db' : Db) (tokens : TokenResult)
    → IsLawful l
    → register l settings env salt name email role password db ≡ ok (tokens, db')
    → (user : User) × (first_with_email email db.users ≡ none)
      × (first_with_email email db'.users ≡ some user)
      × (user.role ≡ role)
      × (user.name ≡ name)
      × (authenticate l settings env' email password db' ≡ ok (tokens_for l settings env' user))
unfolding authenticate refuses_password verify_password raise_if or_raise ◌>>=◌ registered
register-authenticate l settings env env' salt name email role password db db' tokens lawful h =
    let (hashed, is_hash, fresh, same, database) =
      of_Ensures (register-ok l settings env salt name email role password db) (tokens, db') h in
    let user = registered env hashed name email role db in
    let stored =
      first_with_email-append email db.users user fresh ((str_eq_iff email email).1 refl) in
    (
      user,
      fresh,
      ground (arith, stored, database),
      refl,
      refl,
      ground (arith, stored, database, lawful.checkpw-hashpw salt password hashed is_hash),
    )

other_text : (s t : String) → str_eq t s ≡ false → str_eq s t ≡ false
other_text s t h = elim (Bool-cases (str_eq s t)) [
  | inl e ↦ (let same = (str_eq_iff t s).1 (sym ((str_eq_iff s t).0 e)) in cc)
  | inr e ↦ e
]

-- No stored user has an email that `get_by_email` does not find.
email_free :
    (u : User) (users : List User)
    → first_with_email u.email users ≡ none
    → any (user_collides u) users ≡ false
unfolding first_with_email user_collides
email_free u [] h = refl
email_free u (x ∷ xs) h = elim (Bool-cases (str_eq x.email u.email)) [
  | inl e ↦ ground (arith, e, h)
  | inr e ↦ ground (arith, e, h, email_free u xs, other_text u.email x.email e)
]

-- Whoever registers gets the role that they ask for. With a password of at most 72 bytes, an email that nobody has and a new id that is free, `register` returns; the user is stored, active and with the role that was asked for; and until it expires, the access token is admitted to the endpoints of administrators, with the user's id as its subject, exactly if that role is IT administrator, and is forbidden otherwise.
pub register-role :
    (l : Libraries) (settings : Settings) (env : Env) (salt name email : String) (role : UserRole)
    (password : String) (db : Db) (now : ℕ)
    → IsLawful l
    → len password ≤ 72
    → first_with_email email db.users ≡ none
    → get_user (env.new_id (length db.users)) db ≡ none
    → env.clock 0 ≤ now
    → now < env.clock 0 + settings.jwt_access_token_expire_minutes * 60
    → (tokens : TokenResult) × (db' : Db) × (user : User) × (register l settings env salt name email
          role password db
        ≡ ok (tokens, db'))
      × (get_user user.id db' ≡ some user)
      × (user.email ≡ email)
      × (user.is_active ≡ true)
      × (user.role ≡ role)
      × (((role ≡ UserRole.it_admin)
            × (admitted : TokenPayload) × (admit l settings now (some tokens.access_token)
                ≡ ok admitted)
            × (l.parse_id admitted.subject ≡ some user.id))
          ⊎ (¬ (role ≡ UserRole.it_admin)
              × (admit l settings now (some tokens.access_token)
                  ≡ err (forbidden "IT Admin role is required for this action."))))
unfolding register register_user registered insert_user get_user raise_if or_raise ◌>>=◌
register-role l settings env salt name email role password db now lawful short fresh free issued
      live =
    let (hashed, is_hash) = lawful.hashpw_short salt password short in
    let user = registered env hashed name email role db in
    (
      tokens_for l settings env user,
      record db { users = db.users ++ user ∷ [] },
      user,
      ground (arith, is_hash, fresh, free, email_free user db.users fresh),
      find-append user_key user user.id db.users ∙ ground (arith, free, ==_refl user.id),
      refl,
      refl,
      refl,
      gated_by_role l lawful settings env user now issued live,
    )
