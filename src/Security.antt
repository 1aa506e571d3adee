-- ===== src/Security.antt =====
-- app/core/security.py, with the settings of app/core/config.py that it reads: passwords, tokens and
-- the bearer of a request. A token's times are whole seconds, as PyJWT writes them.
pub mod Laws
use asset_pilot_fastapi.Enums.{UserRole, role_value}
use asset_pilot_fastapi.Result.{forbidden, raise_if, or_raise, ◌>>=◌, ◌>>◌}
use asset_pilot_fastapi.Result.{unauthorized, ok, err, Result}
use Prim.Native.String.{len}
use asset_pilot_fastapi.Prelude.{
  not, ◌<◌, ◌<◌, ◌≤◌, ◌≤◌, str_eq, ◌*◌, false, ◌*◌, true, ◌+◌, ◌≡◌, ◌+◌, Bool, ◌≡◌, Option, String,
  ℕ, none, some,
}

-- A token's claims: those that the code writes or reads.
pub record Payload : Type 0 where
  pub sub : Option String
  pub type : Option String
  pub iat : ℕ
  pub exp : ℕ
  pub iss : String
  pub role : Option String
  pub email : Option String

-- What `jwt.decode` gives: the claims, ExpiredSignatureError, or another InvalidTokenError.
pub data Decoded : Type 0 where
  decoded : Payload → Decoded
  expired invalid_token : Decoded

-- bcrypt, PyJWT and Python's uuid: a hash of a password under a salt, and its check, where none is the
-- ValueError that bcrypt raises for a password that is too long or a hash that is none; a token of claims
-- under a key, and its verification at a time under a key and for an issuer; a UUID as text, and back.
pub record Libraries : Type 0 where
  pub hashpw : String → String → Option String
  pub checkpw : String → String → Option Bool
  pub encode : Payload → String → String
  pub decode : ℕ → String → String → String → Decoded
  pub show_id : ℕ → String
  pub parse_id : String → Option ℕ

-- What the code relies on: a password of at most 72 bytes has a hash, and a password passes the check of its
-- hash; a token verifies under its key and
-- for its issuer from its issue until it expires, and is expired from then on; a UUID is read back from its text;
-- and neither a token nor such a text is empty.
pub record IsLawful (l : Libraries) : Type 0 where
  pub hashpw_short :
      (salt password : String)
      → len password ≤ 72
      → (hashed : String) × (l.hashpw salt password ≡ some hashed)
  pub checkpw-hashpw :
      (salt password hashed : String)
      → l.hashpw salt password ≡ some hashed
      → l.checkpw password hashed ≡ some true
  pub decode-encode :
      (now : ℕ) (key : String) (p : Payload)
      → p.iat ≤ now
      → now < p.exp
      → l.decode now key p.iss (l.encode p key) ≡ decoded p
  pub decode-encode_expired :
      (now : ℕ) (key : String) (p : Payload)
      → p.iat ≤ now
      → p.exp ≤ now
      → l.decode now key p.iss (l.encode p key) ≡ expired
  pub encode_text : (p : Payload) (key : String) → str_eq (l.encode p key) "" ≡ false
  pub parse_id-show_id : (k : ℕ) → l.parse_id (l.show_id k) ≡ some k
  pub show_id_text : (k : ℕ) → str_eq (l.show_id k) "" ≡ false

pub record Settings : Type 0 where
  pub jwt_secret_key : String
  pub jwt_issuer : String
  pub jwt_access_token_expire_minutes : ℕ
  pub jwt_refresh_token_expire_minutes : ℕ

pub data TokenType : Type 0 where
  access refresh : TokenType

abbrev pub token_type_value : TokenType → String
token_type_value TokenType.access = "access"
token_type_value TokenType.refresh = "refresh"

-- `extra_claims`: the role and the email of a user.
pub record ExtraClaims : Type 0 where
  pub role : String
  pub email : String

pub record TokenPayload : Type 0 where
  pub subject : String
  pub claims : Payload

-- A claim that is there and has the expected text.
abbrev pub claim_is : Option String → String → Bool
claim_is none expected = false
claim_is (some s) expected = str_eq s expected

module _ (l : Libraries) (settings : Settings) where
  unfoldable pub token_payload : ℕ → String → TokenType → ℕ → ExtraClaims → Payload
  token_payload now subject type minutes extra_claims = record {
    sub = some subject;
    type = some (token_type_value type);
    iat = now;
    exp = now + minutes * 60;
    iss = settings.jwt_issuer;
    role = some extra_claims.role;
    email = some extra_claims.email;
  }

  unfoldable pub create_token : ℕ → String → TokenType → ℕ → ExtraClaims → String
  unfolding token_payload
  create_token now subject type minutes extra_claims =
      l.encode (token_payload now subject type minutes extra_claims) settings.jwt_secret_key

  unfoldable pub create_access_token : ℕ → String → ExtraClaims → String
  create_access_token now subject extra_claims =
      create_token now subject TokenType.access settings.jwt_access_token_expire_minutes
        extra_claims

  unfoldable pub create_refresh_token : ℕ → String → ExtraClaims → String
  create_refresh_token now subject extra_claims =
      create_token now subject TokenType.refresh settings.jwt_refresh_token_expire_minutes
        extra_claims

  -- What the two `except` clauses make of a failure to verify.
  unfoldable pub verified : Decoded → Result Payload
  verified (decoded p) = ok p
  verified expired = err (unauthorized "Token has expired.")
  verified invalid_token = err (unauthorized "Token is invalid.")

  unfoldable pub decode_token : ℕ → String → TokenType → Result Payload
  unfolding verified
  decode_token now token expected_type = do
    payload ← verified (l.decode now settings.jwt_secret_key settings.jwt_issuer token)
    raise_if (not (claim_is payload.type (token_type_value expected_type)))
        (unauthorized "Token type is not valid for this operation.")
    ok payload

  -- The credentials of the `Authorization` header, or the error if there are none.
  unfoldable pub bearer : Option String → Result String
  bearer none = err (unauthorized "Missing bearer token.")
  bearer (some token) = do
    raise_if (str_eq token "") (unauthorized "Missing bearer token.")
    ok token

  unfoldable pub get_current_user : ℕ → Option String → Result TokenPayload
  unfolding bearer
  get_current_user now credentials = do
    token ← bearer credentials
    payload ← decode_token now token TokenType.access
    subject ← or_raise payload.sub (unauthorized "Token is missing a subject claim.")
    raise_if (str_eq subject "") (unauthorized "Token is missing a subject claim.")
    ok (record { subject = subject; claims = payload })

-- app/api/v1/dependencies.py: the gate of every router under `/admin`.
unfoldable pub require_it_admin : TokenPayload → Result TokenPayload
require_it_admin current_user = do
  raise_if (not (claim_is current_user.claims.role (role_value UserRole.it_admin)))
      (forbidden "IT Admin role is required for this action.")
  ok current_user
