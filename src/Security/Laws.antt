-- ===== src/Security/Laws.antt =====
-- Tokens that are created and read back.
use asset_pilot_fastapi.Result.{unauthorized, err, ok, raise_if, ◌>>=◌}
use asset_pilot_fastapi.Security.{
  token_type_value, ExtraClaims, TokenType, ◌>>=◌, raise_if, verified, token_payload, create_token,
  decode_token, Settings, IsLawful, Libraries,
}
use asset_pilot_fastapi.Prelude.{
  inr, inl, refl, ltb, Bool-cases, str_eq_iff, arith, ◌*◌, false, ◌≡◌, ◌+◌, ◌<◌, ◌≤◌, str_eq,
  String, ℕ,
}

module _ (l : Libraries) (lawful : IsLawful l) (settings : Settings) where
  -- A token is accepted for its type, with its claims, until it expires.
  pub decode_token-create_token :
      (now made : ℕ) (subject : String) (type : TokenType) (minutes : ℕ) (extra : ExtraClaims)
      → made ≤ now
      → now < made + minutes * 60
      → decode_token l settings now (create_token l settings made subject type minutes extra) type
        ≡ ok (token_payload l settings made subject type minutes extra)
  unfolding decode_token create_token verified raise_if ◌>>=◌
  decode_token-create_token now made subject type minutes extra issued live =
      rw
        (lawful.decode-encode now settings.jwt_secret_key
          (token_payload l settings made subject type minutes extra) issued live)
        (ground (arith, (str_eq_iff (token_type_value type) (token_type_value type)).1 refl))

  -- A token of one type is refused where the other is expected.
  pub decode_token-other_type :
      (now made : ℕ) (subject : String) (type expected : TokenType) (minutes : ℕ)
      (extra : ExtraClaims)
      → str_eq (token_type_value type) (token_type_value expected) ≡ false
      → made ≤ now
      → (message : String) × (decode_token l settings now
            (create_token l settings made subject type minutes extra)
            expected
          ≡ err (unauthorized message))
  unfolding decode_token create_token token_payload verified raise_if ◌>>=◌
  decode_token-other_type now made subject type expected minutes extra differ issued =
      let p = token_payload l settings made subject type minutes extra in
      elim (Bool-cases (ltb now p.exp)) [
        | inl live ↦ (
          "Token type is not valid for this operation.",
          rw (lawful.decode-encode now settings.jwt_secret_key p issued (ground arith))
              (ground (arith, differ)),
        )
        | inr dead ↦ (
          "Token has expired.",
          rw (lawful.decode-encode_expired now settings.jwt_secret_key p issued (ground arith))
              refl,
        )
      ]

  -- A token of either type is refused once it has expired.
  pub decode_token-expired :
      (now made : ℕ) (subject : String) (type expected : TokenType) (minutes : ℕ)
      (extra : ExtraClaims)
      → made + minutes * 60 ≤ now
      → decode_token l settings now
          (create_token l settings made subject type minutes extra)
          expected
        ≡ err (unauthorized "Token has expired.")
  unfolding decode_token create_token token_payload verified ◌>>=◌
  decode_token-expired now made subject type expected minutes extra dead =
      rw
        (lawful.decode-encode_expired now settings.jwt_secret_key
          (token_payload l settings made subject type minutes extra) (ground arith) dead)
        refl

  pub create_token_text :
      (made : ℕ) (subject : String) (type : TokenType) (minutes : ℕ) (extra : ExtraClaims)
      → str_eq (create_token l settings made subject type minutes extra) "" ≡ false
  unfolding create_token
  create_token_text made subject type minutes extra = lawful.encode_text _ _
