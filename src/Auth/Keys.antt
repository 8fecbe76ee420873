-- ===== src/Auth/Keys.antt =====
-- internal/auth/jwt_service.go: `JWTConfig`, `DefaultJWTConfig`, `loadOrGenerateKeys` and `NewJWTService`.
-- What the key files hold and what the generator answers are arguments.
use chat2sql.Prelude.{
  ℕ, ◌*◌, Bool, true, not, ◌||◌, Option, none, some, Bytes, codes, Outcome, ok, err, if◌then◌else◌,
  is_empty,
}
use chat2sql.Auth.Claims.{AuthError, second, no_keys, keys_failed}
use chat2sql.Auth.Library.{Jwt}
use chat2sql.Auth.Tokens.{JwtService, ◌>>=◌}

pub record JwtConfig : Type 0 where
  pub private_key_path : Bytes
  pub public_key_path : Bytes
  pub issuer : Bytes
  pub audience : Bytes
  pub access_token_ttl : ℕ
  pub refresh_token_ttl : ℕ
  pub auto_generate_keys : Bool

unfoldable pub default_jwt_config : JwtConfig
default_jwt_config = record {
  private_key_path = codes "./configs/jwt_private.pem";
  public_key_path = codes "./configs/jwt_public.pem";
  issuer = codes "chat2sql-api";
  audience = codes "chat2sql-users";
  access_token_ttl = 3600 * second;
  refresh_token_ttl = 86400 * second;
  auto_generate_keys = true;
}

module _ (J : Jwt) where
  pub record KeyPair : Type 0 where
    pub private_key : J.PrivateKey
    pub public_key : J.PublicKey

  unfoldable pub generate_keys : Option J.PrivateKey → Outcome AuthError KeyPair
  generate_keys none = err keys_failed
  generate_keys (some k) = ok (record { private_key = k; public_key = J.public_of k })

  -- The two paths give a pair, or nothing.
  unfoldable pub load_or_generate_keys :
      JwtConfig → (Bytes → Bytes → Option KeyPair) → Option J.PrivateKey → Outcome AuthError KeyPair
  load_or_generate_keys config load_keys_from_file generated =
      let otherwise : Outcome AuthError KeyPair =
        if config.auto_generate_keys then generate_keys generated else err no_keys in
      if is_empty config.private_key_path || is_empty config.public_key_path
      then otherwise
      else elim (load_keys_from_file config.private_key_path config.public_key_path) [
        | some pair ↦ ok pair
        | none ↦ if not config.auto_generate_keys then err keys_failed else otherwise
      ]

  unfoldable pub new_jwt_service :
      JwtConfig
      → (Bytes → Bytes → Option KeyPair)
      → Option J.PrivateKey
      → Outcome AuthError (JwtService J)
  new_jwt_service config load_keys_from_file generated = do
    pair ← load_or_generate_keys config load_keys_from_file generated
    ok (record {
      private_key = pair.private_key;
      public_key = pair.public_key;
      issuer = config.issuer;
      audience = config.audience;
      access_token_ttl = config.access_token_ttl;
      refresh_token_ttl = config.refresh_token_ttl;
    })
