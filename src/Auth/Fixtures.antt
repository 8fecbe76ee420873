-- ===== src/Auth/Fixtures.antt =====
-- One user of a service over the sample library, with a pair of tokens, for the tests.
use chat2sql.Prelude.{ℕ, ◌*◌, ◌+◌, none, [], Bytes, codes, pos, Dict, decimal, insert, text_key}
use chat2sql.Auth.Claims.{Claims, second}
use chat2sql.Auth.Library.{Jwt}
use chat2sql.Auth.Revocation.{blacklist_key}
use chat2sql.Auth.Samples.{sample_jwt}
use chat2sql.Auth.Tokens.{
  JwtService, TokenPair, Instants, claims_for, generate_jti, access_claims, refresh_claims,
}

abbrev pub nobody : Claims
nobody = record {
  user_id = pos 0;
  username = [];
  role = [];
  token_type = [];
  issuer = [];
  subject = [];
  audience = [];
  expires_at = none;
  not_before = none;
  issued_at = none;
  id = [];
}

abbrev pub service : (a r : Claims) → JwtService (sample_jwt a r)
service a r = record {
  private_key = tt;
  public_key = tt;
  issuer = codes "chat2sql-api";
  audience = codes "chat2sql-users";
  access_token_ttl = 3600 * second;
  refresh_token_ttl = 86400 * second;
}

abbrev pub start : Instants
start = record { now = 100 * second; access_made = 100 * second; refresh_made = 100 * second + 1 }

abbrev pub ann : Bytes
ann = codes "ann"

abbrev pub manager : Bytes
manager = codes "manager"

unfoldable pub ann_access : Claims
ann_access =
    access_claims (sample_jwt nobody nobody) (service nobody nobody) (pos 7) ann manager start

unfoldable pub ann_refresh : Claims
ann_refresh =
    refresh_claims (sample_jwt nobody nobody) (service nobody nobody) (pos 7) ann manager start

abbrev pub library : Jwt
library = sample_jwt ann_access ann_refresh

abbrev pub ann_service : JwtService library
ann_service = service ann_access ann_refresh

abbrev pub ann_pair : TokenPair
ann_pair = record {
  access_token = codes "a";
  refresh_token = codes "r";
  token_type = codes "Bearer";
  expires_in = 3600;
  expires_at = 3700 * second;
}

-- What the store holds after the access token was revoked at second 200.
unfoldable pub revoked : Dict Bytes (Bytes × ℕ)
unfolding ann_access claims_for generate_jti decimal blacklist_key
revoked = insert (blacklist_key ann_access.id) (codes "revoked", 3700 * second) []
