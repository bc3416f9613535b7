-- ===== src/ApiTokens/Tests.antt =====
-- Runs of the API tokens.
use net_lanvas.Base.{none, some, [], ◌∷◌, true, false, ◌≡◌, refl}
use net_lanvas.Base.Table.{delete}
use net_lanvas.Base.Keyed.{delete_key}
use net_lanvas.Auth.{ApiToken, ConfigDb, ok, ◌>>=◌, verify_password}
use net_lanvas.Auth.Tests.{marker, marker-Verifies, config_db}
use net_lanvas.ApiTokens.{
  TokenRow, generate_api_token, create_api_token, revoke_api_token, first_verified,
  validate_api_token, stamped,
}
use net_lanvas.ApiTokens.Lifecycle.{row_of, validate_api_token-create_api_token}

abbrev pub reader : ApiToken
reader = record {
  id = 4;
  label = "mcp";
  token_hash = "h:nlvt_read";
  is_read_only = true;
  created_at = 10;
  last_used_at = none;
}

abbrev pub writer : ApiToken
writer = record {
  id = 5;
  label = "script";
  token_hash = "h:nlvt_write";
  is_read_only = false;
  created_at = 20;
  last_used_at = none;
}

abbrev pub with_tokens : ConfigDb
with_tokens = record config_db { api_tokens = reader ∷ writer ∷ []; next_api_token_id = 6 }

validate_api_token-create_api_token_example :
    (validate_api_token marker
        (generate_api_token "fresh")
        40
        (create_api_token marker 1 "fresh" "backup" true 30 with_tokens).1
      >>= row_of)
    ≡ ok (some (record { id = 6; label = "backup"; is_read_only = true }))
unfolding verify_password
validate_api_token-create_api_token_example =
    validate_api_token-create_api_token marker 1 "fresh" "backup" true 30 40 with_tokens
      marker-Verifies (refl, (refl, tt))

abbrev writer_row : TokenRow
writer_row = record { id = 5; label = "script"; is_read_only = false }

abbrev revoked : ConfigDb
revoked = (revoke_api_token 4 with_tokens).1

-- With the token 4 revoked, the token 5 still opens.
writer_opens :
    validate_api_token marker "nlvt_write" 40 revoked
    ≡ ok (some writer_row, stamped 40 writer revoked)
unfolding validate_api_token first_verified verify_password revoke_api_token delete_key delete
writer_opens = refl
