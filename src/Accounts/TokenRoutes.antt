-- ===== src/Accounts/TokenRoutes.antt =====
-- The routes of the API tokens (src/api/server.py: list_api_tokens_route, create_api_token_route,
-- revoke_api_token_route).
use net_lanvas.Base.{ℕ, String, Bool, if◌then◌else◌, eq_String}
use net_lanvas.Base.Text.{strip, is_blank}
use net_lanvas.ApiTokens.{create_api_token, list_api_tokens, revoke_api_token}
use net_lanvas.Accounts.{Site, Context, Reply, success, tokens, created, error}

unfoldable pub list_api_tokens_route : Site → Reply × Site
list_api_tokens_route site = (tokens (list_api_tokens site.db), site)

unfoldable pub create_api_token_route : Context → String → Bool → Site → Reply × Site
create_api_token_route c label is_read_only site =
    if is_blank (strip label)
    then (error "Label cannot be blank.", site)
    else let ((id, plaintext), db) =
        create_api_token c.hasher c.salt c.token (strip label) is_read_only c.now site.db in
      (created id plaintext, record site { db = db })

unfoldable pub revoke_api_token_route : ℕ → Site → Reply × Site
revoke_api_token_route token_id site =
    let (revoked, db) = revoke_api_token token_id site.db in
    (if revoked then success else error "No such token.", record site { db = db })
