-- ===== src/WebSocket/Tests.antt =====
-- A target with a path, and a request for the path /v1.
use aura_proxy.Common.{◌≡◌, refl, [], codes}
use aura_proxy.WebSocket.{Url, join_url_path, rewrite_request_url}

abbrev target : Url
target = record {
  scheme = codes "wss";
  host = codes "node";
  path = codes "/rpc/";
  raw_path = [];
  raw_query = codes "k=1";
}

abbrev url : Url
url = record { scheme = []; host = []; path = codes "/v1"; raw_path = []; raw_query = codes "q=2" }

whole_url : rewrite_request_url (λ u. u.path) url target ≡ record {
  scheme = codes "wss";
  host = codes "node";
  path = codes "/rpc/v1";
  raw_path = [];
  raw_query = codes "k=1&q=2";
}
unfolding rewrite_request_url join_url_path
whole_url = refl
