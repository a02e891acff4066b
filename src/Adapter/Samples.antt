-- ===== src/Adapter/Samples.antt =====
-- Sample values for the tests: an adapter over the sample router, and a decoder that always reads the
-- same requests.
use aura_proxy.Common.{ℕ, String, true, List, [], ◌∷◌, none, some, codes}
use aura_proxy.Common.Int.{negsuc}
use aura_proxy.Rpc.{Request, array, number, Api}
use aura_proxy.Requests.{Decoder}
use aura_proxy.Transport.Samples.{router}
use aura_proxy.Adapter.{Adapter, new_solana_adapter}

abbrev pub request : String → List ℕ → Request
request m block = record {
  jsonrpc = "2.0";
  method = m;
  params = array (number block ∷ []);
  id = codes "1";
}

abbrev pub decoder : Decoder
decoder = record {
  decode_request = λ body. some (request "getBlock" (codes "9"));
  decode_requests = λ body. none;
}

abbrev pub api : Api
api = record {
  json_rpc_version = "2.0";
  parse_error_code = negsuc 32699;
  invalid_req_error_code = negsuc 32599;
}

abbrev pub adapter : Adapter ℕ
adapter = new_solana_adapter router true
