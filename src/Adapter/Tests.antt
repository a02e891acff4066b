-- ===== src/Adapter/Tests.antt =====
-- An adapter over the sample router, with a decoder that always reads the same requests.
use aura_proxy.Common.{ℕ, ◌≡◌, refl, List, [], ◌∷◌, some, arith, codes}
use aura_proxy.Common.Int.{pos}
use aura_proxy.Common.Float.{milli}
use aura_proxy.Rpc.{Request, parse_int}
use aura_proxy.Chains.Methods.{block_related_method}
use aura_proxy.Transport.{Sent}
use aura_proxy.Transport.Samples.{router-IsBuilt, context, silent, world}
use aura_proxy.Adapter.{block_methods_validation, prepare_post_req, proxy_post_request}
use aura_proxy.Adapter.Samples.{request, decoder, api, adapter}
use aura_proxy.Adapter.Blocks.{
  IsValidated, block_methods_validation-IsValidated, block_methods_validation_zero,
}
use aura_proxy.Adapter.Preparing.{IsPrepared, prepare_post_req-IsPrepared}
use aura_proxy.Adapter.Posting.{IsPosted, proxy_post_request_total}

abbrev two_blocks : List Request
two_blocks = request "getBlock" (codes "9") ∷ request "getBlockTime" (codes "7") ∷ []

block_methods_validation-IsValidated_example :
    IsValidated two_blocks (block_methods_validation two_blocks)
unfolding parse_int block_related_method
block_methods_validation-IsValidated_example =
    block_methods_validation-IsValidated two_blocks
      (λ e. ground (arith, e), (λ e. ground (arith, e), tt))

block_methods_validation_zero_example :
    block_methods_validation (request "getBlock" (codes "0") ∷ two_blocks)
    ≡ block_methods_validation two_blocks
unfolding parse_int
block_methods_validation_zero_example =
    block_methods_validation_zero (request "getBlock" (codes "0")) two_blocks refl

prepare_post_req-IsPrepared_example :
    IsPrepared api decoder adapter context (prepare_post_req api decoder adapter context)
prepare_post_req-IsPrepared_example = prepare_post_req-IsPrepared api decoder adapter context

proxy_post_request_total_example :
    (r : Sent ℕ Unit Unit) × (proxy_post_request milli silent world adapter context [] (pos 7)
      ≡ some r)
    × IsPosted milli silent world adapter context [] (pos 7) router-IsBuilt r
proxy_post_request_total_example =
    proxy_post_request_total milli silent world adapter context [] (pos 7) router-IsBuilt
