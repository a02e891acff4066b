-- ===== src/Analysis/Tests.antt =====
-- The analysis of an answer of three errors.
use aura_proxy.Common.{◌≡◌, refl, List, [], ◌∷◌, true, codes, any, is_some, keep_if}
use aura_proxy.Common.Int.{negsuc}
use aura_proxy.Analysis.{NodeError, rpc_error, array_error, rpc_error_analysis}
use aura_proxy.Analysis.Verdict.{blames_user, lacks_method, blames_node, rpc_error_analysis-Sorted}

-- Invalid params (-32602), a method that is not found (-32601), and a broken array.
abbrev errs : List NodeError
errs =
    rpc_error (negsuc 32601) (codes "x") "getSlot"
    ∷ rpc_error (negsuc 32600) (codes "y") "getBlock"
    ∷ array_error
    ∷ []

user_at_fault : (rpc_error_analysis errs).invalid_req_err ≡ true
unfolding rpc_error_analysis
user_at_fault = refl

rpc_error_analysis-Sorted_example :
    ((rpc_error_analysis errs).invalid_req_err ≡ any blames_user errs)
    × (is_some (rpc_error_analysis errs).analyze_err ≡ any lacks_method errs)
    × ((rpc_error_analysis errs).joined ≡ keep_if blames_node errs)
rpc_error_analysis-Sorted_example = rpc_error_analysis-Sorted errs
