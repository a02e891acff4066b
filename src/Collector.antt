-- ===== src/Collector.antt =====
-- internal/pkg/collector/collector.go: the statistics that wait until they are inserted in a batch. The
-- critical sections of the mutex are the operations; the answers of BatchInsertStats are arguments.
pub mod Batches
mod Tests
use aura_proxy.Common.{Bool, true, false, List, [], ◌∷◌, ◌++◌, Option, none, some}

module _ {T : Type 0} where
  unfoldable pub add : List T → T → List T
  add cache s = cache ++ s ∷ []

  -- getCachedEntries: the entries, and the new cache.
  unfoldable pub get_cached_entries : List T → List T × List T
  get_cached_entries cache = (cache, [])

  -- The batch that is sent, with whether the API took it; an empty one is not sent.
  abbrev sent : List T → Bool → Option (List T × Bool)
  sent [] succeeds = none
  sent (e ∷ es) succeeds = some (e ∷ es, succeeds)

  -- flushData
  unfoldable pub flush_data : List T → Bool → List T × Option (List T × Bool)
  unfolding get_cached_entries
  flush_data cache succeeds =
      let (entries, cache') = get_cached_entries cache in (cache', sent entries succeeds)
