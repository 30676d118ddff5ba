-- ===== src/Storage/Iterator/Listing.antt =====
-- A scan of the whole database.
use chain_forge.Base.Map.{Map, contains}
use chain_forge.Storage.Types.{Key, Value}
use chain_forge.Storage.Iterator.{make, seek_to_first}
use chain_forge.Storage.Iterator.Order.{IsSorted, sort-IsSorted}
use chain_forge.Storage.Iterator.Scan.{collect, collect-at}
use chain_forge.Storage.Iterator.Seeking.{mem, mem-sort, mem-keys, keys_of, length-sort}
use chain_forge.Base.{bytes_eq, ◌∙◌, suc, ◌≡◌, List, [], ◌<◌, ◌^◌, length, map, arith}

abbrev pub scan : Map Key Value → List Key
scan entries = collect (suc (length entries)) (seek_to_first (make entries))

scan-sort : (entries : Map Key Value) → length entries < 2 ^ 31 → scan entries ≡ keys_of entries
unfolding make seek_to_first
scan-sort entries l =
    let size = length-sort entries in
    collect-at (suc (length entries)) [] (keys_of entries) (omega arith) (omega arith)

-- With fewer than 2^31 entries a loop from `seek_to_first` while `valid` holds ends: as many steps
-- as there are entries visit the keys of the map, all of them and no others, in ascending order,
-- and as many as the map has entries.
pub scan-IsSorted :
    (entries : Map Key Value)
    → length entries < 2 ^ 31
    → IsSorted (scan entries)
      × (length (scan entries) ≡ length entries)
      × ((k : Key) → mem k (scan entries) ≡ contains k entries)
scan-IsSorted entries l = rw (scan-sort entries l) (
  sort-IsSorted (map (λ e. e.0) entries),
  length-sort entries,
  λ k. mem-sort k (map (λ e. e.0) entries) ∙ mem-keys k entries,
)
