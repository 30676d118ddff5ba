-- ===== src/Storage/Tests.antt =====
-- The theorems about the database at a concrete history, and at a map of three entries.
use chain_forge.Base.{bytes_eq, arith, length, ◌≡◌, true, false, List, [], ◌∷◌}
use chain_forge.Base.Map.{Map, contains}
use chain_forge.Storage.Iterator.{valid, seek, make, value}
use chain_forge.Storage.Iterator.Order.{IsSorted}
use chain_forge.Storage.Iterator.Seeking.{mem, seek-lookup}
use chain_forge.Storage.Iterator.Listing.{scan, scan-IsSorted}
use chain_forge.Storage.Types.{Key, Value, DatabaseConfig}
use chain_forge.Storage.Batch.{Operation}
use chain_forge.Storage.Store
use chain_forge.Storage.Store.{Call}
use chain_forge.Storage.Refinement.{responses, new_database, responses-refine}

abbrev settings : DatabaseConfig
settings = record { path = 1 ∷ []; create_if_missing = true; error_if_exists = false }

abbrev session : List Call
session =
    Call.opening settings
    ∷ Call.putting (1 ∷ []) (5 ∷ [])
    ∷ Call.writing (Operation.remove (1 ∷ []) ∷ Operation.put (2 ∷ []) (6 ∷ []) ∷ [])
    ∷ Call.getting (1 ∷ [])
    ∷ Call.removing (2 ∷ [])
    ∷ Call.closing
    ∷ Call.getting (2 ∷ [])
    ∷ []

responses-refine_example :
    responses session (new_database settings) ≡ Store.responses session Store.closed
responses-refine_example = responses-refine settings session

abbrev entries : Map Key Value
entries = (9 ∷ [], 4 ∷ []) ∷ (2 ∷ 1 ∷ [], 5 ∷ []) ∷ (2 ∷ [], 6 ∷ []) ∷ []

seek-lookup_example :
    (valid (seek (2 ∷ []) (make entries)) ≡ true)
    × (value entries (seek (2 ∷ []) (make entries)) ≡ 6 ∷ [])
seek-lookup_example = seek-lookup (2 ∷ []) entries (omega arith)

scan-IsSorted_example :
    IsSorted (scan entries)
    × (length (scan entries) ≡ 3)
    × ((k : Key) → mem k (scan entries) ≡ contains k entries)
scan-IsSorted_example = scan-IsSorted entries (omega arith)
