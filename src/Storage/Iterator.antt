-- ===== src/Storage/Iterator.antt =====
-- `MemoryIterator` of modules/storage/src/rocksdb_database.cpp: a position in the sorted keys of the
-- database when it was made. The values are looked up in the database as it is.
pub mod Listing
pub mod Order
pub mod Scan
pub mod Seeking
use chain_forge.Base.Map.{Map, lookup}
use chain_forge.Core.Bytes.{bytes_less}
use chain_forge.Storage.Types.{Key, Value, StorageError}
use chain_forge.Storage.{MemoryDatabase}
use chain_forge.Base.{
  ℕ, zero, suc, ◌+◌, ◌-◌, ◌%◌, ◌^◌, ℤ, pos, negsuc, Bool, true, false, Option, none, some, List, [],
  ◌∷◌, map, ltb, if◌then◌else◌, length, ◌==◌, bytes_eq,
}

pub record MemoryIterator : Type 0 where
  pub keys : List Key
  pub current_index : ℤ

-- `std::sort` by `operator<`
unfoldable pub insert_sorted : Key → List Key → List Key
insert_sorted x [] = x ∷ []
insert_sorted x (y ∷ ys) =
    let rest = insert_sorted x ys in if bytes_less y x then y ∷ rest else x ∷ y ∷ ys

unfoldable pub sort : List Key → List Key
sort [] = []
sort (x ∷ xs) = insert_sorted x (sort xs)

unfoldable pub make : Map Key Value → MemoryIterator
make entries = record { keys = sort (map (λ e. e.0) entries); current_index = negsuc 0 }

-- `none` stands for the null pointer.
unfoldable pub new_iterator : MemoryDatabase → Option MemoryIterator
new_iterator db = if db.is_open then some (make db.entries) else none

-- `static_cast<int>`
abbrev pub to_i32 : ℕ → ℤ
to_i32 n = let r = n % 2 ^ 32 in if ltb r (2 ^ 31) then pos r else negsuc (2 ^ 32 - 1 - r)

abbrev pub get_elem? : ℕ → List Key → Option Key
get_elem? n [] = none
get_elem? zero (k ∷ ks) = some k
get_elem? (suc n) (k ∷ ks) = get_elem? n ks

abbrev pub is_none : List Key → Bool
is_none [] = true
is_none (k ∷ ks) = false

unfoldable pub valid : MemoryIterator → Bool
valid it = elim it.current_index [ pos n ↦ ltb n (length it.keys) | negsuc n ↦ false ]

unfoldable pub seek_to_first : MemoryIterator → MemoryIterator
seek_to_first it = record it { current_index = if is_none it.keys then negsuc 0 else pos 0 }

unfoldable pub seek_to_last : MemoryIterator → MemoryIterator
seek_to_last it = record it {
  current_index = if is_none it.keys then negsuc 0 else to_i32 (length it.keys - 1);
}

-- `std::lower_bound` on sorted keys: how many stand before the first that is not less.
unfoldable pub lower_bound : Key → List Key → ℕ
lower_bound key [] = 0
lower_bound key (k ∷ ks) = let rest = lower_bound key ks in if bytes_less k key then suc rest else 0

abbrev is_key : Key → Option Key → Bool
is_key key none = false
is_key key (some k) = k == key

-- A key that is not there leaves the iterator invalid.
unfoldable pub seek : Key → MemoryIterator → MemoryIterator
seek key it =
    let i = lower_bound key it.keys in
    record it { current_index = if is_key key (get_elem? i it.keys) then to_i32 i else negsuc 0 }

-- `keys_.size() - 1` wraps around where there is no key.
unfoldable pub next : MemoryIterator → MemoryIterator
next it = elim it.current_index [
  | pos n ↦ record it {
    current_index =
        if ltb n ((length it.keys + (2 ^ 64 - 1)) % 2 ^ 64) then to_i32 (n + 1) else negsuc 0;
  }
  | negsuc n ↦ record it { current_index = negsuc 0 }
]

unfoldable pub prev : MemoryIterator → MemoryIterator
prev it = elim it.current_index [
  | pos (suc n) ↦ record it { current_index = pos n }
  | pos zero ↦ record it { current_index = negsuc 0 }
  | negsuc n ↦ record it { current_index = negsuc 0 }
]

abbrev or_empty : Option Key → Key
or_empty none = []
or_empty (some k) = k

-- Key and value where the iterator is valid, and the empty ones elsewhere.
unfoldable pub key : MemoryIterator → Key
key it = elim it.current_index [ pos n ↦ or_empty (get_elem? n it.keys) | negsuc n ↦ [] ]

unfoldable pub value : Map Key Value → MemoryIterator → Value
value entries it = if valid it then or_empty (lookup (key it) entries) else []
