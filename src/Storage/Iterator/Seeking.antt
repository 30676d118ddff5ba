-- ===== src/Storage/Iterator/Seeking.antt =====
-- A search in the sorted keys, beside a lookup in the map they were made of.
use chain_forge.Storage.Iterator.Scan.{to_i32_small}
use chain_forge.Base.Map.{Map, lookup, contains}
use chain_forge.Core.Bytes.{bytes_less}
use chain_forge.Storage.Types.{Key, Value}
use chain_forge.Storage.Iterator.Order.{IsSorted, bytes_less_asym, not_less_eq, sort-IsSorted}
use chain_forge.Storage.Iterator.{
  insert_sorted, sort, make, get_elem?, is_key, lower_bound, seek, valid, value, key, or_empty,
}
use chain_forge.Base.{
  ap, sym, Option-cases, pos, negsuc, some, not, all, Option, ◌^◌, bytes_beq_iff, ◌∙◌, length, ◌||◌,
  inr, inl, ◌==◌, bytes_eq, ◌<◌, none, some, Option, suc, ◌≡◌, refl, Bool, true, false, List, [],
  ◌∷◌, ltb, arith, Bool-cases, map,
}

abbrev pub mem : Key → List Key → Bool
mem key [] = false
mem key (k ∷ ks) = (key == k) || mem key ks

mem-insert_sorted : (key x : Key) (ks : List Key) → mem key (insert_sorted x ks) ≡ mem key (x ∷ ks)
unfolding insert_sorted
mem-insert_sorted key x [] = refl
mem-insert_sorted key x (y ∷ ys) =
    let rest = mem-insert_sorted key x ys in
    elim (Bool-cases (bytes_less y x)) [ inl e ↦ rw e (ground (arith, rest)) | inr e ↦ rw e refl ]

pub mem-sort : (key : Key) (ks : List Key) → mem key (sort ks) ≡ mem key ks
unfolding sort
mem-sort key [] = refl
mem-sort key (k ∷ ks) = rw (mem-insert_sorted key k (sort ks), mem-sort key ks) refl

pub mem-keys :
    (key : Key) (entries : Map Key Value) → mem key (map (λ e. e.0) entries) ≡ contains key entries
mem-keys key [] = refl
mem-keys key ((k, v) ∷ entries) = ground (arith, mem-keys key entries)

less_not_equal : (k key : Key) → bytes_less k key ≡ true → (key == k) ≡ false
less_not_equal k key l = let back = bytes_less_asym k key l in ground (arith, bytes_beq_iff key k)

mem-not_less :
    (k key : Key) (ks : List Key)
    → all (λ z. not (bytes_less z k)) ks ≡ true
    → mem key ks ≡ true
    → bytes_less key k ≡ false
mem-not_less k key [] h m = ground arith
mem-not_less k key (y ∷ ys) h m = ground (arith, mem-not_less k key ys, bytes_beq_iff key y)

-- What stands at the lower bound.
get_elem?-lower_bound :
    (key : Key) (ks : List Key)
    → IsSorted ks
    → is_key key (get_elem? (lower_bound key ks) ks) ≡ mem key ks
unfolding lower_bound
get_elem?-lower_bound key [] s = refl
get_elem?-lower_bound key (k ∷ ks) (h, s) =
    let rest = get_elem?-lower_bound key ks s in
    elim (Bool-cases (bytes_less k key)) [
      | inl e ↦ rw (e, less_not_equal k key e) rest
      | inr e ↦ rw e (
          ground (
            arith,
            mem-not_less k key ks h,
            not_less_eq k key e,
            bytes_beq_iff key k,
            bytes_beq_iff k key,
          ))
    ]

lower_bound-length :
    (key : Key) (ks : List Key)
    → is_key key (get_elem? (lower_bound key ks) ks) ≡ true
    → lower_bound key ks < length ks
unfolding lower_bound
lower_bound-length key [] h = ground arith
lower_bound-length key (k ∷ ks) h = let rest = lower_bound-length key ks in ground (arith, rest)

lower_bound-sort :
    (key : Key) (entries : Map Key Value)
    → is_key key (
        get_elem? (lower_bound key (sort (map (λ e. e.0) entries))) (sort (map (λ e. e.0) entries)))
      ≡ contains key entries
lower_bound-sort k entries =
    let keys = map (λ e. e.0) entries in
    get_elem?-lower_bound k (sort keys) (sort-IsSorted keys) ∙ mem-sort k keys ∙ mem-keys k entries

is_key-some : (k : Key) (o : Option Key) → is_key k o ≡ true → o ≡ some k
is_key-some k none h = ground arith
is_key-some k (some j) h = ground (arith, bytes_beq_iff j k)

abbrev pub keys_of : Map Key Value → List Key
keys_of entries = sort (map (λ e. e.0) entries)

length-insert_sorted : (x : Key) (ks : List Key) → length (insert_sorted x ks) ≡ suc (length ks)
unfolding insert_sorted
length-insert_sorted x [] = refl
length-insert_sorted x (y ∷ ys) = let rest = length-insert_sorted x ys in ground (arith, rest)

pub length-sort : (entries : Map Key Value) → length (keys_of entries) ≡ length entries
unfolding sort
length-sort [] = refl
length-sort ((k, v) ∷ entries) =
    length-insert_sorted k (keys_of entries) ∙ ap suc (length-sort entries)

seek-hit :
    (k : Key) (entries : Map Key Value)
    → length (keys_of entries) < 2 ^ 31
    → contains k entries ≡ true
    → seek k (make entries)
      ≡ record { keys = keys_of entries; current_index = pos (lower_bound k (keys_of entries)) }
unfolding seek make
seek-hit k entries l c =
    let here = lower_bound-sort k entries in
    let bound = lower_bound-length k (keys_of entries) (here ∙ c) in
    rw (here, c, to_i32_small (lower_bound k (keys_of entries)) (omega arith)) refl

seek-miss :
    (k : Key) (entries : Map Key Value)
    → contains k entries ≡ false
    → seek k (make entries) ≡ record { keys = keys_of entries; current_index = negsuc 0 }
unfolding seek make
seek-miss k entries c = rw (lower_bound-sort k entries, c) refl

lookup-absent :
    (k : Key) (entries : Map Key Value) → contains k entries ≡ false → lookup k entries ≡ none
lookup-absent k entries c = elim (Option-cases (lookup k entries)) [
  | inl e ↦ e
  | inr (v, e) ↦ let present : contains k entries ≡ true = rw (e, contains) refl in ground arith
]

-- With fewer than 2^31 entries a search finds exactly the keys of the map, and the value there
-- is the one a lookup gives, or the empty one without it.
pub seek-lookup :
    (k : Key) (entries : Map Key Value)
    → length entries < 2 ^ 31
    → (valid (seek k (make entries)) ≡ contains k entries)
      × (value entries (seek k (make entries)) ≡ or_empty (lookup k entries))
unfolding valid value key
seek-lookup k entries l =
    let size = length-sort entries in
    elim (Bool-cases (contains k entries)) [
      | inl e ↦
          let here = lower_bound-sort k entries ∙ e in
          let bound = lower_bound-length k (keys_of entries) here in
          let it =
            is_key-some k (get_elem? (lower_bound k (keys_of entries)) (keys_of entries)) here in
          let inside : ltb (lower_bound k (keys_of entries)) (length (keys_of entries)) ≡ true =
            ground arith in
          rw (seek-hit k entries (omega arith) e) (inside ∙ sym e, rw (inside, it) refl)
      | inr e ↦ rw (seek-miss k entries e, lookup-absent k entries e) (sym e, refl)
    ]
