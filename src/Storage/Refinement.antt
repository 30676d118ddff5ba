-- ===== src/Storage/Refinement.antt =====
-- The in-memory database answers every sequence of calls as the abstract store does.
use mathlib.Core.Path.{ap₂, fun_ext}
use chain_forge.Base.{
  inr, inl, ◌≡◌, refl, Bool, true, false, Option, none, some, List, [], ◌∷◌, arith, if◌then◌else◌,
  bytes_eq, Option-cases, ap, ◌∙◌,
}
use chain_forge.Base.Map.{Map, lookup, insert, erase, IsMap}
use chain_forge.Base.Map.Laws.{erase_absent, lookup-insert, lookup-erase, insert-IsMap, erase-IsMap}
use chain_forge.Storage.Types.{Key, Value, StorageError, DatabaseConfig}
use chain_forge.Storage.Batch.{WriteBatch, Operation, apply_all}
use chain_forge.Storage.Store
use chain_forge.Storage.Store.{Store, Call, Response, update}
use chain_forge.Storage.{
  MemoryDatabase, open_with, close, get, put, remove, write, flush, compact_range,
}

abbrev with_code : StorageError × MemoryDatabase → Response × MemoryDatabase
with_code (e, db) = (([], e), db)

-- One call of a client, with what it gets back.
pub step : Call → MemoryDatabase → Response × MemoryDatabase
step (Call.opening c) db = with_code (open_with c db)
step Call.closing db = with_code (close db)
step Call.flushing db = (([], flush db), db)
step Call.compacting db = (([], compact_range db), db)
step (Call.getting key) db = (get key db, db)
step (Call.removing key) db = with_code (remove key db)
step (Call.putting key value) db = with_code (put key value db)
step (Call.writing ops) db = with_code (write (some ops) db)

pub responses : List Call → MemoryDatabase → List Response
responses [] db = []
responses (c ∷ cs) db = let (r, db') = step c db in r ∷ responses cs db'

abbrev pub view : MemoryDatabase → Store
view db = if db.is_open then Store.opened (λ k. lookup k db.entries) else Store.closed

-- No key is stored twice, and nothing is stored while the database is closed.
pub record IsStored (db : MemoryDatabase) : Type 0 where
  pub keys : IsMap db.entries
  pub emptied : db.is_open ≡ false → db.entries ≡ []

insert_fun :
    (key : Key) (v : Value) (m : Map Key Value)
    → ◌≡◌ {A = Key → Option Value}
        (λ k. lookup k (insert key v m))
        (update key (some v) (λ k. lookup k m))
insert_fun key v m = fun_ext (λ k. lookup-insert k key v m)

erase_fun :
    (key : Key) (m : Map Key Value)
    → IsMap m
    → ◌≡◌ {A = Key → Option Value} (λ k. lookup k (erase key m)) (update key none (λ k. lookup k m))
erase_fun key m h = fun_ext (λ k. lookup-erase k key m h)

apply_all_fun :
    (ops : WriteBatch) (m : Map Key Value)
    → IsMap m
    → ◌≡◌ {A = Key → Option Value}
        (λ k. lookup k (apply_all ops m))
        (Store.write ops (λ k. lookup k m))
unfolding apply_all
apply_all_fun [] m h = refl
apply_all_fun (Operation.put key v ∷ ops) m h =
    apply_all_fun ops (insert key v m) (insert-IsMap key v m h)
    ∙ ap (Store.write ops) (insert_fun key v m)
apply_all_fun (Operation.remove key ∷ ops) m h =
    apply_all_fun ops (erase key m) (erase-IsMap key m h) ∙ ap (Store.write ops) (erase_fun key m h)

apply_all-IsMap : (ops : WriteBatch) (m : Map Key Value) → IsMap m → IsMap (apply_all ops m)
unfolding apply_all
apply_all-IsMap [] m h = h
apply_all-IsMap (Operation.put key v ∷ ops) m h = apply_all-IsMap ops _ (insert-IsMap key v m h)
apply_all-IsMap (Operation.remove key ∷ ops) m h = apply_all-IsMap ops _ (erase-IsMap key m h)

abbrev database : Map Key Value → DatabaseConfig → Bool → MemoryDatabase
database m c o = record { entries = m; config = c; is_open = o }

abbrev Agrees : Call → MemoryDatabase → Type 0
Agrees call db =
    ((step call db).0 ≡ (Store.step call (view db)).0)
    × (view (step call db).1 ≡ (Store.step call (view db)).1)

module _ (m : Map Key Value) (c : DatabaseConfig) where
  removing_Agrees : (key : Key) → IsMap m → Agrees (Call.removing key) (database m c true)
  unfolding step remove
  removing_Agrees key h = elim (Option-cases (lookup key m)) [
    | inl e ↦
        rw (e, remove) (refl, ap Store.opened (rw (erase_absent key m e) at (erase_fun key m h)))
    | inr (v, e) ↦ rw (e, remove) (refl, ap Store.opened (erase_fun key m h))
  ]

  -- An open database answers as the store does.
  opened_Agrees : (call : Call) → IsMap m → Agrees call (database m c true)
  unfolding step open_with close flush compact_range get remove put write
  opened_Agrees (Call.opening d) h = (refl, refl)
  opened_Agrees Call.closing h = (refl, refl)
  opened_Agrees Call.flushing h = (refl, refl)
  opened_Agrees Call.compacting h = (refl, refl)
  opened_Agrees (Call.getting key) h = (ground arith, refl)
  opened_Agrees (Call.removing key) h = removing_Agrees key h
  opened_Agrees (Call.putting key v) h = (refl, ap Store.opened (insert_fun key v m))
  opened_Agrees (Call.writing ops) h = (refl, ap Store.opened (apply_all_fun ops m h))

-- So does a closed one, which holds nothing.
closed_Agrees : (c : DatabaseConfig) (call : Call) → Agrees call (database [] c false)
unfolding step open_with close flush compact_range get remove put write
closed_Agrees c (Call.opening d) = ground arith
closed_Agrees c Call.closing = (refl, refl)
closed_Agrees c Call.flushing = (refl, refl)
closed_Agrees c Call.compacting = (refl, refl)
closed_Agrees c (Call.getting key) = (refl, refl)
closed_Agrees c (Call.removing key) = (refl, refl)
closed_Agrees c (Call.putting key v) = (refl, refl)
closed_Agrees c (Call.writing ops) = (refl, refl)

step_Agrees :
    (m : Map Key Value) (c : DatabaseConfig) (o : Bool) (call : Call)
    → IsStored (database m c o)
    → Agrees call (database m c o)
step_Agrees m c true call h = opened_Agrees m c call h.keys
step_Agrees m c false call h = rw (h.emptied refl) (closed_Agrees c call)

step-IsStored :
    (m : Map Key Value) (c : DatabaseConfig) (o : Bool) (call : Call)
    → IsStored (database m c o)
    → IsStored (step call (database m c o)).1
unfolding step open_with close flush compact_range get remove put write
step-IsStored m c true (Call.removing key) h = ground (arith, erase-IsMap key m h.keys)
step-IsStored m c true (Call.putting key v) h = record {
  keys = insert-IsMap key v m h.keys;
  emptied = λ e. cc;
}
step-IsStored m c true (Call.writing ops) h = record {
  keys = apply_all-IsMap ops m h.keys;
  emptied = λ e. cc;
}
step-IsStored m c o (Call.opening d) h = ground (arith, h.emptied)
step-IsStored m c o call h = ground (arith, h.emptied)

responses-eq :
    (cs : List Call) (db : MemoryDatabase)
    → IsStored db
    → responses cs db ≡ Store.responses cs (view db)
unfolding responses Store.responses
responses-eq [] db h = refl
responses-eq (c ∷ cs) db h =
    let agree : Agrees c db = step_Agrees db.entries db.config db.is_open c h in
    ap₂ ◌∷◌ agree.0 (
      responses-eq cs (step c db).1 (step-IsStored db.entries db.config db.is_open c h)
      ∙ ap (Store.responses cs) agree.1)

-- `std::make_unique<MemoryDatabase>()`
abbrev pub new_database : DatabaseConfig → MemoryDatabase
new_database c = database [] c false

-- A new database answers every sequence of calls, of writes of whole batches too, with the values
-- and codes of the abstract store that begins closed.
pub responses-refine :
    (c : DatabaseConfig) (cs : List Call)
    → responses cs (new_database c) ≡ Store.responses cs Store.closed
responses-refine c cs = responses-eq cs (new_database c) (record { keys = tt; emptied = λ e. refl })
