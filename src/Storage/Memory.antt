-- ===== src/Storage/Memory.antt =====
-- pkg/storage/memory.go, with the options of pkg/storage/backend.go. Times are nanoseconds; a copied
-- slice or map is an equal value. The range over the map is the order of its entries.
pub mod View
pub mod Keys
use text.Mathlib.Text.{starts_with}
use go_frost.Common.{
  ℕ, ◌+◌, ◌-◌, ◌*◌, ◌%◌, ◌^◌, ltb, ◌&&◌, ◌||◌, not, if◌then◌else◌, String, Bool, true, false,
  Option, none, some, List, [], ◌∷◌, find, put, remove, same_text,
}
use go_frost.Bytes.{Bytes}

abbrev pub Time : Type 0
Time = ℕ

-- A lifetime that is not positive is 0.
pub record Options : Type 0 where
  pub permissions : ℕ
  pub metadata : List (String × String)
  pub ttl : ℕ

-- `DefaultOptions`: the permissions are 0600.
unfoldable pub default_options : Options
default_options = record { permissions = 384; metadata = []; ttl = 0 }

-- The zero time is none.
pub record MemoryEntry : Type 0 where
  pub data' : Bytes
  pub metadata : List (String × String)
  pub expiration : Option Time

pub record MemoryBackend : Type 0 where
  pub entries : List (String × MemoryEntry)
  pub closed : Bool

pub data StorageError : Type 0 where
  invalid_key not_found storage_closed : StorageError

-- What a method returns.
pub data Answer (A : Type 0) : Type 0 where
  refuse : StorageError → Answer A
  answer : A → Answer A

-- `NewMemoryBackend`.
unfoldable pub new_memory_backend : MemoryBackend
new_memory_backend = record { entries = []; closed = false }

-- `now.Add(time.Duration(ttl) * time.Second)`: the product wraps around at 64 bits, and from 2^63 on
-- it stands for a negative duration.
unfoldable pub add_seconds : Time → ℕ → Time
add_seconds now ttl =
    let duration = ttl * 1_000_000_000 % 2 ^ 64 in
    if ltb duration (2 ^ 63) then now + duration else now - (2 ^ 64 - duration)

unfoldable pub expiration_of : Time → ℕ → Option Time
expiration_of now ttl = if ltb 0 ttl then some (add_seconds now ttl) else none

abbrev pub or_default : Option Options → Options
or_default none = default_options
or_default (some o) = o

-- `Put`, with the reading of the clock.
unfoldable pub put_data :
    Time → String → Bytes → Option Options → MemoryBackend → Answer (Unit {0}) × MemoryBackend
put_data now key bytes opts m =
    let o = or_default opts in
    let entry : MemoryEntry = record {
      data' = bytes;
      metadata = o.metadata;
      expiration = expiration_of now o.ttl;
    } in
    if same_text key ""
    then (refuse invalid_key, m)
    else if m.closed
    then (refuse storage_closed, m)
    else (answer tt, record m { entries = put key entry m.entries })

-- `!entry.expiration.IsZero() && now.After(entry.expiration)`.
unfoldable pub has_expired : Time → MemoryEntry → Bool
has_expired now e = elim e.expiration [ none ↦ false | some t ↦ ltb t now ]

abbrev pub get_entry : Time → Option MemoryEntry → Answer Bytes
get_entry now none = refuse not_found
get_entry now (some e) = if has_expired now e then refuse not_found else answer e.data'

-- `Get`.
unfoldable pub get_data : Time → String → MemoryBackend → Answer Bytes
get_data now key m =
    if same_text key ""
    then refuse invalid_key
    else if m.closed
    then refuse storage_closed
    else get_entry now (find key m.entries)

abbrev pub delete_entry :
    String → Option MemoryEntry → MemoryBackend → Answer (Unit {0}) × MemoryBackend
delete_entry key none m = (refuse not_found, m)
delete_entry key (some _) m = (answer tt, record m { entries = remove key m.entries })

-- `Delete`.
unfoldable pub delete_data : String → MemoryBackend → Answer (Unit {0}) × MemoryBackend
delete_data key m =
    if same_text key ""
    then (refuse invalid_key, m)
    else if m.closed
    then (refuse storage_closed, m)
    else delete_entry key (find key m.entries) m

abbrev pub exists_entry : Time → Option MemoryEntry → Bool
exists_entry now none = false
exists_entry now (some e) = not (has_expired now e)

-- `Exists`.
unfoldable pub data_exists : Time → String → MemoryBackend → Answer Bool
data_exists now key m =
    if same_text key ""
    then refuse invalid_key
    else if m.closed
    then refuse storage_closed
    else answer (exists_entry now (find key m.entries))

-- The loop of `List`.
unfoldable pub matching : Time → String → List (String × MemoryEntry) → List String
matching now prefix [] = []
matching now prefix ((key, e) ∷ rest) =
    let keys = matching now prefix rest in
    if has_expired now e
    then keys
    else if same_text prefix "" || starts_with key prefix
    then key ∷ keys
    else keys

-- `List`.
unfoldable pub list_keys : Time → String → MemoryBackend → Answer (List String)
list_keys now prefix m =
    if m.closed then refuse storage_closed else answer (matching now prefix m.entries)

-- `Close`; it never fails.
unfoldable pub close : MemoryBackend → MemoryBackend
close m = if m.closed then m else record { entries = []; closed = true }

-- The loop of `cleanExpired`.
unfoldable pub drop_expired : Time → List (String × MemoryEntry) → List (String × MemoryEntry)
drop_expired now [] = []
drop_expired now ((key, e) ∷ rest) =
    let kept = drop_expired now rest in if has_expired now e then kept else (key, e) ∷ kept

-- `cleanExpired`.
unfoldable pub clean_expired : Time → MemoryBackend → MemoryBackend
clean_expired now m = if m.closed then m else record m { entries = drop_expired now m.entries }
