-- ===== src/Storage/Memory/Keys.antt =====
-- No key stands twice in a store, and `List` gives the keys that can be read.
use go_frost.Common.{
  ◌≡◌, ◌≢◌, inl, inr, String, Bool, true, false, Bool-cases, Option, none, some, List, [], ◌∷◌,
  find, Unique, remove-Unique, put-Unique, same_text, if◌then◌else◌, ◌*◌, ◌<◌, ◌≤◌, ◌^◌,
}
use go_frost.Bytes.{Bytes}
use go_frost.Storage.Memory.{
  Time, Options, MemoryEntry, MemoryBackend, answer, put_data, delete_data, delete_entry,
  drop_expired, clean_expired, close, new_memory_backend, has_expired, data_exists, get_data,
  or_default,
}
use go_frost.Storage.Memory.View.{
  drop_expired-absent, view, as_answer, is_some, update, until, get_data-view, put_data-view,
  delete_data-view, clean_expired-view,
}

drop_expired-Unique :
    (now : Time) (es : List (String × MemoryEntry)) → Unique es → Unique (drop_expired now es)
unfolding drop_expired
drop_expired-Unique now [] u = tt
drop_expired-Unique now ((k, e) ∷ es) u = elim (Bool-cases (has_expired now e)) [
  | inl x ↦ rw x (drop_expired-Unique now es u.1)
  | inr x ↦ rw x (drop_expired-absent now k es u.0, drop_expired-Unique now es u.1)
]

put_data-Unique :
    (now : Time) (key : String) (bytes : Bytes) (opts : Option Options) (m : MemoryBackend)
    → Unique m.entries
    → Unique (put_data now key bytes opts m).1.entries
unfolding put_data
put_data-Unique now key bytes opts m u = elim (Bool-cases (same_text key "")) [
  | inl k ↦ rw k u
  | inr k ↦ elim (Bool-cases m.closed) [
    | inl c ↦ rw (k, c) u
    | inr c ↦ rw (k, c) (put-Unique key _ m.entries u)
  ]
]

branch :
    {A : Type 0} (x y : A × MemoryBackend) (b : Bool)
    → Unique x.1.entries
    → Unique y.1.entries
    → Unique (if b then x else y).1.entries
branch x y true u v = u
branch x y false u v = v

delete_data-Unique :
    (key : String) (m : MemoryBackend) → Unique m.entries → Unique (delete_data key m).1.entries
unfolding delete_data
delete_data-Unique key m u =
    branch _ _ (same_text key "") u (branch _ _ m.closed u (deleted (find key m.entries)))
  where
    deleted : (o : Option MemoryEntry) → Unique (delete_entry key o m).1.entries
    deleted none = u
    deleted (some e) = remove-Unique key m.entries u

clean_expired-Unique :
    (now : Time) (m : MemoryBackend) → Unique m.entries → Unique (clean_expired now m).entries
unfolding clean_expired
clean_expired-Unique now m u = elim (Bool-cases m.closed) [
  | inl c ↦ rw c u
  | inr c ↦ rw c (drop_expired-Unique now m.entries u)
]

close-Unique : (m : MemoryBackend) → Unique m.entries → Unique (close m).entries
unfolding close
close-Unique m u = elim (Bool-cases m.closed) [ inl c ↦ rw c u | inr c ↦ rw c tt ]

-- The states of a store under any calls of its methods.
pub data Reached : MemoryBackend → Type 0 where
  start : Reached new_memory_backend
  stored :
      {m : MemoryBackend} (now : Time) (key : String) (bytes : Bytes) (opts : Option Options)
      → Reached m
      → Reached (put_data now key bytes opts m).1
  deleted : {m : MemoryBackend} (key : String) → Reached m → Reached (delete_data key m).1
  cleaned : {m : MemoryBackend} (now : Time) → Reached m → Reached (clean_expired now m)
  closed : {m : MemoryBackend} → Reached m → Reached (close m)

-- No key stands twice in a store.
pub Reached-Unique : (m : MemoryBackend) → Reached m → Unique m.entries
unfolding new_memory_backend
Reached-Unique m Reached.start = tt
Reached-Unique m (Reached.stored {m = s} now key bytes opts r) =
    put_data-Unique now key bytes opts s (Reached-Unique s r)
Reached-Unique m (Reached.deleted {m = s} key r) = delete_data-Unique key s (Reached-Unique s r)
Reached-Unique m (Reached.cleaned {m = s} now r) = clean_expired-Unique now s (Reached-Unique s r)
Reached-Unique m (Reached.closed {m = s} r) = close-Unique s (Reached-Unique s r)

-- An open store, after any calls, implements a partial function from keys to data. For a
-- key that is not empty: `Get` and `Exists` read it; `Put`, with a lifetime of at most 2^63
-- nanoseconds, changes the value of its key, for the lifetime if that is positive; `Delete` removes
-- its key; and after `cleanExpired` every later reading is what it would have been.
pub memory_backend-view :
    (now later : Time) (key : String) (bytes : Bytes) (opts : Option Options) (m : MemoryBackend)
    (other : String)
    → key ≢ ""
    → m.closed ≡ false
    → (or_default opts).ttl * 1_000_000_000 < 2 ^ 63
    → Reached m
    → now ≤ later
    → (get_data now key m ≡ as_answer (view now m key))
      × (data_exists now key m ≡ answer (is_some (view now m key)))
      × (view later (put_data now key bytes opts m).1 other
          ≡ update key (until now (or_default opts).ttl later bytes) (view later m) other)
      × (view later (delete_data key m).1 other ≡ update key none (view later m) other)
      × (view later (clean_expired now m) other ≡ view later m other)
memory_backend-view now later key bytes opts m other n c h u b =
    let (got, found) = get_data-view now key m n c in
    (
      got,
      found,
      (put_data-view now later key bytes opts m other n c h).1,
      delete_data-view later key m other n c,
      clean_expired-view now later m other b (Reached-Unique m u),
    )
