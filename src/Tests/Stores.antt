-- ===== src/Tests/Stores.antt =====
-- A value in the memory store that is read before and after its lifetime.
use go_frost.Common.{
  ◌≡◌, ◌≢◌, refl, none, some, [], ◌∷◌, String, arith, same_text, ap, true, false, sym,
}
use go_frost.Storage.Memory.{
  Options, MemoryBackend, answer, new_memory_backend, put_data, get_data, data_exists, delete_data,
  clean_expired,
}
use go_frost.Storage.Memory.View.{view, update, until, as_answer, is_some}
use go_frost.Storage.Memory.Keys.{Reached, memory_backend-view}

abbrev limited : Options
limited = record { permissions = 384; metadata = []; ttl = 2 }

abbrev stored : MemoryBackend
stored = (put_data 10 "k" (1 ∷ []) (some limited) new_memory_backend).1

stored_open : stored.closed ≡ false
unfolding put_data new_memory_backend
stored_open = refl

key_named : ◌≢◌ {A = String} "j" ""
key_named e = let q : false ≡ true = ap (same_text "j") (sym e) in cc q

memory_backend-view_example :
    (get_data 20 "j" stored ≡ as_answer (view 20 stored "j"))
    × (data_exists 20 "j" stored ≡ answer (is_some (view 20 stored "j")))
    × (view 30 (put_data 20 "j" (2 ∷ []) (some limited) stored).1 "k"
        ≡ update "j" (until 20 2 30 (2 ∷ [])) (view 30 stored) "k")
    × (view 30 (delete_data "j" stored).1 "k" ≡ update "j" none (view 30 stored) "k")
    × (view 30 (clean_expired 20 stored) "k" ≡ view 30 stored "k")
memory_backend-view_example =
    memory_backend-view 20 30 "j" (2 ∷ []) (some limited) stored "k" key_named stored_open
      (omega arith) (Reached.stored 10 "k" (1 ∷ []) (some limited) Reached.start) (omega arith)
