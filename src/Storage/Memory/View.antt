-- ===== src/Storage/Memory/View.antt =====
-- The store as a partial function from keys to data at a time, which the methods implement.
use go_frost.Common.{
  ◌≡◌, ◌≢◌, refl, sym, ap, ◌∙◌, inl, inr, String, Bool, true, false, Bool-cases, Option, none, some,
  List, find, put, remove, find-put, find-put_other, find-remove, find-remove_other, text-cases,
  same_text, same_text_refl, same_text-false, if◌then◌else◌, ℕ, ◌≤◌, ltb, Option-cases, Unique,
  lt→ltb, arith, ltb→lt, ◌+◌, ◌*◌, ◌<◌, ◌^◌, ◌%◌, [], ◌∷◌, subst, same_text-eq,
}
use go_frost.Bytes.{Bytes}
use go_frost.Storage.Memory.{
  Time, MemoryEntry, MemoryBackend, Answer, refuse, answer, not_found, has_expired, get_entry,
  get_data, exists_entry, data_exists, add_seconds, expiration_of, put_data, delete_data,
  drop_expired, clean_expired, Options, or_default,
}

-- A partial function from keys to data.
abbrev pub Contents : Type 0
Contents = String → Option Bytes

abbrev visible : Time → Option MemoryEntry → Option Bytes
visible now none = none
visible now (some e) = if has_expired now e then none else some e.data'

-- What can be read at a time.
abbrev pub view : Time → MemoryBackend → Contents
view now m key = visible now (find key m.entries)

-- The partial function with one value changed.
abbrev pub update : String → Option Bytes → Contents → Contents
update key value f other = if same_text key other then value else f other

abbrev pub as_answer : Option Bytes → Answer Bytes
as_answer none = refuse not_found
as_answer (some d) = answer d

abbrev pub is_some : Option Bytes → Bool
is_some none = false
is_some (some _) = true

get_entry-visible :
    (now : Time) (o : Option MemoryEntry) → get_entry now o ≡ as_answer (visible now o)
get_entry-visible now none = refl
get_entry-visible now (some e) = elim (Bool-cases (has_expired now e)) [
  | inl x ↦ rw x
  | inr x ↦ rw x
]

exists_entry-visible :
    (now : Time) (o : Option MemoryEntry) → exists_entry now o ≡ is_some (visible now o)
exists_entry-visible now none = refl
exists_entry-visible now (some e) = elim (Bool-cases (has_expired now e)) [
  | inl x ↦ rw x
  | inr x ↦ rw x
]

-- On an open store and a key that is not empty, `Get` and `Exists` read the partial function.
pub get_data-view :
    (now : Time) (key : String) (m : MemoryBackend)
    → key ≢ ""
    → m.closed ≡ false
    → (get_data now key m ≡ as_answer (view now m key))
      × (data_exists now key m ≡ answer (is_some (view now m key)))
unfolding get_data data_exists
get_data-view now key m n c =
    let k = same_text-false key "" n in
    (
      rw (k, c) (get_entry-visible now (find key m.entries)),
      rw (k, c) (ap answer (exists_entry-visible now (find key m.entries))),
    )

visible-put :
    (later : Time) (key other : String) (e : MemoryEntry) (entries : List (String × MemoryEntry))
    → visible later (find other (put key e entries))
      ≡ (if same_text key other then visible later (some e) else visible later (find other entries))
visible-put later key other e entries = elim (text-cases key other) [
  | inl q ↦
      let b : same_text key other ≡ true = ap (same_text key) (sym q) ∙ same_text_refl key in
      rw b
        (ap (visible later) (ap (λ k. find k (put key e entries)) (sym q) ∙ find-put key e entries))
  | inr n ↦
      rw (same_text-false key other n) (ap (visible later) (find-put_other key other e entries n))
]

visible-remove :
    (later : Time) (key other : String) (entries : List (String × MemoryEntry))
    → visible later (find other (remove key entries))
      ≡ (if same_text key other then none else visible later (find other entries))
visible-remove later key other entries = elim (text-cases key other) [
  | inl q ↦
      let b : same_text key other ≡ true = ap (same_text key) (sym q) ∙ same_text_refl key in
      rw b (
        ap (visible later)
          (ap (λ k. find k (remove key entries)) (sym q) ∙ find-remove key entries))
  | inr n ↦
      rw (same_text-false key other n) (ap (visible later) (find-remove_other key other entries n))
]

-- The wrap-around leaves short lifetimes alone.
add_seconds-small :
    (now ttl : ℕ) → ttl * 1_000_000_000 < 2 ^ 63 → add_seconds now ttl ≡ now + ttl * 1_000_000_000
unfolding add_seconds
add_seconds-small now ttl h =
    let r : ttl * 1_000_000_000 % 2 ^ 64 ≡ ttl * 1_000_000_000 = omega arith in
    let b : ltb (ttl * 1_000_000_000) (2 ^ 63) ≡ true = lt→ltb (ttl * 1_000_000_000) (2 ^ 63) h in
    rw (r, b)

-- The data that a key has after `Put`, at a time.
abbrev pub until : Time → ℕ → Time → Bytes → Option Bytes
until now ttl later bytes =
    if ltb 0 ttl
    then (if ltb (now + ttl * 1_000_000_000) later then none else some bytes)
    else some bytes

visible-until :
    (now later : Time) (ttl : ℕ) (bytes : Bytes) (metadata : List (String × String))
    → ttl * 1_000_000_000 < 2 ^ 63
    → visible later
        (some (record { data' = bytes; metadata = metadata; expiration = expiration_of now ttl }))
      ≡ until now ttl later bytes
unfolding expiration_of has_expired
visible-until now later ttl bytes metadata h = elim (Bool-cases (ltb 0 ttl)) [
  | inl e ↦ rw (e, add_seconds-small now ttl h)
  | inr e ↦ rw e
]

-- `Put`, on an open store, with a key that is not empty and a lifetime of at most 2^63 nanoseconds,
-- succeeds. From then on the key has the data, for the lifetime if it is positive, and every other
-- key has what it had.
pub put_data-view :
    (now later : Time) (key : String) (bytes : Bytes) (opts : Option Options) (m : MemoryBackend)
    (other : String)
    → key ≢ ""
    → m.closed ≡ false
    → (or_default opts).ttl * 1_000_000_000 < 2 ^ 63
    → ((put_data now key bytes opts m).0 ≡ answer tt)
      × (view later (put_data now key bytes opts m).1 other
          ≡ update key (until now (or_default opts).ttl later bytes) (view later m) other)
unfolding put_data
put_data-view now later key bytes opts m other n c h =
    let k = same_text-false key "" n in
    let o = or_default opts in
    let e : MemoryEntry = record {
      data' = bytes;
      metadata = o.metadata;
      expiration = expiration_of now o.ttl;
    } in
    (
      rw (k, c),
      rw (k, c)
          (visible-put later key other e m.entries
            ∙ ap (λ v. if same_text key other then v else view later m other)
                (visible-until now later o.ttl bytes o.metadata h)),
    )

-- `Delete`, on an open store with a key that is not empty, removes the key; every other key has what
-- it had.
pub delete_data-view :
    (later : Time) (key : String) (m : MemoryBackend) (other : String)
    → key ≢ ""
    → m.closed ≡ false
    → view later (delete_data key m).1 other ≡ update key none (view later m) other
unfolding delete_data
delete_data-view later key m other n c =
    let k = same_text-false key "" n in
    elim (Option-cases (find key m.entries)) [
      | inl e ↦ rw (k, c, e) (absent e)
      | inr (x, e) ↦ rw (k, c, e) (visible-remove later key other m.entries)
    ]
  where
    absent : find key m.entries ≡ none → view later m other ≡ update key none (view later m) other
    absent e = elim (text-cases key other) [
      | inl q ↦
          let b : same_text key other ≡ true = ap (same_text key) (sym q) ∙ same_text_refl key in
          rw b (ap (visible later) (ap (λ j. find j m.entries) (sym q) ∙ e))
      | inr d ↦ rw (same_text-false key other d)
    ]

pub drop_expired-absent :
    (now : Time) (key : String) (es : List (String × MemoryEntry))
    → find key es ≡ none
    → find key (drop_expired now es) ≡ none
unfolding drop_expired find
drop_expired-absent now key [] h = refl
drop_expired-absent now key ((j, e) ∷ es) h = elim (Bool-cases (same_text j key)) [
  | inl q ↦ cc (rw q at h)
  | inr q ↦
      let t = drop_expired-absent now key es (rw q at h) in
      elim (Bool-cases (has_expired now e)) [ inl x ↦ rw x t | inr x ↦ rw (x, q) t ]
]

expired-later :
    (now later : Time) (e : MemoryEntry)
    → now ≤ later
    → has_expired now e ≡ true
    → has_expired later e ≡ true
unfolding has_expired
expired-later now later e b h = elim (Option-cases e.expiration) [
  | inl q ↦ cc (rw q at h)
  | inr (t, q) ↦
      let k : ltb t now ≡ true = rw q at h in
      rw q (lt→ltb t later (omega (arith, ltb→lt t now k, b)))
]

drop_expired-visible :
    (now later : Time) (key : String) (es : List (String × MemoryEntry))
    → now ≤ later
    → Unique es
    → visible later (find key (drop_expired now es)) ≡ visible later (find key es)
unfolding drop_expired find
drop_expired-visible now later key [] b u = refl
drop_expired-visible now later key ((j, e) ∷ es) b u = elim (Bool-cases (same_text j key)) [
  | inl q ↦ elim (Bool-cases (has_expired now e)) [
    | inl x ↦
        let a =
          subst (λ k. find k (drop_expired now es) ≡ none) (same_text-eq j key q)
            (drop_expired-absent now j es u.0) in
        let y = expired-later now later e b x in rw (x, q, y, a)
    | inr x ↦ rw (x, q)
  ]
  | inr q ↦
      let t = drop_expired-visible now later key es b u.1 in
      elim (Bool-cases (has_expired now e)) [ inl x ↦ rw (x, q) t | inr x ↦ rw (x, q) t ]
]

-- `cleanExpired` cannot be seen: at every time after it each key has the data that it would have
-- had, where no key stands twice.
pub clean_expired-view :
    (now later : Time) (m : MemoryBackend) (key : String)
    → now ≤ later
    → Unique m.entries
    → view later (clean_expired now m) key ≡ view later m key
unfolding clean_expired
clean_expired-view now later m key b u = elim (Bool-cases m.closed) [
  | inl e ↦ rw e
  | inr e ↦ rw e (drop_expired-visible now later key m.entries b u)
]
