-- ===== src/Security/CommitmentTracker/Expiry.antt =====
-- `ClearExpired` keeps the session index, where no hash stands twice.
use go_frost.Common.{
  ◌+◌, ◌≡◌, refl, sym, ap, ◌∙◌, ◌⊎◌, inl, inr, String, true, Bool-cases, ltb, none, some,
  Option-cases, List, [], ◌∷◌, find, same_text, same_text-eq, subst, ◌≢◌, text-cases, find-remove,
  find-remove_other, find-put, find-put_other, Unique,
}
use go_frost.Security.Reputation.{Time}
use go_frost.Security.CommitmentTracker.{
  CommitmentIdentifier, member, add_member, set_or_empty, split_expired, still_recorded,
  put_or_remove, update_index, clear_expired, CommitmentTracker,
}
use go_frost.Security.CommitmentTracker.Index.{
  some_injective, member-add_member, member-add_member_old, IsIndexed, old_session,
}

abbrev Recorded : Type 0
Recorded = List (String × CommitmentIdentifier)

-- The hash is in the session's set.
abbrev InSet : String → String → List (String × List String) → Type 0
InSet session h index = member h (set_or_empty (find session index)) ≡ true

split-absent :
    (now ttl : Time) (m : Recorded) (h : String)
    → find h m ≡ none
    → find h (split_expired now ttl m).0 ≡ none
unfolding split_expired find
split-absent now ttl [] h n = refl
split-absent now ttl ((k, c) ∷ m) h n = elim (Bool-cases (same_text k h)) [
  | inl e ↦ cc (rw e at n)
  | inr e ↦
      let t = split-absent now ttl m h (rw e at n) in
      elim (Bool-cases (ltb (c.timestamp + ttl) now)) [ inl x ↦ rw x t | inr x ↦ rw (x, e) t ]
]

pub split-Unique : (now ttl : Time) (m : Recorded) → Unique m → Unique (split_expired now ttl m).0
unfolding split_expired
split-Unique now ttl [] u = tt
split-Unique now ttl ((k, c) ∷ m) u = elim (Bool-cases (ltb (c.timestamp + ttl) now)) [
  | inl x ↦ rw x (split-Unique now ttl m u.1)
  | inr x ↦ rw x (split-absent now ttl m k u.0, split-Unique now ttl m u.1)
]

-- An entry is left as it was, or its session is among those to look at.
split-cases :
    (now ttl : Time) (m : Recorded) (h : String) (c : CommitmentIdentifier)
    → Unique m
    → find h m ≡ some c
    → (find h (split_expired now ttl m).0 ≡ some c)
      ⊎ ((find h (split_expired now ttl m).0 ≡ none)
          × (member c.session_id (split_expired now ttl m).1 ≡ true))
unfolding split_expired find
split-cases now ttl [] h c u f = cc
split-cases now ttl ((k, d) ∷ m) h c u f = elim (Bool-cases (same_text k h)) [
  | inl e ↦
      let q : d ≡ c = some_injective (rw e at f) in
      elim (Bool-cases (ltb (d.timestamp + ttl) now)) [
        | inl x ↦
            let a = split-absent now ttl m k u.0 in
            let a' : find h (split_expired now ttl m).0 ≡ none =
              subst (λ j. find j (split_expired now ttl m).0 ≡ none) (same_text-eq k h e) a in
            let b =
              subst
                (λ (z : CommitmentIdentifier).
                  member z.session_id (add_member d.session_id (split_expired now ttl m).1) ≡ true)
                q (member-add_member d.session_id (split_expired now ttl m).1) in
            rw x (inr (a', b))
        | inr x ↦ rw (x, e) (inl (ap some q))
      ]
  | inr e ↦
      let t = split-cases now ttl m h c u.1 (rw e at f) in
      elim (Bool-cases (ltb (d.timestamp + ttl) now)) [
        | inl x ↦ elim t [
          | inl y ↦ rw x (inl y)
          | inr y ↦ rw x (
              inr (
                y.0,
                member-add_member_old d.session_id c.session_id (split_expired now ttl m).1 y.1,
              ))
        ]
        | inr x ↦ elim t [ inl y ↦ rw (x, e) (inl y) | inr y ↦ rw (x, e) (inr y) ]
      ]
]

-- What is left was there.
split-find :
    (now ttl : Time) (m : Recorded) (h : String) (c : CommitmentIdentifier)
    → Unique m
    → find h (split_expired now ttl m).0 ≡ some c
    → find h m ≡ some c
split-find now ttl m h c u f = elim (Option-cases (find h m)) [
  | inl e ↦ absurd (let n = split-absent now ttl m h e in cc (n, f))
  | inr (d, e) ↦ elim (split-cases now ttl m h d u e) [
    | inl y ↦ e ∙ sym y ∙ f
    | inr y ↦ absurd (let n = y.0 in cc (n, f))
  ]
]

still_recorded-member :
    (m : Recorded) (hs : List String) (h : String)
    → member h (still_recorded m hs) ≡ true
    → (member h hs ≡ true) × ((c : CommitmentIdentifier) × (find h m ≡ some c))
unfolding still_recorded member
still_recorded-member m [] h e = cc
still_recorded-member m (x ∷ xs) h e = elim (Option-cases (find x m)) [
  | inl n ↦
      let (a, b) = still_recorded-member m xs h (rw (n, still_recorded) at e) in (in_tail a, b)
  | inr (d, f) ↦
      let k = rw (f, still_recorded) at e in
      elim (Bool-cases (same_text x h)) [
        | inl q ↦ (rw q, (d, subst (λ j. find j m ≡ some d) (same_text-eq x h q) f))
        | inr q ↦ let (a, b) = still_recorded-member m xs h (rw q at k) in (rw q a, b)
      ]
]
  where
    in_tail : member h xs ≡ true → member h (x ∷ xs) ≡ true
    in_tail a = elim (Bool-cases (same_text x h)) [ inl q ↦ rw q | inr q ↦ rw q a ]

member-still_recorded :
    (m : Recorded) (hs : List String) (h : String) (c : CommitmentIdentifier)
    → member h hs ≡ true
    → find h m ≡ some c
    → member h (still_recorded m hs) ≡ true
unfolding still_recorded member
member-still_recorded m [] h c e f = cc
member-still_recorded m (x ∷ xs) h c e f = elim (Bool-cases (same_text x h)) [
  | inl q ↦
      let g : find x m ≡ some c = subst (λ j. find j m ≡ some c) (sym (same_text-eq x h q)) f in
      rw (g, still_recorded, q)
  | inr q ↦
      let t = member-still_recorded m xs h c (rw q at e) f in
      elim (Option-cases (find x m)) [
        | inl n ↦ rw (n, still_recorded) t
        | inr (d, g) ↦ rw (g, still_recorded, q) t
      ]
]

set-put_or_remove :
    (session : String) (hs : List String) (index : List (String × List String))
    → set_or_empty (find session (put_or_remove session hs index)) ≡ hs
set-put_or_remove session [] index = ap set_or_empty (find-remove session index)
set-put_or_remove session (h ∷ hs) index = ap set_or_empty (find-put session (h ∷ hs) index)

find-put_or_remove_other :
    (session other : String) (hs : List String) (index : List (String × List String))
    → session ≢ other
    → find other (put_or_remove session hs index) ≡ find other index
find-put_or_remove_other session other [] index n = find-remove_other session other index n
find-put_or_remove_other session other (h ∷ hs) index n =
    find-put_other session other (h ∷ hs) index n

-- The index after one session is looked at.
abbrev looked_at : Recorded → String → List (String × List String) → List (String × List String)
looked_at m session index =
    put_or_remove session (still_recorded m (set_or_empty (find session index))) index

looked_at-old :
    (m : Recorded) (session other h : String) (index : List (String × List String))
    → InSet other h (looked_at m session index)
    → InSet other h index × (session ≡ other → (c : CommitmentIdentifier) × (find h m ≡ some c))
looked_at-old m session other h index e = elim (text-cases session other) [
  | inl q ↦
      let s =
        set-put_or_remove session (still_recorded m (set_or_empty (find session index))) index in
      let k : member h (still_recorded m (set_or_empty (find session index))) ≡ true =
        ap (member h) (sym s)
        ∙ ap (λ o. member h (set_or_empty (find o (looked_at m session index)))) q
        ∙ e in
      let (a, b) = still_recorded-member m (set_or_empty (find session index)) h k in
      (subst (λ o. InSet o h index) q a, λ p. b)
  | inr n ↦ (
    ap (λ o. member h (set_or_empty o)) (sym (find-put_or_remove_other session other _ index n))
        ∙ e,
    λ p. absurd (n p),
  )
]

looked_at-keeps :
    (m : Recorded) (session other h : String) (index : List (String × List String))
    (c : CommitmentIdentifier)
    → InSet other h index
    → find h m ≡ some c
    → InSet other h (looked_at m session index)
looked_at-keeps m session other h index c e f = elim (text-cases session other) [
  | inl q ↦
      let s =
        set-put_or_remove session (still_recorded m (set_or_empty (find session index))) index in
      let k =
        member-still_recorded m (set_or_empty (find session index)) h c
          (subst (λ o. InSet o h index) (sym q) e) f in
      subst (λ o. InSet o h (looked_at m session index)) q (ap (member h) s ∙ k)
  | inr n ↦
      ap (λ o. member h (set_or_empty o)) (find-put_or_remove_other session other _ index n) ∙ e
]

update_index-keeps :
    (m : Recorded) (sessions : List String) (other h : String) (index : List (String × List String))
    (c : CommitmentIdentifier)
    → InSet other h index
    → find h m ≡ some c
    → InSet other h (update_index m sessions index)
unfolding update_index
update_index-keeps m [] other h index c e f = e
update_index-keeps m (s ∷ ss) other h index c e f =
    update_index-keeps m ss other h (looked_at m s index) c
      (looked_at-keeps m s other h index c e f) f

update_index-old :
    (m : Recorded) (sessions : List String) (other h : String) (index : List (String × List String))
    → InSet other h (update_index m sessions index)
    → InSet other h index
      × (member other sessions ≡ true → (c : CommitmentIdentifier) × (find h m ≡ some c))
unfolding update_index member
update_index-old m [] other h index e = (e, λ k. absurd (cc k))
update_index-old m (s ∷ ss) other h index e =
    let (a, b) = update_index-old m ss other h (looked_at m s index) e in
    let (a1, b1) = looked_at-old m s other h index a in
    (
      a1,
      λ k. elim (Bool-cases (same_text s other)) [
        | inl q ↦ b1 (same_text-eq s other q)
        | inr q ↦ b (rw q at k)
      ],
    )

in_set :
    (session h : String) (index : List (String × List String)) (hs : List String)
    → find session index ≡ some hs
    → member h hs ≡ true
    → InSet session h index
in_set session h index hs e m = ap (λ o. member h (set_or_empty o)) e ∙ m

pub clear_expired-IsIndexed :
    (now ttl : Time) (t : CommitmentTracker)
    → Unique t.commitments
    → IsIndexed t
    → IsIndexed (clear_expired now ttl t).0
unfolding clear_expired
clear_expired-IsIndexed now ttl t u i = record { listed = listed; recorded = recorded }
  where
    left : Recorded
    left = (split_expired now ttl t.commitments).0

    sessions : List String
    sessions = (split_expired now ttl t.commitments).1

    after : CommitmentTracker
    after = record {
      commitments = left;
      session_index = update_index left sessions t.session_index;
    }

    listed :
        (h : String) (c : CommitmentIdentifier)
        → find h left ≡ some c
        → (hs : List String) × (find c.session_id after.session_index ≡ some hs)
          × (member h hs ≡ true)
    listed h c f =
        let (hs, e, m) = i.listed h c (split-find now ttl t.commitments h c u f) in
        old_session c.session_id h after.session_index (
          update_index-keeps left sessions c.session_id h t.session_index c
            (in_set c.session_id h t.session_index hs e m) f)

    recorded :
        (session h : String) (hs : List String)
        → find session after.session_index ≡ some hs
        → member h hs ≡ true
        → (c : CommitmentIdentifier) × (find h left ≡ some c) × (c.session_id ≡ session)
    recorded session h hs e m =
        let (a, b) =
          update_index-old left sessions session h t.session_index
            (in_set session h after.session_index hs e m) in
        let (gs, eg, mg) = old_session session h t.session_index a in
        let (c, fc, sc) = i.recorded session h gs eg mg in
        elim (split-cases now ttl t.commitments h c u fc) [
          | inl y ↦ (c, y, sc)
          | inr y ↦
              let (d, fd) = b (subst (λ o. member o sessions ≡ true) sc y.1) in
              absurd (let n = y.0 in cc (n, fd))
        ]
