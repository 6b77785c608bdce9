-- ===== src/Security/CommitmentTracker/Index.antt =====
-- The session index of the tracker holds exactly the hashes of the commitments of each session.
use go_frost.Common.{
  ◌≡◌, refl, sym, ap, ◌∙◌, ◌⊎◌, inl, inr, String, true, false, Bool-cases, none, some, Option-cases,
  List, [], ◌∷◌, find, put, remove, find-put, find-put_other, find-remove, find-remove_other,
  find-remove_absent, same_text, same_text_refl, same_text-eq, subst, text-cases,
}
use go_frost.Security.CommitmentTracker.{
  CommitmentIdentifier, CommitmentTracker, Environment, member, add_member, set_or_empty,
  commitment_hash, record_at, record_commitment, remove_all, clear_at, clear_session,
}

member_self : (h : String) (xs : List String) → member h (h ∷ xs) ≡ true
unfolding member
member_self h xs = rw (same_text_refl h)

pub member-add_member : (h : String) (xs : List String) → member h (add_member h xs) ≡ true
unfolding add_member
member-add_member h xs = elim (Bool-cases (member h xs)) [
  | inl e ↦ rw e e
  | inr e ↦ rw e (member_self h xs)
]

member-tail : (h k : String) (xs : List String) → member k xs ≡ true → member k (h ∷ xs) ≡ true
unfolding member
member-tail h k xs m = elim (Bool-cases (same_text h k)) [ inl e ↦ rw e | inr e ↦ rw e m ]

pub member-add_member_old :
    (h k : String) (xs : List String) → member k xs ≡ true → member k (add_member h xs) ≡ true
unfolding add_member
member-add_member_old h k xs m = elim (Bool-cases (member h xs)) [
  | inl e ↦ rw e m
  | inr e ↦ rw e (member-tail h k xs m)
]

pub add_member-cases :
    (h k : String) (xs : List String)
    → member k (add_member h xs) ≡ true
    → (h ≡ k) ⊎ (member k xs ≡ true)
unfolding add_member member
add_member-cases h k xs m = elim (Bool-cases (member h xs)) [
  | inl e ↦ inr (rw e at m)
  | inr e ↦ elim (Bool-cases (same_text h k)) [
    | inl q ↦ inl (same_text-eq h k q)
    | inr q ↦ inr (rw (e, q) at m)
  ]
]

find-remove_all_absent :
    (hs : List String) (h : String) (m : List (String × CommitmentIdentifier))
    → find h m ≡ none
    → find h (remove_all hs m) ≡ none
unfolding remove_all
find-remove_all_absent [] h m e = e
find-remove_all_absent (x ∷ xs) h m e =
    find-remove_all_absent xs h (remove x m) (find-remove_absent x h m e)

pub find-remove_all-member :
    (hs : List String) (h : String) (m : List (String × CommitmentIdentifier))
    → member h hs ≡ true
    → find h (remove_all hs m) ≡ none
unfolding remove_all member
find-remove_all-member [] h m e = cc
find-remove_all-member (x ∷ xs) h m e = elim (Bool-cases (same_text x h)) [
  | inl q ↦
      find-remove_all_absent xs h (remove x m)
        (subst (λ k. find k (remove x m) ≡ none) (same_text-eq x h q) (find-remove x m))
  | inr q ↦ find-remove_all-member xs h (remove x m) (rw q at e)
]

pub find-remove_all_other :
    (hs : List String) (h : String) (m : List (String × CommitmentIdentifier))
    → member h hs ≡ false
    → find h (remove_all hs m) ≡ find h m
unfolding remove_all member
find-remove_all_other [] h m e = refl
find-remove_all_other (x ∷ xs) h m e = elim (Bool-cases (same_text x h)) [
  | inl q ↦ cc (rw q at e)
  | inr q ↦
      find-remove_all_other xs h (remove x m) (rw q at e)
      ∙ find-remove_other x h m (λ p. cc (q, sym (same_text_refl x) ∙ ap (same_text x) p))
]

-- Every commitment's hash is in the set of its session, and every hash in a session's set is that
-- of a commitment of the session.
pub record IsIndexed (t : CommitmentTracker) : Type 0 where
  pub listed :
      (h : String) (c : CommitmentIdentifier)
      → find h t.commitments ≡ some c
      → (hs : List String) × (find c.session_id t.session_index ≡ some hs) × (member h hs ≡ true)
  pub recorded :
      (session h : String) (hs : List String)
      → find session t.session_index ≡ some hs
      → member h hs ≡ true
      → (c : CommitmentIdentifier) × (find h t.commitments ≡ some c) × (c.session_id ≡ session)

pub some_injective : {A : Type 0} {a b : A} → some a ≡ some b → a ≡ b
some_injective h = cc h

-- A commitment of the session is in the session's set.
own_member :
    (session h : String) (t : CommitmentTracker) (hs : List String) (c : CommitmentIdentifier)
    → IsIndexed t
    → find session t.session_index ≡ some hs
    → find h t.commitments ≡ some c
    → c.session_id ≡ session
    → member h hs ≡ true
own_member session h t hs c i e f q =
    let (gs, eg, mg) = i.listed h c f in
    let p : gs ≡ hs = some_injective (sym eg ∙ ap (λ s. find s t.session_index) q ∙ e) in
    subst (λ xs. member h xs ≡ true) p mg

-- A member of the session's set is a commitment of the session.
pub own_session :
    (session h : String) (t : CommitmentTracker) (hs : List String) (c : CommitmentIdentifier)
    → IsIndexed t
    → find session t.session_index ≡ some hs
    → find h t.commitments ≡ some c
    → member h hs ≡ true
    → c.session_id ≡ session
own_session session h t hs c i e f m =
    let (d, fd, sd) = i.recorded session h hs e m in
    ap (λ (x : CommitmentIdentifier). x.session_id) (some_injective (sym f ∙ fd)) ∙ sd

cleared-IsIndexed :
    (session : String) (t : CommitmentTracker) (hs : List String)
    → find session t.session_index ≡ some hs
    → IsIndexed t
    → IsIndexed (clear_at (some hs) session t)
cleared-IsIndexed session t hs e i = record { listed = listed; recorded = recorded }
  where
    listed :
        (h : String) (c : CommitmentIdentifier)
        → find h (remove_all hs t.commitments) ≡ some c
        → (gs : List String) × (find c.session_id (remove session t.session_index) ≡ some gs)
          × (member h gs ≡ true)
    listed h c f = elim (Bool-cases (member h hs)) [
      | inl m ↦ absurd (let n = find-remove_all-member hs h t.commitments m in cc (n, f))
      | inr m ↦
          let k = sym (find-remove_all_other hs h t.commitments m) ∙ f in
          let (gs, eg, mg) = i.listed h c k in
          (
            gs,
            find-remove_other session c.session_id t.session_index
                  (λ q. let b = own_member session h t hs c i e k (sym q) in cc (b, m))
                ∙ eg,
            mg,
          )
    ]

    recorded :
        (other h : String) (gs : List String)
        → find other (remove session t.session_index) ≡ some gs
        → member h gs ≡ true
        → (c : CommitmentIdentifier) × (find h (remove_all hs t.commitments) ≡ some c)
          × (c.session_id ≡ other)
    recorded other h gs f m = elim (text-cases session other) [
      | inl q ↦ absurd (
          let n = find-remove session t.session_index in
          let f' = ap (λ s. find s (remove session t.session_index)) q ∙ f in cc (n, f'))
      | inr q ↦
          let k = sym (find-remove_other session other t.session_index q) ∙ f in
          let (c, fc, sc) = i.recorded other h gs k m in
          elim (Bool-cases (member h hs)) [
            | inl b ↦ absurd (q (sym (own_session session h t hs c i e fc b) ∙ sc))
            | inr b ↦ (c, find-remove_all_other hs h t.commitments b ∙ fc, sc)
          ]
    ]

pub clear_session-IsIndexed :
    (session : String) (t : CommitmentTracker) → IsIndexed t → IsIndexed (clear_session session t)
unfolding clear_session
clear_session-IsIndexed session t i = elim (Option-cases (find session t.session_index)) [
  | inl e ↦ rw e i
  | inr (hs, e) ↦ rw e (cleared-IsIndexed session t hs e i)
]

-- A member of what was read for a session is a member of a set that is there.
pub old_session :
    (session h : String) (index : List (String × List String))
    → member h (set_or_empty (find session index)) ≡ true
    → (hs : List String) × (find session index ≡ some hs) × (member h hs ≡ true)
unfolding member
old_session session h index b = elim (Option-cases (find session index)) [
  | inl e ↦ cc (rw e at b)
  | inr (hs, e) ↦ (hs, e, rw e at b)
]

module _ (env : Environment) where
  new-IsIndexed :
      (hash : String) (c : CommitmentIdentifier) (t : CommitmentTracker)
      → find hash t.commitments ≡ none
      → IsIndexed t
      → IsIndexed (record_at env none hash c t).1
  new-IsIndexed hash c t fresh i = record { listed = listed; recorded = recorded }
    where
      old : List String
      old = set_or_empty (find c.session_id t.session_index)

      index : List (String × List String)
      index = put c.session_id (add_member hash old) t.session_index

      listed :
          (h : String) (d : CommitmentIdentifier)
          → find h (put hash c t.commitments) ≡ some d
          → (gs : List String) × (find d.session_id index ≡ some gs) × (member h gs ≡ true)
      listed h d f = elim (text-cases hash h) [
        | inl q ↦
            let e : c ≡ d = some_injective (
              sym (find-put hash c t.commitments)
              ∙ ap (λ k. find k (put hash c t.commitments)) q
              ∙ f) in
            (
              add_member hash old,
              ap (λ (x : CommitmentIdentifier). find x.session_id index) (sym e)
                  ∙ find-put c.session_id (add_member hash old) t.session_index,
              subst (λ k. member k (add_member hash old) ≡ true) q (member-add_member hash old),
            )
        | inr n ↦
            let (gs, eg, mg) = i.listed h d (sym (find-put_other hash h c t.commitments n) ∙ f) in
            elim (text-cases c.session_id d.session_id) [
              | inl s ↦
                  let p : old ≡ gs = ap set_or_empty (ap (λ k. find k t.session_index) s ∙ eg) in
                  (
                    add_member hash old,
                    ap (λ k. find k index) (sym s)
                        ∙ find-put c.session_id (add_member hash old) t.session_index,
                    member-add_member_old hash h old (subst (λ xs. member h xs ≡ true) (sym p) mg),
                  )
              | inr s ↦ (
                gs,
                find-put_other c.session_id d.session_id (add_member hash old) t.session_index s
                    ∙ eg,
                mg,
              )
            ]
      ]

      kept :
          (h : String) (d : CommitmentIdentifier)
          → find h t.commitments ≡ some d
          → find h (put hash c t.commitments) ≡ some d
      kept h d fd =
          find-put_other hash h c t.commitments
            (λ q. let k = ap (λ x. find x t.commitments) q in cc (fresh, k, fd))
          ∙ fd

      recorded :
          (other h : String) (gs : List String)
          → find other index ≡ some gs
          → member h gs ≡ true
          → (d : CommitmentIdentifier) × (find h (put hash c t.commitments) ≡ some d)
            × (d.session_id ≡ other)
      recorded other h gs f m = elim (text-cases c.session_id other) [
        | inl s ↦
            let p : add_member hash old ≡ gs = some_injective (
              sym (find-put c.session_id (add_member hash old) t.session_index)
              ∙ ap (λ k. find k index) s
              ∙ f) in
            elim (add_member-cases hash h old (subst (λ xs. member h xs ≡ true) (sym p) m)) [
              | inl q ↦ (
                c,
                ap (λ k. find k (put hash c t.commitments)) (sym q) ∙ find-put hash c t.commitments,
                s,
              )
              | inr b ↦
                  let (hs, e, n) = old_session c.session_id h t.session_index b in
                  let (d, fd, sd) = i.recorded c.session_id h hs e n in (d, kept h d fd, sd ∙ s)
            ]
        | inr s ↦
            let k =
              sym (find-put_other c.session_id other (add_member hash old) t.session_index s) ∙ f in
            let (d, fd, sd) = i.recorded other h gs k m in (d, kept h d fd, sd)
      ]

  -- A call of `RecordCommitment` keeps the index, whatever it returns.
  pub record_commitment-IsIndexed :
      (c : CommitmentIdentifier) (t : CommitmentTracker)
      → IsIndexed t
      → IsIndexed (record_commitment env c t).1
  unfolding record_commitment
  record_commitment-IsIndexed c t i =
      elim (Option-cases (find (commitment_hash env c) t.commitments)) [
        | inl e ↦ rw e (new-IsIndexed (commitment_hash env c) c t e i)
        | inr (d, e) ↦ rw e i
      ]
