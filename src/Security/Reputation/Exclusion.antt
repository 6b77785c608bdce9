-- ===== src/Security/Reputation/Exclusion.antt =====
-- When a recorded misbehavior excludes its participant.
use go_frost.Common.{
  ℕ, suc, ltb, leb, ◌≡◌, ◌≢◌, refl, sym, ap, ap₂, ◌∙◌, Bool, true, false, ◌&&◌, ◌||◌, String,
  Bool-cases, Option-cases, some, inl, inr, look_up, look_up-insert, look_up-insert_other, insert,
  subst, ◌≤◌, arith, lt→ltb,
}
use go_frost.Types.{Identifier}
use go_frost.Security.Reputation.{
  Time, MisbehaviorType, authentication_failure, invalid_share, timeout, nonce_reuse,
  invalid_commitment, other, ParticipantReputation, ReputationConfig, Tracker, exclude, exclude_at,
  count_violation, fresh_reputation, or_default, record_misbehavior, get_reputation, is_excluded,
  is_out, reinstated, reinstate_participant,
}

-- The threshold for a kind of misbehavior, and how often it was counted.
abbrev pub threshold : ReputationConfig → MisbehaviorType → ℕ
threshold c authentication_failure = c.max_authentication_failures
threshold c invalid_share = c.max_invalid_shares
threshold c timeout = c.max_timeouts
threshold c nonce_reuse = c.max_nonce_reuses
threshold c invalid_commitment = c.max_invalid_commitments
threshold c (other _) = 0

abbrev pub violations : MisbehaviorType → ParticipantReputation → ℕ
violations authentication_failure r = r.authentication_failures
violations invalid_share r = r.invalid_shares
violations timeout r = r.timeouts
violations nonce_reuse r = r.nonce_reuses
violations invalid_commitment r = r.invalid_commitments
violations (other _) r = 0

le→leb : (a b : ℕ) → a ≤ b → leb a b ≡ true
le→leb a b h = ground arith

or_false : (b : Bool) → (b || false) ≡ b
or_false true = refl
or_false false = refl

exclude-excluded :
    (now : Time) (reason : String) (r : ParticipantReputation)
    → (exclude now reason r).excluded ≡ true
unfolding exclude
exclude-excluded now reason r = elim (Bool-cases r.excluded) [ inl e ↦ rw e | inr e ↦ rw e ]

or_true : (b : Bool) → (b || true) ≡ true
or_true true = refl
or_true false = refl

exclude_at-excluded :
    (max count : ℕ) (now : Time) (reason : String) (r : ParticipantReputation)
    → (exclude_at max count now reason r).excluded ≡ (r.excluded || (ltb 0 max && leb max count))
unfolding exclude_at
exclude_at-excluded max count now reason r = elim (Bool-cases (ltb 0 max && leb max count)) [
  | inl e ↦ rw e (exclude-excluded now reason r ∙ sym (or_true r.excluded))
  | inr e ↦ rw e (sym (or_false r.excluded))
]

count_violation-excluded :
    (c : ReputationConfig) (now : Time) (m : MisbehaviorType) (r : ParticipantReputation)
    → (count_violation c now m r).excluded
      ≡ (r.excluded || (ltb 0 (threshold c m) && leb (threshold c m) (suc (violations m r))))
unfolding count_violation
count_violation-excluded c now authentication_failure r = exclude_at-excluded _ _ now _ _
count_violation-excluded c now invalid_share r = exclude_at-excluded _ _ now _ _
count_violation-excluded c now timeout r = exclude_at-excluded _ _ now _ _
count_violation-excluded c now nonce_reuse r = exclude_at-excluded _ _ now _ _
count_violation-excluded c now invalid_commitment r = exclude_at-excluded _ _ now _ _
count_violation-excluded c now (other _) r = sym (or_false r.excluded)

-- The reputation that a recording starts from.
abbrev pub known : Time → Identifier → Tracker → ParticipantReputation
known now id t = or_default (fresh_reputation id now 0) (look_up id t.reputations)

known-excluded :
    (now : Time) (id : Identifier) (t : Tracker) → (known now id t).excluded ≡ is_excluded id t
unfolding is_excluded
known-excluded now id t = elim (Option-cases (look_up id t.reputations)) [
  | inl e ↦ rw e
  | inr (r, e) ↦ rw e
]

-- After a recorded misbehavior, the participant is excluded exactly when it was before or the kind
-- has a threshold that its count, this one included, has reached.
pub record_misbehavior-excluded :
    (now later : Time) (id : Identifier) (m : MisbehaviorType) (details : String) (t : Tracker)
    → is_excluded id (record_misbehavior now later id m details t) ≡ (
        is_excluded id t
        || (ltb 0 (threshold t.config m)
            && leb (threshold t.config m) (suc (violations m (known now id t)))))
unfolding record_misbehavior is_excluded
record_misbehavior-excluded now later id m details t =
    ap is_out (look_up-insert id _ t.reputations)
    ∙ count_violation-excluded t.config later m _
    ∙ ap₂ (λ a b. a || (ltb 0 (threshold t.config m) && leb (threshold t.config m) (suc b)))
        (known-excluded now id t) (same_violations now id m (known now id t))
  where
    same_violations :
        (now : Time) (id : Identifier) (m : MisbehaviorType) (r : ParticipantReputation)
        → violations m (record r { last_seen = now }) ≡ violations m r
    same_violations now id authentication_failure r = refl
    same_violations now id invalid_share r = refl
    same_violations now id timeout r = refl
    same_violations now id nonce_reuse r = refl
    same_violations now id invalid_commitment r = refl
    same_violations now id (other _) r = refl

-- Recording a misbehavior changes nothing that is kept about another participant, its reputation
-- and its history.
pub record_misbehavior-frame :
    (now later : Time) (id : Identifier) (m : MisbehaviorType) (details : String) (t : Tracker)
    (another : Identifier)
    → id ≢ another
    → (get_reputation another (record_misbehavior now later id m details t)
        ≡ get_reputation another t)
      × (look_up another (record_misbehavior now later id m details t).history
          ≡ look_up another t.history)
unfolding record_misbehavior get_reputation
record_misbehavior-frame now later id m details t another n = (
  look_up-insert_other id another _ t.reputations n,
  look_up-insert_other id another _ t.history n,
)

violations-reinstated :
    (m : MisbehaviorType) (r : ParticipantReputation) → violations m (reinstated r) ≡ violations m r
violations-reinstated authentication_failure r = refl
violations-reinstated invalid_share r = refl
violations-reinstated timeout r = refl
violations-reinstated nonce_reuse r = refl
violations-reinstated invalid_commitment r = refl
violations-reinstated (other _) r = refl

relapse :
    (now later : Time) (id : Identifier) (m : MisbehaviorType) (details : String) (t : Tracker)
    (r : ParticipantReputation)
    → look_up id (insert id (reinstated r) t.reputations) ≡ some (reinstated r)
    → 1 ≤ threshold t.config m
    → threshold t.config m ≤ suc (violations m r)
    → (is_excluded id (record t { reputations = insert id (reinstated r) t.reputations }) ≡ false)
      × (is_excluded id (
            record_misbehavior now later id m details
              (record t { reputations = insert id (reinstated r) t.reputations }))
          ≡ true)
unfolding is_excluded
relapse now later id m details t r e p q = (
  ap is_out e,
  record_misbehavior-excluded now later id m details
        (record t { reputations = insert id (reinstated r) t.reputations })
      ∙ ap₂ (λ o b. (is_out o || (ltb 0 (threshold t.config m) && b))) e
          (ap
              (λ o.
                leb (threshold t.config m)
                  (suc (violations m (or_default (fresh_reputation id now 0) o))))
              e
            ∙ ap (λ n. leb (threshold t.config m) (suc n)) (violations-reinstated m r)
            ∙ le→leb (threshold t.config m) (suc (violations m r)) q)
      ∙ ap (λ b. b && true) (lt→ltb 0 (threshold t.config m) p),
)

-- A reinstated participant is not excluded, but keeps its counts: a single further misbehavior of a
-- kind whose threshold the count reaches with it excludes the participant again.
pub reinstate_participant-relapse :
    (now later : Time) (id : Identifier) (m : MisbehaviorType) (details : String) (t u : Tracker)
    → reinstate_participant id t ≡ some u
    → 1 ≤ threshold t.config m
    → threshold t.config m ≤ suc (violations m (known now id t))
    → (is_excluded id u ≡ false)
      × (is_excluded id (record_misbehavior now later id m details u) ≡ true)
unfolding reinstate_participant
reinstate_participant-relapse now later id m details t u h p q =
    elim (Option-cases (look_up id t.reputations)) [
      | inl e ↦ cc (rw (e, reinstate_participant) at h)
      | inr (r, e) ↦
          let v : Tracker = record t { reputations = insert id (reinstated r) t.reputations } in
          let k : v ≡ u = cc (rw (e, reinstate_participant) at h) in
          subst
            (λ w.
              (is_excluded id w ≡ false)
              × (is_excluded id (record_misbehavior now later id m details w) ≡ true))
            k
            (relapse now later id m details t r (look_up-insert id (reinstated r) t.reputations) p (
              subst
                (λ o.
                  threshold t.config m
                  ≤ suc (violations m (or_default (fresh_reputation id now 0) o)))
                e q))
    ]
