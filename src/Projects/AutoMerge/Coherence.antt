-- ===== src/Projects/AutoMerge/Coherence.antt =====
-- What the auto-merge state of projects/automerge.go says at any time: the operations as the steps of
-- one machine on the review of a pull request, and the fields that never contradict one another.
use arbetern.Base.{
  ℕ, ◌≡◌, refl, inl, inr, Bool, true, false, not, ◌&&◌, ◌||◌, ◌==◌, Option, none, some, String,
  List, [], ◌∷◌, all, arith, str_eq, Bool-cases, eq_iff,
}
use arbetern.Projects.Review.{MergeState, ReviewState}
use arbetern.Projects.AutoMerge.{
  contains, or_new, is_empty, changes_changed, head_moved, set_note, Change, arm, disarm, claim,
  waits_on, held_off, switched_off, off_on, going_off, switched_on, enabled_on, waits, switch_on,
  withdraw, switch_off, attribute, claim_update, updated, noted, merged_here,
}
use arbetern.Projects.AutoMerge.Changes.{ChangeRead}
use arbetern.Projects.Rounds.Watching.{adopted_merge, is_named}

-- One call of an operation; the last three are what `observe` does to the state.
pub data MergeEvent : Type 0 where
  do_arm : String → ℕ → MergeEvent
  do_disarm : MergeEvent
  do_claim : String → String → MergeEvent
  do_wait : String → String → Bool → ℕ → MergeEvent
  do_on : String → String → String → Bool → ℕ → MergeEvent
  do_withdraw : MergeEvent
  do_off : String → MergeEvent
  do_attribute : String → MergeEvent
  do_claim_update : String → ℕ → MergeEvent
  do_updated : String → MergeEvent
  do_note : String → String → Bool → MergeEvent
  do_merged : ℕ → MergeEvent
  do_changes : MergeEvent
  do_head : String → MergeEvent
  do_adopt : ChangeRead → List String → MergeEvent

abbrev pub kept : (MergeState → MergeState) → Option MergeState → Option (MergeState × Bool)
kept f none = none
kept f (some m) = some (f m, true)

abbrev pub change_of : MergeEvent → Change
change_of (do_arm s now) = arm s now
change_of do_disarm = disarm
change_of (do_claim head s) = claim head s
change_of (do_wait s note warn now) = waits s note warn now
change_of (do_on content head base enabled now) = switch_on content head base enabled now
change_of do_withdraw = withdraw
change_of (do_off by) = switch_off by
change_of (do_attribute by) = attribute by
change_of (do_claim_update head now) = claim_update head now
change_of (do_updated head) = updated head
change_of (do_note note head warn) = noted note head warn
change_of (do_merged now) = merged_here now
change_of do_changes = λ r. kept changes_changed r.auto_merge
change_of (do_head head) = λ r. kept (head_moved head) r.auto_merge
change_of (do_adopt c lineage) = λ r. kept (adopted_merge c lineage) r.auto_merge

abbrev pub after : ReviewState → Option (MergeState × Bool) → ReviewState
after r none = r
after r (some (m, b)) = record r { auto_merge = some m }

-- The review after an event, and after events in order.
abbrev pub merge_step : MergeEvent → ReviewState → ReviewState
merge_step e r = after r (change_of e r)

abbrev pub merge_run : List MergeEvent → ReviewState → ReviewState
merge_run [] r = r
merge_run (e ∷ es) r = merge_run es (merge_step e r)

-- Whether the operation reports that it changed the state.
abbrev pub reports : Option (MergeState × Bool) → Bool
reports none = false
reports (some (m, b)) = b

-- A person's hold leaves nothing on, going off or under way; only what is on has been enabled and
-- has recorded what it is on for; and only a hold has a holder.
abbrev pub is_coherent : MergeState → Bool
is_coherent m =
    (not m.held || (not m.on && not m.withdrawing && is_empty m.snapshot && (m.armed_at == 0)))
    && (is_empty m.held_by || m.held)
    && ((m.enabled_at == 0) || m.on)
    && (m.on || (is_empty m.on_head && is_empty m.on_content && is_empty m.on_base))

-- The fingerprint of a pull request is never the empty text.
abbrev pub has_snapshot : MergeEvent → Bool
has_snapshot (do_wait s note warn now) = not (is_empty s)
has_snapshot _ = true

-- What holds of a review's auto-merge state, taken to be the fresh one before there is any.
abbrev pub Holds : (MergeState → Bool) → ReviewState → Type 0
Holds p r = p (or_new r.auto_merge) ≡ true

-- A test that every changed state passes holds after the step.
after-Holds :
    (p : MergeState → Bool) (r : ReviewState) (o : Option (MergeState × Bool))
    → Holds p r
    → ((m : MergeState) (b : Bool) → o ≡ some (m, b) → p m ≡ true)
    → Holds p (after r o)
after-Holds p r none h k = h
after-Holds p r (some (m, b)) h k = k m b refl

-- A text that is another, non-empty one is not empty.
is_empty-same : (a b : String) → str_eq a b ≡ true → is_empty a ≡ is_empty b
is_empty-same a b h = let e : a ≡ b = (eq_iff a b).0 h in rw e refl

waits_on-Holds :
    (s note : String) (warn : Bool) (now : ℕ) (a : Option MergeState) (r : ReviewState)
    → is_empty s ≡ false
    → is_coherent (or_new a) ≡ true
    → Holds is_coherent r
    → Holds is_coherent (after r (waits_on s note warn now a))
unfolding set_note
waits_on-Holds s note warn now none r n h k = k
waits_on-Holds s note warn now (some m) r n h k = elim (Bool-cases (str_eq m.snapshot s)) [
  | inl y ↦ let e = is_empty-same m.snapshot s y in rw y (ground (arith, n, h, e))
  | inr z ↦ rw z k
]

switched_on-coherent :
    (content head base : String) (enabled : Bool) (now : ℕ) (m : MergeState)
    → is_coherent (enabled_on enabled now (switched_on content head base m)) ≡ true
switched_on-coherent content head base true now m = ground arith
switched_on-coherent content head base false now m = ground arith

going_off-coherent : (m : MergeState) → is_coherent m ≡ true → is_coherent (going_off m) ≡ true
going_off-coherent m h = ground arith

held_off-coherent :
    (by : String) (m : MergeState)
    → is_coherent m ≡ true
    → is_coherent (held_off by (switched_off m)) ≡ true
held_off-coherent by m h = elim (Bool-cases (is_empty by)) [
  | inl y ↦ rw y (elim (Bool-cases m.held) [
    | inl z ↦ rw z (ground (arith, h, z))
    | inr z ↦ rw z (ground (arith, h, z))
  ])
  | inr z ↦ rw z (ground arith)
]

kept-Holds :
    (f : MergeState → MergeState) (r : ReviewState)
    → ((m : MergeState) → is_coherent m ≡ true → is_coherent (f m) ≡ true)
    → (a : Option MergeState) → is_coherent (or_new a) ≡ true
    → Holds is_coherent r
    → Holds is_coherent (after r (kept f a))
kept-Holds f r k none h g = g
kept-Holds f r k (some m) h g = k m h

changed-coherent : (m : MergeState) → is_coherent m ≡ true → is_coherent (changes_changed m) ≡ true
unfolding changes_changed
changed-coherent m h = elim (Bool-cases m.held) [
  | inl z ↦ ground (arith, h, z)
  | inr z ↦ ground (arith, h, z)
]

moved-coherent :
    (head : String) (m : MergeState) → is_coherent m ≡ true → is_coherent (head_moved head m) ≡ true
unfolding head_moved
moved-coherent head m h = ground (arith, h)

adopted-coherent :
    (c : ChangeRead) (lineage : List String) (m : MergeState)
    → is_coherent m ≡ true
    → is_coherent (adopted_merge c lineage m) ≡ true
adopted-coherent c lineage m h =
    elim (Bool-cases (is_named m.on_content && contains lineage m.on_head)) [
      | inl y ↦ rw y (ground (arith, h, y))
      | inr n ↦ rw n h
    ]

merge_step-Holds :
    (e : MergeEvent) (r : ReviewState)
    → has_snapshot e ≡ true
    → Holds is_coherent r
    → Holds is_coherent (merge_step e r)
unfolding arm disarm claim waits switch_on withdraw switch_off attribute claim_update updated noted
    merged_here set_note changes_changed head_moved
merge_step-Holds (do_arm s now) r n h = ground arith
merge_step-Holds do_disarm r n h = ground arith
merge_step-Holds (do_claim head s) r n h = ground arith
merge_step-Holds (do_wait s note warn now) r n h =
    waits_on-Holds s note warn now r.auto_merge r (ground (arith, n)) h h
merge_step-Holds (do_on content head base enabled now) r n h =
    elim (Bool-cases
      ((or_new r.auto_merge).on && not (or_new r.auto_merge).withdrawing && not enabled)) [
        | inl y ↦ rw y h
        | inr z ↦ rw z (switched_on-coherent content head base enabled now (or_new r.auto_merge))
      ]
merge_step-Holds do_withdraw r n h = elim (Bool-cases (or_new r.auto_merge).withdrawing) [
  | inl y ↦ rw y h
  | inr z ↦ rw z (going_off-coherent (or_new r.auto_merge) h)
]
merge_step-Holds (do_off by) r n h =
    after-Holds is_coherent r (off_on by r.auto_merge) h (go r.auto_merge h)
  where
    go :
        (a : Option MergeState)
        → is_coherent (or_new a) ≡ true
        → (m : MergeState) (b : Bool) → off_on by a ≡ some (m, b)
        → is_coherent m ≡ true
    go none k m b e = absurd (ground (arith, e))
    go (some x) k m b e =
        let q : held_off by (switched_off x) ≡ m = cc in rw (← q) (held_off-coherent by x k)
merge_step-Holds (do_attribute by) r n h = ground arith
merge_step-Holds (do_claim_update head now) r n h = ground arith
merge_step-Holds (do_updated head) r n h = ground arith
merge_step-Holds (do_note note head warn) r n h = ground arith
merge_step-Holds (do_merged now) r n h = ground arith
merge_step-Holds do_changes r n h = kept-Holds changes_changed r changed-coherent r.auto_merge h h
merge_step-Holds (do_head head) r n h =
    kept-Holds (head_moved head) r (moved-coherent head) r.auto_merge h h
merge_step-Holds (do_adopt c lineage) r n h =
    kept-Holds (adopted_merge c lineage) r (adopted-coherent c lineage) r.auto_merge h h

-- Over any operations, from a review without an auto-merge state on, a hold means that auto-merge is
-- neither on nor going off and no delay is running; only a hold has a holder; and what has been
-- enabled, or records the head, the base or the changes it is on for, is on. A note that waits for a
-- delay names the fingerprint of a pull request, which is not empty.
pub merge_run-coherent :
    (es : List MergeEvent) (r : ReviewState)
    → all has_snapshot es ≡ true
    → is_coherent (or_new r.auto_merge) ≡ true
    → is_coherent (or_new (merge_run es r).auto_merge) ≡ true
merge_run-coherent [] r n h = h
merge_run-coherent (e ∷ es) r n h =
    merge_run-coherent es (merge_step e r) (ground (arith, n))
      (merge_step-Holds e r (ground (arith, n)) h)
