-- ===== src/Projects/AutoMerge/Claims.antt =====
-- When a claim of the auto-merge of projects/automerge.go can succeed.
use arbetern.Base.{
  ℕ, ◌≡◌, ◌≢◌, Bool, true, false, not, ◌&&◌, ◌==◌, none, String, List, [], ◌∷◌, all, arith, str_eq,
  eq_refl,
}
use arbetern.Projects.Review.{ReviewState}
use arbetern.Projects.AutoMerge.{
  or_new, is_empty, changes_changed, head_moved, set_note, arm, disarm, claim, waits, switch_on,
  withdraw, switch_off, attribute, claim_update, updated, noted, merged_here, is_done_at, may_claim,
}
use arbetern.Projects.AutoMerge.Coherence.{
  MergeEvent, do_arm, do_disarm, do_claim, do_wait, do_on, do_withdraw, do_off, do_attribute,
  do_claim_update, do_updated, do_note, do_merged, do_changes, do_head, do_adopt, merge_step,
  merge_run, reports,
}

-- The events that start a delay.
abbrev pub starts_delay : MergeEvent → Bool
starts_delay (do_arm s now) = true
starts_delay (do_wait s note warn now) = true
starts_delay _ = false

abbrev pub is_unarmed : ReviewState → Bool
is_unarmed r = (or_new r.auto_merge).armed_at == 0

unarmed_step :
    (e : MergeEvent) (r : ReviewState)
    → starts_delay e ≡ false
    → is_unarmed r ≡ true
    → is_unarmed (merge_step e r) ≡ true
unfolding disarm claim switch_on withdraw switch_off attribute claim_update updated noted
    merged_here set_note changes_changed head_moved
unarmed_step (do_arm s now) r n h = absurd (ground (arith, n))
unarmed_step (do_wait s note warn now) r n h = absurd (ground (arith, n))
unarmed_step do_disarm r n h = ground arith
unarmed_step (do_claim head s) r n h = ground arith
unarmed_step (do_on content head base enabled now) r n h = ground arith
unarmed_step do_withdraw r n h = ground arith
unarmed_step (do_off by) r n h = ground arith
unarmed_step (do_attribute by) r n h = ground arith
unarmed_step (do_claim_update head now) r n h = ground arith
unarmed_step (do_updated head) r n h = ground arith
unarmed_step (do_note note head warn) r n h = ground arith
unarmed_step (do_merged now) r n h = ground arith
unarmed_step do_changes r n h = ground arith
unarmed_step (do_head head) r n h = ground arith
unarmed_step (do_adopt c lineage) r n h = ground arith

unarmed_run :
    (es : List MergeEvent) (r : ReviewState)
    → all (λ e. not (starts_delay e)) es ≡ true
    → is_unarmed r ≡ true
    → is_unarmed (merge_run es r) ≡ true
unarmed_run [] r n h = h
unarmed_run (e ∷ es) r n h =
    unarmed_run es (merge_step e r) (ground (arith, n)) (unarmed_step e r (ground (arith, n)) h)

unarmed_claim : (head s : String) (r : ReviewState) → is_unarmed r ≡ true → claim head s r ≡ none
unfolding claim
unarmed_claim head s r h = ground arith

claimed_unarmed :
    (head s : String) (r : ReviewState)
    → reports (claim head s r) ≡ true
    → is_unarmed (merge_step (do_claim head s) r) ≡ true
unfolding claim
claimed_unarmed head s r h = ground arith

pub claimed_state :
    (head s : String) (r : ReviewState)
    → reports (claim head s r) ≡ true
    → (is_done_at head r ≡ true) × (may_claim s (or_new r.auto_merge) ≡ true)
unfolding claim
claimed_state head s r h = ground arith

-- The claim of an auto-merge that succeeds found the review done at the claimed head, without a
-- round under way, and a delay running for the claimed fingerprint, with auto-merge not held, on,
-- going off or merged; and no later claim succeeds, whatever its head and fingerprint, as long as
-- the operations in between start no delay.
pub one_claim :
    (head s : String) (es : List MergeEvent) (head' s' : String) (r : ReviewState)
    → reports (claim head s r) ≡ true
    → all (λ e. not (starts_delay e)) es ≡ true
    → (is_done_at head r ≡ true)
      × (may_claim s (or_new r.auto_merge) ≡ true)
      × (claim head' s' (merge_run es (merge_step (do_claim head s) r)) ≡ none)
one_claim head s es head' s' r h n =
    let (done, may) = claimed_state head s r h in
    (
      done,
      may,
      unarmed_claim head' s' (merge_run es (merge_step (do_claim head s) r))
          (unarmed_run es (merge_step (do_claim head s) r) n (claimed_unarmed head s r h)),
    )

-- Whether a hold of a named person stands.
abbrev pub is_held_by : String → ReviewState → Bool
is_held_by by r =
    let m = or_new r.auto_merge in m.held && str_eq m.held_by by && not (is_empty m.held_by)

-- The events that can end a hold, or name another holder.
abbrev pub ends_hold : MergeEvent → Bool
ends_hold (do_on content head base enabled now) = true
ends_hold do_withdraw = true
ends_hold (do_off by) = not (is_empty by)
ends_hold _ = false

held_step :
    (by : String) (e : MergeEvent) (r : ReviewState)
    → ends_hold e ≡ false
    → is_held_by by r ≡ true
    → is_held_by by (merge_step e r) ≡ true
unfolding arm disarm claim waits switch_off attribute claim_update updated noted merged_here
    set_note changes_changed head_moved
held_step by (do_arm s now) r n h = ground arith
held_step by do_disarm r n h = ground arith
held_step by (do_claim head s) r n h = ground arith
held_step by (do_wait s note warn now) r n h = ground arith
held_step by (do_on content head base enabled now) r n h = absurd (ground (arith, n))
held_step by do_withdraw r n h = absurd (ground (arith, n))
held_step by (do_off x) r n h = ground arith
held_step by (do_attribute x) r n h = ground arith
held_step by (do_claim_update head now) r n h = ground arith
held_step by (do_updated head) r n h = ground arith
held_step by (do_note note head warn) r n h = ground arith
held_step by (do_merged now) r n h = ground arith
held_step by do_changes r n h = ground arith
held_step by (do_head head) r n h = ground arith
held_step by (do_adopt c lineage) r n h = ground arith

held_run :
    (by : String) (es : List MergeEvent) (r : ReviewState)
    → all (λ e. not (ends_hold e)) es ≡ true
    → is_held_by by r ≡ true
    → is_held_by by (merge_run es r) ≡ true
held_run by [] r n h = h
held_run by (e ∷ es) r n h =
    held_run by es (merge_step e r) (ground (arith, n)) (held_step by e r (ground (arith, n)) h)

held_blocks :
    (by head s : String) (now : ℕ) (r : ReviewState)
    → is_held_by by r ≡ true
    → (arm s now r ≡ none) × (claim head s r ≡ none) × (claim_update head now r ≡ none)
unfolding arm claim claim_update
held_blocks by head s now r h = ground arith

switched_off-held :
    (by : String) (r : ReviewState)
    → is_empty by ≡ false
    → r.auto_merge ≢ none
    → is_held_by by (merge_step (do_off by) r) ≡ true
unfolding switch_off
switched_off-held by r n h = ground (arith, eq_refl by)

-- Once a person has turned auto-merge off, no operation but the record that it is on, the start of
-- a withdrawal or another person's hold ends the hold or changes its holder: after any of the others,
-- neither a delay nor a claim nor an update of the branch starts.
pub hold_stays :
    (by : String) (es : List MergeEvent) (head s : String) (now : ℕ) (r : ReviewState)
    → is_empty by ≡ false
    → r.auto_merge ≢ none
    → all (λ e. not (ends_hold e)) es ≡ true
    → let r' = merge_run es (merge_step (do_off by) r) in
      (is_held_by by r' ≡ true)
      × (arm s now r' ≡ none)
      × (claim head s r' ≡ none)
      × (claim_update head now r' ≡ none)
hold_stays by es head s now r n h k =
    let q = held_run by es (merge_step (do_off by) r) k (switched_off-held by r n h) in
    let (armed, claimed, moved) =
      held_blocks by head s now (merge_run es (merge_step (do_off by) r)) q in
    (q, armed, claimed, moved)
