-- ===== src/Journal/Marked.antt =====
-- What happens to a marked entry of internal/journal/journal.go once its mark is stored: the calls of
-- the handle and the sweeps of all replicas, in any order, as the steps of one machine. The delete or
-- write of a sweep may come long after its read: the state that it read is the step's own.
use arbetern.Base.{
  ℕ, ◌≡◌, refl, sym, ◌∙◌, ◌≢◌, inl, inr, Bool, true, false, Option, none, some, String, List, [],
  ◌∷◌, arith, Bool-cases, ◌||◌, if◌then◌else◌,
}
use arbetern.Store.Client.{Client, IsS3}
use arbetern.Store.Backend.{
  not_found, conflict, other, Result, ok, err, if_tag, Codec, get_json, put_json, delete,
}
use arbetern.Store.Backend.Laws.{stored, get_json-ok, put_json_any, delete_any}
use arbetern.Journal.Entry.{Entry, Limits, Reason, refuse, is_stale}
use arbetern.Journal.Handle.{
  Handle, written, write, note_side_effect, beat, finish_done, interrupted,
}
use arbetern.Journal.Recovery.{
  resumed, next_attempt, retired, claimed, on_verdict, on_entry, recover_one,
}
use arbetern.Journal.Resumption.{recover_one-Resumes}

-- What holds of both branches of a test holds of the test.
branches {ℓ} :
    {A : Type ℓ} (P : A → Type 0) (b : Bool) (x y : A) → P x → P y → P (if b then x else y)
branches P true x y p q = p
branches P false x y p q = q

-- A call of the handle, or the end of a sweep that read the entry in an earlier state.
pub data Act (S : Type 0) : Type 0 where
  do_beat do_mark : ℕ → Act S
  do_done do_interrupt : Act S
  do_sweep : Limits → ℕ → S → Act S

module _ (c : Client) (json : Codec Entry) (key : String) where
  abbrev pub perform : Act c.State → Handle × c.State → Handle × c.State
  perform (do_beat now) (h, s) = ((beat c json key now h s).0.0, (beat c json key now h s).1)
  perform (do_mark now) (h, s) = note_side_effect c json key now h s
  perform do_done (h, s) = finish_done c json key h s
  perform do_interrupt (h, s) = interrupted c json key h s
  perform (do_sweep limits now read) (h, s) =
      (h, (recover_one c json limits key (λ x. s) now read).1)

  abbrev pub perform_all : List (Act c.State) → Handle × c.State → Handle × c.State
  perform_all [] w = w
  perform_all (a ∷ ss) w = perform_all ss (perform a w)

  -- Only a marked entry stands at the key, if one does.
  abbrev pub IsMarked : c.State → Type 0
  IsMarked s = (e : Entry) → stored c json s key ≡ some e → e.side_effects ≡ true

  -- The handle marks what it writes as well.
  abbrev pub IsMarkedWith : Handle × c.State → Type 0
  IsMarkedWith w = (w.0.entry.side_effects ≡ true) × IsMarked w.1

  same-IsMarked : (s s' : c.State) → c.object s' key ≡ c.object s key → IsMarked s → IsMarked s'
  same-IsMarked s s' same m e h = m e (rw same at h)

  gone-IsMarked : (s : c.State) → c.object s key ≡ none → IsMarked s
  gone-IsMarked s gone e h = let k : none ≡ some e = rw gone at h in absurd (ground (arith, k))

  body-IsMarked :
      (s : c.State) (b : String) (v : Entry)
      → c.object s key ≡ some b
      → json.unmarshal b ≡ some v
      → v.side_effects ≡ true
      → IsMarked s
  body-IsMarked s b v at opens m e h =
      let k : json.unmarshal b ≡ some e = rw at at h in let q : v ≡ e = cc in rw (← q) m

  module _ (laws : IsS3 c) where
    put-IsMarked :
        (v : Entry) (t : String) (s : c.State)
        → v.side_effects ≡ true
        → IsMarked s
        → IsMarked (put_json c json key v (if_tag t) s).1
    put-IsMarked v t s m k = elim (put_json_any c laws json key v (if_tag t) s) [
      | inl same ↦ same-IsMarked s _ same k
      | inr (b, shut, at, met) ↦ body-IsMarked _ b v at (json.round_trip v b shut) m
    ]

    delete-IsMarked : (t : String) (s : c.State) → IsMarked s → IsMarked (delete c key t s).1
    delete-IsMarked t s k = elim (delete_any c laws key t s) [
      | inl same ↦ same-IsMarked s _ same k
      | inr (gone, met) ↦ gone-IsMarked _ gone
    ]

    written-marked :
        (e : Entry) (h : Handle) (r : Result String)
        → e.side_effects ≡ true
        → h.entry.side_effects ≡ true
        → (written c json key e h r).0.entry.side_effects ≡ true
    written-marked e h (ok t) p q = p
    written-marked e h (err not_found) p q = q
    written-marked e h (err conflict) p q = q
    written-marked e h (err other) p q = q

    write-IsMarked :
        (now : ℕ) (h : Handle) (s : c.State)
        → IsMarkedWith (h, s)
        → IsMarkedWith ((write c json key now h s).0.0, (write c json key now h s).1)
    unfolding write
    write-IsMarked now h s (p, k) =
        let e : Entry = record (h.entry) { heartbeat = now } in
        (
          written-marked e h (put_json c json key e (if_tag h.tag) s).0 p p,
          put-IsMarked e h.tag s p k,
        )

    -- The conditional write of a sweep replaces the entry that it read, so that this one is marked.
    announced-IsMarked :
        (now : ℕ) (e : Entry) (t : String) (s read : c.State)
        → get_json c json key read ≡ ok (e, t)
        → IsMarked s
        → IsMarked (put_json c json key (next_attempt now e) (if_tag t) s).1
    announced-IsMarked now e t s read r k =
        let (b, at, opens, tag) = get_json-ok c laws json key read e t r in
        elim (put_json_any c laws json key (next_attempt now e) (if_tag t) s) [
          | inl same ↦ same-IsMarked s _ same k
          | inr (b', shut, now_at, met) ↦
              let (x, was, q) = met.0 (λ z. laws.etag_nonempty b (sym tag ∙ z)) in
              let same = laws.etag_injective x b (q ∙ tag) in
              let m : e.side_effects ≡ true = k e (rw (was, same) opens) in
              body-IsMarked _ b' (next_attempt now e) now_at
                (json.round_trip (next_attempt now e) b' shut) m
        ]

    module _ (limits : Limits) (now : ℕ) (s read : c.State) where
      claimed-state :
          (e : Entry) (p : Result String × c.State)
          → (claimed c json limits key (λ x. s) e p).1 ≡ p.1
      claimed-state e (ok t, u) = refl
      claimed-state e (err x, u) = refl

      retired-state :
          (e : Entry) (r : Reason) (p : Result Unit × c.State)
          → (retired c json limits key (λ x. s) e r p).1 ≡ p.1
      retired-state e r (ok t, u) = refl
      retired-state e r (err x, u) = refl

      on_verdict-IsMarked :
          (e : Entry) (t : String) (v : Option Reason)
          → get_json c json key read ≡ ok (e, t)
          → IsMarked s
          → IsMarked (on_verdict c json limits key (λ x. s) now e t v read).1
      unfolding on_verdict
      on_verdict-IsMarked e t (some r) got k =
          let q = retired-state e r (delete c key t s) in rw q (delete-IsMarked t s k)
      on_verdict-IsMarked e t none got k =
          let p = put_json c json key (next_attempt now e) (if_tag t) s in
          let q = claimed-state (next_attempt now e) p in
          rw q (announced-IsMarked now e t s read got k)

      sweep-IsMarked : IsMarked s → IsMarked (recover_one c json limits key (λ x. s) now read).1
      unfolding recover_one on_entry
      sweep-IsMarked k = go (get_json c json key read) refl
        where
          go :
              (r : Result (Entry × String))
              → get_json c json key read ≡ r
              → IsMarked (on_entry c json limits key (λ x. s) now r read).1
          go (err x) got = k
          go (ok (e, t)) got = elim (Bool-cases (is_stale now e.heartbeat)) [
            | inl y ↦ rw y (on_verdict-IsMarked e t (refuse e now limits) got k)
            | inr n ↦ rw n k
          ]

      -- A sweep never resumes what is marked when it would announce the resumption.
      pub sweep_passes :
          (e' : Entry)
          → IsMarked s
          → (recover_one c json limits key (λ x. s) now read).0 ≢ resumed e'
      sweep_passes e' k h =
          let (e, p) = recover_one-Resumes c laws json limits key (λ x. s) now read e' h in
          let yes = k e p.0 in let no = p.1.unmarked in ground (arith, yes, no)

    perform-IsMarked :
        (a : Act c.State) (h : Handle) (s : c.State)
        → IsMarkedWith (h, s)
        → IsMarkedWith (perform a (h, s))
    unfolding beat note_side_effect finish_done interrupted
    perform-IsMarked (do_beat now) h s k =
        branches (λ (w : (Handle × Bool) × c.State). IsMarkedWith (w.0.0, w.1)) h.closed
          ((h, false), s) (write c json key now h s) k (write-IsMarked now h s k)
    perform-IsMarked (do_mark now) h s k =
        let marked : Handle = record h { entry = record (h.entry) { side_effects = true } } in
        let w = write c json key now marked s in
        branches IsMarkedWith (h.closed || h.entry.side_effects) (h, s) (w.0.0, w.1) k
          (write-IsMarked now marked s (refl, k.1))
    perform-IsMarked do_done h s k =
        branches IsMarkedWith h.closed (h, s) (record h { closed = true }, (delete c key h.tag s).1)
          k (k.0, delete-IsMarked h.tag s k.1)
    perform-IsMarked do_interrupt h s k = k
    perform-IsMarked (do_sweep limits now read) h s k = (k.0, sweep-IsMarked limits now s read k.1)

    pub perform_all-IsMarked :
        (ss : List (Act c.State)) (h : Handle) (s : c.State)
        → IsMarkedWith (h, s)
        → IsMarkedWith (perform_all ss (h, s))
    perform_all-IsMarked [] h s k = k
    perform_all-IsMarked (a ∷ ss) h s k =
        let w = perform a (h, s) in perform_all-IsMarked ss w.0 w.1 (perform-IsMarked a h s k)
