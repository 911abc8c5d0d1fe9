-- ===== src/Journal/Marks.antt =====
-- What a holder's writes do to the entry of internal/journal/journal.go, before and after the
-- sweep took the work over.
use arbetern.Base.{ℕ, ◌+◌, ◌≡◌, refl, sym, ap, ◌∙◌, ◌≢◌, true, false, some, String, List, arith}
use arbetern.Store.Client.{Client, IsS3}
use arbetern.Store.Backend.{not_found, conflict, other, Result, ok, err, if_tag, Codec, put_json}
use arbetern.Store.Backend.Laws.{stored, put_json-ok, put_json_lost, stored-some}
use arbetern.Journal.Entry.{Entry, Limits}
use arbetern.Journal.Handle.{Handle, written, write, note_side_effect, beat}
use arbetern.Journal.Recovery.{resumed, next_attempt, recover_one}
use arbetern.Journal.Resumption.{recover_one-Resumes}
use arbetern.Journal.Marked.{Act, perform_all, IsMarked, perform_all-IsMarked, sweep_passes}

-- The handle's entry with a heartbeat at `now`, and the mark.
abbrev pub beating : ℕ → Entry → Entry
beating now e = record e { heartbeat = now }

abbrev pub marked : Entry → Entry
marked e = record e { side_effects = true }

module _ (c : Client) (laws : IsS3 c) (json : Codec Entry) (key : String) where
  write_lost :
      (now : ℕ) (h : Handle) (s : c.State) (b : String)
      → c.object s key ≡ some b
      → h.tag ≢ ""
      → c.etag b ≢ h.tag
      → c.object (write c json key now h s).1 key ≡ some b
  unfolding write
  write_lost now h s b at tagged foreign =
      (put_json_lost c laws json key (beating now h.entry) h.tag s b at tagged foreign).0

  -- The body of the resumed entry is another than that of the entry it was resumed from.
  resumed_body :
      (now : ℕ) (e : Entry) (b b' : String)
      → json.unmarshal b ≡ some e
      → json.unmarshal b' ≡ some (next_attempt now e)
      → b ≢ b'
  resumed_body now e b b' p q same =
      let opened : json.unmarshal b ≡ some (next_attempt now e) = ap json.unmarshal same ∙ q in
      let eq : e ≡ next_attempt now e = cc in
      let n : e.attempt ≡ e.attempt + 1 = ap (λ x. x.attempt) eq in omega (arith, n)

  -- Neither a beat nor a mark changes an object that is not the holder's.
  lost :
      (now : ℕ) (h : Handle) (s : c.State) (b : String)
      → c.object s key ≡ some b
      → h.tag ≢ ""
      → c.etag b ≢ h.tag
      → (c.object (beat c json key now h s).1 key ≡ c.object s key)
        × (c.object (note_side_effect c json key now h s).1 key ≡ c.object s key)
  unfolding beat note_side_effect
  lost now h s b at tagged foreign =
      let p = write_lost now h s b at tagged foreign in
      let q = write_lost now (record h { entry = marked h.entry }) s b at tagged foreign in
      (ground (arith, p, at), ground (arith, q, at))

  -- Once the sweep has resumed the work from the entry that a holder last wrote, neither a beat
  -- nor a side-effect mark of that holder changes the entry any more.
  pub after_resume :
      (limits : Limits) (meanwhile : c.State → c.State) (now later : ℕ) (s : c.State) (e' : Entry)
      (h : Handle) (b : String)
      → (recover_one c json limits key meanwhile now s).0 ≡ resumed e'
      → c.object (meanwhile s) key ≡ some b
      → h.tag ≡ c.etag b
      → (c.object (beat c json key later h (recover_one c json limits key meanwhile now s).1).1 key
          ≡ c.object (recover_one c json limits key meanwhile now s).1 key)
        × (c.object
              (note_side_effect c json key later h
                (recover_one c json limits key meanwhile now s).1).1
              key
            ≡ c.object (recover_one c json limits key meanwhile now s).1 key)
  after_resume limits meanwhile now later s e' h b r at tag =
      let (e, p) = recover_one-Resumes c laws json limits key meanwhile now s e' r in
      let u = (recover_one c json limits key meanwhile now s).1 in
      let (b', at', opens') = stored-some c laws json key u e' p.4 in
      let opens : json.unmarshal b ≡ some e = rw at at p.0 in
      let foreign : c.etag b' ≢ h.tag = λ q.
        resumed_body now e b b' opens (opens' ∙ ap some p.3)
          (sym (laws.etag_injective b' b (q ∙ tag))) in
      let tagged : h.tag ≢ "" = λ q. laws.etag_nonempty b (sym tag ∙ q) in
      lost later h u b' at' tagged foreign

  write_twice :
      (now later : ℕ) (e : Entry) (h : Handle) (r : Result String)
      → e.side_effects ≡ true
      → h.entry.side_effects ≡ true
      → (written c json key e h r).0.entry.side_effects ≡ true
  write_twice now later e h (ok t) p q = p
  write_twice now later e h (err not_found) p q = q
  write_twice now later e h (err conflict) p q = q
  write_twice now later e h (err other) p q = q

  -- Only the first mark of a handle writes: a second one leaves the handle and the bucket, also
  -- when the write of the first one failed.
  pub note_twice :
      (now later : ℕ) (h : Handle) (s : c.State)
      → note_side_effect c json key later
          (note_side_effect c json key now h s).0
          (note_side_effect c json key now h s).1
        ≡ note_side_effect c json key now h s
  unfolding note_side_effect write
  note_twice now later h s =
      let m : Handle = record h { entry = marked h.entry } in
      let p =
        write_twice now later (beating now m.entry) m
          (put_json c json key (beating now m.entry) (if_tag h.tag) s).0 refl refl in
      ground (arith, p)

  mark_stored :
      (now : ℕ) (h : Handle) (s : c.State) (t : String)
      → h.closed ≡ false
      → h.entry.side_effects ≡ false
      → (put_json c json key (beating now (marked h.entry)) (if_tag h.tag) s).0 ≡ ok t
      → stored c json (note_side_effect c json key now h s).1 key
        ≡ some (beating now (marked h.entry))
  unfolding note_side_effect write
  mark_stored now h s t live clean wrote =
      let (b, shut, at, met) =
        put_json-ok c laws json key (beating now (marked h.entry)) (if_tag h.tag) s t wrote in
      rw (live, clean, at) (json.round_trip (beating now (marked h.entry)) b shut)

  marked_with :
      (now : ℕ) (h : Handle) (s : c.State) (t : String)
      → h.closed ≡ false
      → h.entry.side_effects ≡ false
      → (put_json c json key (beating now (marked h.entry)) (if_tag h.tag) s).0 ≡ ok t
      → (note_side_effect c json key now h s).0.entry.side_effects ≡ true
  unfolding note_side_effect write
  marked_with now h s t live clean wrote = rw (live, clean, wrote) refl

  -- Work whose side-effect mark was acknowledged is never resumed from the marked entry: after any
  -- further beats, marks and ends of the handle and any sweeps of other replicas, in any order and
  -- whatever these sweeps had read before, no sweep resumes it, at any time, with any limits and
  -- whatever it had read before. The statement covers these operations alone: another start of the
  -- work writes an entry of its own.
  pub marked_never_resumed :
      (limits : Limits) (now later : ℕ) (h : Handle) (s : c.State) (t : String)
      (acts : List (Act c.State)) (read : c.State) (e' : Entry)
      → h.closed ≡ false
      → h.entry.side_effects ≡ false
      → (put_json c json key (beating now (marked h.entry)) (if_tag h.tag) s).0 ≡ ok t
      → let after = (perform_all c json key acts (note_side_effect c json key now h s)).1 in
        (recover_one c json limits key (λ x. after) later read).0 ≢ resumed e'
  marked_never_resumed limits now later h s t acts read e' live clean wrote =
      let w = note_side_effect c json key now h s in
      let stands : IsMarked c json key w.1 = λ e k.
        let at = mark_stored now h s t live clean wrote in
        let same : beating now (marked h.entry) ≡ e = cc in ap (λ x. x.side_effects) (sym same) in
      let end =
        perform_all-IsMarked c json key laws acts w.0 w.1
          (marked_with now h s t live clean wrote, stands) in
      sweep_passes c json key laws limits later (perform_all c json key acts w).1 read e' end.1
