-- ===== src/Store/Merge.antt =====
-- `Merge` of internal/store/merge.go: read, change, write back under the tag that was read, and
-- start over if another replica was faster.
use arbetern.Base.{
  ℕ, zero, suc, ◌≡◌, refl, ◌⊎◌, inl, inr, none, some, String, arith, ltb, subst, if◌then◌else◌,
}
use arbetern.Store.Client.{Client, IsS3}
use arbetern.Store.Backend.{
  not_found, conflict, other, Result, ok, err, Condition, if_absent, if_tag, Codec, get_json,
  put_json,
}
use arbetern.Store.Backend.Laws.{stored, put_json-ok, put_after_get}

abbrev pub default_merge_attempts : ℕ
default_merge_attempts = 4

-- `empty` is Go's zero value of the document; `meanwhile` is what other replicas do to the bucket
-- between the read and the write of an attempt, and `between` what they do after a refused write.
module _ (c : Client) {T : Type 0} (json : Codec T) (key : String) (empty : T) (fn : T → T)
    (meanwhile between : c.State → c.State) where
  abbrev settle : (c.State → Result T × c.State) → T → Result String × c.State → Result T × c.State
  settle again doc (ok t, s) = (ok doc, s)
  settle again doc (err conflict, s) = again (between s)
  settle again doc (err e, s) = (err e, s)

  -- The write of one attempt, and what follows it.
  unfoldable pub attempt :
      (c.State → Result T × c.State) → T → Condition → c.State → Result T × c.State
  attempt again doc cond s = settle again (fn doc) (put_json c json key (fn doc) cond (meanwhile s))

  abbrev open_attempt :
      (c.State → Result T × c.State) → Result (T × String) → c.State → Result T × c.State
  open_attempt again (ok r) s = attempt again r.0 (if_tag r.1) s
  open_attempt again (err not_found) s = attempt again empty if_absent s
  open_attempt again (err e) s = (err e, s)

  unfoldable pub merge_loop : ℕ → c.State → Result T × c.State
  merge_loop zero s = (err conflict, s)
  merge_loop (suc left) s = open_attempt (merge_loop left) (get_json c json key s) s

  unfoldable pub merge : ℕ → c.State → Result T × c.State
  merge attempts s = merge_loop (if ltb 0 attempts then attempts else default_merge_attempts) s

  -- What a successful merge did: in the very state that its acknowledged write went to, the bucket
  -- held `doc`, or nothing and `doc` is the zero value; it wrote the changed document, returned it,
  -- and left the bucket as that write left it.
  pub record Merged (d : T) (s' : c.State) : Type 0 where
    pub before : c.State
    pub cond : Condition
    pub tag : String
    pub wrote : put_json c json key d cond before ≡ (ok tag, s')
    pub doc : T
    pub was : (stored c json before key ≡ some doc) ⊎ ((c.object before key ≡ none) × (doc ≡ empty))
    pub changed : d ≡ fn doc
    pub now : stored c json s' key ≡ some d

  module _ (laws : IsS3 c) where
    attempt-Merged :
        (again : c.State → Result T × c.State)
        → ((s : c.State) (d : T) → (again s).0 ≡ ok d → Merged d (again s).1)
        → (doc : T) (cond : Condition) (s : c.State)
        → ((r : String)
            → (put_json c json key (fn doc) cond (meanwhile s)).0 ≡ ok r
            → Merged (fn doc) (put_json c json key (fn doc) cond (meanwhile s)).1)
        → (d : T) → (attempt again doc cond s).0 ≡ ok d
        → Merged d (attempt again doc cond s).1
    unfolding attempt
    attempt-Merged again ih doc cond s wrote d h =
        go (put_json c json key (fn doc) cond (meanwhile s)).0
          (put_json c json key (fn doc) cond (meanwhile s)).1 wrote h
      where
        go :
            (r : Result String) (s' : c.State)
            → ((t : String) → r ≡ ok t → Merged (fn doc) s')
            → (settle again (fn doc) (r, s')).0 ≡ ok d
            → Merged d (settle again (fn doc) (r, s')).1
        go (ok t) s' w e = let q : fn doc ≡ d = cc in subst (λ x. Merged x s') q (w t refl)
        go (err not_found) s' w e = absurd (ground arith)
        go (err conflict) s' w e = ih (between s') d e
        go (err other) s' w e = absurd (ground arith)

    found-Merged :
        (doc : T) (t r : String) (s : c.State)
        → get_json c json key s ≡ ok (doc, t)
        → (put_json c json key (fn doc) (if_tag t) (meanwhile s)).0 ≡ ok r
        → Merged (fn doc) (put_json c json key (fn doc) (if_tag t) (meanwhile s)).1
    found-Merged doc t r s read wrote =
        let p = put_after_get c laws json key s (meanwhile s) doc (fn doc) t r read wrote in
        record {
          before = meanwhile s;
          cond = if_tag t;
          tag = r;
          wrote = ground (arith, wrote);
          doc = doc;
          was = inl p.0;
          changed = refl;
          now = p.1;
        }

    absent-Merged :
        (r : String) (s : c.State)
        → (put_json c json key (fn empty) if_absent (meanwhile s)).0 ≡ ok r
        → Merged (fn empty) (put_json c json key (fn empty) if_absent (meanwhile s)).1
    absent-Merged r s wrote =
        let (b, shut, at, met) =
          put_json-ok c laws json key (fn empty) if_absent (meanwhile s) r wrote in
        record {
          before = meanwhile s;
          cond = if_absent;
          tag = r;
          wrote = ground (arith, wrote);
          doc = empty;
          was = inr (met.1 refl, refl);
          changed = refl;
          now = rw at (json.round_trip (fn empty) b shut);
        }

    merge_loop-Merged :
        (n : ℕ) (s : c.State) (d : T) → (merge_loop n s).0 ≡ ok d → Merged d (merge_loop n s).1
    unfolding merge_loop
    merge_loop-Merged zero s d h = absurd (ground arith)
    merge_loop-Merged (suc n) s d h = go (get_json c json key s) refl (merge_loop-Merged n) h
      where
        go :
            (r : Result (T × String))
            → get_json c json key s ≡ r
            → ((s : c.State) (d : T) → (merge_loop n s).0 ≡ ok d → Merged d (merge_loop n s).1)
            → (open_attempt (merge_loop n) r s).0 ≡ ok d
            → Merged d (open_attempt (merge_loop n) r s).1
        go (ok (doc, t)) read ih e =
            attempt-Merged (merge_loop n) ih doc (if_tag t) s (λ r w. found-Merged doc t r s read w)
              d e
        go (err not_found) read ih e =
            attempt-Merged (merge_loop n) ih empty if_absent s (λ r w. absent-Merged r s w) d e
        go (err conflict) read ih e = absurd (ground arith)
        go (err other) read ih e = absurd (ground arith)

    -- A merge that succeeds folded its change into the document that stood in the bucket in the
    -- state that its acknowledged write went to, or into the zero value if there was none: whatever
    -- other replicas wrote between its reads and writes, nothing of it is lost, and what it returns
    -- is what that write stored.
    pub merge-Merged :
        (attempts : ℕ) (s : c.State) (d : T)
        → (merge attempts s).0 ≡ ok d
        → Merged d (merge attempts s).1
    unfolding merge
    merge-Merged attempts s d h = merge_loop-Merged _ s d h
