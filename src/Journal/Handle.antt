-- ===== src/Journal/Handle.antt =====
-- The live record of one piece of work of internal/journal/journal.go: `Begin`, `NoteSideEffect`,
-- `Done`, `Interrupted`, and one beat of the heartbeat. The mutex of a handle is held across each
-- write, so that every method is one step.
use arbetern.Base.{
  ℕ, ◌-◌, Bool, true, false, ◌&&◌, ◌||◌, Option, none, some, String, ltb, leb, if◌then◌else◌,
}
use arbetern.Store.Client.{Client}
use arbetern.Store.Backend.{
  other, Result, ok, err, unconditional, if_tag, Codec, get_json, put_json, delete,
}
use arbetern.Journal.Entry.{Entry, carry_window}

pub record Handle : Type 0 where
  pub entry : Entry
  pub tag : String
  pub closed : Bool

module _ (c : Client) (json : Codec Entry) (key : String) where
  -- What `write` makes of the answer: the handle, and whether the entry is still ours.
  abbrev pub written : Entry → Handle → Result String → Handle × Bool
  written e h (ok t) = (record h { entry = e; tag = t }, true)
  written e h (err other) = (h, true)
  written e h (err x) = (h, false)

  unfoldable pub write : ℕ → Handle → c.State → (Handle × Bool) × c.State
  write now h s =
      let e : Entry = record (h.entry) { heartbeat = now } in
      let w = put_json c json key e (if_tag h.tag) s in (written e h w.0, w.1)

  unfoldable pub note_side_effect : ℕ → Handle → c.State → Handle × c.State
  note_side_effect now h s =
      let marked : Handle = record h { entry = record (h.entry) { side_effects = true } } in
      let w = write now marked s in
      if h.closed || h.entry.side_effects then (h, s) else (w.0.0, w.1)

  -- One tick of `beat`: whether the loop goes on.
  unfoldable pub beat : ℕ → Handle → c.State → (Handle × Bool) × c.State
  beat now h s = let w = write now h s in if h.closed then ((h, false), s) else w

  -- `finish` under its `once`, with the delete of `Done`.
  unfoldable pub finish_done : Handle → c.State → Handle × c.State
  finish_done h s =
      if h.closed then (h, s) else (record h { closed = true }, (delete c key h.tag s).1)

  -- `finish` under its `once`, with nothing to do for `Interrupted`.
  unfoldable pub interrupted : Handle → c.State → Handle × c.State
  interrupted h s = (record h { closed = true }, s)

  abbrev pub fresh_entry : String → String → String → String → ℕ → Entry
  fresh_entry kind target detail holder now = record {
    kind = kind;
    target = target;
    detail = detail;
    owner = holder;
    first_seen = now;
    started_at = now;
    heartbeat = now;
    attempt = 1;
    side_effects = false;
  }

  -- What a new start inherits from the entry that it finds, if it can read one.
  unfoldable pub carried : ℕ → Result (Entry × String) → Entry → Entry
  carried now (err x) e = e
  carried now (ok (prev, tag)) e =
      if ltb 0 prev.attempt && leb (now - prev.first_seen) carry_window
      then record e { attempt = prev.attempt; first_seen = prev.first_seen }
      else e

  abbrev pub started : Entry → Result String × c.State → Option Handle × c.State
  started e (ok t, s) = (some (record { entry = e; tag = t; closed = false }), s)
  started e (err x, s) = (none, s)

  -- `Begin` on a kind and a target that are valid key segments.
  unfoldable pub begin :
      (c.State → c.State)
      → String
      → String
      → String
      → String
      → ℕ
      → c.State
      → Option Handle × c.State
  unfolding carried
  begin meanwhile kind target detail holder now s =
      let e = carried now (get_json c json key s) (fresh_entry kind target detail holder now) in
      started e (put_json c json key e unconditional (meanwhile s))
