-- ===== src/Projects/Ledger/Compaction.antt =====
-- How the ledger of projects/ledger.go keeps its size: `compact`, `exhausted`, `sortCandidates` and
-- `trimTracks`, with the maps as association lists.
use arbetern.Base.{
  ℕ, ◌+◌, ◌-◌, ◌*◌, Bool, true, false, not, ◌&&◌, ◌||◌, ◌==◌, Option, none, some, String, List, [],
  ◌∷◌, str_eq, ltb, leb, if◌then◌else◌, length, any, filter, take, sort, map,
}
use arbetern.Base.Duration.{hour}
use Prim.Native.Char.{code}
use arbetern.Projects.Review.{is_terminal}
use arbetern.Projects.Ledger.{
  max_tasks, Candidate, Task, Track, Limits, Ledger, has_open_task, find_track, utc_day, Day,
}

abbrev pub max_candidates : ℕ
max_candidates = 50

abbrev pub candidate_max_age : ℕ
candidate_max_age = 7 * 24 * hour

abbrev pub max_tracks : ℕ
max_tracks = 2_000

abbrev pub daily_keep_days : ℕ
daily_keep_days = 90

-- `strings.Compare(a, b) < 0`, by code points, which order as the bytes of UTF-8 do.
abbrev pub text_before : String → String → Bool
text_before String.[] String.[] = false
text_before String.[] (String.◌∷◌ c s) = true
text_before (String.◌∷◌ c s) String.[] = false
text_before (String.◌∷◌ c s) (String.◌∷◌ d t) =
    let rest = text_before s t in if code c == code d then rest else ltb (code c) (code d)

-- `sortCandidates`.
abbrev pub candidate_before : Candidate → Candidate → Bool
candidate_before a b =
    if not (a.rank == b.rank)
    then ltb a.rank b.rank
    else if not (a.group.count == b.group.count)
    then ltb b.group.count a.group.count
    else if not (a.group.last_seen == b.group.last_seen)
    then ltb b.group.last_seen a.group.last_seen
    else text_before a.group.fingerprint b.group.fingerprint

abbrev is_spent : Limits → Option Track → Bool
is_spent m none = false
is_spent m (some tr) = (tr.merged_at == 0) && leb m.max_attempts tr.attempts

-- `Ledger.exhausted`.
unfoldable pub exhausted : String → Limits → List (String × Track) → Bool
exhausted fp m ts = is_spent m (find_track fp ts)

-- The samples of a finished task go.
unfoldable pub without_samples : Task → Task
without_samples t =
    if is_terminal t.status then record t { group = record (t.group) { samples = [] } } else t

-- The loop from the oldest task on: the tasks, and how many are still too many.
unfoldable pub trim : ℕ → List Task → List Task × ℕ
trim over [] = ([], over)
trim over (t ∷ ts) =
    let rest = trim over ts in
    if is_terminal t.status && ltb 0 rest.1 then (rest.0, rest.1 - 1) else (t ∷ rest.0, rest.1)

unfoldable pub compact_tasks : List Task → List Task
compact_tasks ts = let us = map without_samples ts in (trim (length us - max_tasks) us).0

-- A candidate that is still recent and may be tried again.
abbrev pub is_fresh : Limits → ℕ → List (String × Track) → Candidate → Bool
is_fresh m now ts c =
    ltb now (c.group.last_seen + candidate_max_age) && not (exhausted c.group.fingerprint m ts)

unfoldable pub compact_candidates :
    Limits → ℕ → List (String × Track) → List Candidate → List Candidate
compact_candidates m now ts cs =
    take max_candidates (sort candidate_before (filter (is_fresh m now ts) cs))

-- A track that steers an open task, a candidate or a merged fix.
unfoldable pub keeps : List Task → List Candidate → String × Track → Bool
keeps ts cs (fp, tr) =
    has_open_task fp ts
    || any (λ (c : Candidate). str_eq c.group.fingerprint fp) cs
    || not (tr.merged_at == 0)

abbrev pub evicted_first : (String × Track → Bool) → String × Track → String × Track → Bool
evicted_first keep (f, a) (g, b) =
    if keep (f, a) && not (keep (g, b))
    then false
    else if not (keep (f, a)) && keep (g, b)
    then true
    else if not (a.last_seen == b.last_seen)
    then ltb a.last_seen b.last_seen
    else text_before f g

-- The tracks that `trimTracks` deletes.
abbrev pub victims : List Task → List Candidate → List (String × Track) → List (String × Track)
victims ts cs tracks = take (length tracks - max_tracks) (sort (evicted_first (keeps ts cs)) tracks)

abbrev pub is_spared : List (String × Track) → String × Track → Bool
is_spared vs e = not (any (λ (v : String × Track). str_eq v.0 e.0) vs)

unfoldable pub trim_tracks :
    List Task → List Candidate → List (String × Track) → List (String × Track)
trim_tracks ts cs tracks = filter (is_spared (victims ts cs tracks)) tracks

unfoldable pub compact : Limits → ℕ → Ledger → Ledger
compact m now l =
    let ts = compact_tasks l.tasks in
    let cs = compact_candidates m now l.tracks l.candidates in
    record l {
      tasks = ts;
      candidates = cs;
      tracks = trim_tracks ts cs l.tracks;
      daily = filter (λ (d : Day). leb (utc_day now - daily_keep_days) d.date) l.daily;
    }
