-- ===== src/Projects/Ledger/Admission.antt =====
-- When `addTask` of projects/ledger.go takes a task, and what it makes of it.
use arbetern.Base.{
  ℕ, ◌+◌, ◌≤◌, ◌<◌, ◌≡◌, refl, true, false, Option, none, some, String, List, ◌∷◌, max, arith,
}
use arbetern.Projects.Ledger.{
  Candidate, Track, Task, Limits, Ledger, task, has_open_task, find_track, open_count, active_count,
  round_count, sessions_on, utc_day, may_try, eligible,
}
use arbetern.Projects.Ledger.Lifecycle.{find_candidate, attempts_of, new_task}

-- There is room for one more session.
pub record HasRoom (m : Limits) (now : ℕ) (l : Ledger) : Type 0 where
  pub prs : open_count l.tasks + active_count l.tasks < m.max_open_prs
  pub sessions : active_count l.tasks + round_count l.tasks < m.max_active_sessions
  pub today : sessions_on (utc_day now) l.daily < m.max_sessions_per_day

-- The work of a fingerprint may be tried: nobody is at it, and its history allows it.
pub record MayTry (fp : String) (m : Limits) (now : ℕ) (l : Ledger) : Type 0 where
  pub nobody : has_open_task fp l.tasks ≡ false
  pub attempts : attempts_of (find_track fp l.tracks) < max 1 m.max_attempts
  pub history :
      (tr : Track)
      → find_track fp l.tracks ≡ some tr
      → (tr.merged_at ≡ 0) × (tr.cooldown_until ≤ now)

may_try-some :
    (m : Limits) (now : ℕ) (tr : Track)
    → may_try m now (some tr) ≡ true
    → (tr.attempts < m.max_attempts) × (tr.merged_at ≡ 0) × (tr.cooldown_until ≤ now)
may_try-some m now tr h = ground (arith, h)

pub eligible-MayTry :
    (fp : String) (m : Limits) (now : ℕ) (l : Ledger)
    → eligible fp m now l ≡ true
    → MayTry fp m now l
unfolding eligible
eligible-MayTry fp m now l h =
    let alone : has_open_task fp l.tasks ≡ false = ground (arith, h) in
    let ok : may_try m now (find_track fp l.tracks) ≡ true = rw alone at h in
    go (find_track fp l.tracks) refl alone ok
  where
    go :
        (o : Option Track)
        → find_track fp l.tracks ≡ o
        → has_open_task fp l.tasks ≡ false
        → may_try m now o ≡ true
        → MayTry fp m now l
    go none e alone ok = record {
      nobody = alone;
      attempts = rw e (omega arith);
      history = λ tr q. absurd (ground (arith, e, q));
    }
    go (some tr) e alone ok =
        let p = may_try-some m now tr ok in
        record {
          nobody = alone;
          attempts = rw e (omega (arith, p.0));
          history = λ u q. let same : u ≡ tr = cc in rw same (p.1, p.2);
        }

-- A task of the candidate `c` that was taken.
abbrev pub Taken : Task → Candidate → Limits → ℕ → Ledger → Ledger → Type 0
Taken t c m now l l' =
    (find_candidate t.fingerprint l.candidates ≡ some c)
    × (task t.id l.tasks ≡ none)
    × HasRoom m now l
    × MayTry t.fingerprint m now l
    × ((rest : List Task) × (l'.tasks ≡ new_task t c now l ∷ rest))
