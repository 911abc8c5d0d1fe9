-- ===== src/Queue/Interleaving.antt =====
-- All workers of all replicas on one task of internal/queue/queue.go, in any order.
use arbetern.Base.{ℕ, ◌+◌, ◌≤◌, ◌≡◌, Option, some, String, List}
use arbetern.Store.Client.{Client, IsS3}
use arbetern.Store.Backend.{Codec}
use arbetern.Store.Backend.Laws.{stored}
use arbetern.Queue.Options.{Options}
use arbetern.Queue.Task.{Task, claim_task, given_up, settle}
use arbetern.Queue.Delivery.{claim_task-Took}
use arbetern.Queue.Attempts.{
  Spent, starts, Spent-weaken, Spent-zero, settle-Spent, given_up-Spent, claim_task-Spent,
}

module _ (c : Client) (laws : IsS3 c) (json : Codec Task) (opts : Options) (key : String) where
  -- The bucket and the number of handler starts, after any interleaving of the claims, of the
  -- deletes of at-most-once topics and of the bookkeeping of any number of workers on the task at the key, and of writes elsewhere.
  pub data Reach (s₀ : c.State) : c.State → ℕ → Type 0 where
    begin : Reach s₀ s₀ 0
    elsewhere :
        {s : c.State} {n : ℕ} (s' : c.State)
        → c.object s' key ≡ c.object s key
        → Reach s₀ s n
        → Reach s₀ s' n
    claims :
        {n : ℕ} (holder : String) (meanwhile : c.State → c.State) (now : ℕ) (s : c.State)
        → Reach s₀ (meanwhile s) n
        → Reach s₀
            (claim_task c json opts holder key meanwhile now s).1
            (n + starts (claim_task c json opts holder key meanwhile now s).0)
    gives_up :
        {s : c.State} {n : ℕ} (holder tag : String)
        → Reach s₀ s n
        → Reach s₀ (given_up c json opts holder key tag s) n
    settles :
        {s : c.State} {n : ℕ} (holder : String) (meanwhile : c.State → c.State) (now later : ℕ)
        (read : c.State) (job : Task × String) (f : Option (List ℕ))
        → (claim_task c json opts holder key meanwhile now read).0 ≡ some job
        → Reach s₀ s n
        → Reach s₀ (settle c json opts holder key later f job s) n

  Reach-Spent :
      {s₀ s : c.State} {n : ℕ}
      → Reach s₀ s n
      → Spent opts.max_attempts 0 (stored c json s₀ key)
      → Spent opts.max_attempts n (stored c json s key)
  Reach-Spent begin h = h
  Reach-Spent (elsewhere s' same r) h = rw same (Reach-Spent r h)
  Reach-Spent (claims holder meanwhile now s r) h =
      claim_task-Spent c laws json opts key holder meanwhile now s _ (Reach-Spent r h)
  Reach-Spent (gives_up holder tag r) h =
      given_up-Spent c laws json opts key holder tag _ _ (Reach-Spent r h)
  Reach-Spent (settles holder meanwhile now later read job f won r) h =
      let (b, shut, is) =
        (claim_task-Took c laws json opts holder key meanwhile now read job won).1 in
      settle-Spent c laws json opts key holder later _ f job _ (b, json.round_trip job.0 b shut, is)
        (Reach-Spent r h)

  -- However the workers of all replicas interleave, and whatever their handlers return, a task is
  -- started at most as often as its topic allows: once for an at-most-once topic.
  pub Reach-le-max_attempts : {s₀ s : c.State} {n : ℕ} → Reach s₀ s n → n ≤ opts.max_attempts
  Reach-le-max_attempts {s₀} {s} {n} r =
      Spent-weaken c laws json opts key n (stored c json s key)
        (Reach-Spent r (Spent-zero c laws json opts key (stored c json s₀ key)))
