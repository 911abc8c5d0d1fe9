-- ===== src/Tests/Documents.antt =====
-- Codecs for the documents that the tests store.
use arbetern.Base.{
  ℕ, ◌≡◌, refl, Bool, true, false, Option, none, some, String, List, [], ◌∷◌, arith, ◌*◌, ◌/◌, ◌%◌,
  ◌&&◌, inl, inr, Bool-cases, ◌==◌, if◌then◌else◌,
}
use arbetern.Base.Duration.{minute}
use arbetern.Store.Backend.{Codec}
use arbetern.Store.Lease.{LeaseRecord}
use arbetern.Queue.Task.{Task}
use arbetern.Journal.Entry.{Entry}
use arbetern.Tests.Printer.{
  print_nat, parse_nat, parse_nat-print_nat, print_text, parse_text, parse_text-print_text,
}

abbrev next : {A B : Type 0} → Option (A × String) → (A → String → Option B) → Option B
next none k = none
next (some (a, r)) k = k a r

abbrev print_lease : LeaseRecord → Option String
print_lease r = some (print_text r.holder (print_nat r.expires ""))

abbrev parse_lease : String → Option LeaseRecord
parse_lease b =
    next (parse_text b) λ h r. next (parse_nat r) λ e _. some (record { holder = h; expires = e })

pub lease_round_trip :
    (v : LeaseRecord) (b : String) → print_lease v ≡ some b → parse_lease b ≡ some v
lease_round_trip v b h =
    let q : print_text v.holder (print_nat v.expires "") ≡ b = cc in
    rw (← q, parse_text-print_text, parse_nat-print_nat)

abbrev pub lease_codec : Codec LeaseRecord
lease_codec = record {
  marshal = print_lease;
  unmarshal = parse_lease;
  round_trip = lease_round_trip;
}

-- A task that carries no error text.
abbrev pub task_text : Task → String
task_text t = print_text t.id (
    print_text t.topic (
      print_text t.payload (
        print_text t.owner (
          print_nat t.enqueued_at
            (print_nat t.not_before (print_nat t.attempts (print_nat t.lease_until "")))))))

abbrev print_task_with : List ℕ → Task → Option String
print_task_with [] t = some (task_text t)
print_task_with (c ∷ s) t = none

abbrev parse_task : String → Option Task
parse_task b = next (parse_text b) λ id r. next (parse_text r) λ topic r.
    next (parse_text r) λ payload r. next (parse_text r) λ owner r.
      next (parse_nat r) λ enqueued_at r. next (parse_nat r) λ not_before r.
        next (parse_nat r) λ attempts r. next (parse_nat r) λ lease_until _. some (record {
          id = id;
          topic = topic;
          payload = payload;
          enqueued_at = enqueued_at;
          not_before = not_before;
          attempts = attempts;
          owner = owner;
          lease_until = lease_until;
          last_error = [];
        })

task_round_trip_text : (t : Task) → t.last_error ≡ [] → parse_task (task_text t) ≡ some t
task_round_trip_text t e = simp (parse_text-print_text, parse_nat-print_nat) (ground arith)

pub task_round_trip_with :
    (l : List ℕ) (t : Task) (b : String)
    → t.last_error ≡ l
    → print_task_with l t ≡ some b
    → parse_task b ≡ some t
task_round_trip_with [] t b e h =
    let q : task_text t ≡ b = cc in rw (← q) (task_round_trip_text t e)
task_round_trip_with (c ∷ s) t b e h = absurd (ground arith)

abbrev pub task_codec : Codec Task
task_codec = record {
  marshal = λ t. print_task_with t.last_error t;
  unmarshal = parse_task;
  round_trip = λ t b. task_round_trip_with t.last_error t b refl;
}

-- A journal entry whose times are whole minutes; the flag is a number.
abbrev pub entry_text : Entry → String
entry_text e = print_text e.kind (
    print_text e.target (
      print_text e.detail (
        print_text e.owner (
          print_nat (e.first_seen / minute) (
            print_nat (e.started_at / minute) (
              print_nat (e.heartbeat / minute)
                (print_nat e.attempt (print_nat (if e.side_effects then 1 else 0) ""))))))))

abbrev parse_entry : String → Option Entry
parse_entry b = next (parse_text b) λ kind r. next (parse_text r) λ target r.
    next (parse_text r) λ detail r. next (parse_text r) λ holder r.
      next (parse_nat r) λ first_seen r. next (parse_nat r) λ started_at r.
        next (parse_nat r) λ heartbeat r. next (parse_nat r) λ attempt r.
          next (parse_nat r) λ flag _. some (record {
            kind = kind;
            target = target;
            detail = detail;
            owner = holder;
            first_seen = first_seen * minute;
            started_at = started_at * minute;
            heartbeat = heartbeat * minute;
            attempt = attempt;
            side_effects = flag == 1;
          })

flag_back : (b : Bool) → ((if b then 1 else 0) == 1) ≡ b
flag_back true = refl
flag_back false = refl

whole_minutes : (t : ℕ) → (t % minute == 0) ≡ true → t / minute * minute ≡ t
whole_minutes t h = ground arith

abbrev in_minutes : Entry → Bool
in_minutes e =
    (e.first_seen % minute == 0) && (e.started_at % minute == 0) && (e.heartbeat % minute == 0)

abbrev print_entry : Entry → Option String
print_entry e = if in_minutes e then some (entry_text e) else none

entry_text_back : (e : Entry) → in_minutes e ≡ true → parse_entry (entry_text e) ≡ some e
entry_text_back e h =
    simp (parse_text-print_text, parse_nat-print_nat, flag_back)
      (rw
        (
          whole_minutes e.first_seen (ground arith),
          whole_minutes e.started_at (ground arith),
          whole_minutes e.heartbeat (ground arith),
        )
        refl)

pub entry_round_trip : (e : Entry) (b : String) → print_entry e ≡ some b → parse_entry b ≡ some e
entry_round_trip e b h = elim (Bool-cases (in_minutes e)) [
  | inl y ↦ let q : entry_text e ≡ b = cc in rw (← q) (entry_text_back e y)
  | inr n ↦ absurd (ground arith)
]

abbrev pub entry_codec : Codec Entry
entry_codec = record {
  marshal = print_entry;
  unmarshal = parse_entry;
  round_trip = entry_round_trip;
}
