-- ===== src/Tests/JournalTests.antt =====
-- Runs of the journal on the bucket in memory (internal/journal/journal.go).
use arbetern.Base.{
  ℕ, ◌+◌, ◌*◌, ◌≤◌, ◌≡◌, refl, ◌≢◌, true, false, Option, some, String, List, [], ◌∷◌, length, arith,
}
use arbetern.Base.Duration.{minute}
use arbetern.Store.Client.{is_not_found, is_conflict}
use arbetern.Store.Backend.{headers, get, put, delete, get_json, put_json}
use arbetern.Store.Backend.Laws.{stored}
use arbetern.Journal.Entry.{Entry, Limits, age, refuse, max_per_sweep}
use arbetern.Journal.Handle.{Handle, write, note_side_effect, beat, carried, begin}
use arbetern.Journal.Starts.{CountsOn, begin-CountsOn}
use arbetern.Journal.Recovery.{
  resumed, next_attempt, on_verdict, on_entry, recover_one, Listed, Turn, visit, sweep,
}
use arbetern.Journal.Resumption.{Resumes, recover_one-Resumes, sweep_bounds}
use arbetern.Journal.Marked.{Act, do_beat, do_sweep, perform_all}
use arbetern.Journal.Marks.{after_resume, marked_never_resumed}
use arbetern.Tests.Memory.{Table, memory, memory-IsS3, tag_of}
use arbetern.Tests.Printer.{print_nat, parse_nat, print_text, parse_text}
use arbetern.Tests.Documents.{entry_codec, entry_text}

program : Unit {0}
unfolding is_not_found is_conflict headers get put delete get_json put_json print_nat parse_nat
    print_text parse_text age refuse write note_side_effect beat carried begin on_verdict on_entry
    recover_one visit sweep
program = tt

abbrev running : Entry
running = record {
  kind = "w";
  target = "t";
  detail = "d";
  owner = "a";
  first_seen = 0;
  started_at = 0;
  heartbeat = 0;
  attempt = 1;
  side_effects = false;
}

abbrev text_of : Entry → String
text_of e = unfold print_text print_nat in entry_text e

abbrev bucket : Table
bucket k = some (text_of running)

abbrev handle : Handle
handle = record { entry = running; tag = tag_of (text_of running); closed = false }

abbrev limits : Limits
limits = record { max_attempts = 2; max_age = 9 * minute }

abbrev later : ℕ
later = 5 * minute

abbrev again : Entry
again = next_attempt later running

abbrev swept : Table
swept = (recover_one memory entry_codec limits "k" (λ s. s) later bucket).1

recover_one-Resumes_example :
    (e : Entry) × Resumes memory entry_codec limits "k" later e again bucket swept
unfolding program
recover_one-Resumes_example =
    recover_one-Resumes memory memory-IsS3 entry_codec limits "k" (λ s. s) later bucket again refl

after_resume_example :
    ((beat memory entry_codec "k" later handle swept).1 "k" ≡ swept "k")
    × ((note_side_effect memory entry_codec "k" later handle swept).1 "k" ≡ swept "k")
unfolding program
after_resume_example =
    after_resume memory memory-IsS3 entry_codec "k" limits (λ s. s) later later bucket again handle
      (text_of running) refl refl refl

abbrev marked_bucket : Table
marked_bucket = (note_side_effect memory entry_codec "k" minute handle bucket).1

-- A beat, a sweep that read the unmarked entry, and the end of the handle.
abbrev marked_acts : List (Act memory.State)
marked_acts = do_beat (2 * minute) ∷ do_sweep limits later bucket ∷ do_beat later ∷ []

marked_never_resumed_example :
    (recover_one memory entry_codec limits "k"
      (λ x.
        (perform_all memory entry_codec "k" marked_acts
          (note_side_effect memory entry_codec "k" minute handle bucket)).1)
      later
      bucket).0
    ≢ resumed again
unfolding program
marked_never_resumed_example =
    marked_never_resumed memory memory-IsS3 entry_codec "k" limits minute later handle bucket
      (tag_of (text_of (record running { heartbeat = minute; side_effects = true }))) marked_acts
      bucket again refl refl refl

abbrev restarted : Handle
restarted = record {
  entry = record running { owner = "b"; started_at = later; heartbeat = later };
  tag = tag_of (text_of (record running { owner = "b"; started_at = later; heartbeat = later }));
  closed = false;
}

begin-CountsOn_example :
    (stored memory entry_codec
        (begin memory entry_codec "k" (λ s. s) "w" "t" "d" "b" later bucket).1
        "k"
      ≡ some restarted.entry)
    × ((b : String) × (entry_codec.marshal restarted.entry ≡ some b)
        × (restarted.tag ≡ memory.etag b))
    × CountsOn later (get_json memory entry_codec "k" bucket) restarted.entry
    × (restarted.entry.side_effects ≡ false)
    × (restarted.closed ≡ false)
unfolding program
begin-CountsOn_example =
    begin-CountsOn memory memory-IsS3 entry_codec "k" (λ s. s) "w" "t" "d" "b" later bucket
      restarted refl

abbrev kinds : String → Option Limits
kinds k = some limits

abbrev listed : List Listed
listed = record { key = "k"; kind = some "w"; last_modified = 0 } ∷ []

abbrev turn : Listed → Turn
turn o = record { since = later; now = later; cancelled = false }

sweep_bounds_example :
    length (sweep memory entry_codec kinds (λ s. s) turn 0 listed bucket).0 + 0 ≤ max_per_sweep
sweep_bounds_example =
    sweep_bounds memory entry_codec kinds (λ s. s) turn 0 listed bucket (omega arith)
