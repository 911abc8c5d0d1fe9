-- ===== src/Tests/QueueTests.antt =====
-- Runs of the work queue on the bucket in memory (internal/queue/queue.go).
use arbetern.Base.{◌+◌, ◌*◌, ◌^◌, ◌≤◌, ◌≡◌, refl, some, String, [], arith, min}
use arbetern.Store.Client.{is_not_found, is_conflict}
use arbetern.Store.Backend.{headers, get, put, delete, get_json, put_json}
use arbetern.Queue.Options.{
  Options, not_before_after, not_before_exact, retry_backoff, max_retry_backoff,
}
use arbetern.Queue.Task.{
  Task, decide, handed_back, drop, retry, claimed, act, opened, on_read, claim_task, settle,
  run_job, claim_and_run,
}
use arbetern.Queue.Delivery.{Took, IsJob, claim_task-Took}
use arbetern.Queue.Interleaving.{begin, claims, Reach-le-max_attempts}
use arbetern.Tests.Memory.{Table, memory, memory-IsS3, tag_of}
use arbetern.Tests.Printer.{print_nat, parse_nat, print_text, parse_text}
use arbetern.Tests.Documents.{task_codec, task_text}

program : Unit {0}
unfolding is_not_found is_conflict headers get put delete get_json put_json print_nat parse_nat
    print_text parse_text decide handed_back drop retry claimed act opened on_read claim_task settle
    run_job claim_and_run
program = tt

abbrev once : Options
once = record { visibility = 5; timeout = 2; max_attempts = 1 }

abbrev waiting : Task
waiting = record {
  id = "1";
  topic = "w";
  payload = "p";
  enqueued_at = 0;
  not_before = 0;
  attempts = 0;
  owner = "";
  lease_until = 0;
  last_error = [];
}

abbrev started : Task
started = record waiting { attempts = 1; owner = "a"; lease_until = 6 }

abbrev bucket : Table
bucket k = some (unfold print_text print_nat in task_text waiting)

abbrev job : Task × String
job = (started, tag_of (unfold print_text print_nat in task_text started))

claim_task-Took_example :
    Took memory memory-IsS3 task_codec once "a" "k" (λ s. s) 1 job bucket
    × IsJob memory memory-IsS3 task_codec once "a" "k" (λ s. s) 1 job
unfolding program
claim_task-Took_example =
    claim_task-Took memory memory-IsS3 task_codec once "a" "k" (λ s. s) 1 bucket job refl

not_before_exact_example : not_before_after 7 3 ≡ 7 + min (retry_backoff * 2 ^ 2) max_retry_backoff
not_before_exact_example = not_before_exact 7 2 (omega arith)

Reach-le-max_attempts_example : 1 ≤ 1
unfolding program
Reach-le-max_attempts_example =
    Reach-le-max_attempts memory memory-IsS3 task_codec once "k" {n = 1}
      (claims "a" (λ s. s) 1 bucket begin)
