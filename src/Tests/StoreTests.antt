-- ===== src/Tests/StoreTests.antt =====
-- Runs of the state layer on the bucket in memory (internal/store/).
use arbetern.Base.{ℕ, ◌+◌, ◌≤◌, ◌<◌, ◌≡◌, refl, ◌⊎◌, false, none, some, String, arith, eq_iff}
use arbetern.Store.Client.{is_not_found, is_conflict}
use arbetern.Store.Backend.{ok, err, other, if_tag, headers, get, put, delete, get_json, put_json}
use arbetern.Store.Backend.Laws.{stored, put_after_get}
use arbetern.Store.Merge.{Merged, attempt, merge_loop, merge, merge-Merged}
use arbetern.Store.Lease.{LeaseRecord, Holding, claim, acquire, renew, release}
use arbetern.Store.Lease.Exclusion.{
  IsFree, claim-IsFree, renew-alive, release_lost, acquire_outlives,
}
use arbetern.Tests.Memory.{Table, memory, memory-IsS3, update, tag_of}
use arbetern.Tests.Printer.{print_nat, parse_nat, print_text, parse_text}
use arbetern.Tests.Documents.{lease_codec}

program : Unit {0}
unfolding is_not_found is_conflict headers get put delete get_json put_json attempt merge_loop merge
    claim acquire renew release print_nat parse_nat print_text parse_text
program = tt

abbrev lease : String → ℕ → LeaseRecord
lease h n = record { holder = h; expires = n }

abbrev empty : Table
empty k = none

-- The lease of replica `a`, running out at 3, as its text.
abbrev a_text : String
a_text = "ca.sss."

abbrev held : Table
held = update "k" (some a_text) empty

put_after_get_example :
    (stored memory lease_codec held "k" ≡ some (lease "a" 3))
    × (stored memory lease_codec
          (put_json memory lease_codec "k" (lease "b" 5) (if_tag (tag_of a_text)) held).1
          "k"
        ≡ some (lease "b" 5))
unfolding program
put_after_get_example =
    put_after_get memory memory-IsS3 lease_codec "k" held held (lease "a" 3) (lease "b" 5)
      (tag_of a_text) (tag_of "cb.sssss.") refl refl

-- Two replicas prolong a lease; the second write of one attempt is refused and tried again.
abbrev prolong : LeaseRecord → LeaseRecord
prolong r = record r { expires = r.expires + 1 }

merge-Merged_example :
    Merged memory lease_codec "k"
      (lease "" 0)
      prolong
      (λ s. s)
      (λ s. s)
      (lease "a" 4)
      (merge memory lease_codec "k" (lease "" 0) prolong (λ s. s) (λ s. s) 0 held).1
unfolding program
merge-Merged_example =
    merge-Merged memory lease_codec "k" (lease "" 0) prolong (λ s. s) (λ s. s) memory-IsS3 0 held
      (lease "a" 4) refl

claim-IsFree_example :
    IsFree memory lease_codec "k" "b" 3 held
    × (stored memory lease_codec (claim memory lease_codec "k" "b" 2 (λ s. s) 3 held).1 "k"
        ≡ some (lease "b" 5))
unfolding program
claim-IsFree_example =
    claim-IsFree memory memory-IsS3 lease_codec "k" "b" 2 (λ s. s) 3 held (tag_of "cb.sssss.") refl

-- A live lease of another replica is left alone.
claim_live : claim memory lease_codec "k" "b" 2 (λ s. s) 2 held ≡ (ok none, held)
unfolding program
claim_live = refl

abbrev a_holding : Holding
a_holding = record { tag = tag_of a_text; expires = 3; cancelled = false; released = false }

renew-alive_example :
    (stored memory lease_codec (renew memory lease_codec "k" "a" 3 2 2 a_holding held).1 "k"
      ≡ some (lease "a" 5))
    ⊎ (((put_json memory lease_codec "k" (lease "a" 5) (if_tag a_holding.tag) held).0 ≡ err other)
        × ((renew memory lease_codec "k" "a" 3 2 2 a_holding held).0 ≡ a_holding)
        × (2 ≤ 3))
unfolding program
renew-alive_example =
    renew-alive memory memory-IsS3 lease_codec "k" "a" 3 2 2 a_holding held refl refl refl

abbrev stale : Holding
stale = record a_holding { tag = tag_of "other" }

release_lost_example :
    (memory.object (release memory lease_codec "k" "a" 3 stale held).1 "k" ≡ some a_text)
    × (release memory lease_codec "k" "a" 3
          (release memory lease_codec "k" "a" 3 stale held).0
          (release memory lease_codec "k" "a" 3 stale held).1
        ≡ release memory lease_codec "k" "a" 3 stale held)
unfolding program
release_lost_example =
    release_lost memory memory-IsS3 lease_codec "k" "a" 3 2 2 stale held a_text refl
      (ground (arith, eq_iff (tag_of "other") ""))
      (ground (arith, eq_iff (tag_of a_text) (tag_of "other")))

acquire_outlives_example :
    (r : LeaseRecord) × (stored memory lease_codec
        (acquire memory lease_codec "k" "b" 2 (λ s. s) 3 4 held).1
        "k"
      ≡ some r)
    × (r.expires < 6)
    × (6 ≡ r.expires + 1)
unfolding program
acquire_outlives_example =
    acquire_outlives memory memory-IsS3 lease_codec "k" "b" 2 (λ s. s) 3 4 held
      (record { tag = tag_of "cb.sssss."; expires = 6; cancelled = false; released = false })
      (omega arith) refl
