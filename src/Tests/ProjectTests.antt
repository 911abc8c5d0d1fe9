-- ===== src/Tests/ProjectTests.antt =====
-- Runs of a project's records (projects/).
use arbetern.Base.{ℕ, zero, suc, ◌≤◌, ◌≡◌, true, false, String, List, [], ◌∷◌, length}
use arbetern.Projects.Memory.{max_notes, Source, admin, session, Note, has, add}
use arbetern.Projects.Memory.Retention.{admins, add-keeps_admins}

abbrev note : String → Source → Note
note i s = record { id = i; text = "t"; source = s; task = ""; by = ""; at = 0 }

abbrev copies : ℕ → Note → List Note
copies zero n = []
copies (suc k) n = n ∷ copies k n

abbrev crowd : List Note
crowd = note "s" session ∷ copies 59 (note "a" admin)

add-keeps_admins_example :
    (has "n" crowd ≡ true → add (note "n" admin) crowd ≡ (crowd, false))
    × (has "n" crowd ≡ false
        → (length (add (note "n" admin) crowd).0 ≤ max_notes)
          × (length (admins (note "n" admin ∷ crowd)) ≤ max_notes
              → admins (add (note "n" admin) crowd).0 ≡ admins (note "n" admin ∷ crowd))
          × ((add (note "n" admin) crowd).1 ≡ has "n" (add (note "n" admin) crowd).0))
add-keeps_admins_example = add-keeps_admins (note "n" admin) crowd
