-- ===== src/Projects/AutoMerge/Approvals.antt =====
-- Who approves a pull request, in projects/automerge.go: `approvals` and `approver`. The question
-- whether an author may push is an argument, `none` for a call that failed.
pub mod Latest
pub mod Standing
use arbetern.Base.{
  ℕ, Bool, true, false, not, ◌&&◌, ◌||◌, Option, none, some, String, List, [], ◌∷◌, str_eq, ltb,
  if◌then◌else◌, any,
}
use arbetern.Projects.Ledger.PullRequest.{equal_fold}
use arbetern.Projects.AutoMerge.{contains, is_empty}

-- `github.DiscussionItem`, the fields that a verdict has.
pub record Verdict : Type 0 where
  pub author : String
  pub bot : Bool
  pub association : String
  pub state : String
  pub created_at : ℕ
  pub commit_id : String

-- `trustedAssociations`.
abbrev pub trusted_associations : List String
trusted_associations = "OWNER" ∷ "MEMBER" ∷ "COLLABORATOR" ∷ []

abbrev pub is_trusted : Verdict → Bool
is_trusted v = contains trusted_associations v.association

abbrev pub is_approved : Verdict → Bool
is_approved v = str_eq v.state "APPROVED"

abbrev pub asks_changes : Verdict → Bool
asks_changes v = str_eq v.state "CHANGES_REQUESTED"

-- What the loop does not skip.
abbrev pub counts : Verdict → Bool
counts v =
    not v.bot && is_trusted v && (is_approved v || asks_changes v || str_eq v.state "DISMISSED")

-- The map of `approvals` in the order of its keys: the verdict of an author, whose login is compared
-- without its case, takes the place of the one before it.
unfoldable pub put_verdict : Verdict → List Verdict → List Verdict
put_verdict v [] = v ∷ []
put_verdict v (x ∷ xs) = if equal_fold x.author v.author then v ∷ xs else x ∷ put_verdict v xs

abbrev pub noted_verdict : Verdict → List Verdict → List Verdict
noted_verdict v found = if counts v then put_verdict v found else found

unfoldable pub latest_verdicts : List Verdict → List Verdict → List Verdict
latest_verdicts found [] = found
latest_verdicts found (v ∷ vs) = latest_verdicts (noted_verdict v found) vs

-- The second loop, `none` where it returns nil.
unfoldable pub approving : List Verdict → Option (List Verdict)
approving [] = some []
approving (v ∷ vs) = elim (approving vs) [
  | none ↦ none
  | some out ↦ if asks_changes v then none else some (if is_approved v then v ∷ out else out)
]

abbrev pub or_nil : Option (List Verdict) → List Verdict
or_nil none = []
or_nil (some vs) = vs

unfoldable pub approvals : List Verdict → List Verdict
approvals vs = or_nil (approving (latest_verdicts [] vs))

-- What `approver` knows of a pull request.
pub record Head : Type 0 where
  pub sha : String
  pub content : String
  pub lineage : List String
  pub retargeted_at : ℕ

-- Whether an approval is of these changes, and given since the base last changed.
abbrev pub is_current : Head → Verdict → Bool
is_current w a =
    (str_eq a.commit_id w.sha
      || (not (is_empty w.content)
          && (str_eq a.commit_id w.content || contains w.lineage a.commit_id)))
    && not (ltb a.created_at w.retargeted_at)

-- The answer of `approver`: a login, nobody, or nobody with a lookup that failed.
pub data Approver : Type 0 where
  approved_by : String → Approver
  nobody unknown : Approver

abbrev pub after_error : Approver → Approver
after_error nobody = unknown
after_error a = a

abbrev pub on_push : String → Approver → Option Bool → Approver
on_push author rest none = after_error rest
on_push author rest (some b) = if b then approved_by author else rest

unfoldable pub approver_among : (String → Option Bool) → Head → List Verdict → Approver
approver_among can_push w [] = nobody
approver_among can_push w (a ∷ more) =
    let rest = approver_among can_push w more in
    if is_current w a then on_push a.author rest (can_push a.author) else rest

abbrev pub approver : (String → Option Bool) → Head → List Verdict → Approver
approver can_push w reviews = approver_among can_push w (approvals reviews)
