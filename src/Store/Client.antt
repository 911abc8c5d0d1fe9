-- ===== src/Store/Client.antt =====
-- The S3 client that internal/store/backend.go calls. It is not code of this repository: a
-- parameter, with what the code relies on as laws. A state stands for the bucket with everything
-- that decides the client's next answers, faults included.
use arbetern.Base.{
  ℕ, ◌≡◌, ◌≢◌, ◌⊎◌, Bool, true, false, Option, none, some, String, ◌||◌, ◌==◌, str_eq,
  if◌then◌else◌,
}

-- What `errors.As` finds in the chain of a failed call: a typed error, an API error's code, and
-- the status of an HTTP response.
pub record ApiError : Type 0 where
  pub no_such_key : Bool
  pub not_found : Bool
  pub code : Option String
  pub status : Option ℕ

pub data Reply {ℓ} (A : Type ℓ) : Type ℓ where
  done : A → Reply A
  failed : ApiError → Reply A

abbrev status_is : ℕ → Option ℕ → Bool
status_is n none = false
status_is n (some m) = m == n

abbrev code_is : String → Option String → Bool
code_is s none = false
code_is s (some t) = str_eq t s

unfoldable pub is_not_found : ApiError → Bool
is_not_found e = (e.no_such_key || e.not_found) || status_is 404 e.status

unfoldable pub is_conflict : ApiError → Bool
is_conflict e =
    if code_is "PreconditionFailed" e.code || code_is "ConditionalRequestConflict" e.code
    then true
    else status_is 412 e.status || status_is 409 e.status

-- The headers of a conditional request: If-Match with an entity tag, If-None-Match with `*`.
pub record Headers : Type 0 where
  pub if_match : Option String
  pub if_none_match : Bool

pub record Client : Type 1 where
  pub State : Type 0
  pub object : State → String → Option String
  pub etag : String → String
  pub get_object : String → State → Reply (String × String)
  pub put_object : String → String → Headers → State → Reply String × State
  pub delete_object : String → Headers → State → Reply (Unit {0}) × State

-- Whether the object that stands at the key meets the headers.
abbrev pub Meets : (String → String) → Headers → Option String → Type 0
Meets etag h o =
    ((t : String) → h.if_match ≡ some t → (b : String) × (o ≡ some b) × (etag b ≡ t))
    × (h.if_none_match ≡ true → o ≡ none)

-- What the code relies on. An entity tag is never empty and tells two bodies apart; reads and
-- writes of an object are strongly consistent and atomic; a request that is answered with success
-- met its headers, one that is answered by a precondition or a missing key changed nothing, and
-- one that failed otherwise may or may not have been carried out.
pub record IsS3 (c : Client) : Type 0 where
  pub etag_injective : (a b : String) → c.etag a ≡ c.etag b → a ≡ b
  pub etag_nonempty : (a : String) → c.etag a ≢ ""
  pub get_done :
      (k : String) (s : c.State) (b t : String)
      → c.get_object k s ≡ done (b, t)
      → (c.object s k ≡ some b) × (t ≡ c.etag b)
  pub get_missing :
      (k : String) (s : c.State) (e : ApiError)
      → c.get_object k s ≡ failed e
      → is_not_found e ≡ true
      → c.object s k ≡ none
  pub put_done :
      (k b : String) (h : Headers) (s : c.State) (t : String)
      → (c.put_object k b h s).0 ≡ done t
      → (t ≡ c.etag b)
        × (c.object (c.put_object k b h s).1 k ≡ some b)
        × Meets c.etag h (c.object s k)
  pub put_refused :
      (k b : String) (h : Headers) (s : c.State) (e : ApiError)
      → (c.put_object k b h s).0 ≡ failed e
      → (is_conflict e || is_not_found e) ≡ true
      → c.object (c.put_object k b h s).1 k ≡ c.object s k
  pub put_any :
      (k b : String) (h : Headers) (s : c.State)
      → (c.object (c.put_object k b h s).1 k ≡ c.object s k)
        ⊎ ((c.object (c.put_object k b h s).1 k ≡ some b) × Meets c.etag h (c.object s k))
  pub put_other :
      (k b : String) (h : Headers) (s : c.State) (j : String)
      → j ≢ k
      → c.object (c.put_object k b h s).1 j ≡ c.object s j
  pub delete_done :
      (k : String) (h : Headers) (s : c.State)
      → (c.delete_object k h s).0 ≡ done tt
      → c.object (c.delete_object k h s).1 k ≡ none
  pub delete_any :
      (k : String) (h : Headers) (s : c.State)
      → (c.object (c.delete_object k h s).1 k ≡ c.object s k)
        ⊎ ((c.object (c.delete_object k h s).1 k ≡ none) × Meets c.etag h (c.object s k))
  pub delete_other :
      (k : String) (h : Headers) (s : c.State) (j : String)
      → j ≢ k
      → c.object (c.delete_object k h s).1 j ≡ c.object s j
