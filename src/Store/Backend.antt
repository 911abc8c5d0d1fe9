-- ===== src/Store/Backend.antt =====
-- The reads and writes of internal/store/backend.go over one S3 client, with the errors that
-- they are mapped to, and `GetJSON` and `PutJSON`. Timeouts are among the client's failures.
pub mod Laws
use arbetern.Base.{
  ℕ, ◌≡◌, Bool, true, false, Option, none, some, String, ◌++◌, str_eq, if◌then◌else◌,
}
use arbetern.Store.Client.{
  ApiError, Reply, done, failed, is_not_found, is_conflict, Headers, Client,
}

-- `other` is any error that is neither sentinel: a request's, or that of encoding or decoding.
pub data Error : Type 0 where
  not_found conflict other : Error

pub data Result {ℓ} (A : Type ℓ) : Type ℓ where
  ok : A → Result A
  err : Error → Result A

-- `Condition{IfMatch, IfNoneMatch}`; an empty tag is no condition.
pub record Condition : Type 0 where
  pub if_match : String
  pub if_none_match : Bool

abbrev pub unconditional : Condition
unconditional = record { if_match = ""; if_none_match = false }

abbrev pub if_absent : Condition
if_absent = record { if_match = ""; if_none_match = true }

abbrev pub if_tag : String → Condition
if_tag t = record { if_match = t; if_none_match = false }

unfoldable pub headers : Condition → Headers
headers c = record {
  if_match = if str_eq c.if_match "" then none else some c.if_match;
  if_none_match = c.if_none_match;
}

-- `json.Marshal` and `json.Unmarshal` at one type, for values whose text is valid UTF-8 and whose raw
-- messages are compact: `Marshal` replaces other bytes and compacts raw messages.
pub record Codec (T : Type 0) : Type 0 where
  pub marshal : T → Option String
  pub unmarshal : String → Option T
  pub round_trip : (v : T) (b : String) → marshal v ≡ some b → unmarshal b ≡ some v

module _ (c : Client) where
  open c use {State, get_object, put_object, delete_object}

  abbrev get_error : ApiError → Error
  get_error e = if is_not_found e then not_found else other

  -- The body and its tag. What the client answers is the body within `maxBodyBytes`, the limit of the
  -- code's reader, and the tag without the quotes that the code trims.
  unfoldable pub get : String → State → Result (String × String)
  get key s = elim (get_object key s) [ done r ↦ ok r | failed e ↦ err (get_error e) ]

  abbrev put_error : ApiError → Error
  put_error e = if is_conflict e then conflict else if is_not_found e then not_found else other

  abbrev put_result : Reply String → Result String
  put_result (done t) = ok t
  put_result (failed e) = err (put_error e)

  -- The new tag.
  unfoldable pub put : String → String → Condition → State → Result String × State
  put key body cond s = let (r, s') = put_object key body (headers cond) s in (put_result r, s')

  abbrev delete_result : Reply (Unit {0}) → Result (Unit {0})
  delete_result (done u) = ok u
  delete_result (failed e) =
      if is_conflict e then err conflict else if is_not_found e then ok tt else err other

  unfoldable pub delete : String → String → State → Result (Unit {0}) × State
  delete key tag s =
      let (r, s') = delete_object key (headers (if_tag tag)) s in (delete_result r, s')

  module _ {T : Type 0} (json : Codec T) where
    abbrev decoded : String → Option T → Result (T × String)
    decoded t none = err other
    decoded t (some v) = ok (v, t)

    unfoldable pub get_json : String → State → Result (T × String)
    get_json key s = elim (get key s) [ ok r ↦ decoded r.1 (json.unmarshal r.0) | err e ↦ err e ]

    unfoldable pub put_json : String → T → Condition → State → Result String × State
    put_json key v cond s = elim (json.marshal v) [
      | none ↦ (err other, s)
      | some body ↦ put key body cond s
    ]
