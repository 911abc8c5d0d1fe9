-- ===== src/Tests/Memory.antt =====
-- A bucket in memory, which keeps to the laws of `IsS3`: a table of bodies that never fails but by
-- a precondition or a missing key. A body's tag is the body behind one more letter.
use arbetern.Base.{
  ◌≡◌, refl, ◌∙◌, ◌≢◌, inl, inr, Bool, true, false, ◌&&◌, Option, none, some, String, arith, eq_iff,
  str_eq, if◌then◌else◌, Bool-cases, ap,
}
use arbetern.Store.Client.{ApiError, Reply, done, failed, Headers, Client, IsS3, Meets}

abbrev pub Table : Type 0
Table = String → Option String

abbrev pub missing : ApiError
missing = record { no_such_key = true; not_found = false; code = none; status = some 404 }

abbrev pub refused : ApiError
refused = record {
  no_such_key = false;
  not_found = false;
  code = some "PreconditionFailed";
  status = some 412;
}

abbrev pub tag_of : String → String
tag_of b = String.◌∷◌ "t" b

abbrev matches : Option String → Option String → Bool
matches none o = true
matches (some t) none = false
matches (some t) (some b) = str_eq (tag_of b) t

abbrev absent : Bool → Option String → Bool
absent false o = true
absent true none = true
absent true (some b) = false

abbrev meets : Headers → Option String → Bool
meets h o = matches h.if_match o && absent h.if_none_match o

abbrev pub update : String → Option String → Table → Table
update k o s j = if str_eq k j then o else s j

abbrev pub found : Option String → Reply (String × String)
found none = failed missing
found (some b) = done (b, tag_of b)

abbrev pub memory : Client
memory = record {
  State = Table;
  object = λ s k. s k;
  etag = tag_of;
  get_object = λ k s. found (s k);
  put_object = λ k b h s.
      if meets h (s k) then (done (tag_of b), update k (some b) s) else (failed refused, s);
  delete_object =
      λ k h s. if meets h (s k) then (done tt, update k none s) else (failed refused, s);
}

tag_tail : String → String
tag_tail String.[] = ""
tag_tail (String.◌∷◌ c s) = s

tag_of-injective : (a b : String) → tag_of a ≡ tag_of b → a ≡ b
unfolding tag_tail
tag_of-injective a b e = ap tag_tail e

matched :
    (m o : Option String) (t : String)
    → matches m o ≡ true
    → m ≡ some t
    → (b : String) × (o ≡ some b) × (tag_of b ≡ t)
matched none o t h e = absurd (ground arith)
matched (some u) none t h e = absurd (ground arith)
matched (some u) (some b) t h e = let q : u ≡ t = cc in (b, refl, (eq_iff (tag_of b) u).0 h ∙ q)

meets-Meets : (h : Headers) (o : Option String) → meets h o ≡ true → Meets tag_of h o
meets-Meets h o e = (λ t f. matched h.if_match o t (ground arith) f, λ f. ground arith)

update_self : (k : String) (o : Option String) (s : Table) → update k o s k ≡ o
update_self k o s = ground (arith, eq_iff k k)

update_ne : (k : String) (o : Option String) (s : Table) (j : String) → j ≢ k → update k o s j ≡ s j
update_ne k o s j ne = ground (arith, eq_iff k j)

tag_of-ne : (b : String) → tag_of b ≢ ""
tag_of-ne b e = cc

-- The bucket in memory keeps to the laws.
pub memory-IsS3 : IsS3 memory
memory-IsS3 = record {
  etag_injective = tag_of-injective;
  etag_nonempty = tag_of-ne;
  get_done = λ k s b t e. (ground arith, ground arith);
  get_missing = λ k s x e m. ground arith;
  put_done = λ k b h s t e. elim (Bool-cases (meets h (s k))) [
    | inl y ↦ (ground arith, rw y (update_self k (some b) s), meets-Meets h (s k) y)
    | inr n ↦ absurd (ground arith)
  ];
  put_refused = λ k b h s x e m. ground arith;
  put_any = λ k b h s. elim (Bool-cases (meets h (s k))) [
    | inl y ↦ inr (rw y (update_self k (some b) s), meets-Meets h (s k) y)
    | inr n ↦ inl (rw n)
  ];
  put_other = λ k b h s j ne. ground (arith, update_ne k (some b) s j);
  delete_done = λ k h s e. ground (arith, update_self k none s);
  delete_any = λ k h s. elim (Bool-cases (meets h (s k))) [
    | inl y ↦ inr (rw y (update_self k none s), meets-Meets h (s k) y)
    | inr n ↦ inl (rw n)
  ];
  delete_other = λ k h s j ne. ground (arith, update_ne k none s j);
}
