-- ===== src/Core/Parse/Fields.antt =====
-- The readers of a request's fields, against the fields that `Serialize` writes.
use browser_web3_signer.Prelude.{
  >>=-ok, map_err-ok, ◌⊎◌, ◌↔◌, ◌≡◌, refl, String, Option, none, some, Result, ok, and_then, str_eq,
  if◌then◌else◌, arith, Option-cases, inl, inr,
}
use browser_web3_signer.Core.Json.{Serde}
use browser_web3_signer.Core.Types.{put_opt}
use browser_web3_signer.Core.Parse.{read_str, read_req, read_opt, req_parsed, opt_parsed}
use mathlib.Core.Option

-- `Option::or`.
abbrev pub or_else : {A : Type 0} → Option A → Option A → Option A
or_else none o = o
or_else (some a) o = some a

pub or_else-none : {A : Type 0} (o : Option A) → or_else o none ≡ o
or_else-none none = refl
or_else-none (some a) = refl

module _ (json : Serde) where
  open json use {Value, Map, get, find, insert, string, as_str, find-insert, as_str-string}

  pub find-put_opt :
      {A : Type 0} (f : A → Value) (j k : String) (o : Option A) (m : Map)
      → find (put_opt json f j o m) k
        ≡ (if str_eq j k then or_else (Option.map f o) (find m k) else find m k)
  unfolding put_opt
  find-put_opt f j k none m = ground arith
  find-put_opt f j k (some a) m = ground (arith, find-insert j k (f a) m)

  module _ {A : Type 0} (from_str : String → Result A String) (show : A → String)
      (back : (a : A) → from_str (show a) ≡ ok a) where
    pub read_opt-map :
        (key : String) (o : Option A)
        → read_opt json from_str key (Option.map (λ a. string (show a)) o) ≡ ok o
    unfolding read_opt
    read_opt-map key none = refl
    read_opt-map key (some a) = rw (as_str-string (show a), back a) refl

    pub read_req-string :
        (key : String) (a : A) → read_req json from_str key (some (string (show a))) ≡ ok a
    unfolding read_req
    read_req-string key a = rw (as_str-string (show a), back a) refl

  -- The same for the values that a predicate holds of.
  abbrev pub Holds : {A : Type 0} → (A → Type 0) → Option A → Type 0
  Holds P none = Unit
  Holds P (some a) = P a

  module _ {A : Type 0} (from_str : String → Result A String) (show : A → String) (P : A → Type 0)
      (back : (a : A) → P a → from_str (show a) ≡ ok a) where
    pub read_opt-Holds :
        (key : String) (o : Option A)
        → Holds P o
        → read_opt json from_str key (Option.map (λ a. string (show a)) o) ≡ ok o
    unfolding read_opt
    read_opt-Holds key none h = refl
    read_opt-Holds key (some a) h = rw (as_str-string (show a), back a h) refl

    pub read_req-Holds :
        (key : String) (a : A) → P a → read_req json from_str key (some (string (show a))) ≡ ok a
    unfolding read_req
    read_req-Holds key a h = rw (as_str-string (show a), back a h) refl

  pub read_str-string : (key s : String) → read_str json key (some (string s)) ≡ ok s
  unfolding read_str
  read_str-string key s = rw (as_str-string s) refl

  pub and_then-as_str : (o : Option String) → and_then (Option.map string o) as_str ≡ o
  and_then-as_str none = refl
  and_then-as_str (some s) = as_str-string s

  module _ {A : Type 0} (from_str : String → Result A String) (body : Value) (key : String) where
    -- `opt_parsed` gives a value exactly when the field is a string that parses to it, and so does `req_parsed`.
    pub opt_parsed-some :
        (a : A)
        → (opt_parsed json from_str body key ≡ ok (some a))
          ↔ (req_parsed json from_str body key ≡ ok a)
    unfolding opt_parsed req_parsed read_opt read_req
    opt_parsed-some a = elim (Option-cases (and_then (get body key) as_str)) [
      | inl absent ↦ (ground arith, ground arith)
      | inr (s, there) ↦ (ground arith, ground arith)
    ]

    -- What is read was parsed from a text.
    pub req_parsed-ok :
        {a : A} → req_parsed json from_str body key ≡ ok a → (s : String) × (from_str s ≡ ok a)
    unfolding req_parsed read_req
    req_parsed-ok h =
        let (s, _, h1) = >>=-ok (read_str json key (get body key)) _ h in
        (s, map_err-ok _ (from_str s) h1)

    pub opt_parsed-ok :
        (o : Option A)
        → opt_parsed json from_str body key ≡ ok o
        → (o ≡ none) ⊎ ((a : A) × (s : String) × (o ≡ some a) × (from_str s ≡ ok a))
    opt_parsed-ok none h = inl refl
    opt_parsed-ok (some a) h =
        let (s, k) = req_parsed-ok ((opt_parsed-some a).0 h) in inr (a, s, refl, k)

-- What a reader sees of the fields that `Serialize` wrote.
pub ruleset wire = (find-put_opt, or_else-none, read_str-string, and_then-as_str)
