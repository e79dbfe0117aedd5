-- ===== src/Redis/Lapsing/Times.antt =====
-- The entries of such a list: which are there at a time.
use mocko.Base.{
  ℕ, suc, ◌+◌, ◌≤◌, ◌<◌, ◌≡◌, refl, first, Text, Bool, false, Option, none, some, [], ◌∷◌, ◌++◌,
  ltb, text_eq, if◌then◌else◌, arith,
}
use mocko.Base.Dict
use mocko.Base.Dict.{Dict, get-set, get-delete}

abbrev pub Entry : Type 0
Entry = Dict Text Text × Option ℕ

abbrev pub is_past : ℕ → Option ℕ → Bool
is_past now none = false
is_past now (some t) = ltb t now

-- A hash with no field is no key, and one whose time has passed is gone.
abbrev pub there : ℕ → Option Entry → Option Entry
there now none = none
there now (some ([], e)) = none
there now (some (x ∷ fields, e)) = if is_past now e then none else some (x ∷ fields, e)

abbrev pub fields_of : Option Entry → Dict Text Text
fields_of none = []
fields_of (some (fields, e)) = fields

abbrev pub expiry_of : Option Entry → Option ℕ
expiry_of none = none
expiry_of (some (fields, e)) = e

abbrev pub Entries : Type 0
Entries = Dict Text Entry

pub get-append :
    (f : Text) (xs ys : Dict Text Text)
    → Dict.get f (xs ++ ys) ≡ first (Dict.get f xs) (Dict.get f ys)
unfolding Dict.get
get-append f [] ys = refl
get-append f ((k, v) ∷ xs) ys = ground (arith, get-append f xs ys)

pub not_past : (now : ℕ) (old : Option Entry) → is_past now (expiry_of (there now old)) ≡ false
not_past now none = refl
not_past now (some ([], e)) = refl
not_past now (some (x ∷ fields, none)) = refl
not_past now (some (x ∷ fields, some t)) = ground arith

pub fresh_fields :
    (now : ℕ) (fields : Dict Text Text) (e : Option ℕ)
    → is_past now e ≡ false
    → fields_of (there now (some (fields, e))) ≡ fields
fresh_fields now [] e h = refl
fresh_fields now (x ∷ fields) e h = rw h refl

fresh_expiry :
    (now : ℕ) (x : Text × Text) (fields : Dict Text Text) (e : Option ℕ)
    → is_past now e ≡ false
    → expiry_of (there now (some (x ∷ fields, e))) ≡ e
fresh_expiry now x fields e h = rw h refl

pub kept_expiry :
    (now : ℕ) (fields : Dict Text Text) (old : Option Entry)
    → expiry_of (there now (some (fields ++ fields_of (there now old), expiry_of (there now old))))
      ≡ expiry_of (there now old)
kept_expiry now (x ∷ fields) old = fresh_expiry now x _ _ (not_past now old)
kept_expiry now [] none = refl
kept_expiry now [] (some ([], e)) = refl
kept_expiry now [] (some (x ∷ xs, none)) = refl
kept_expiry now [] (some (x ∷ xs, some t)) = ground arith

-- What was there earlier, at a later time.
pub there-there :
    (now later : ℕ) (old : Option Entry)
    → now ≤ later
    → there later (there now old) ≡ there later old
there-there now later none le = refl
there-there now later (some ([], e)) le = refl
there-there now later (some (x ∷ xs, none)) le = refl
there-there now later (some (x ∷ xs, some t)) le = ground arith

-- An entry that is there, until the time of its expiry, and after it.
pub until_then :
    (now later : ℕ) (o : Option Entry)
    → ((t : ℕ) → expiry_of (there now o) ≡ some t → later < t)
    → there later (there now o) ≡ there now o
until_then now later none h = refl
until_then now later (some ([], e)) h = refl
until_then now later (some (x ∷ xs, none)) h = refl
until_then now later (some (x ∷ xs, some t)) h = ground (arith, h t)

pub over_then :
    (now later : ℕ) (o : Option Entry) (t : ℕ)
    → expiry_of (there now o) ≡ some t
    → t < later
    → there later (there now o) ≡ none
over_then now later none t e h = refl
over_then now later (some ([], e')) t e h = refl
over_then now later (some (x ∷ xs, none)) t e h = cc
over_then now later (some (x ∷ xs, some u)) t e h = ground arith

-- the fields and the expiry of an entry with a new lifetime
renewed :
    (now ttl : ℕ) (x : Text × Text) (fields : Dict Text Text)
    → there now (some (x ∷ fields, some (now + suc ttl))) ≡ some (x ∷ fields, some (now + suc ttl))
renewed now ttl x fields = ground arith

-- what EXPIRE does to the entry of its key
pub after_expire :
    (now ttl : ℕ) (o : Option Entry)
    → (elim (there now o) [
      | none ↦ there now o
      | some (fields, e) ↦ there now (some (fields, some (now + suc ttl)))
    ])
      ≡ (elim (there now o) [
        | none ↦ none
        | some (fields, e) ↦ some (fields, some (now + suc ttl))
      ])
after_expire now ttl none = refl
after_expire now ttl (some ([], e)) = refl
after_expire now ttl (some (x ∷ fields, none)) = renewed now ttl x fields
after_expire now ttl (some (x ∷ fields, some t)) = ground (arith, renewed now ttl x fields)

pub none-there :
    (now : ℕ) (o : Option Entry)
    → ((f : Text) → Dict.get f (fields_of (there now o)) ≡ none)
    → expiry_of (there now o) ≡ none
unfolding Dict.get
none-there now none h = refl
none-there now (some ([], e)) h = refl
none-there now (some ((k, v) ∷ fields, none)) h = refl
none-there now (some ((k, v) ∷ fields, some t)) h = ground (arith, h k)
