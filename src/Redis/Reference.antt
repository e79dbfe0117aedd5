-- ===== src/Redis/Reference.antt =====
-- The interfaces filled by lists: the documented behaviour can hold.
use mocko.Base.{
  Option, ◌+◌, ◌-◌, length, ◌&&◌, contains, ◌++◌, take, drop, ℕ, ◌≤◌, ◌≡◌, ◌↔◌, ◌⊎◌, inl, inr, refl,
  sym, ap, Text, Bool, true, false, not, some, List, [], ◌∷◌, arith, Elem, All, All-filter, filter,
  map, any, leb, ◌==◌, text_eq, if◌then◌else◌, Elem-filter, insert_sorted, is_some,
}
use mocko.Base.Dict
use mocko.Base.Dict.{Dict, NodupKeys, get-set, get-delete, set-NodupKeys, delete-NodupKeys}
use mocko.Redis.{ByScore, SortedSet, Hash, Keyspace, ListKey, FlagKeys}

abbrev score_order : Text × ℕ → Text × ℕ → Bool
score_order e f = leb e.1 f.1

abbrev others : Text → List (Text × ℕ) → List (Text × ℕ)
others member s = filter (λ e. not (e.0 == member)) s

unfoldable pub add : ℕ → Text → List (Text × ℕ) → List (Text × ℕ)
add score member s = insert_sorted score_order (member, score) (others member s)

unfoldable pub rem : Text → List (Text × ℕ) → ℕ × List (Text × ℕ)
rem member s = (if any (λ e. e.0 == member) s then 1 else 0, others member s)

All-le : (a b : ℕ) (es : List (Text × ℕ)) → a ≤ b → All (λ e. b ≤ e.1) es → All (λ e. a ≤ e.1) es
All-le a b [] le h = tt
All-le a b (e ∷ es) le h = (omega arith, All-le a b es le h.1)

All-insert :
    (a : ℕ) (x : Text × ℕ) (es : List (Text × ℕ))
    → a ≤ x.1
    → All (λ e. a ≤ e.1) es
    → All (λ e. a ≤ e.1) (insert_sorted score_order x es)
unfolding insert_sorted
All-insert a x [] le h = (le, tt)
All-insert a x (e ∷ es) le h = ground (arith, All-insert a x es le h.1)

pub insert-ByScore :
    (x : Text × ℕ) (es : List (Text × ℕ)) → ByScore es → ByScore (insert_sorted score_order x es)
unfolding insert_sorted
insert-ByScore x [] h = (tt, tt)
insert-ByScore x (e ∷ es) h =
    ground (arith, insert-ByScore x es h.1, All-insert e.1 x es, All-le x.1 e.1 es)

pub filter-ByScore :
    (p : Text × ℕ → Bool) (es : List (Text × ℕ)) → ByScore es → ByScore (filter p es)
filter-ByScore p [] h = tt
filter-ByScore p (e ∷ es) h =
    ground (arith, filter-ByScore p es h.1, All-filter (λ f. e.1 ≤ f.1) p es h.0)

pub Elem-inserted :
    (a x : Text × ℕ) (es : List (Text × ℕ))
    → Elem a (insert_sorted score_order x es) ↔ ((a ≡ x) ⊎ Elem a es)
unfolding insert_sorted
Elem-inserted a x [] = ground arith
Elem-inserted a x (e ∷ es) = ground (arith, Elem-inserted a x es)

pub any-Elem :
    (member : Text) (n : ℕ) (es : List (Text × ℕ))
    → Elem (member, n) es
    → any (λ e. e.0 == member) es ≡ true
any-Elem member n [] m = elim m [ ]
any-Elem member n (e ∷ es) m = ground (arith, any-Elem member n es)

pub any_none :
    (member : Text) (s : List (Text × ℕ))
    → ((n : ℕ) → Elem (member, n) s → ⊥)
    → any (λ e. e.0 == member) s ≡ false
any_none member [] h = refl
any_none member ((m, n) ∷ s) h = elim (text_eq.dec m member) [
  | yes e ↦ absurd (h n (inl (ap (λ x. (x, n)) (sym e))))
  | no ne ↦ ground (arith, any_none member s (λ k i. h k (inr i)))
]

unfoldable pub list_set : SortedSet
unfolding add rem
list_set = record {
  State = List (Text × ℕ);
  IsValid = ByScore;
  empty = [];
  range = λ s. s;
  range_by_score = λ max s. map (λ e. e.0) (filter (λ e. leb e.1 max) s);
  add = add;
  rem = rem;
  empty-IsValid = tt;
  add-IsValid = λ score member s v.
      insert-ByScore (member, score) (others member s)
        (filter-ByScore (λ e. not (e.0 == member)) s v);
  rem-IsValid = λ member s v. filter-ByScore (λ e. not (e.0 == member)) s v;
  range-empty = refl;
  range-ByScore = λ s v. v;
  range_by_score-range = λ max s v. refl;
  Elem-add = λ score member s m n v. ground (
    arith,
    Elem-inserted (m, n) (member, score) (others member s),
    Elem-filter (λ e. not (e.0 == member)) (m, n) s,
  );
  Elem-rem = λ member s m n v. ground (arith, Elem-filter (λ e. not (e.0 == member)) (m, n) s);
  rem_some = λ member s n v e. ground (arith, any-Elem member n s e);
  rem_none = λ member s v h. ground (arith, any_none member s h);
}

pub Elem-get :
    (f v : Text) (s : Dict Text Text) → NodupKeys s → Elem (f, v) s ↔ (Dict.get f s ≡ some v)
unfolding Dict.get
Elem-get f v [] u = (λ m. elim m [ ], λ e. cc)
Elem-get f v ((g, w) ∷ s) u = ground (arith, Elem-get f v s u.1, Elem-get g v s u.1)

unfoldable pub dict_hash : Hash
unfolding Dict.get
dict_hash = record {
  State = Dict Text Text;
  IsValid = NodupKeys;
  empty = [];
  get = λ f s. Dict.get f s;
  set = λ f v s. Dict.set f v s;
  del = λ f s. (if is_some (Dict.get f s) then 1 else 0, Dict.delete f s);
  all = λ s. s;
  empty-IsValid = tt;
  set-IsValid = λ f v s u. set-NodupKeys f v s u;
  del-IsValid = λ f s u. delete-NodupKeys f s u;
  get-empty = λ f. refl;
  get-set = λ field value f s u. get-set f field value s;
  get-del = λ field f s u. get-delete f field s;
  del-count = λ field s u. ground arith;
  Elem-all = λ f v s u. Elem-get f v s u;
}

-- A database as the list of its keys.
abbrev drop_key : Text → List Text → List Text
drop_key key keys = filter (λ k. not (k == key)) keys

unfoldable pub del : List Text → List Text → ℕ × List Text
del [] s = (0, s)
del (key ∷ keys) s =
    let (n, s') = del keys (drop_key key s) in (length s - length (drop_key key s) + n, s')

length-drop_key-le : (key : Text) (s : List Text) → length (drop_key key s) ≤ length s
length-drop_key-le key [] = omega arith
length-drop_key-le key (k ∷ s) = ground (arith, length-drop_key-le key s)

pub del-size : (keys s : List Text) → (del keys s).0 + length (del keys s).1 ≡ length s
unfolding del
del-size [] s = omega arith
del-size (key ∷ keys) s = omega (arith, del-size keys (drop_key key s), length-drop_key-le key s)

contains-drop_key :
    (key : Text) (s : List Text) (k : Text)
    → contains (drop_key key s) k ≡ (contains s k && not (key == k))
contains-drop_key key [] k = refl
contains-drop_key key (j ∷ s) k = ground (arith, contains-drop_key key s k)

pub contains-del :
    (keys s : List Text) (k : Text)
    → contains (del keys s).1 k ≡ (contains s k && not (contains keys k))
unfolding del
contains-del [] s k = ground arith
contains-del (key ∷ keys) s k =
    ground (arith, contains-del keys (drop_key key s) k, contains-drop_key key s k)

abbrev pub keyspace : Keyspace
keyspace = record {
  State = List Text;
  exists = λ k s. contains s k;
  size = λ s. length s;
  del = del;
  exists-del = contains-del;
  del-size = del-size;
}

abbrev pub list_key : ListKey
list_key = record {
  State = List Text;
  empty = [];
  range = λ s. s;
  rpush = λ elements s. s ++ elements;
  lpop = λ count s. (take count s, drop count s);
  range-empty = refl;
  range-rpush = λ elements s. refl;
  lpop-take = λ count s. refl;
  range-lpop = λ count s. refl;
}

-- The flags as a list of entries.
unfoldable pub flag_dict : FlagKeys
unfolding Dict.get
flag_dict = record {
  State = Dict Text (Text × Option ℕ);
  read = λ k s. Dict.get k s;
  replace = λ key value ttl s. Dict.set key (value, ttl) s;
  read-replace = λ key value ttl s k. get-set k key (value, ttl) s;
}
