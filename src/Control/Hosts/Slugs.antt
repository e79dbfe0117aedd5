-- ===== src/Control/Hosts/Slugs.antt =====
-- The slugs of a list of hosts that is written to by id.
use mocko.Base.{
  ◌≡◌, refl, Text, Bool, false, Option, none, some, List, [], ◌∷◌, ◌++◌, arith, any, find, ◌==◌,
  text_eq, to_lower_case, All,
}
use mocko.Definitions.Merge.Precedence.{find_slug, HasUniqueSlugs}
use mocko.Control.Store.{has_id, put, without}
use mocko.Control.Hosts.{Host, host_id, host_slug, has_ui_slug, is_file_definition}

abbrev pub IsUi : Host → Type 0
IsUi host = is_file_definition host ≡ false

abbrev pub slug_in : Text → List Host → Option Host
slug_in t hosts = find_slug host_slug t hosts

pub put-IsUi :
    (h : Host) (hosts : List Host) → IsUi h → All IsUi hosts → All IsUi (put host_id h hosts)
unfolding put
put-IsUi h [] u us = (u, tt)
put-IsUi h (x ∷ xs) u us = ground (arith, put-IsUi h xs u us.1)

pub without-IsUi :
    (id : Text) (hosts : List Host) → All IsUi hosts → All IsUi (without host_id id hosts)
without-IsUi id [] us = tt
without-IsUi id (x ∷ xs) us = ground (arith, without-IsUi id xs us.1)

slug_in-without :
    (id t : Text) (hosts : List Host)
    → slug_in t hosts ≡ none
    → slug_in t (without host_id id hosts) ≡ none
slug_in-without id t [] e = refl
slug_in-without id t (x ∷ xs) e = ground (arith, slug_in-without id t xs)

pub without-HasUniqueSlugs :
    (id : Text) (hosts : List Host)
    → HasUniqueSlugs host_slug hosts
    → HasUniqueSlugs host_slug (without host_id id hosts)
without-HasUniqueSlugs id [] u = tt
without-HasUniqueSlugs id (x ∷ xs) u =
    ground
      (arith, slug_in-without id (to_lower_case x.slug) xs u.0, without-HasUniqueSlugs id xs u.1)

slug_in-put_other :
    (t : Text) (h : Host) (hosts : List Host)
    → (to_lower_case h.slug == t) ≡ false
    → slug_in t hosts ≡ none
    → slug_in t (put host_id h hosts) ≡ none
unfolding put
slug_in-put_other t h [] ne e = ground arith
slug_in-put_other t h (x ∷ xs) ne e = ground (arith, slug_in-put_other t h xs ne)

-- A host with a new id and a new slug.
pub put_new-HasUniqueSlugs :
    (h : Host) (hosts : List Host)
    → slug_in (to_lower_case h.slug) hosts ≡ none
    → any (has_id host_id h.id) hosts ≡ false
    → HasUniqueSlugs host_slug hosts
    → HasUniqueSlugs host_slug (put host_id h hosts)
unfolding put
put_new-HasUniqueSlugs h [] free fresh u = (refl, tt)
put_new-HasUniqueSlugs h (x ∷ xs) free fresh u =
    ground (arith, slug_in-put_other (to_lower_case x.slug) h xs, put_new-HasUniqueSlugs h xs)

-- A host in the place of one with its id and its slug.
slug_in-put_same :
    (t : Text) (h : Host) (hosts : List Host) (old : Host)
    → find (has_id host_id h.id) hosts ≡ some old
    → old.slug ≡ h.slug
    → slug_in t hosts ≡ none
    → slug_in t (put host_id h hosts) ≡ none
unfolding put
slug_in-put_same t h [] old there same e = cc
slug_in-put_same t h (x ∷ xs) old there same e = ground (arith, slug_in-put_same t h xs old)

pub put_same-HasUniqueSlugs :
    (h : Host) (hosts : List Host) (old : Host)
    → find (has_id host_id h.id) hosts ≡ some old
    → old.slug ≡ h.slug
    → HasUniqueSlugs host_slug hosts
    → HasUniqueSlugs host_slug (put host_id h hosts)
unfolding put
put_same-HasUniqueSlugs h [] old there same u = (refl, tt)
put_same-HasUniqueSlugs h (x ∷ xs) old there same u =
    ground
      (arith, slug_in-put_same (to_lower_case x.slug) h xs old, put_same-HasUniqueSlugs h xs old)

-- A slug no own host of the panel has is none of the list's.
pub free-slug_in :
    (t : Text) (hosts : List Host)
    → All IsUi hosts
    → any (has_ui_slug t) hosts ≡ false
    → slug_in t hosts ≡ none
free-slug_in t [] us e = refl
free-slug_in t (x ∷ xs) us e = ground (arith, free-slug_in t xs us.1)

pub any_left :
    {A : Type 0} (p : A → Bool) (xs ys : List A) → any p (xs ++ ys) ≡ false → any p xs ≡ false
any_left p [] ys e = refl
any_left p (x ∷ xs) ys e = ground (arith, any_left p xs ys)
