-- ===== src/Response/Targets.antt =====
-- Where a proxied request can go.
use mocko.Base.{
  ◌≡◌, ◌≢◌, refl, sym, subst, inl, inr, Text, starts_with, tail, Option, none, some, List, [], ◌∷◌,
  arith, Elem, find-Elem, Option-cases, Bool-cases, text_eq,
}
use mocko.Base.Result.{Result, ok}
use mocko.Definitions.Data.{Host}
use mocko.Definitions.Hosts.{find_host_by_slug, find_host_by_source}
use mocko.Response.{HelperError, at_sign, label_of, destination_of, target_or, target_of, get_host}

ok_injective : {E A : Type 0} {a b : A} → ◌≡◌ {A = Result E A} (ok a) (ok b) → a ≡ b
ok_injective h = cc h

module _ (hosts : List Host) where
  -- A target with a label is the destination of a host of the definitions that has one.
  abbrev pub IsLabelled : Text → Text → Type 0
  IsLabelled url label =
      (host : Host) × Elem host hosts
      × (host.destination ≡ some url)
      × (url ≢ [])
      × (label ≡ label_of host)

  destination_of_lem :
      (host : Host) (url : Text)
      → destination_of (some host) ≡ some url
      → (host.destination ≡ some url) × (url ≢ [])
  destination_of_lem host url h = ground arith

  find_host_by_slug-Elem :
      (slug : Text) (host : Host) → find_host_by_slug hosts slug ≡ some host → Elem host hosts
  unfolding find_host_by_slug
  find_host_by_slug-Elem slug host h = find-Elem _ hosts host h

  find_host_by_source-Elem :
      (source : Text) (host : Host) → find_host_by_source hosts source ≡ some host → Elem host hosts
  unfolding find_host_by_source
  find_host_by_source-Elem source host h = find-Elem _ hosts host h

  -- Where a target comes from: labelled, or the text itself with no label.
  abbrev pub IsTarget : Text → Text × Option Text → Type 0
  IsTarget fallback (url, none) = url ≡ fallback
  IsTarget fallback (url, some label) = IsLabelled url label

  target_or-IsTarget :
      (fallback : Text) (o : Option Host)
      → ((host : Host) → o ≡ some host → Elem host hosts)
      → IsTarget fallback (target_or fallback o)
  target_or-IsTarget fallback none m = refl
  target_or-IsTarget fallback (some host) m = elim (Option-cases (destination_of (some host))) [
    | inl missing ↦ subst (IsTarget fallback) (sym (target_missing missing)) refl
    | inr (d, there) ↦
        let (dest, nonempty) = destination_of_lem host d there in
        subst (IsTarget fallback) (sym (target_found d there))
          (host, m host refl, dest, nonempty, refl)
  ]
    where
      target_missing :
          destination_of (some host) ≡ none → target_or fallback (some host) ≡ (fallback, none)
      target_missing missing = ground arith

      target_found :
          (d : Text)
          → destination_of (some host) ≡ some d
          → target_or fallback (some host) ≡ (d, some (label_of host))
      target_found d there = ground arith

  -- the text that a `proxy` helper falls back to
  abbrev pub fallback_of : Option Text → Text
  fallback_of none = []
  fallback_of (some uri) = uri

  found-IsTarget :
      (fallback : Text) (o : Option Host) (target : Text × Option Text)
      → ((host : Host) → o ≡ some host → Elem host hosts)
      → target_of o ≡ ok target
      → IsTarget fallback target
  found-IsTarget fallback none target m h = cc
  found-IsTarget fallback (some host) (url, label) m h =
      elim (Option-cases (destination_of (some host))) [
        | inl missing ↦ ground arith
        | inr (d, there) ↦
            let (dest, nonempty) = destination_of_lem host d there in
            subst (IsTarget fallback) (same d there) (host, m host refl, dest, nonempty, refl)
      ]
    where
      same :
          (d : Text)
          → destination_of (some host) ≡ some d
          → ◌≡◌ {A = Text × Option Text} (d, some (label_of host)) (url, label)
      same d there = ground arith

  -- A labelled target is the destination, not empty, of a host of the definitions, and the label is
  -- its slug behind '@'; a target with no label is the text that the template gave, or empty if it
  -- gave none.
  pub get_host-IsTarget :
      (uri : Option Text) (header : Text) (target : Text × Option Text)
      → get_host hosts uri header ≡ ok target
      → IsTarget (fallback_of uri) target
  unfolding get_host
  get_host-IsTarget none header target h =
      subst (IsTarget []) (ok_injective h)
        (target_or-IsTarget [] (find_host_by_source hosts header) (find_host_by_source-Elem header))
  get_host-IsTarget (some uri) header target h =
      elim (Bool-cases (starts_with uri (at_sign ∷ []))) [
        | inl at ↦
            found-IsTarget uri (find_host_by_slug hosts (tail uri)) target
              (find_host_by_slug-Elem (tail uri)) (ground arith)
        | inr plain ↦
            let same : ◌≡◌ {A = Result HelperError (Text × Option Text)}
                (ok (target_or uri (find_host_by_slug hosts uri))) (ok target) =
              ground arith in
            subst (IsTarget uri) (ok_injective same)
              (target_or-IsTarget uri (find_host_by_slug hosts uri) (find_host_by_slug-Elem uri))
      ]
