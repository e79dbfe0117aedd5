-- ===== src/Response/Bounds.antt =====
-- The status that a response can have.
use mocko.Base.{ℕ, ◌≤◌, ◌<◌, ◌≡◌, Text, Option, List, [], ◌∷◌, arith, ℤ, pos, negsuc}
use mocko.Base.Result.{Result, ok, ◌>>=◌, >>=-eq-ok}
use mocko.Definitions.Data.{Host}
use mocko.Response.{
  ResponseData, HelperError, Value, text, status_code, checked_status, set_status, set_header,
  proxy, get_host,
}

-- The calls of these helpers that a template makes.
pub data HelperCall : Type 0 where
  call_set_status : Value → HelperCall
  call_set_header : Value → Value → HelperCall
  call_proxy : Option Text → HelperCall

module _ {P : Type 0} (hosts : List Host) (header : Text) where
  unfoldable pub call : HelperCall → ResponseData P → Result HelperError (ResponseData P)
  call (call_set_status status) d = set_status status d
  call (call_set_header key value) d = set_header key value d
  call (call_proxy uri) d = proxy hosts uri header d

  -- A template stops at the first helper that throws.
  unfoldable pub call_all : List HelperCall → ResponseData P → Result HelperError (ResponseData P)
  call_all [] d = ok d
  call_all (c ∷ cs) d = do d' ← call c d; call_all cs d'

abbrev pub IsStatus : ℕ → Type 0
IsStatus n = (200 ≤ n) × (n < 600)

checked_status-IsStatus : (n : ℤ) (code : ℕ) → checked_status n ≡ ok code → IsStatus code
unfolding checked_status
checked_status-IsStatus (pos n) code h = ground arith
checked_status-IsStatus (negsuc n) code h = cc

module _ {P : Type 0} (hosts : List Host) (header : Text) where
  call-IsStatus :
      (c : HelperCall) (d d' : ResponseData P)
      → call hosts header c d ≡ ok d'
      → IsStatus d.status
      → IsStatus d'.status
  unfolding call
  call-IsStatus (call_set_status status) d d' h s =
      unfold set_status in
      let (n, parsed, h') = >>=-eq-ok (status_code status) _ h in
      let (code, checked, h'') = >>=-eq-ok (checked_status n) _ h' in
      let bounds = checked_status-IsStatus n code checked in ground arith
  call-IsStatus (call_set_header (text key) (text value)) d d' h s =
      unfold set_header in ground arith
  call-IsStatus (call_set_header _ _) d d' h s = unfold set_header in cc
  call-IsStatus (call_proxy uri) d d' h s =
      unfold proxy in
      let (target, found, h') = >>=-eq-ok (get_host hosts uri header) _ h in ground arith

  -- Whatever a template does to a response with a status from 200 to 599, its status stays there.
  pub call_all-IsStatus :
      (cs : List HelperCall) (d d' : ResponseData P)
      → call_all hosts header cs d ≡ ok d'
      → IsStatus d.status
      → IsStatus d'.status
  unfolding call_all
  call_all-IsStatus [] d d' h s = ground arith
  call_all-IsStatus (c ∷ cs) d d' h s =
      let (d'', first, rest) = >>=-eq-ok (call hosts header c d) _ h in
      call_all-IsStatus cs d'' d' rest (call-IsStatus c d d'' first s)
