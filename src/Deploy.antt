-- ===== src/Deploy.antt =====
-- mocko-core/src/api/deploy/deploy.service.ts: which requests to the management endpoints pass. A
-- header is absent, one text, or several.
pub mod Access
use mocko.Base.{
  Bool, true, false, not, ◌&&◌, ◌||◌, Text, txt, trim, is_empty, Option, none, some, List, [], ◌∷◌,
  ◌++◌, ◌==◌, text_eq, if◌then◌else◌,
}
use mocko.Base.Result.{Result, ok, err, ◌>>=◌, ◌>>◌}

pub data ManagementAuthMode : Type 0 where
  no_auth deploy all_auth : ManagementAuthMode

pub data DeployError : Type 0 where
  missing_secret invalid_mode unauthorized : DeployError

pub data Header : Type 0 where
  absent : Header
  one : Text → Header
  several : List Text → Header

-- `firstString` of utils.ts
unfoldable pub first_string : Header → Text
first_string absent = []
first_string (one value) = value
first_string (several []) = []
first_string (several (value ∷ _)) = value

-- `getManagementAuthMode`, on MANAGEMENT_AUTH_MODE
unfoldable pub get_management_auth_mode : Option Text → Result DeployError ManagementAuthMode
get_management_auth_mode none = ok deploy
get_management_auth_mode (some mode) =
    if is_empty mode
    then ok deploy
    else if mode == txt "none"
    then ok no_auth
    else if mode == txt "deploy"
    then ok deploy
    else if mode == txt "all"
    then ok all_auth
    else err invalid_mode

-- The configuration that the service reads.
pub record Config : Type 0 where
  pub endpoint_enabled : Option Bool
  pub secret : Option Text
  pub mode : ManagementAuthMode

abbrev pub deploy_auth_required : ManagementAuthMode → Bool
deploy_auth_required no_auth = false
deploy_auth_required deploy = true
deploy_auth_required all_auth = true

-- `managementAuthRequired`, `flagsAuthRequired` and `callbacksAuthRequired` have this one body
abbrev pub all_auth_required : ManagementAuthMode → Bool
all_auth_required no_auth = false
all_auth_required deploy = false
all_auth_required all_auth = true

-- `authRequired`, the test of `authorizeManagement`
abbrev pub auth_required : ManagementAuthMode → Bool
auth_required no_auth = false
auth_required deploy = true
auth_required all_auth = true

-- `DEPLOY_ENDPOINT_ENABLED === true`; undefined is not true
abbrev pub is_enabled : Config → Bool
is_enabled c = elim c.endpoint_enabled [ none ↦ false | some b ↦ b ]

-- `!DEPLOY_SECRET`
abbrev pub lacks_secret : Option Text → Bool
lacks_secret none = true
lacks_secret (some s) = is_empty s

-- the constructor
unfoldable pub construct : Config → Result DeployError (Unit {0})
construct c =
    if is_enabled c && deploy_auth_required c.mode && lacks_secret c.secret
    then err missing_secret
    else if all_auth_required c.mode && lacks_secret c.secret
    then err missing_secret
    else ok tt

-- `${DEPLOY_SECRET}`
abbrev pub secret_text : Option Text → Text
secret_text none = txt "undefined"
secret_text (some s) = s

unfoldable pub authorize : Config → Header → Result DeployError (Unit {0})
unfolding first_string
authorize c authorization =
    let token = trim (first_string authorization) in
    if is_empty token || not (token == txt "Bearer " ++ secret_text c.secret)
    then err unauthorized
    else ok tt

module _ (c : Config) (authorization : Header) where
  unfoldable pub authorize_deploy : Result DeployError (Unit {0})
  authorize_deploy = if deploy_auth_required c.mode then authorize c authorization else ok tt

  unfoldable pub authorize_management : Result DeployError (Unit {0})
  authorize_management = if auth_required c.mode then authorize c authorization else ok tt

  unfoldable pub authorize_flags : Result DeployError (Unit {0})
  authorize_flags = if all_auth_required c.mode then authorize c authorization else ok tt

  unfoldable pub authorize_callbacks : Result DeployError (Unit {0})
  authorize_callbacks = if all_auth_required c.mode then authorize c authorization else ok tt
