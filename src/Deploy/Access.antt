-- ===== src/Deploy/Access.antt =====
-- Who gets in.
use mocko.Base.{◌≡◌, ◌≢◌, ◌↔◌, ◌⊎◌, false, txt, trim, none, ◌++◌, arith, text_eq}
use mocko.Base.Result.{ok}
use mocko.Deploy.{
  Config, no_auth, deploy, all_auth, Header, one, first_string, is_enabled, construct, authorize,
  secret_text, authorize_deploy, authorize_management, authorize_flags, authorize_callbacks,
}

module _ (c : Config) (h : Header) where
  abbrev pub HasToken : Type 0
  HasToken = trim (first_string h) ≡ txt "Bearer " ++ secret_text c.secret

  authorize_iff : (authorize c h ≡ ok tt) ↔ HasToken
  unfolding authorize
  authorize_iff = ground arith

  -- With the mode `all` each guard lets a request through exactly with the token; with `deploy` only
  -- the guards of deploys and of the management lists ask for it; with `none` no guard does.
  pub authorize_cases :
      ((authorize_deploy c h ≡ ok tt) ↔ ((c.mode ≡ no_auth) ⊎ HasToken))
      × ((authorize_management c h ≡ ok tt) ↔ ((c.mode ≡ no_auth) ⊎ HasToken))
      × ((authorize_flags c h ≡ ok tt) ↔ ((c.mode ≢ all_auth) ⊎ HasToken))
      × ((authorize_callbacks c h ≡ ok tt) ↔ ((c.mode ≢ all_auth) ⊎ HasToken))
  unfolding authorize_deploy authorize_management authorize_flags authorize_callbacks
  authorize_cases = (
    ground (arith, authorize_iff),
    ground (arith, authorize_iff),
    ground (arith, authorize_iff),
    ground (arith, authorize_iff),
  )

-- A service with no secret that starts nevertheless, in the mode `deploy` with the deploy endpoint
-- off, lets the header "Bearer undefined" through to the management lists.
pub undefined_is_token :
    (c : Config)
    → c.mode ≡ deploy
    → c.secret ≡ none
    → is_enabled c ≡ false
    → (construct c ≡ ok tt) × (authorize_management c (one (txt "Bearer undefined")) ≡ ok tt)
unfolding construct authorize_management authorize trim
undefined_is_token c deploys bare off = (ground arith, ground arith)
