-- ===== src/Configuration/Usable.antt =====
-- What a configuration must have for the program to start.
use gov_jobs_backend.Base.{◌≡◌, ◌↔◌, refl, Bool, true, false, ◌&&◌, not, ◌++◌, Text, text_eq, codes}
use gov_jobs_backend.Configuration.{
  Environment, Configuration, is_set, given, when, started, missing, refuse,
  assert_usable_configuration,
}

abbrev is_usable : Configuration → Bool
is_usable config =
    is_set config.database.url
    && (is_set config.security.jwt_secret
        && not (text_eq config.mail.provider (codes "resend") && not (given config.mail.api_key)))

nothing_missing :
    (env : Environment) (a b c : Bool) (x y z : Text)
    → (refuse env (when (not a) x ++ (when (not b) y ++ when c z)) ≡ started)
      ↔ ((a && (b && not c)) ≡ true)
nothing_missing env true true false x y z = ((λ h. refl), (λ h. refl))
nothing_missing env true true true x y z = ((λ h. cc), (λ h. cc))
nothing_missing env true false c x y z = ((λ h. cc), (λ h. cc))
nothing_missing env false b c x y z = ((λ h. cc), (λ h. cc))

-- The program starts exactly on a configuration that names a database and a secret for tokens and,
-- where emails are sent by Resend, a key for it.
pub assert_usable_configuration_iff :
    (env : Environment) (config : Configuration)
    → (assert_usable_configuration env config ≡ started) ↔ (is_usable config ≡ true)
unfolding assert_usable_configuration missing
assert_usable_configuration_iff env config = search (nothing_missing)
