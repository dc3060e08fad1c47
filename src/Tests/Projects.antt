-- ===== src/Tests/Projects.antt =====
-- A project whose bearer is set and revoked, and whose allowlist is set.
use authstunt.Prelude.{Text, some, [], ◌∷◌}
use authstunt.Store.Monad.{Store}
use authstunt.Store.Projects.{set_project_bearer, revoke_project_bearer, set_allowlist}
use authstunt.Store.Projects.Bearers.{
  Rotated, Revoked, set_project_bearer-Rotated, revoke_project_bearer-Revoked,
}
use authstunt.Store.Projects.Order.{Listed, set_allowlist-Listed}
use authstunt.Tests.Fixtures.{db, store, domain}

abbrev owned : Store
owned = record store {
  db = record db {
    projects =
        record { id = 9; name = b'p' ∷ []; created_at = 5; bearer_hash = some (b'o' ∷ []) } ∷ [];
  };
}

abbrev other_domain : Text
other_domain = b'a' ∷ b'.' ∷ b'b' ∷ []

set_project_bearer-Rotated_example :
    Rotated 9 owned (some (0 ∷ 255 ∷ [])) (set_project_bearer 9 owned)
set_project_bearer-Rotated_example = set_project_bearer-Rotated 9 owned

revoke_project_bearer-Revoked_example : Revoked 9 owned (revoke_project_bearer 9 owned)
revoke_project_bearer-Revoked_example = revoke_project_bearer-Revoked 9 owned

set_allowlist-Listed_example :
    Listed 9 (domain ∷ other_domain ∷ []) owned (set_allowlist 9 (domain ∷ other_domain ∷ []) owned)
set_allowlist-Listed_example = set_allowlist-Listed 9 (domain ∷ other_domain ∷ []) owned
