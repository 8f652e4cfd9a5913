-- ===== src/Access.antt =====
-- The actor of a request and its scope: `ActorContext` of contracts/identity/models.py, as far as
-- the modelled services read it, and backend/app/infrastructure/auth/scope.py.
use hotelops_ai.Prelude.{ℕ, Bool, true, not, List, [], ◌∷◌, Result, reject}
use hotelops_ai.Prelude.Sets.{member}

pub record Actor : Type 0 where
  pub actor_id : ℕ
  pub tenant_id : ℕ
  pub venue_scope : List ℕ

-- An empty scope stands for every venue of the tenant.
abbrev pub has_venue_access : Actor → ℕ → Bool
has_venue_access actor venue = in_scope actor.venue_scope
  where
    in_scope : List ℕ → Bool
    in_scope [] = true
    in_scope (v ∷ scope) = member (v ∷ scope) venue

-- The error that it raises is an argument.
unfoldable pub require_venue_access {ℓ} : {E : Type ℓ} → E → Actor → ℕ → Result E (Unit {0})
require_venue_access raised actor venue = reject (not (has_venue_access actor venue)) raised
