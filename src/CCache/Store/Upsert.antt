-- ===== src/CCache/Store/Upsert.antt =====
-- `CCache::upsert_credential` of src/ccache.rs against lookup by client and server.
use rskrb.Prelude.{
  ◌≡◌, ◌≢◌, ◌⊎◌, ◌↔◌, refl, true, ◌&&◌, List, [], ◌∷◌, Option, none, some, arith, if◌then◌else◌,
}
use rskrb.Prelude.Int.{int_eq_iff}
use rskrb.Prelude.Text.{text_eq_iff, texts_eq_iff}
use rskrb.CCache.{Principal, Credential, CCache}
use rskrb.CCache.Store.{principal_eq, same_pair, upsert, upsert_credential}

-- The derived `==` is equality.
pub principal_eq_iff : (a b : Principal) → (principal_eq a b ≡ true) ↔ (a ≡ b)
unfolding principal_eq
principal_eq_iff a b = ground (
  arith,
  text_eq_iff a.realm b.realm,
  int_eq_iff a.name_type b.name_type,
  texts_eq_iff a.components b.components,
)

-- The first credential of the list with that client and that server.
unfoldable pub find_pair : Principal → Principal → List Credential → Option Credential
find_pair client server [] = none
find_pair client server (c ∷ cs) =
    if principal_eq c.client client && principal_eq c.server server
    then some c
    else find_pair client server cs

-- The credential returned is the one found before.
upsert-old :
    (new : Credential) (cs : List Credential)
    → (upsert new cs).1 ≡ find_pair new.client new.server cs
unfolding upsert find_pair same_pair
upsert-old new [] = refl
upsert-old new (c ∷ cs) = ground (arith, upsert-old new cs)

upsert-find_pair :
    (new : Credential) (cs : List Credential)
    → find_pair new.client new.server (upsert new cs).0 ≡ some new
unfolding upsert find_pair same_pair
upsert-find_pair new [] =
    ground (arith, principal_eq_iff new.client new.client, principal_eq_iff new.server new.server)
upsert-find_pair new (c ∷ cs) = ground (
  arith,
  upsert-find_pair new cs,
  principal_eq_iff new.client new.client,
  principal_eq_iff new.server new.server,
)

upsert-find_pair_other :
    (new : Credential) (client server : Principal) (cs : List Credential)
    → (client ≢ new.client) ⊎ (server ≢ new.server)
    → find_pair client server (upsert new cs).0 ≡ find_pair client server cs
unfolding upsert find_pair same_pair
upsert-find_pair_other new client server [] h =
    ground (arith, principal_eq_iff new.client client, principal_eq_iff new.server server)
upsert-find_pair_other new client server (c ∷ cs) h = ground (
  arith,
  upsert-find_pair_other new client server cs h,
  principal_eq_iff new.client client,
  principal_eq_iff new.server server,
  principal_eq_iff c.client client,
  principal_eq_iff c.server server,
  principal_eq_iff c.client new.client,
  principal_eq_iff c.server new.server,
)

-- `upsert_credential` stores the credential for its client and server and returns the one that was
-- stored for them, if there was one; what is stored for any other client or server stays, and so
-- does every field of the cache but the credentials.
pub upsert_credential-find_pair :
    (cache : CCache) (new : Credential)
    → (find_pair new.client new.server (upsert_credential cache new).0.credentials ≡ some new)
      × ((upsert_credential cache new).1 ≡ find_pair new.client new.server cache.credentials)
      × ((client server : Principal)
          → (client ≢ new.client) ⊎ (server ≢ new.server)
          → find_pair client server (upsert_credential cache new).0.credentials
            ≡ find_pair client server cache.credentials)
      × ((upsert_credential cache new).0
          ≡ record cache { credentials = (upsert_credential cache new).0.credentials })
unfolding upsert_credential
upsert_credential-find_pair cache new = (
  upsert-find_pair new cache.credentials,
  upsert-old new cache.credentials,
  (λ client server h. upsert-find_pair_other new client server cache.credentials h),
  refl,
)
