-- ===== src/CCache/Store.antt =====
-- The operations of src/ccache.rs on the credentials of a cache: insertion, removal, lookup and the
-- configuration entries, which are credentials for a server of the realm `X-CACHECONF:`.
pub mod Upsert
pub mod Remove
use rskrb.Prelude.{
  ℕ, zero, suc, ◌+◌, ◌-◌, ◌<◌, Bool, true, false, not, ◌&&◌, ◌||◌, List, [], ◌∷◌, ◌++◌, Option,
  none, some, ltb, leb, ◌==◌, if◌then◌else◌, length, get_elem?,
}
use rskrb.Prelude.Int.{ℤ, pos, int_eq}
use rskrb.Prelude.Text.{text_eq, texts_eq, same_components, option_text_eq, codes}
use rskrb.Wire.{Bytes}
use rskrb.CCache.{Principal, Credential, CCache}

abbrev pub x_cacheconf_realm : Bytes
x_cacheconf_realm = codes "X-CACHECONF:"

abbrev pub x_cacheconf_component : Bytes
x_cacheconf_component = codes "krb5_ccache_conf_data"

-- The derived `==` of `Principal`.
unfoldable pub principal_eq : Principal → Principal → Bool
unfolding text_eq texts_eq
principal_eq a b =
    text_eq a.realm b.realm
    && (int_eq a.name_type b.name_type && texts_eq a.components b.components)

unfoldable pub same_principal_identity : Principal → Principal → Bool
unfolding text_eq texts_eq
same_principal_identity left right =
    text_eq left.realm right.realm && texts_eq left.components right.components

-- The credential that `iter_mut().find(..)` looks for.
unfoldable pub same_pair : Credential → Credential → Bool
unfolding principal_eq
same_pair existing credential =
    principal_eq existing.client credential.client && principal_eq existing.server credential.server

unfoldable pub upsert : Credential → List Credential → List Credential × Option Credential
unfolding same_pair
upsert credential [] = (credential ∷ [], none)
upsert credential (existing ∷ rest) =
    let (rest', old) = upsert credential rest in
    if same_pair existing credential
    then (credential ∷ rest, some existing)
    else (existing ∷ rest', old)

unfoldable pub upsert_credential : CCache → Credential → CCache × Option Credential
unfolding upsert
upsert_credential cache credential =
    let (credentials, old) = upsert credential cache.credentials in
    (record cache { credentials = credentials }, old)

pub record ConfigEntry : Type 0 where
  pub key : Bytes
  pub principal : Option Bytes
  pub value : Bytes

-- The components of a configuration entry: the fixed one, the key and perhaps a principal.
unfoldable pub parse_config_components : List Bytes → Bytes → Option ConfigEntry
unfolding text_eq
parse_config_components (first ∷ key ∷ []) value =
    if text_eq first x_cacheconf_component
    then some (record { key = key; principal = none; value = value })
    else none
parse_config_components (first ∷ key ∷ principal ∷ []) value =
    if text_eq first x_cacheconf_component
    then some (record { key = key; principal = some principal; value = value })
    else none
parse_config_components _ value = none

unfoldable pub parse_config_entry : Credential → Option ConfigEntry
unfolding text_eq parse_config_components
parse_config_entry c =
    if not (text_eq c.server.realm x_cacheconf_realm)
    then none
    else parse_config_components c.server.components c.ticket

unfoldable pub is_config_credential : Credential → Bool
unfolding parse_config_entry
is_config_credential c = elim (parse_config_entry c) [ none ↦ false | some _ ↦ true ]

abbrev config_components : Bytes → Option Bytes → List Bytes
config_components key none = x_cacheconf_component ∷ key ∷ []
config_components key (some principal) = x_cacheconf_component ∷ key ∷ principal ∷ []

-- `Credential::config_entry`
unfoldable pub config_entry : Principal → Bytes → Option Bytes → Bytes → Credential
config_entry client key principal value = record {
  client = client;
  server = record {
    realm = x_cacheconf_realm;
    name_type = pos 0;
    components = config_components key principal;
  };
  key = record { etype = pos 0; value = [] };
  times = record { auth_time = 0; start_time = 0; end_time = 0; renew_till = 0 };
  is_skey = false;
  ticket_flags = 0 ∷ 0 ∷ 0 ∷ 0 ∷ [];
  addresses = [];
  auth_data = [];
  ticket = value;
  second_ticket = [];
}

unfoldable pub upsert_config_entry :
    CCache → Bytes → Option Bytes → Bytes → CCache × Option Credential
unfolding config_entry upsert_credential
upsert_config_entry cache key principal value =
    upsert_credential cache (config_entry cache.default_principal key principal value)

-- `Vec::remove(index)`, without the element.
unfoldable pub remove_at : {A : Type 0} → ℕ → List A → List A
remove_at index [] = []
remove_at zero (x ∷ xs) = xs
remove_at (suc index) (x ∷ xs) = x ∷ remove_at index xs

unfoldable pub is_entry_of : Principal → Credential → Bool
unfolding same_principal_identity is_config_credential
is_entry_of client c = same_principal_identity c.client client && not (is_config_credential c)

-- The `while index < self.credentials.len()` loop, with what is left and what was removed. A round
-- removes a credential or steps over one, so their number is fuel enough.
unfoldable pub remove_loop :
    ℕ → Principal → ℕ → List Credential → List Credential → List Credential × List Credential
remove_loop zero client index credentials removed = (credentials, removed)
remove_loop (suc fuel) client index credentials removed = elim (get_elem? credentials index) [
  | none ↦ (credentials, removed)
  | some c ↦ elim (is_entry_of client c) [
    | true ↦ remove_loop fuel client index (remove_at index credentials) (removed ++ (c ∷ []))
    | false ↦ remove_loop fuel client (index + 1) credentials removed
  ]
]

unfoldable pub remove_entries_for_client : CCache → Principal → CCache × List Credential
remove_entries_for_client cache client =
    let (credentials, removed) =
      remove_loop (length cache.credentials) client 0 cache.credentials [] in
    (record cache { credentials = credentials }, removed)

-- `iter().filter(..)`
unfoldable pub filter : (Credential → Bool) → List Credential → List Credential
filter p [] = []
filter p (c ∷ cs) = let rest = filter p cs in if p c then c ∷ rest else rest

unfoldable pub entries : CCache → List Credential
unfolding is_config_credential filter
entries cache = filter (λ c. not (is_config_credential c)) cache.credentials

unfoldable pub config_entries_of : List Credential → List ConfigEntry
unfolding parse_config_entry
config_entries_of [] = []
config_entries_of (c ∷ cs) = elim (parse_config_entry c) [
  | none ↦ config_entries_of cs
  | some entry ↦ entry ∷ config_entries_of cs
]

unfoldable pub config_entries : CCache → List ConfigEntry
unfolding config_entries_of
config_entries cache = config_entries_of cache.credentials

unfoldable pub find_value : Bytes → Option Bytes → List ConfigEntry → Option Bytes
unfolding text_eq option_text_eq
find_value key principal [] = none
find_value key principal (entry ∷ rest) =
    if text_eq entry.key key && option_text_eq entry.principal principal
    then some entry.value
    else find_value key principal rest

unfoldable pub config_entry_value : CCache → Bytes → Option Bytes → Option Bytes
unfolding find_value config_entries
config_entry_value cache key principal = find_value key principal (config_entries cache)

-- `iter().find(|c| c.server.matches_components(components))`
unfoldable pub find_server : List Bytes → List Credential → Option Credential
unfolding same_components
find_server components [] = none
find_server components (c ∷ cs) =
    if same_components c.server.components components then some c else find_server components cs

unfoldable pub get_entry : CCache → List Bytes → Option Credential
unfolding find_server
get_entry cache components = find_server components cache.credentials

unfoldable pub contains_server : CCache → List Bytes → Bool
unfolding get_entry
contains_server cache components = elim (get_entry cache components) [
  | none ↦ false
  | some _ ↦ true
]
