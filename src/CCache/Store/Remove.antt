-- ===== src/CCache/Store/Remove.antt =====
-- `CCache::remove_entries_for_client` of src/ccache.rs against a filter.
use rskrb.Prelude.{Bool, not}
use rskrb.CCache.{Principal, Credential, CCache}
use rskrb.CCache.Store.{is_entry_of}

abbrev pub keeps : Principal → Credential → Bool
keeps client c = not (is_entry_of client c)
