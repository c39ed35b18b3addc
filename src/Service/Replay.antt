-- ===== src/Service/Replay.antt =====
-- `ReplayCache` and `SharedReplayCache` of src/service.rs. The hash map is a list of its pairs, one
-- for a key. The shared cache is a cell of a heap, so that validators that hold one handle see one
-- cache; a cell is poisoned once a thread has panicked with its lock.
pub mod Expiry
use rskrb.Prelude.{
  ℕ, ◌-◌, ◌≡◌, ◌≢◌, ap, ◌↔◌, Bool, true, false, ◌&&◌, List, [], ◌∷◌, Option, none, some, arith, leb,
  ◌==◌, if◌then◌else◌, length,
}
use rskrb.Prelude.Int.{ℤ, int_eq, int_eq_iff}
use rskrb.Prelude.Text.{text_eq, texts_eq, text_eq_iff, texts_eq_iff}
use rskrb.Result.{Result, ok, err}
use rskrb.Service.{Principal, Error, replay_cache_poisoned}
use rskrb.Service.Time.{SystemTime, Duration, duration_since}

pub record ReplayKey : Type 0 where
  pub service : Principal
  pub client : Principal
  pub ctime_seconds : ℤ
  pub cusec : ℕ

-- The derived equality.
unfoldable pub principal_eq : Principal → Principal → Bool
principal_eq a b =
    text_eq a.realm b.realm
    && (int_eq a.name_type b.name_type && texts_eq a.components b.components)

unfoldable pub key_eq : ReplayKey → ReplayKey → Bool
unfolding principal_eq
key_eq a b =
    principal_eq a.service b.service
    && (principal_eq a.client b.client
        && (int_eq a.ctime_seconds b.ctime_seconds && a.cusec == b.cusec))

pub record ReplayCache : Type 0 where
  pub entries : List (ReplayKey × SystemTime)

unfoldable pub get : List (ReplayKey × SystemTime) → ReplayKey → Option SystemTime
get [] key = none
get ((k, t) ∷ rest) key = if key_eq k key then some t else get rest key

-- `HashMap::insert`, with the value that the key had.
unfoldable pub hash_insert :
    List (ReplayKey × SystemTime)
    → ReplayKey
    → SystemTime
    → List (ReplayKey × SystemTime) × Option SystemTime
hash_insert [] key t = ((key, t) ∷ [], none)
hash_insert ((k, old) ∷ rest) key t =
    let (rest', before) = hash_insert rest key t in
    if key_eq k key then ((k, t) ∷ rest, some old) else ((k, old) ∷ rest', before)

abbrev is_none : Option SystemTime → Bool
is_none none = true
is_none (some _) = false

unfoldable pub insert : ReplayCache → ReplayKey → SystemTime → ReplayCache × Bool
unfolding hash_insert
insert cache key presented_at =
    let (entries, before) = hash_insert cache.entries key presented_at in
    (record { entries = entries }, is_none before)

unfoldable pub clear : ReplayCache → ReplayCache
clear cache = record { entries = [] }

unfoldable pub len : ReplayCache → ℕ
len cache = length cache.entries

-- `now.duration_since(presented_at).map_or(true, |age| age <= max_age)`
unfoldable pub is_recent : Duration → SystemTime → SystemTime → Bool
is_recent max_age now presented_at = elim (duration_since now presented_at) [
  | ok age ↦ leb age max_age
  | _ ↦ true
]

unfoldable pub retain :
    Duration → SystemTime → List (ReplayKey × SystemTime) → List (ReplayKey × SystemTime)
retain max_age now [] = []
retain max_age now ((k, t) ∷ rest) =
    let rest' = retain max_age now rest in if is_recent max_age now t then (k, t) ∷ rest' else rest'

unfoldable pub clear_older_than_at : ReplayCache → Duration → SystemTime → ReplayCache × ℕ
unfolding retain len
clear_older_than_at cache max_age now =
    let after : ReplayCache = record { entries = retain max_age now cache.entries } in
    (after, len cache - len after)

pub record MutexCell : Type 0 where
  pub poisoned : Bool
  pub cache : ReplayCache

-- The cells by their handles.
abbrev pub Heap : Type 0
Heap = ℕ → MutexCell

unfoldable pub store : Heap → ℕ → ReplayCache → Heap
store heap handle cache i =
    if i == handle then record { poisoned = false; cache = cache } else heap i

-- `with_cache_mut`, for a change that returns a value.
unfoldable pub with_cache_mut {ℓ} :
    {F : Type 0} {R : Type ℓ}
    → Heap
    → ℕ
    → (ReplayCache → ReplayCache × R)
    → Heap × Result (Error F) R
unfolding store
with_cache_mut heap handle f =
    let (cache, r) = f (heap handle).cache in
    if (heap handle).poisoned
    then (heap, err replay_cache_poisoned)
    else (store heap handle cache, ok r)

unfoldable pub shared_insert :
    {F : Type 0} → Heap → ℕ → ReplayKey → SystemTime → Heap × Result (Error F) Bool
unfolding with_cache_mut
shared_insert heap handle key presented_at =
    with_cache_mut heap handle λ cache. insert cache key presented_at

pub principal_eq_iff_same : (a b : Principal) → (principal_eq a b ≡ true) ↔ (a ≡ b)
unfolding principal_eq
principal_eq_iff_same a b = ground (
  arith,
  text_eq_iff a.realm b.realm,
  int_eq_iff a.name_type b.name_type,
  texts_eq_iff a.components b.components,
)

pub key_eq_iff : (a b : ReplayKey) → (key_eq a b ≡ true) ↔ (a ≡ b)
unfolding key_eq
key_eq_iff a b = ground (
  arith,
  principal_eq_iff_same a.service b.service,
  principal_eq_iff_same a.client b.client,
  int_eq_iff a.ctime_seconds b.ctime_seconds,
)

pub hash_insert-get :
    (es : List (ReplayKey × SystemTime)) (key : ReplayKey) (t : SystemTime)
    → ((hash_insert es key t).1 ≡ get es key) × (get (hash_insert es key t).0 key ≡ some t)
unfolding hash_insert get
hash_insert-get [] key t = ground (arith, key_eq_iff key key)
hash_insert-get ((k, old) ∷ rest) key t =
    ground (arith, hash_insert-get rest key t, key_eq_iff k key)

pub hash_insert-get_other :
    (es : List (ReplayKey × SystemTime)) (key other : ReplayKey) (t : SystemTime)
    → other ≢ key
    → get (hash_insert es key t).0 other ≡ get es other
unfolding hash_insert get
hash_insert-get_other [] key other t h = ground (arith, key_eq_iff key other)
hash_insert-get_other ((k, old) ∷ rest) key other t h =
    ground (arith, hash_insert-get_other rest key other t h, key_eq_iff k key, key_eq_iff k other)

-- The key with another name type of its service.
abbrev pub with_name_type : ReplayKey → ℤ → ReplayKey
with_name_type key name_type = record key { service = record key.service { name_type = name_type } }

-- `insert` reports that the key is new exactly where the cache did not hold it, the key then has the
-- time it was presented at, whatever it had, and every other key has what it had. A key that differs in
-- the name type of the service only is another key.
pub insert-get :
    (cache : ReplayCache) (key : ReplayKey) (t : SystemTime)
    → (((insert cache key t).1 ≡ true) ↔ (get cache.entries key ≡ none))
      × (get (insert cache key t).0.entries key ≡ some t)
      × ((other : ReplayKey)
          → other ≢ key
          → get (insert cache key t).0.entries other ≡ get cache.entries other)
      × ((name_type : ℤ)
          → name_type ≢ key.service.name_type
          → get (insert cache key t).0.entries (with_name_type key name_type)
            ≡ get cache.entries (with_name_type key name_type))
unfolding insert
insert-get cache key t = (
  ground (arith, hash_insert-get cache.entries key t),
  (hash_insert-get cache.entries key t).1,
  (λ other h. hash_insert-get_other cache.entries key other t h),
  (λ name_type h.
      hash_insert-get_other cache.entries key (with_name_type key name_type) t
        (λ e. h (ap (λ k. k.service.name_type) e))),
)
