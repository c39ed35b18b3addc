-- ===== src/Service/Replay/Expiry.antt =====
-- `ReplayCache::clear_older_than_at` of src/service.rs on caches that hold a key once.
use rskrb.Prelude.{
  ℕ, ◌+◌, ◌≤◌, ◌≡◌, refl, ◌∙◌, List, [], ◌∷◌, Option, none, some, arith, leb, if◌then◌else◌, length,
  Bool-cases, inl, inr,
}
use rskrb.Service.Time.{SystemTime, Duration}
use rskrb.Service.Replay.{
  ReplayKey, ReplayCache, key_eq, key_eq_iff, get, hash_insert, hash_insert-get_other, is_recent,
  retain, len, clear_older_than_at,
}

-- A hash map holds a key once.
unfoldable pub IsDistinct : List (ReplayKey × SystemTime) → Type 0
IsDistinct [] = Unit
IsDistinct ((k, t) ∷ rest) = (get rest k ≡ none) × IsDistinct rest

pub hash_insert-IsDistinct :
    (es : List (ReplayKey × SystemTime)) (key : ReplayKey) (t : SystemTime)
    → IsDistinct es
    → IsDistinct (hash_insert es key t).0
unfolding IsDistinct hash_insert get
hash_insert-IsDistinct [] key t h = (refl, tt)
hash_insert-IsDistinct ((k, old) ∷ rest) key t (h, hs) = elim (Bool-cases (key_eq k key)) [
  | inl e ↦ rw e (h, hs)
  | inr e ↦ rw e (
    hash_insert-get_other rest key k t (λ q. cc (e, (key_eq_iff k key).1 q)) ∙ h,
    hash_insert-IsDistinct rest key t hs,
  )
]

-- What is left of an entry.
abbrev filtered : Duration → SystemTime → Option SystemTime → Option SystemTime
filtered max_age now none = none
filtered max_age now (some t) = if is_recent max_age now t then some t else none

retain-none :
    (max_age now : ℕ) (es : List (ReplayKey × SystemTime)) (key : ReplayKey)
    → get es key ≡ none
    → get (retain max_age now es) key ≡ none
unfolding retain get
retain-none max_age now [] key h = refl
retain-none max_age now ((k, t) ∷ rest) key h = ground (arith, retain-none max_age now rest key)

get-retain :
    (max_age now : ℕ) (es : List (ReplayKey × SystemTime)) (key : ReplayKey)
    → IsDistinct es
    → get (retain max_age now es) key ≡ filtered max_age now (get es key)
unfolding IsDistinct retain get
get-retain max_age now [] key h = refl
get-retain max_age now ((k, t) ∷ rest) key (h, hs) = ground (
  arith,
  get-retain max_age now rest key hs,
  retain-none max_age now rest key,
  h,
  key_eq_iff k key,
)

retain-IsDistinct :
    (max_age now : ℕ) (es : List (ReplayKey × SystemTime))
    → IsDistinct es
    → IsDistinct (retain max_age now es)
unfolding IsDistinct retain
retain-IsDistinct max_age now [] h = tt
retain-IsDistinct max_age now ((k, t) ∷ rest) (h, hs) =
    elim (Bool-cases (is_recent max_age now t)) [
      | inl e ↦ rw e (retain-none max_age now rest k h, retain-IsDistinct max_age now rest hs)
      | inr e ↦ rw e (retain-IsDistinct max_age now rest hs)
    ]

length-retain :
    (max_age now : ℕ) (es : List (ReplayKey × SystemTime))
    → length (retain max_age now es) ≤ length es
unfolding retain
length-retain max_age now [] = ground arith
length-retain max_age now ((k, t) ∷ rest) = ground (arith, length-retain max_age now rest)

-- In a cache that holds a key once, `clear_older_than_at` forgets exactly the keys presented more than
-- `max_age` before `now`: the others, those presented after `now` among them, keep their times. The
-- cache still holds a key once, and the result and the new length add up to the old length.
pub clear_older_than_at-get :
    (cache : ReplayCache) (max_age now : ℕ)
    → IsDistinct cache.entries
    → ((key : ReplayKey)
        → get (clear_older_than_at cache max_age now).0.entries key ≡ elim (get cache.entries key) [
          | none ↦ none
          | some t ↦ if leb now (t + max_age) then some t else none
        ])
      × IsDistinct (clear_older_than_at cache max_age now).0.entries
      × ((clear_older_than_at cache max_age now).1 + len (clear_older_than_at cache max_age now).0
          ≡ len cache)
unfolding clear_older_than_at len is_recent
clear_older_than_at-get cache max_age now h = (
  (λ key. ground (arith, get-retain max_age now cache.entries key h)),
  retain-IsDistinct max_age now cache.entries h,
  omega (arith, length-retain max_age now cache.entries),
)
