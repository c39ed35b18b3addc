-- ===== src/Keytab/Lookup.antt =====
-- `Keytab::find_key` of src/keytab.rs.
use rskrb.Prelude.{
  ℕ, ◌≤◌, ◌<◌, ◌≡◌, ◌↔◌, refl, Bool, true, ◌&&◌, ◌||◌, ◌⊎◌, inl, inr, List, [], ◌∷◌, ◌++◌,
  append_assoc, Option, none, some, arith, leb, ◌==◌, if◌then◌else◌, Bool-cases, All, All-append,
  All-map, append-nil,
}
use rskrb.Prelude.Int.{ℤ, int_eq, int_eq_iff}
use rskrb.Prelude.Text.{text_eq, text_eq_iff, same_components, same_components_iff, join}
use rskrb.Result.{Result, ok, err}
use rskrb.Wire.{Bytes}
use rskrb.Keytab.{Error, no_matching_key, EncryptionKey, Entry, Keytab}
use rskrb.Keytab.Names.{slash}

-- What is asked for; a `kvno` of 0 stands for any.
pub record Query : Type 0 where
  pub components : List Bytes
  pub realm : Bytes
  pub kvno : ℕ
  pub etype : ℤ

-- The test of the loop.
unfoldable pub is_match : Query → Entry → Bool
is_match q entry =
    text_eq entry.principal.realm q.realm
    && (same_components entry.principal.components q.components
        && (int_eq entry.key.etype q.etype && (q.kvno == 0 || entry.kvno == q.kvno)))

-- `match selected { Some(current) if current.timestamp >= entry.timestamp => {} _ => .. }`
unfoldable pub newer : Option Entry → Entry → Option Entry
newer none entry = some entry
newer (some current) entry =
    if leb entry.timestamp current.timestamp then some current else some entry

unfoldable pub select : Query → Option Entry → List Entry → Option Entry
unfolding is_match newer
select q selected [] = selected
select q selected (entry ∷ entries) =
    select q (if is_match q entry then newer selected entry else selected) entries

abbrev found : Query → Option Entry → Result Error (EncryptionKey × ℕ)
found q none = err (no_matching_key (join slash q.components) q.realm q.kvno q.etype)
found q (some entry) = ok (entry.key, entry.kvno)

unfoldable pub find_key : Keytab → Query → Result Error (EncryptionKey × ℕ)
unfolding select
find_key k q = found q (select q none k.entries)

-- What a match means.
pub record Matches (q : Query) (entry : Entry) : Type 0 where
  pub same_realm : entry.principal.realm ≡ q.realm
  pub same_names : entry.principal.components ≡ q.components
  pub same_etype : entry.key.etype ≡ q.etype
  pub same_kvno : (q.kvno ≡ 0) ⊎ (entry.kvno ≡ q.kvno)

pub is_match_iff : (q : Query) (entry : Entry) → (is_match q entry ≡ true) ↔ Matches q entry
unfolding is_match
is_match_iff q entry = ground (
  arith,
  text_eq_iff entry.principal.realm q.realm,
  same_components_iff entry.principal.components q.components,
  int_eq_iff entry.key.etype q.etype,
)

-- `entry` is the newest match of the list, and the first one among the newest.
pub record IsSelected (q : Query) (entries : List Entry) (entry : Entry) : Type 0 where
  pub front : List Entry
  pub back : List Entry
  pub place : entries ≡ front ++ entry ∷ back
  pub fits : Matches q entry
  pub front_older : All (λ x. Matches q x → x.timestamp < entry.timestamp) front
  pub back_not_newer : All (λ x. Matches q x → x.timestamp ≤ entry.timestamp) back

abbrev pub IsBest : Query → List Entry → Option Entry → Type 0
IsBest q entries none = All (λ x. ¬ Matches q x) entries
IsBest q entries (some entry) = IsSelected q entries entry

-- The state of the loop after one more entry.
abbrev advance : Query → Option Entry → Entry → Option Entry
advance q selected entry = if is_match q entry then newer selected entry else selected

keep :
    (q : Query) (seen : List Entry) (current entry : Entry)
    → (Matches q entry → entry.timestamp ≤ current.timestamp)
    → IsSelected q seen current
    → IsSelected q (seen ++ (entry ∷ [])) current
keep q seen current entry older s = record {
  front = s.front;
  back = s.back ++ (entry ∷ []);
  place = rw s.place (append_assoc s.front (current ∷ s.back) (entry ∷ []));
  fits = s.fits;
  front_older = s.front_older;
  back_not_newer = All-append _ s.back (entry ∷ []) s.back_not_newer (older, tt);
}

replace :
    (q : Query) (seen : List Entry) (current entry : Entry)
    → current.timestamp < entry.timestamp
    → Matches q entry
    → IsSelected q seen current
    → IsSelected q (seen ++ (entry ∷ [])) entry
replace q seen current entry older m s = record {
  front = seen;
  back = [];
  place = refl;
  fits = m;
  front_older = rw s.place (
      All-append _ s.front (current ∷ s.back)
        (All-map _ _ s.front (λ x f n. omega (arith, f n)) s.front_older)
        ((λ _. older), All-map _ _ s.back (λ x f n. omega (arith, f n)) s.back_not_newer));
  back_not_newer = tt;
}

advance-IsBest :
    (q : Query) (seen : List Entry) (selected : Option Entry) (entry : Entry)
    → IsBest q seen selected
    → IsBest q (seen ++ (entry ∷ [])) (advance q selected entry)
unfolding newer
advance-IsBest q seen none entry h = elim (Bool-cases (is_match q entry)) [
  | inl e ↦ rw e (record {
    front = seen;
    back = [];
    place = refl;
    fits = (is_match_iff q entry).0 e;
    front_older = All-map _ _ seen (λ x f n. absurd (f n)) h;
    back_not_newer = tt;
  })
  | inr e ↦ rw e (All-append _ seen (entry ∷ []) h ((λ m. cc (e, (is_match_iff q entry).1 m)), tt))
]
advance-IsBest q seen (some current) entry h = elim (Bool-cases (is_match q entry)) [
  | inl e ↦ rw e (elim (Bool-cases (leb entry.timestamp current.timestamp)) [
    | inl le ↦ rw le (keep q seen current entry (λ _. ground arith) h)
    | inr gt ↦ rw gt (replace q seen current entry (ground arith) ((is_match_iff q entry).0 e) h)
  ])
  | inr e ↦ rw e (keep q seen current entry (λ m. cc (e, (is_match_iff q entry).1 m)) h)
]

select-IsBest :
    (q : Query) (seen : List Entry) (selected : Option Entry) (entries : List Entry)
    → IsBest q seen selected
    → IsBest q (seen ++ entries) (select q selected entries)
unfolding select
select-IsBest q seen selected [] h = rw append-nil h
select-IsBest q seen selected (entry ∷ entries) h = rw (append_assoc seen (entry ∷ []) entries) at (
    select-IsBest q (seen ++ (entry ∷ [])) (advance q selected entry) entries
      (advance-IsBest q seen selected entry h))

-- `find_key` returns the key and the version number of the newest entry that matches realm, name
-- components, encryption type and version number (0 asks for any), the first one among the newest;
-- and it reports `NoMatchingKey`, with what was asked for, exactly where no entry matches.
pub find_key-newest :
    (k : Keytab) (q : Query)
    → ((entry : Entry) × IsSelected q k.entries entry × (find_key k q ≡ ok (entry.key, entry.kvno)))
      ⊎ (All (λ x. ¬ Matches q x) k.entries
          × (find_key k q ≡ err (no_matching_key (join slash q.components) q.realm q.kvno q.etype)))
unfolding find_key
find_key-newest k q = by_result (select q none k.entries) (select-IsBest q [] none k.entries tt)
  where
    by_result :
        (r : Option Entry)
        → IsBest q k.entries r
        → ((entry : Entry) × IsSelected q k.entries entry
            × (found q r ≡ ok (entry.key, entry.kvno)))
          ⊎ (All (λ x. ¬ Matches q x) k.entries
              × (found q r
                  ≡ err (no_matching_key (join slash q.components) q.realm q.kvno q.etype)))
    by_result none h = inr (h, refl)
    by_result (some entry) h = inl (entry, h, refl)
