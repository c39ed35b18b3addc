-- ===== src/Tests/KeytabFile.antt =====
-- Keytabs, their names and their bytes.
use rskrb.Prelude.{
  ℕ, zero, suc, ◌^◌, ◌<◌, ◌≡◌, ◌≢◌, refl, Bool, true, false, List, [], ◌∷◌, Option, none, some,
  arith, inl, inr, length, All, Any, ◌⊎◌,
}
use rskrb.Prelude.Int.{ℤ, pos, negsuc}
use rskrb.Prelude.Text.{codes, join}
use rskrb.Result.{ok, err, stuck, bind}
use rskrb.Utf8.{is_utf8}
use rskrb.Wire.{Bytes, little, big}
use rskrb.Wire.Range.{IsByte}
use rskrb.Wire.Numbers.{FitsI16}
use rskrb.Keytab.{
  Principal, Entry, EncryptionKey, Keytab, length_overflow, no_matching_key, parse,
  endian_for_version,
}
use rskrb.Keytab.Writer.{to_bytes}
use rskrb.Keytab.Format.{
  keytab_bytes, entry_bytes, body_bytes, principal_bytes, IsPrincipal, IsEntry, IsKeytab,
}
use rskrb.Keytab.Blocks.{Block, block_bytes, live, deleted, closed, file_bytes}
use rskrb.Keytab.RoundTrip.{
  parse-to_bytes, parse-to_bytes_wrapped, parse-file_bytes, parse-to_bytes-parse,
}
use rskrb.Keytab.Range.{parse-ne-stuck, parse-IsEntry}
use rskrb.Keytab.Writing.{to_bytes_negative}
use rskrb.Keytab.Lookup.{Query, find_key, Matches, IsSelected, find_key-newest}
use rskrb.Keytab.Names.{
  from_name, name_string, IsComponent, name_string-from_name, from_name-name_string,
}
use rskrb.Tests.{all_below_256-IsByte}

abbrev http : Principal
http = record { realm = codes "R"; components = codes "HTTP" ∷ codes "h" ∷ []; name_type = pos 1 }

abbrev entry_of : ℤ → ℕ → Entry
entry_of etype timestamp = record {
  principal = http;
  timestamp = timestamp;
  kvno8 = 2;
  key = record { etype = etype; value = 1 ∷ 2 ∷ 3 ∷ [] };
  kvno = 2;
}

abbrev keytab_of : List Entry → Keytab
keytab_of entries = record { version = 2; entries = entries }

abbrev aes256 : Entry
aes256 = entry_of (pos 18) 7

abbrev old_aes256 : Entry
old_aes256 = entry_of (pos 18) 3

http-IsPrincipal : IsPrincipal 2 http
unfolding is_utf8
http-IsPrincipal = record {
  realm_text = (refl, omega arith);
  components_text = ((refl, omega arith), ((refl, omega arith), tt));
  count_fits = omega arith;
  name_type_fits = omega arith;
  name_type_absent = λ e. absurd (omega (arith, e));
}

entry_of-IsEntry :
    (etype : ℤ) (timestamp : ℕ)
    → FitsI16 etype
    → timestamp < 2 ^ 32
    → IsEntry 2 (entry_of etype timestamp)
entry_of-IsEntry etype timestamp he ht = record {
  principal_valid = http-IsPrincipal;
  timestamp_fits = ht;
  kvno8_fits = omega arith;
  etype_fits = he;
  key_fits = omega arith;
  kvno_fits = omega arith;
  kvno_zero = λ e. omega (arith, e);
}

aes256-IsEntry : IsEntry 2 aes256
aes256-IsEntry = entry_of-IsEntry (pos 18) 7 (omega arith) (omega arith)

two_entries-IsKeytab : IsKeytab true (keytab_of (aes256 ∷ old_aes256 ∷ []))
unfolding keytab_bytes entry_bytes body_bytes principal_bytes endian_for_version
two_entries-IsKeytab = record {
  version_known = inr refl;
  entries_valid = (aes256-IsEntry, (entry_of-IsEntry (pos 18) 3 (omega arith) (omega arith), tt));
  file_fits = omega arith;
}

parse-to_bytes_example :
    bind (to_bytes true (keytab_of (aes256 ∷ old_aes256 ∷ []))) (parse true)
    ≡ ok (keytab_of (aes256 ∷ old_aes256 ∷ []))
parse-to_bytes_example =
    parse-to_bytes true (keytab_of (aes256 ∷ old_aes256 ∷ [])) two_entries-IsKeytab
      ((18, refl), ((18, refl), tt))

-- Written as 32769 and read as -32767.
parse-to_bytes_wrapped_example :
    bind (to_bytes false (keytab_of (entry_of (pos 32769) 7 ∷ []))) (parse false)
    ≡ ok (keytab_of (entry_of (negsuc 32766) 7 ∷ []))
unfolding keytab_bytes entry_bytes body_bytes principal_bytes endian_for_version
parse-to_bytes_wrapped_example =
    parse-to_bytes_wrapped false (keytab_of (entry_of (pos 32769) 7 ∷ []))
      ((32769, refl, omega arith), tt)
      (record {
        version_known = inr refl;
        entries_valid = (entry_of-IsEntry (negsuc 32766) 7 (omega arith) (omega arith), tt);
        file_fits = omega arith;
      })

abbrev blocks : List Block
blocks = deleted 2 (9 ∷ 9 ∷ 9 ∷ []) ∷ live aes256 ∷ []

parse-file_bytes_example :
    parse false (file_bytes false 2 blocks (closed (1 ∷ []))) ≡ ok (keytab_of (aes256 ∷ []))
unfolding entry_bytes body_bytes principal_bytes endian_for_version block_bytes
parse-file_bytes_example =
    parse-file_bytes false 2 blocks (closed (1 ∷ [])) (inr refl)
      ((omega arith, omega arith), (aes256-IsEntry, tt)) tt (omega arith)

-- A file with one entry, written out.
abbrev one_entry_file : Bytes
one_entry_file =
    5 ∷ 2 ∷ 0 ∷ 0 ∷ 0 ∷ 33 ∷ 0 ∷ 2 ∷ 0 ∷ 1 ∷ 82 ∷ 0 ∷ 4 ∷ 72 ∷ 84 ∷ 84 ∷ 80 ∷ 0 ∷ 1 ∷ 104 ∷ 0 ∷ 0
    ∷ 0 ∷ 1 ∷ 0 ∷ 0 ∷ 0 ∷ 7 ∷ 2 ∷ 0 ∷ 18 ∷ 0 ∷ 3 ∷ 1 ∷ 2 ∷ 3 ∷ 0 ∷ 0 ∷ 0 ∷ 2 ∷ []

one_entry_file-IsByte : All IsByte one_entry_file
one_entry_file-IsByte = all_below_256-IsByte one_entry_file refl

parse-one_entry_file : parse false one_entry_file ≡ ok (keytab_of (aes256 ∷ []))
unfolding parse rskrb.Keytab.parse_entries rskrb.Wire.read_i32 rskrb.Wire.◌>>=◌
    rskrb.Wire.read_bytes endian_for_version rskrb.Keytab.parse_entry rskrb.Keytab.parse_principal
    rskrb.Wire.read_i16 rskrb.Keytab.read_counted_string is_utf8 rskrb.Wire.read_many
    rskrb.Wire.read_u32 rskrb.Wire.read_u8 rskrb.Keytab.read_kvno
parse-one_entry_file = refl

parse-ne-stuck_example : parse false one_entry_file ≢ stuck
parse-ne-stuck_example = parse-ne-stuck false one_entry_file one_entry_file-IsByte

parse-IsEntry_example :
    (((keytab_of (aes256 ∷ [])).version ≡ 1) ⊎ ((keytab_of (aes256 ∷ [])).version ≡ 2))
    × All (IsEntry 2) (aes256 ∷ [])
parse-IsEntry_example =
    parse-IsEntry false one_entry_file one_entry_file-IsByte parse-one_entry_file

parse-to_bytes-parse_example :
    bind (to_bytes false (keytab_of (aes256 ∷ []))) (parse false) ≡ ok (keytab_of (aes256 ∷ []))
unfolding keytab_bytes entry_bytes body_bytes principal_bytes endian_for_version
parse-to_bytes-parse_example =
    parse-to_bytes-parse false one_entry_file (keytab_of (aes256 ∷ [])) one_entry_file-IsByte
      parse-one_entry_file ((18, refl), tt) (omega arith)

to_bytes_negative_example :
    to_bytes true (keytab_of (entry_of (negsuc 132) 7 ∷ [])) ≡ err length_overflow
to_bytes_negative_example =
    to_bytes_negative true (keytab_of (entry_of (negsuc 132) 7 ∷ []))
      (entry_of-IsEntry (negsuc 132) 7 (omega arith) (omega arith), tt) (inl (132, refl))

abbrev any_kvno : Query
any_kvno = record {
  components = codes "HTTP" ∷ codes "h" ∷ [];
  realm = codes "R";
  kvno = 0;
  etype = pos 18;
}

find_key-newest_example :
    ((entry : Entry) × IsSelected any_kvno (old_aes256 ∷ aes256 ∷ []) entry
      × (find_key (keytab_of (old_aes256 ∷ aes256 ∷ [])) any_kvno ≡ ok (entry.key, entry.kvno)))
    ⊎ (All (λ x. ¬ Matches any_kvno x) (old_aes256 ∷ aes256 ∷ [])
        × (find_key (keytab_of (old_aes256 ∷ aes256 ∷ [])) any_kvno
            ≡ err (no_matching_key (codes "HTTP/h") (codes "R") 0 (pos 18))))
unfolding join
find_key-newest_example = find_key-newest (keytab_of (old_aes256 ∷ aes256 ∷ [])) any_kvno

find_key_newest : find_key (keytab_of (old_aes256 ∷ aes256 ∷ [])) any_kvno ≡ ok (aes256.key, 2)
unfolding find_key rskrb.Prelude.Text.text_eq rskrb.Prelude.Text.same_components
find_key_newest = refl

from_name-http : from_name (codes "R") (pos 1) (codes "HTTP/h") ≡ ok http
unfolding from_name rskrb.Prelude.Text.split
from_name-http = refl

name_string-from_name_example :
    (name_string http ≡ codes "HTTP/h")
    × All IsComponent http.components
    × (codes "R" ≡ codes "R")
    × (pos 1 ≡ pos 1)
name_string-from_name_example =
    name_string-from_name (codes "R") (pos 1) (codes "HTTP/h") {p = http} from_name-http

cons-nonempty : {A : Type 0} {a : A} {s : List A} → a ∷ s ≢ []
cons-nonempty e = cc

name-IsComponent : All IsComponent (codes "HTTP" ∷ codes "h" ∷ [])
name-IsComponent = (
  (cons-nonempty, (omega arith, (omega arith, (omega arith, (omega arith, tt))))),
  ((cons-nonempty, (omega arith, tt)), tt),
)

from_name-name_string_example : from_name (codes "R") (pos 1) (name_string http) ≡ ok http
from_name-name_string_example =
    from_name-name_string (codes "R") (pos 1) (codes "HTTP") (codes "h" ∷ []) name-IsComponent
