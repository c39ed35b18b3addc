-- ===== src/CCache/Parsing.antt =====
-- The readers of src/ccache.rs read back what the format lays out.
use mathlib.Core.Path.{subst}
use rskrb.Prelude.{
  append-nil, All-map, ℕ, ◌^◌, ◌<◌, ◌≡◌, refl, Bool, true, false, not, inl, inr, List, arith, ◌==◌,
  ==_iff, Bool-cases, if◌then◌else◌, length, All,
}
use rskrb.Prelude.Int.{ℤ, pos}
use rskrb.Result.{ok}
use rskrb.Wire.{Bytes, Endian, Reader, pure, read_bytes, read_many, read_i32, to_bytes32}
use rskrb.Wire.Numbers.{FitsI16, FitsI32}
use rskrb.Wire.Reads.{
  Reads, Reads-bind, Reads-map, Reads-pure, Reads-lift, Reads-many, Reads-bytes, Reads-u8,
  Reads-u16, Reads-i16, Reads-u32, Reads-i32, Reads-cast, concat_map,
}
use rskrb.CCache.{
  Error, wire_error, HeaderField, Principal, CredentialTimes, HostAddress, AuthorizationDataEntry,
  Credential, validate,
}
use rskrb.CCache.Parser.{
  read_count, read_data, read_counted_string, component_count, parse_principal, parse_field,
  parse_address, parse_auth_data, read_etype, read_times, read_counted, parse_credential,
}
use rskrb.CCache.Writer.{from_bool}
use rskrb.CCache.Format.{
  data_bytes, counted_bytes, count_of, name_type_bytes, principal_bytes, field_bytes, address_bytes,
  auth_data_bytes, etype_bytes, times_bytes, credential_bytes, IsData, IsText, IsPrincipal, IsField,
  IsAddress, IsAuthData, IsTimes, IsCredential,
}

Reads-count : (e : Endian) (n : ℕ) → n < 2 ^ 31 → Reads (read_count e) (to_bytes32 e n) n
unfolding read_count
Reads-count e n h =
    Reads-cast (append-nil _) (Reads-bind _ (Reads-i32 e (pos n) h) (Reads-lift refl))

Reads-data : (e : Endian) (s : Bytes) → IsData s → Reads (read_data e) (data_bytes e s) s
unfolding read_data
Reads-data e s h = Reads-bind _ (Reads-count e (length s) h) (Reads-bytes s)

Reads-counted_string :
    (e : Endian) (s : Bytes) → IsText s → Reads (read_counted_string e) (data_bytes e s) s
unfolding read_counted_string
Reads-counted_string e s (text, fits) =
    Reads-cast (append-nil _) (Reads-bind _ (Reads-data e s fits) (Reads-lift (rw text)))

-- A reader of one item reads a list of valid ones.
Reads-All :
    {A : Type 0} (p : Reader Error A) (enc : A → Bytes) (P : A → Type 0) (xs : List A)
    → ((x : A) → P x → Reads p (enc x) x)
    → All P xs
    → Reads (read_many (length xs) p) (concat_map enc xs) xs
Reads-All p enc P xs one h = Reads-many p enc xs (All-map P (λ x. Reads p (enc x) x) xs one h)

Reads-counted :
    {A : Type 0} (e : Endian) (p : Reader Error A) (enc : A → Bytes) (P : A → Type 0) (xs : List A)
    → ((x : A) → P x → Reads p (enc x) x)
    → length xs < 2 ^ 31
    → All P xs
    → Reads (read_counted e p) (counted_bytes e enc xs) xs
unfolding read_counted
Reads-counted e p enc P xs one fits h =
    Reads-bind _ (Reads-count e (length xs) fits) (Reads-All p enc P xs one h)

component_count-count_of :
    (version : ℕ) (p : Principal)
    → component_count version (pos (count_of version p)) ≡ ok (pos (length p.components))
unfolding component_count
component_count-count_of version p = ground arith

Reads-name_type :
    (version : ℕ) (e : Endian) (t : ℤ)
    → FitsI32 t
    → (version ≡ 1 → t ≡ pos 0)
    → Reads {E = Error}
        (if version == 1 then pure (pos 0) else read_i32 e)
        (name_type_bytes version e t)
        t
Reads-name_type version e t fits absent = elim (Bool-cases (version == 1)) [
  | inl one ↦ rw (one, absent ((==_iff version 1).0 one)) (Reads-pure (pos 0))
  | inr other ↦ rw other (Reads-i32 e t fits)
]

pub Reads-principal :
    (version : ℕ) (e : Endian) (p : Principal)
    → IsPrincipal version p
    → Reads (parse_principal version e) (principal_bytes version e p) p
unfolding parse_principal principal_bytes
Reads-principal version e p v =
    Reads-bind _ (Reads-name_type version e p.name_type v.name_type_fits v.name_type_absent) (
      Reads-bind _ (Reads-i32 e (pos (count_of version p)) v.count_fits) (
        Reads-bind _ (Reads-lift (component_count-count_of version p)) (
          Reads-bind _ (Reads-lift refl) (
            Reads-bind _ (Reads-counted_string e p.realm v.realm_text) (
              Reads-map (λ cs. record { realm = p.realm; name_type = p.name_type; components = cs })
                (Reads-All _ _ IsText p.components (Reads-counted_string e) v.components_text))))))

pub validate-IsField : (f : HeaderField) → IsField f → validate f ≡ ok tt
unfolding validate
validate-IsField f v = ground (arith, v.offset_size)

pub Reads-field :
    (e : Endian) (f : HeaderField) → IsField f → Reads (parse_field e) (field_bytes e f) f
unfolding parse_field field_bytes
Reads-field e f v = Reads-bind _ (Reads-u16 e f.tag v.tag_fits) (
    Reads-bind _ (Reads-u16 e (length f.value) v.value_fits) (
      Reads-cast (append-nil f.value)
        (Reads-bind _ (Reads-bytes f.value) (Reads-lift (rw (validate-IsField f v))))))

Reads-address :
    (e : Endian) (a : HostAddress) → IsAddress a → Reads (parse_address e) (address_bytes e a) a
unfolding parse_address
Reads-address e a (fits, small) = Reads-bind _ (Reads-i16 e a.addr_type fits) (
    Reads-map (λ s. record { addr_type = a.addr_type; address = s }) (Reads-data e a.address small))

Reads-auth_data :
    (e : Endian) (a : AuthorizationDataEntry)
    → IsAuthData a
    → Reads (parse_auth_data e) (auth_data_bytes e a) a
unfolding parse_auth_data
Reads-auth_data e a (fits, small) =
    Reads-bind _ (Reads-i16 e a.ad_type fits) (
      Reads-map (λ s. record { ad_type = a.ad_type; contents = s }) (Reads-data e a.contents small))

Reads-etype :
    (version : ℕ) (e : Endian) (t : ℤ)
    → FitsI16 t
    → Reads (read_etype version e) (etype_bytes version e t) t
unfolding read_etype
Reads-etype version e t fits = elim (Bool-cases (version == 3)) [
  | inl three ↦ rw three (Reads-bind _ (Reads-i16 e t fits) (Reads-i16 e t fits))
  | inr other ↦ rw other (Reads-bind _ (Reads-i16 e t fits) (Reads-pure t))
]

Reads-times :
    (e : Endian) (t : CredentialTimes) → IsTimes t → Reads (read_times e) (times_bytes e t) t
unfolding read_times
Reads-times e t v = Reads-bind _ (Reads-u32 e t.auth_time v.auth_fits) (
    Reads-bind _ (Reads-u32 e t.start_time v.start_fits) (
      Reads-bind _ (Reads-u32 e t.end_time v.end_fits) (
        Reads-map
          (λ r. record {
            auth_time = t.auth_time;
            start_time = t.start_time;
            end_time = t.end_time;
            renew_till = r;
          })
          (Reads-u32 e t.renew_till v.renew_fits))))

from_bool-test : (b : Bool) → not (from_bool b == 0) ≡ b
from_bool-test true = refl
from_bool-test false = refl

Reads-flags : (flags : Bytes) → length flags ≡ 4 → Reads {E = Error} (read_bytes 4) flags flags
Reads-flags flags q = rw (← q) (Reads-bytes flags)

pub Reads-credential :
    (version : ℕ) (e : Endian) (c : Credential)
    → IsCredential version c
    → Reads (parse_credential version e) (credential_bytes version e c) c
unfolding parse_credential credential_bytes
Reads-credential version e c v =
    subst (Reads (parse_credential version e) (credential_bytes version e c))
      (λ i. record c { is_skey = from_bool-test c.is_skey i })
      (Reads-bind _ (Reads-principal version e c.client v.client_valid) (
        Reads-bind _ (Reads-principal version e c.server v.server_valid) (
          Reads-bind _ (Reads-etype version e c.key.etype v.etype_fits) (
            Reads-bind _ (Reads-data e c.key.value v.key_fits) (
              Reads-bind _ (Reads-times e c.times v.times_fit) (
                Reads-bind _ (Reads-u8 (from_bool c.is_skey)) (
                  Reads-bind _ (Reads-flags c.ticket_flags v.flags_size) (
                    Reads-bind _
                      (Reads-counted e _ _ IsAddress c.addresses (Reads-address e) v.addresses_fit
                        v.addresses_valid)
                      (Reads-bind _
                        (Reads-counted e _ _ IsAuthData c.auth_data (Reads-auth_data e)
                          v.auth_data_fit v.auth_data_valid)
                        (Reads-bind _ (Reads-data e c.ticket v.ticket_fits) (
                          Reads-map
                            (λ second. record {
                              client = c.client;
                              server = c.server;
                              key = c.key;
                              times = c.times;
                              is_skey = not (from_bool c.is_skey == 0);
                              ticket_flags = c.ticket_flags;
                              addresses = c.addresses;
                              auth_data = c.auth_data;
                              ticket = c.ticket;
                              second_ticket = second;
                            })
                            (Reads-data e c.second_ticket v.second_ticket_fits))))))))))))
