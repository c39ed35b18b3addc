-- ===== src/CCache/Gives.antt =====
-- What the readers of a credential in src/ccache.rs return, on any input.
use rskrb.Prelude.{
  not, ◌&&◌, refl, ◌≡◌, ◌+◌, ◌<◌, length, ltb, ℕ, zero, suc, ◌^◌, arith, ◌==◌, if◌then◌else◌, All,
  Bool-cases, inl, inr,
}
use rskrb.Prelude.Int.{ℤ, pos, negsuc}
use rskrb.Result.{Ensures, holds, rejected, Ensures-bind, Ensures-if}
use rskrb.CCache.{
  Error, wire_error, length_overflow, HeaderField, validate, header_field_tag_kdc_offset,
}
use rskrb.CCache.Parser.{
  read_count, read_data, read_counted_string, checked_pred32, component_count, parse_principal,
  parse_field, parse_address, parse_auth_data, read_etype, read_times, read_counted,
  parse_credential,
}
use rskrb.CCache.Format.{
  IsData, IsText, IsPrincipal, IsField, IsAddress, IsAuthData, IsTimes, IsCredential,
}
use rskrb.Wire.{Endian, Reader, read_i32, pure, ok_or}
use rskrb.Wire.Numbers.{FitsI16, FitsI32}
use rskrb.Wire.Range.{
  Gives, Gives-pure, Gives-lift, Gives-map, Gives-bind, Gives-if, Gives-many, Gives-bytes, Gives-u8,
  Gives-u16, Gives-i16, Gives-u32, Gives-i32, Gives-utf8, non_negative-Ensures,
}

Gives-count : (e : Endian) → Gives (read_count e) (λ n. n < 2 ^ 31)
unfolding read_count
Gives-count e =
    Gives-bind _ (Gives-i32 e)
      λ v fits. Gives-map (λ n q. rw q at fits) (Gives-lift (non_negative-Ensures v))

Gives-IsData : (e : Endian) → Gives (read_data e) IsData
unfolding read_data
Gives-IsData e =
    Gives-bind _ (Gives-count e) λ n fits. Gives-map (λ raw (_, size). rw size fits) (Gives-bytes n)

Gives-counted_string : (e : Endian) → Gives (read_counted_string e) IsText
unfolding read_counted_string
Gives-counted_string e =
    Gives-bind _ (Gives-IsData e)
      λ raw fits. Gives-map (λ s (text, same). (text, rw same fits)) (Gives-utf8 raw)

checked_pred32-Ensures :
    (raw : ℤ)
    → FitsI32 raw
    → Ensures
        (λ c. (n : ℕ) → c ≡ pos n → n + 1 < 2 ^ 31)
        (ok_or (checked_pred32 raw) length_overflow)
checked_pred32-Ensures (pos zero) fits = holds (λ n q. cc)
checked_pred32-Ensures (pos (suc m)) fits = holds (λ n q. ground arith)
checked_pred32-Ensures (negsuc m) fits = elim (Bool-cases (ltb (m + 1) 0x80000000)) [
  | inl e ↦ rw e (holds (λ n q. cc))
  | inr e ↦ rw e rejected
]

component_count-Ensures :
    (version : ℕ) (raw : ℤ)
    → FitsI32 raw
    → Ensures
        (λ c. (n : ℕ) → c ≡ pos n → (if version == 1 then n + 1 else n) < 2 ^ 31)
        (component_count version raw)
unfolding component_count
component_count-Ensures version raw fits = elim (Bool-cases (version == 1)) [
  | inl one ↦ rw one (checked_pred32-Ensures raw fits)
  | inr other ↦ rw other (holds (λ n q. rw q at fits))
]

Gives-name_type :
    (version : ℕ) (e : Endian)
    → Gives {E = Error}
        (if version == 1 then pure (pos 0) else read_i32 e)
        (λ t. FitsI32 t × (version ≡ 1 → t ≡ pos 0))
Gives-name_type version e =
    Gives-if (version == 1) (λ one. Gives-pure (omega arith, λ _. refl))
      (λ other. Gives-map (λ t fits. (fits, λ one. absurd (ground arith))) (Gives-i32 e))

pub Gives-IsPrincipal :
    (version : ℕ) (e : Endian) → Gives (parse_principal version e) (IsPrincipal version)
unfolding parse_principal
Gives-IsPrincipal version e = Gives-bind _ (Gives-name_type version e) λ t (t_fits, absent).
    Gives-bind _ (Gives-i32 e) λ raw fits.
      Gives-bind _ (Gives-lift (component_count-Ensures version raw fits)) λ count bound.
        Gives-bind _ (Gives-lift (non_negative-Ensures count)) λ n count_eq.
          Gives-bind _ (Gives-counted_string e) λ realm realm_text.
            Gives-bind _ (Gives-many IsText n (Gives-counted_string e)) λ components (texts, size).
              Gives-pure (record {
                realm_text = realm_text;
                components_text = texts;
                count_fits = rw size (bound n count_eq);
                name_type_fits = t_fits;
                name_type_absent = absent;
              })

pub validate-Ensures :
    (f : HeaderField)
    → Ensures (λ _. f.tag ≡ header_field_tag_kdc_offset → length f.value ≡ 8) (validate f)
unfolding validate
validate-Ensures f =
    Ensures-if (f.tag == header_field_tag_kdc_offset && not (length f.value == 8)) (λ _. rejected)
      (λ e. holds (ground arith))

pub Gives-IsField : (e : Endian) → Gives (parse_field e) IsField
unfolding parse_field
Gives-IsField e = Gives-bind _ (Gives-u16 e) λ tag tag_fits. Gives-bind _ (Gives-u16 e) λ n n_fits.
    Gives-bind _ (Gives-bytes n) λ value (_, size). Gives-lift (
      Ensures-bind _ (validate-Ensures (record { tag = tag; value = value })) λ _ offset_size.
        holds
          (record { tag_fits = tag_fits; value_fits = rw size n_fits; offset_size = offset_size }))

Gives-IsAddress : (e : Endian) → Gives (parse_address e) IsAddress
unfolding parse_address
Gives-IsAddress e =
    Gives-bind _ (Gives-i16 e)
      λ t fits. Gives-bind _ (Gives-IsData e) λ s small. Gives-pure (fits, small)

Gives-IsAuthData : (e : Endian) → Gives (parse_auth_data e) IsAuthData
unfolding parse_auth_data
Gives-IsAuthData e =
    Gives-bind _ (Gives-i16 e)
      λ t fits. Gives-bind _ (Gives-IsData e) λ s small. Gives-pure (fits, small)

Gives-etype : (version : ℕ) (e : Endian) → Gives (read_etype version e) FitsI16
unfolding read_etype
Gives-etype version e =
    Gives-bind _ (Gives-i16 e)
      λ t fits. Gives-if (version == 3) (λ _. Gives-i16 e) (λ _. Gives-pure fits)

Gives-IsTimes : (e : Endian) → Gives (read_times e) IsTimes
unfolding read_times
Gives-IsTimes e = Gives-bind _ (Gives-u32 e) λ a a_fits. Gives-bind _ (Gives-u32 e) λ s s_fits.
    Gives-bind _ (Gives-u32 e) λ t t_fits. Gives-bind _ (Gives-u32 e) λ r r_fits.
      Gives-pure
        (record { auth_fits = a_fits; start_fits = s_fits; end_fits = t_fits; renew_fits = r_fits })

Gives-counted :
    {A : Type 0} (e : Endian) (p : Reader Error A) (P : A → Type 0)
    → Gives p P
    → Gives (read_counted e p) (λ xs. All P xs × (length xs < 2 ^ 31))
unfolding read_counted
Gives-counted e p P g =
    Gives-bind _ (Gives-count e)
      λ n fits. Gives-map (λ xs (h, size). (h, rw size fits)) (Gives-many P n g)

pub Gives-IsCredential :
    (version : ℕ) (e : Endian) → Gives (parse_credential version e) (IsCredential version)
unfolding parse_credential
Gives-IsCredential version e = Gives-bind _ (Gives-IsPrincipal version e) λ client client_valid.
    Gives-bind _ (Gives-IsPrincipal version e) λ server server_valid.
      Gives-bind _ (Gives-etype version e) λ etype etype_fits.
        Gives-bind _ (Gives-IsData e) λ key key_fits.
          Gives-bind _ (Gives-IsTimes e) λ times times_fit. Gives-bind _ Gives-u8 λ is_skey _.
            Gives-bind _ (Gives-bytes 4) λ flags (_, flags_size).
              Gives-bind _ (Gives-counted e _ IsAddress (Gives-IsAddress e))
                λ addrs (as_valid, as_fit).
                  Gives-bind _ (Gives-counted e _ IsAuthData (Gives-IsAuthData e))
                    λ ds (ds_valid, ds_fit). Gives-bind _ (Gives-IsData e) λ ticket ticket_fits.
                      Gives-bind _ (Gives-IsData e) λ second second_fits. Gives-pure (record {
                        client_valid = client_valid;
                        server_valid = server_valid;
                        etype_fits = etype_fits;
                        key_fits = key_fits;
                        times_fit = times_fit;
                        flags_size = flags_size;
                        addresses_fit = as_fit;
                        addresses_valid = as_valid;
                        auth_data_fit = ds_fit;
                        auth_data_valid = ds_valid;
                        ticket_fits = ticket_fits;
                        second_ticket_fits = second_fits;
                      })
