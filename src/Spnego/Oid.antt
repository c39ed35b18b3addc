-- ===== src/Spnego/Oid.antt =====
-- src/spnego/oid.rs: object identifiers.
use rskrb.Prelude.{ℕ, Bool, ◌&&◌, ◌||◌, List, [], ◌∷◌, ltb, leb, if◌then◌else◌}
use rskrb.Prelude.Text.{text_eq}
use rskrb.Result.{Result, ok, err, bind}
use rskrb.Spnego.{ObjectIdentifier, Error, invalid_oid}

abbrev pub krb5 : ObjectIdentifier
krb5 = 1 ∷ 2 ∷ 840 ∷ 113554 ∷ 1 ∷ 2 ∷ 2 ∷ []

abbrev pub ms_legacy_krb5 : ObjectIdentifier
ms_legacy_krb5 = 1 ∷ 2 ∷ 840 ∷ 48018 ∷ 1 ∷ 2 ∷ 2 ∷ []

abbrev pub spnego : ObjectIdentifier
spnego = 1 ∷ 3 ∷ 6 ∷ 1 ∷ 5 ∷ 5 ∷ 2 ∷ []

-- The derived `==`.
unfoldable pub oid_eq : ObjectIdentifier → ObjectIdentifier → Bool
unfolding text_eq
oid_eq a b = text_eq a b

unfoldable pub is_kerberos_mechanism : ObjectIdentifier → Bool
unfolding oid_eq
is_kerberos_mechanism oid = oid_eq oid krb5 || oid_eq oid ms_legacy_krb5

module _ {F : Type 0} where
  unfoldable pub validate_arcs : List ℕ → Result (Error F) (Unit {0})
  validate_arcs (first ∷ second ∷ _) =
      if ltb 2 first || (ltb first 2 && leb 40 second) then err invalid_oid else ok tt
  validate_arcs _ = err invalid_oid

  unfoldable pub from_arcs : List ℕ → Result (Error F) ObjectIdentifier
  unfolding validate_arcs
  from_arcs arcs = bind (validate_arcs arcs) λ _. ok arcs
