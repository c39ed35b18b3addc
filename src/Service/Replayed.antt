-- ===== src/Service/Replayed.antt =====
-- The replay cache behind `validate_ap_req` of src/service.rs: a request is accepted once.
use rskrb.Prelude.{
  ℕ, ◌≡◌, ◌≢◌, refl, sym, ◌∙◌, ==_iff, none, some, arith, inl, inr, Option-cases, Bool-cases,
}
use rskrb.Result.{Result, ok, err, stuck, bind-eq-ok, Yields-ok}
use rskrb.Wire.{Bytes}
use rskrb.Service.{Error}
use rskrb.Service.Time.{SystemTime}
use rskrb.Service.Replay.{
  ReplayKey, ReplayCache, Heap, get, key_eq, key_eq_iff, insert, insert-get, shared_insert, store,
  with_cache_mut,
}
use rskrb.Service.Messages.{Primitives}
use rskrb.Service.Validator.{ServiceValidator, ValidatedApReq, record_replay}
use rskrb.Service.Validate.{Checked, query, replay_key, check, finish, accept, validate_ap_req}
use rskrb.Service.Accepted.{IsChecked, check-IsChecked}
use rskrb.Service.Conditions.{cached}

-- The configuration that decides which key opens a ticket, and which cache is asked.
pub record IsSameService (v w : ServiceValidator) : Type 0 where
  pub same_keytab : w.keytab ≡ v.keytab
  pub same_principal : w.keytab_principal ≡ v.keytab_principal
  pub same_cache : w.shared_replay_cache ≡ v.shared_replay_cache

IsSameService-refl : {v : ServiceValidator} → IsSameService v v
IsSameService-refl = record { same_keytab = refl; same_principal = refl; same_cache = refl }

IsSameService-trans :
    {v w x : ServiceValidator} → IsSameService v w → IsSameService w x → IsSameService v x
IsSameService-trans a b = record {
  same_keytab = b.same_keytab ∙ a.same_keytab;
  same_principal = b.same_principal ∙ a.same_principal;
  same_cache = b.same_cache ∙ a.same_cache;
}

cached-shared :
    (heap : Heap) (v : ServiceValidator) (handle : ℕ) (key : ReplayKey)
    → v.shared_replay_cache ≡ some handle
    → cached heap v key ≡ get (heap handle).cache.entries key
cached-shared heap v handle key e = rw e refl

module _ (F : Type 0) where
  record_replay-ok :
      (heap : Heap) (v : ServiceValidator) (key : ReplayKey) (now : SystemTime) {u : Unit {0}}
      → (record_replay {F = F} heap v key now).1 ≡ ok u
      → (cached heap v key ≡ none)
        × (cached
              (record_replay {F = F} heap v key now).0.0
              (record_replay {F = F} heap v key now).0.1
              key
            ≡ some now)
  unfolding record_replay shared_insert with_cache_mut store
  record_replay-ok heap v key now h = elim (Option-cases v.shared_replay_cache) [
    | inl e ↦
        let h' = rw e at h in
        let (new, held, _, _) = insert-get v.replay_cache key now in rw e (ground arith)
    | inr (handle, e) ↦
        let h' = rw e at h in
        let (new, held, _, _) = insert-get (heap handle).cache key now in rw e (ground arith)
  ]

  insert-held :
      (cache : ReplayCache) (key other : ReplayKey) (now : SystemTime)
      → get cache.entries other ≢ none
      → get (insert cache key now).0.entries other ≢ none
  insert-held cache key other now h =
      let (_, held, rest, _) = insert-get cache key now in
      elim (Bool-cases (key_eq other key)) [
        | inl m ↦ rw ((key_eq_iff other key).0 m) (λ q. cc (held, q))
        | inr m ↦ λ q. h (sym (rest other (λ q'. cc (m, (key_eq_iff other key).1 q'))) ∙ q)
      ]

  shared_insert-held :
      (heap : Heap) (handle : ℕ) (key other : ReplayKey) (now : SystemTime)
      → get (heap handle).cache.entries other ≢ none
      → get ((shared_insert {F = F} heap handle key now).0 handle).cache.entries other ≢ none
  unfolding shared_insert with_cache_mut store
  shared_insert-held heap handle key other now h = elim (Bool-cases (heap handle).poisoned) [
    | inl e ↦ rw e h
    | inr e ↦
        rw (e, (==_iff handle handle).1 refl) (insert-held (heap handle).cache key other now h)
  ]

  -- A key that is held stays held.
  record_replay-held :
      (heap : Heap) (v : ServiceValidator) (key other : ReplayKey) (now : SystemTime)
      → cached heap v other ≢ none
      → cached
          (record_replay {F = F} heap v key now).0.0
          (record_replay {F = F} heap v key now).0.1
          other
        ≢ none
  unfolding record_replay shared_insert with_cache_mut store
  record_replay-held heap v key other now h = elim (Option-cases v.shared_replay_cache) [
    | inl e ↦ let h' = rw e at h in rw e (insert-held v.replay_cache key other now h')
    | inr (handle, e) ↦ let h' = rw e at h in rw e (shared_insert-held heap handle key other now h')
  ]

  record_replay-IsSameService :
      (heap : Heap) (v : ServiceValidator) (key : ReplayKey) (now : SystemTime)
      → IsSameService v (record_replay {F = F} heap v key now).0.1
  unfolding record_replay
  record_replay-IsSameService heap v key now = elim (Option-cases v.shared_replay_cache) [
    | inl e ↦
        simp (e, record_replay)
          (record { same_keytab = refl; same_principal = refl; same_cache = sym e })
    | inr (handle, e) ↦ simp (e, record_replay) (IsSameService-refl)
  ]

module _ {F Pac : Type 0} (p : Primitives F Pac) where
  -- The state after a validation.
  abbrev pub after :
      Heap → ServiceValidator → SystemTime → SystemTime → Bytes → Heap × ServiceValidator
  after heap v first_clock second_clock bytes =
      (validate_ap_req p heap v first_clock second_clock bytes).0

  -- Any number of validations of any requests, at any times.
  pub data Runs : Heap × ServiceValidator → Heap × ServiceValidator → Type 0 where
    done : {s : Heap × ServiceValidator} → Runs s s
    next :
        {s : Heap × ServiceValidator} (heap : Heap) (v : ServiceValidator)
        (first_clock second_clock : SystemTime) (bytes : Bytes)
        → Runs (after heap v first_clock second_clock bytes) s
        → Runs (heap, v) s

  -- The replay key does not depend on the clocks, nor on anything of the validator but its keytab.
  replay_key_unique :
      {v w : ServiceValidator} {t₁ t₂ t₁' t₂' : SystemTime} {bytes : Bytes} {c d : Checked Pac}
      → IsSameService v w
      → IsChecked p v t₁ t₂ bytes c
      → IsChecked p w t₁' t₂' bytes d
      → replay_key d ≡ replay_key c
  replay_key_unique {v} {w} {c = c} {d} s hc hd =
      let oc = hc.is_opened in
      let od = hd.is_opened in
      let ap_req : d.opened.ap_req ≡ c.opened.ap_req = cc (oc.decoded, od.decoded) in
      let service : d.opened.service ≡ c.opened.service =
        cc (ap_req, oc.service_named, od.service_named) in
      let asked : query w d.opened.ap_req d.opened.service
          ≡ query v c.opened.ap_req c.opened.service =
        cc (ap_req, service, s.same_principal) in
      let key : d.opened.service_key ≡ c.opened.service_key =
        cc (oc.key_found.1, od.key_found.1, asked, s.same_keytab) in
      let enc_ticket : d.opened.enc_ticket ≡ c.opened.enc_ticket =
        cc (oc.ticket_opened, od.ticket_opened, ap_req, key) in
      let session_key : d.session_key ≡ c.session_key =
        cc (hc.session_key_read, hd.session_key_read, enc_ticket) in
      let authenticator : d.authenticator ≡ c.authenticator =
        cc (hc.authenticator_opened, hd.authenticator_opened, ap_req, session_key) in
      let client : d.client ≡ c.client = cc (hc.client_named, hd.client_named, authenticator) in
      let cusec : d.cusec ≡ c.cusec = cc (hc.cusec_read, hd.cusec_read, authenticator) in
      cc (service, client, authenticator, cusec)

  accept-ok :
      (heap : Heap) (v : ServiceValidator) (r : Result (Error F) (Checked Pac))
      {a : ValidatedApReq Pac}
      → (accept p heap v r).1 ≡ ok a
      → (c : Checked Pac) × (r ≡ ok c)
        × (finish p c ≡ ok a)
        × (cached heap v (replay_key c) ≡ none)
        × (cached (accept p heap v r).0.0 (accept p heap v r).0.1 (replay_key c) ≡ some c.now)
  accept-ok heap v (err e) h = cc
  accept-ok heap v stuck h = cc
  accept-ok heap v (ok c) h =
      let (u, recorded, finished) =
        bind-eq-ok (record_replay {F = F} heap v (replay_key c) c.now).1 _ h in
      let (before, held) = record_replay-ok F heap v (replay_key c) c.now recorded in
      (c, refl, finished, before, held)

  accept-held :
      (heap : Heap) (v : ServiceValidator) (r : Result (Error F) (Checked Pac)) (key : ReplayKey)
      → cached heap v key ≢ none
      → cached (accept p heap v r).0.0 (accept p heap v r).0.1 key ≢ none
  accept-held heap v (err e) key h = h
  accept-held heap v stuck key h = h
  accept-held heap v (ok c) key h = record_replay-held F heap v (replay_key c) key c.now h

  accept-IsSameService :
      (heap : Heap) (v : ServiceValidator) (r : Result (Error F) (Checked Pac))
      → IsSameService v (accept p heap v r).0.1
  accept-IsSameService heap v (err e) = IsSameService-refl
  accept-IsSameService heap v stuck = IsSameService-refl
  accept-IsSameService heap v (ok c) = record_replay-IsSameService F heap v (replay_key c) c.now

  after-IsSameService :
      (heap : Heap) (v : ServiceValidator) (t₁ t₂ : SystemTime) (bytes : Bytes)
      → IsSameService v (after heap v t₁ t₂ bytes).1
  unfolding validate_ap_req
  after-IsSameService heap v t₁ t₂ bytes = accept-IsSameService heap v (check p v t₁ t₂ bytes)

  -- A request that is accepted passed every check: its ticket opens with a key that the keytab has for
  -- the service, has started and has not expired up to the clock skew, has no invalid flag,
  -- has the address of the client among its addresses (or has none where none is required), and the
  -- PAC that its authorization data has, if there is one, is found and is verified with that key; its authenticator opens with the session key of the
  -- ticket, names the client of the ticket by the same components and is within the clock skew; and
  -- the cache in use did not hold its replay key before and holds it afterwards.
  pub validate_ap_req-accepted :
      (heap : Heap) (v : ServiceValidator) (first_clock second_clock : SystemTime) (bytes : Bytes)
      {a : ValidatedApReq Pac}
      → (validate_ap_req p heap v first_clock second_clock bytes).1 ≡ ok a
      → (c : Checked Pac) × IsChecked p v first_clock second_clock bytes c
        × (finish p c ≡ ok a)
        × (cached heap v (replay_key c) ≡ none)
        × (cached
              (after heap v first_clock second_clock bytes).0
              (after heap v first_clock second_clock bytes).1
              (replay_key c)
            ≡ some c.now)
  unfolding validate_ap_req
  validate_ap_req-accepted heap v first_clock second_clock bytes h =
      let r = check p v first_clock second_clock bytes in
      let (c, e, finished, before, held) = accept-ok heap v r h in
      (c, Yields-ok (check-IsChecked p v first_clock second_clock bytes) e, finished, before, held)

  Runs-held :
      {s t : Heap × ServiceValidator} (key : ReplayKey)
      → Runs s t
      → cached s.0 s.1 key ≢ none
      → (cached t.0 t.1 key ≢ none) × IsSameService s.1 t.1
  unfolding validate_ap_req
  Runs-held key done h = (h, IsSameService-refl)
  Runs-held key (next heap v t₁ t₂ bytes rs) h =
      let r = check p v t₁ t₂ bytes in
      let (held, same) = Runs-held key rs (accept-held heap v r key h) in
      (held, IsSameService-trans (accept-IsSameService heap v r) same)

  -- A request that was accepted is not accepted again, whatever the clocks say, if nothing happened in
  -- between but the validation of other requests, of any number, by the same validator.
  pub validate_ap_req-replayed :
      (heap : Heap) (v : ServiceValidator) (t₁ t₂ : SystemTime) (bytes : Bytes)
      {a : ValidatedApReq Pac} (heap' : Heap) (v' : ServiceValidator) (t₁' t₂' : SystemTime)
      (a' : ValidatedApReq Pac)
      → (validate_ap_req p heap v t₁ t₂ bytes).1 ≡ ok a
      → Runs (after heap v t₁ t₂ bytes) (heap', v')
      → (validate_ap_req p heap' v' t₁' t₂' bytes).1 ≢ ok a'
  validate_ap_req-replayed heap v t₁ t₂ bytes heap' v' t₁' t₂' a' h rs h' =
      let (c, hc, _, _, held) = validate_ap_req-accepted heap v t₁ t₂ bytes h in
      let (d, hd, _, fresh, _) = validate_ap_req-accepted heap' v' t₁' t₂' bytes h' in
      let (still, same) = Runs-held (replay_key c) rs (λ q. cc (held, q)) in
      let one = after-IsSameService heap v t₁ t₂ bytes in
      let unique = replay_key_unique (IsSameService-trans one same) hc hd in
      still (rw unique at fresh)

  -- Two validators that share a replay cache, and look keys up alike, accept a request once between
  -- them: what the first accepted the second does not, if it asks next.
  pub validate_ap_req-replayed_elsewhere :
      (heap : Heap) (v w : ServiceValidator) (handle : ℕ) (t₁ t₂ t₁' t₂' : SystemTime)
      (bytes : Bytes) {a : ValidatedApReq Pac} (a' : ValidatedApReq Pac)
      → v.shared_replay_cache ≡ some handle
      → IsSameService v w
      → (validate_ap_req p heap v t₁ t₂ bytes).1 ≡ ok a
      → (validate_ap_req p (after heap v t₁ t₂ bytes).0 w t₁' t₂' bytes).1 ≢ ok a'
  validate_ap_req-replayed_elsewhere heap v w handle t₁ t₂ t₁' t₂' bytes a' shared s h h' =
      let (c, hc, _, _, held) = validate_ap_req-accepted heap v t₁ t₂ bytes h in
      let heap' = (after heap v t₁ t₂ bytes).0 in
      let v' = (after heap v t₁ t₂ bytes).1 in
      let (d, hd, _, fresh, _) = validate_ap_req-accepted heap' w t₁' t₂' bytes h' in
      let in_v' : v'.shared_replay_cache ≡ some handle =
        (after-IsSameService heap v t₁ t₂ bytes).same_cache ∙ shared in
      let in_w : w.shared_replay_cache ≡ some handle = s.same_cache ∙ shared in
      cc (
        held,
        fresh,
        cached-shared heap' v' handle (replay_key c) in_v',
        cached-shared heap' w handle (replay_key d) in_w,
        replay_key_unique s hc hd,
      )
