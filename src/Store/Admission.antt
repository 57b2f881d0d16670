-- ===== src/Store/Admission.antt =====
-- When `register` admits a name, and what it changes: crates/binda-core/src/store.rs.
use binda.Prelude.{
  ℕ, ◌+◌, ◌<◌, ◌≡◌, sym, ap, ◌∙◌, ◌↔◌, true, false, none, some, List, [], ◌∷◌, arith, if◌then◌else◌,
  ◌==◌, nat_eq, list_eq, list_eq_iff, ==_refl,
}
use binda.Prelude.Map.{HashMap, insert, contains_key, lookup-insert, contains_key-lookup}
use binda.Text.{Text}
use binda.Token.{RegistrationToken, issue}
use binda.Domain.{DomainName}
use binda.Client.{Externals, ClientIdentity, quota_key}
use binda.Liveness.{is_live, registration_count, can_register}
use binda.Liveness.Laws.{registration_count-increment}
use binda.Store.{Registration, RegistrationError, RegistryStore, reclaim_stale, find}
use binda.Store.Register.{ok, err, register, fresh_registration}

-- The registrations that count against a host, with evidence or without.
abbrev pub held : Text → HashMap DomainName Registration → ℕ
held q [] = 0
held q ((d, reg) ∷ regs) = (if reg.quota_key == q then 1 else 0) + held q regs

held-insert_new :
    (q : Text) (d : DomainName) (reg : Registration) (regs : HashMap DomainName Registration)
    → contains_key d regs ≡ false
    → held q (insert d reg regs) ≡ held q regs + (if reg.quota_key == q then 1 else 0)
unfolding insert contains_key
held-insert_new q d reg [] h = ground arith
held-insert_new q d reg ((e, old) ∷ regs) h = ground (arith, held-insert_new q d reg regs)

module _ (x : Externals) (s : RegistryStore) (d : DomainName) (c : ClientIdentity) (now : ℕ)
    (nonce : List ℕ) where
  abbrev reclaimed : RegistryStore
  reclaimed = reclaim_stale x now s

  -- What admits a name: the host is live when asked and after stale hosts are dropped, the name is
  -- then free, and the host's count is below five.
  pub record MayRegister : Type 0 where
    pub live : is_live s.liveness c now ≡ true
    pub free : find (reclaim_stale x now s) d ≡ none
    pub still_live : is_live (reclaim_stale x now s).liveness c now ≡ true
    pub below_cap : registration_count (reclaim_stale x now s).liveness c < 5

  register-ok_sound :
      (t : RegistrationToken)
      → (register x s d c now nonce).1 ≡ ok t
      → MayRegister × (t ≡ issue now nonce)
  unfolding register can_register find
  register-ok_sound t h =
      ground (arith, contains_key-lookup d (reclaim_stale x now s).registrations)

  pub register-ok_complete : MayRegister → (register x s d c now nonce).1 ≡ ok (issue now nonce)
  unfolding register can_register find
  register-ok_complete h =
      ground (arith, contains_key-lookup d (reclaim_stale x now s).registrations)

  -- A registration succeeds exactly if the host may register the name, and then its token has the
  -- time of the call and the random bytes that were drawn.
  pub register-ok_iff :
      (t : RegistrationToken)
      → ((register x s d c now nonce).1 ≡ ok t) ↔ (MayRegister × (t ≡ issue now nonce))
  register-ok_iff t = (register-ok_sound t, λ h. register-ok_complete h.0 ∙ ap ok (sym h.1))

  -- After a success the name is the client's, with no records and no evidence yet; every other name
  -- reads as after the stale ones were dropped; and the host's count has grown by one.
  pub register-effect :
      (t : RegistrationToken) (e : DomainName)
      → (register x s d c now nonce).1 ≡ ok t
      → (find (register x s d c now nonce).0 e
          ≡ (if d == e then some (fresh_registration c t) else find (reclaim_stale x now s) e))
        × (registration_count (register x s d c now nonce).0.liveness c
            ≡ registration_count (reclaim_stale x now s).liveness c + 1)
  unfolding register find
  register-effect t e h = ground (
    arith,
    lookup-insert d e (fresh_registration c (issue now nonce))
        (reclaim_stale x now s).registrations,
    list_eq_iff d e,
    (registration_count-increment (reclaim_stale x now s).liveness c c now).0,
    ==_refl (quota_key c),
  )

  -- A refusal changes nothing but that stale names are dropped, and for a host that is not live not
  -- even that.
  pub register-err :
      (e : RegistrationError)
      → (register x s d c now nonce).1 ≡ err e
      → (register x s d c now nonce).0
        ≡ (if is_live s.liveness c now then reclaim_stale x now s else s)
  unfolding register
  register-err e h = ground arith

  -- Wherever a host may register, the registrations that it holds, its own and those of gossip, grow
  -- by one.
  pub held-register :
      MayRegister
      → held (quota_key c) (register x s d c now nonce).0.registrations
        ≡ held (quota_key c) (reclaim_stale x now s).registrations + 1
  unfolding register can_register find
  held-register h = ground (
    arith,
    contains_key-lookup d (reclaim_stale x now s).registrations,
    held-insert_new (quota_key c) d (fresh_registration c (issue now nonce))
        (reclaim_stale x now s).registrations,
    ==_refl (quota_key c),
  )
