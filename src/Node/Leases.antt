-- ===== src/Node/Leases.antt =====
-- What a node looks up after it adopted leases: crates/binda/src/node.rs, the loop over `adopt_rumor`.
use binda.Prelude.{
  ℕ, ◌≡◌, refl, sym, ap, ◌∙◌, inl, inr, Option, none, some, List, [], ◌∷◌, arith, Bool-cases,
  Option-cases, ◌==◌, nat_eq, list_eq, list_eq_iff, ==_refl, subst,
}
use mathlib.Core.Option
use mathlib.Core.List.{Permᴰ}
use binda.Prelude.All.{All}
use binda.Prelude.Rearranged.{
  Pair, sort_by-permutes_self, permutes_sym, All-permutes, Pair-permutes,
}
use binda.Prelude.Sort.{sort_by}
use binda.Prelude.Map.{HashMap, lookup, values}
use binda.Text.{Text}
use binda.Domain.{DomainName}
use binda.Client.{Externals}
use binda.Gossip.{RegistrationRumor}
use binda.Store.{Registration, RegistryStore, registration_from_rumor, claim_order, find, new}
use binda.Store.Evidence.{adopt_rumor}
use binda.Store.Claims.{IsKeyed}
use binda.Store.Names.{Differ, Differ-flip, IsAcceptable, host, claims_of, first_five}
use binda.Store.Retained.{claims_of-adopt_rumor}
use binda.Store.Keyed.{AllKeyed}
use binda.Store.KeyedReach.{adopt_rumor-AllKeyed}
use binda.Store.Leases.{claim_on, lease_of, claim_on-permutes, claim_on-values}
use binda.Store.Mirror.{IsMirrored, adopt_rumor-IsMirrored}
use binda.Node.{adopt_all}
use binda.Node.Convergence.{
  IsReady, keep-IsReady, fresh_of_none, first_five_in_any_order, leases_of-adopt_all,
}

lookup_fresh :
    (r : RegistrationRumor) (m : HashMap DomainName RegistrationRumor)
    → IsKeyed m
    → All (Differ r) (values m)
    → lookup r.domain m ≡ none
unfolding lookup
lookup_fresh r [] k f = refl
lookup_fresh r ((e, c) ∷ m) k f = ground (
  arith,
  lookup_fresh r m k.1 f.1,
  k.0,
  f.0,
  list_eq_iff e r.domain,
  list_eq_iff r.domain c.domain,
)

-- What every host has of a name says what stands there.
lease_of_ext : (o p : Option Registration) → ((q : Text) → lease_of q o ≡ lease_of q p) → o ≡ p
lease_of_ext none none h = refl
lease_of_ext none (some g) h = ground (arith, h g.quota_key, ==_refl g.quota_key)
lease_of_ext (some g) none h = ground (arith, h g.quota_key, ==_refl g.quota_key)
lease_of_ext (some g) (some k) h = ground (arith, h g.quota_key, ==_refl g.quota_key)

module _ (x : Externals) (now : ℕ) where
  -- The store is fit for claims that are still to come, and its leases are those of its claims.
  record IsReadyFor (s : RegistryStore) (rs : List RegistrationRumor) : Type 0 where
    ready : (q : Text) → IsReady x now (claims_of q s) rs
    keyed : AllKeyed s
    mirrored : IsMirrored s

  fresh_name_free :
      (s : RegistryStore) (r : RegistrationRumor) (rs : List RegistrationRumor)
      → IsReadyFor s (r ∷ rs)
      → lookup r.domain s.registrations ≡ none
  fresh_name_free s r rs h = elim (Option-cases (lookup r.domain s.registrations)) [
    | inl free ↦ free
    | inr (g, found) ↦
        let none_claimed : lookup r.domain (claims_of g.quota_key s) ≡ none =
          lookup_fresh r (claims_of g.quota_key s) (h.keyed g.quota_key).0
            (h.ready g.quota_key).fresh.0 in
        absurd (
          ground (
            arith,
            h.mirrored.mirror g.quota_key r.domain,
            found,
            none_claimed,
            ==_refl g.quota_key,
          ))
  ]

  adopt_rumor-IsReadyFor :
      (s : RegistryStore) (r : RegistrationRumor) (rs : List RegistrationRumor)
      → IsReadyFor s (r ∷ rs)
      → IsAcceptable x now r
      → All (Differ r) rs
      → IsReadyFor (adopt_rumor x s r now).0 rs
  adopt_rumor-IsReadyFor s r rs h a d = record {
    ready = λ q.
        let step = claims_of-adopt_rumor x now q s r a in
        elim (Bool-cases (host r == q)) [
          | inl e ↦
              subst (λ m. IsReady x now m rs) (sym (step ∙ rw (e) refl))
                (keep-IsReady x now r (claims_of q s) rs (h.ready q) a d)
          | inr e ↦
              subst (λ m. IsReady x now m rs) (sym (step ∙ rw (e) refl))
                (record {
                  holding = (h.ready q).holding;
                  bounded = (h.ready q).bounded;
                  fresh = (h.ready q).fresh.1;
                })
        ];
    keyed = adopt_rumor-AllKeyed x s r now h.keyed;
    mirrored =
        adopt_rumor-IsMirrored x now s r a (h.ready (host r)).holding (h.keyed (host r))
          (h.ready (host r)).fresh.0 h.mirrored (fresh_name_free s r rs h);
  }

  adopt_all-IsReadyFor :
      (s : RegistryStore) (rs : List RegistrationRumor)
      → IsReadyFor s rs
      → All (IsAcceptable x now) rs
      → Pair Differ rs
      → IsReadyFor (adopt_all x s rs now) []
  unfolding adopt_all
  adopt_all-IsReadyFor s [] h a d = h
  adopt_all-IsReadyFor s (r ∷ rs) h a d =
      adopt_all-IsReadyFor (adopt_rumor x s r now).0 rs (adopt_rumor-IsReadyFor s r rs h a.0 d.0)
        a.1 d.1

  new-IsReadyFor : (rs : List RegistrationRumor) → IsReadyFor new rs
  unfolding new lookup sort_by
  new-IsReadyFor rs = record {
    ready = λ q. record {
      holding = record { keyed = tt; acceptable = tt; differ = tt };
      bounded = refl;
      fresh = fresh_of_none x now rs;
    };
    keyed = λ q. (tt, tt);
    mirrored = record { once = tt; mirror = λ q d. refl };
  }

  -- After a node with an empty store adopted authorized, live claims on different names, a lookup
  -- of a name gives for each host the lease of that host's claim on the name, if it is one of the
  -- host's first five, and no other.
  pub find-adopt_all :
      (q : Text) (d : DomainName) (rs : List RegistrationRumor)
      → All (IsAcceptable x now) rs
      → Pair Differ rs
      → lease_of q (find (adopt_all x new rs now) d)
        ≡ Option.map (λ r. registration_from_rumor r q) (claim_on d (first_five q rs))
  unfolding find
  find-adopt_all q d rs a p =
      let s = adopt_all x new rs now in
      let done = adopt_all-IsReadyFor new rs (new-IsReadyFor rs) a p in
      let m = claims_of q s in
      let sorted : claim_on d (sort_by claim_order (values m)) ≡ lookup d m =
        sym (
          claim_on-permutes d (permutes_sym (sort_by-permutes_self claim_order (values m)))
            (done.ready q).holding.differ)
        ∙ claim_on-values d m (done.keyed q).0 in
      done.mirrored.mirror q d
      ∙ ap (Option.map (λ r. registration_from_rumor r q))
          (sym sorted ∙ ap (claim_on d) (leases_of-adopt_all x now q rs a p))

  -- Two nodes with empty stores that adopt the same claims, authorized, live and on different
  -- names, in any two orders answer every lookup alike.
  pub find_in_any_order :
      (d : DomainName) (rs ps : List RegistrationRumor)
      → Permᴰ rs ps
      → All (IsAcceptable x now) rs
      → Pair Differ rs
      → find (adopt_all x new rs now) d ≡ find (adopt_all x new ps now) d
  find_in_any_order d rs ps e a p =
      lease_of_ext (find (adopt_all x new rs now) d) (find (adopt_all x new ps now) d) (λ q.
        find-adopt_all q d rs a p
        ∙ ap (λ five. Option.map (λ r. registration_from_rumor r q) (claim_on d five))
            (first_five_in_any_order x now q rs ps e a p)
        ∙ sym (
            find-adopt_all q d ps (All-permutes (IsAcceptable x now) e a)
              (Pair-permutes Differ Differ-flip e p)))
