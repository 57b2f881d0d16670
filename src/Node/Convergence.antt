-- ===== src/Node/Convergence.antt =====
-- Replicas that adopt the same leases keep the same ones: crates/binda/src/node.rs, the loop of
-- `handle_gossip` over `adopt_rumor`.
use binda.Prelude.{
  ℕ, ◌≡◌, refl, sym, ap, ◌∙◌, inl, inr, Bool, List, [], ◌∷◌, Bool-cases, ◌==◌, nat_eq, list_eq,
  take,
}
use binda.Prelude.All.{All}
use binda.Prelude.Sort.{insert_sorted, sort_by}
use binda.Prelude.Map.{HashMap, values, lookup, insert}
use mathlib.Core.List.{Permᴰ}
use binda.Text.{Text}
use binda.Domain.{DomainName}
use binda.Client.{Externals}
use binda.Gossip.{RegistrationRumor}
use binda.Prelude.Ordered.{filter, take_twice, sort_by-filter}
use binda.Prelude.Rearranged.{
  Pair, NoTies, All-filter, Pair-filter, pour, pour-nil, take-pour, sort_by-permutes,
}
use binda.Store.{RegistryStore, claim_order, new}
use binda.Store.Evidence.{adopt_rumor}
use binda.Store.ClaimOrder.{claim_order-IsOrder}
use binda.Store.Names.{
  IsAcceptable, Differ, Differ-flip, host, of_host, first_five, claims_of, leases_of, fresh-Apart,
}
use binda.Store.Retained.{
  IsHolding, keep, claims_of-adopt_rumor, leases_of-keep, keep_fresh, insert-IsHolding,
  keep-IsHolding,
}
use binda.Node.{adopt_all}

-- The host's claims in their order, at most five.
abbrev sorted : HashMap DomainName RegistrationRumor → List RegistrationRumor
sorted m = sort_by claim_order (values m)

module _ (x : Externals) (now : ℕ) where
  -- The claims of one host, fit for a list of claims that are still to come.
  pub record IsReady (m : HashMap DomainName RegistrationRumor) (rs : List RegistrationRumor)
      : Type 0 where
    pub holding : IsHolding x now m
    pub bounded : take 5 (sorted m) ≡ sorted m
    pub fresh : All (λ r. All (Differ r) (values m)) rs

  fresh-All :
      (r : RegistrationRumor) (m : HashMap DomainName RegistrationRumor)
      (rs : List RegistrationRumor)
      → IsHolding x now m
      → IsAcceptable x now r
      → All (Differ r) (values m)
      → All (Differ r) rs
      → All (λ p. All (Differ p) (values m)) rs
      → All (λ p. All (Differ p) (values (keep x now (insert r.domain r m)))) rs
  fresh-All r m [] h a f d g = tt
  fresh-All r m (p ∷ ps) h a f d g =
      (keep_fresh x now p r m h a f (Differ-flip r p d.0) g.0, fresh-All r m ps h a f d.1 g.1)

  pub keep-IsReady :
      (r : RegistrationRumor) (m : HashMap DomainName RegistrationRumor)
      (rs : List RegistrationRumor)
      → IsReady m (r ∷ rs)
      → IsAcceptable x now r
      → All (Differ r) rs
      → IsReady (keep x now (insert r.domain r m)) rs
  keep-IsReady r m rs h a d =
      let f = h.fresh.0 in
      record {
        holding =
            keep-IsHolding x now (insert r.domain r m) (insert-IsHolding x now r m h.holding a f);
        bounded =
            rw (leases_of-keep x now r m h.holding a f)
              (take_twice 5 (insert_sorted claim_order r (sorted m)));
        fresh = fresh-All r m rs h.holding a f d h.fresh.1;
      }

  sorted-adopt_all :
      (q : Text) (s : RegistryStore) (rs : List RegistrationRumor)
      → IsReady (claims_of q s) rs
      → All (IsAcceptable x now) rs
      → Pair Differ rs
      → sorted (claims_of q (adopt_all x s rs now))
        ≡ take 5 (pour claim_order claim_order-IsOrder (of_host q rs) (sorted (claims_of q s)))
  unfolding adopt_all
  sorted-adopt_all q s [] h a d = sym h.bounded
  sorted-adopt_all q s (r ∷ rs) h a d =
      let after = (adopt_rumor x s r now).0 in
      let m = claims_of q s in
      let step = claims_of-adopt_rumor x now q s r a.0 in
      let poured : List RegistrationRumor → List RegistrationRumor =
        λ ls. take 5 (pour claim_order claim_order-IsOrder (of_host q rs) ls) in
      elim (Bool-cases (host r == q)) [
        | inl e ↦
            let same : claims_of q after ≡ keep x now (insert r.domain r m) = step ∙ rw (e) refl in
            sorted-adopt_all q after rs (rw same (keep-IsReady r m rs h a.0 d.0)) a.1 d.1
            ∙ ap (λ c. poured (sorted c)) same
            ∙ ap poured (leases_of-keep x now r m h.holding a.0 h.fresh.0)
            ∙ take-pour claim_order claim_order-IsOrder 5 (of_host q rs)
                (insert_sorted claim_order r (sorted m))
            ∙ rw (e) refl
        | inr e ↦
            let same : claims_of q after ≡ m = step ∙ rw (e) refl in
            let ready : IsReady m rs = record {
              holding = h.holding;
              bounded = h.bounded;
              fresh = h.fresh.1;
            } in
            sorted-adopt_all q after rs (rw same ready) a.1 d.1
            ∙ ap (λ c. poured (sorted c)) same
            ∙ rw (e) refl
      ]

  pub fresh_of_none : (rs : List RegistrationRumor) → All (λ r. All (Differ r) []) rs
  fresh_of_none [] = tt
  fresh_of_none (r ∷ rs) = (tt, fresh_of_none rs)

  NoTies-of_different :
      (rs : List RegistrationRumor)
      → All (IsAcceptable x now) rs
      → Pair Differ rs
      → NoTies claim_order rs
  NoTies-of_different [] a d = tt
  NoTies-of_different (r ∷ rs) a d =
      (fresh-Apart x now r rs a.0.2 a.1 d.0, NoTies-of_different rs a.1 d.1)

  -- A node with an empty store that adopts authorized, live claims on different names keeps of each
  -- host the first five of the host's claims, in the order of the token and then of the name.
  pub leases_of-adopt_all :
      (q : Text) (rs : List RegistrationRumor)
      → All (IsAcceptable x now) rs
      → Pair Differ rs
      → leases_of q (adopt_all x new rs now) ≡ first_five q rs
  unfolding new sort_by lookup
  leases_of-adopt_all q rs a d =
      let mine = of_host q rs in
      let is_mine : RegistrationRumor → Bool = λ r. host r == q in
      sorted-adopt_all q new rs
        (record {
          holding = record { keyed = tt; acceptable = tt; differ = tt };
          bounded = refl;
          fresh = fresh_of_none rs;
        })
        a d
      ∙ ap (take 5) (
          pour-nil claim_order claim_order-IsOrder mine (
            NoTies-of_different mine (All-filter (IsAcceptable x now) is_mine rs a)
              (Pair-filter Differ is_mine rs d)))

  -- The order in which claims arrive has no effect on which are the first five of their host.
  pub first_five_in_any_order :
      (q : Text) (rs ps : List RegistrationRumor)
      → Permᴰ rs ps
      → All (IsAcceptable x now) rs
      → Pair Differ rs
      → first_five q rs ≡ first_five q ps
  first_five_in_any_order q rs ps e a d =
      let is_mine : RegistrationRumor → Bool = λ r. host r == q in
      ap (take 5) (
        sort_by-filter claim_order claim_order-IsOrder is_mine rs
        ∙ ap (filter is_mine)
            (sort_by-permutes claim_order claim_order-IsOrder e (NoTies-of_different rs a d))
        ∙ sym (sort_by-filter claim_order claim_order-IsOrder is_mine ps))
