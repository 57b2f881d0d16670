-- ===== src/Store/Retained.antt =====
-- Which claims of a host stay when one more arrives: crates/binda-core/src/store.rs, `adopt_rumor`
-- and `reconcile_quota`.
use binda.Prelude.{
  ℕ, ◌≡◌, refl, ap, ◌∙◌, inl, inr, Bool, ◌&&◌, [], ◌∷◌, ◌++◌, arith, if◌then◌else◌, Option-cases,
  ◌==◌, nat_eq, list_eq, list_eq_iff, ==_refl,
}
use binda.Prelude.All.{All}
use binda.Prelude.Ordered.{filter, sort_by-filter}
use binda.Prelude.Rearranged.{Pair, sort_by-append_one}
use binda.Store.{
  RegistryStore, claim_order, live_claims, winners_of, reconcile_quota, Externals,
  RegistrationRumor, Text, HashMap, sort_by, take, DomainName, values, lookup, contains, insert,
  retain, contains_key,
}
use binda.Prelude.Map.{
  HashMap, lookup, values, insert, retain, lookup-insert, contains_key-insert, contains_key-lookup,
}
use binda.Gossip.{contains, rumor_domains}
use binda.Text.{Text}
use binda.Prelude.Rearranged.{All-filter, All-append_one, Pair-filter, Pair-append_one}
use binda.Store.Claims.{IsKeyed, live_claims-IsKeyed, retain-IsKeyed}
use binda.Store.Evidence.{adopt_rumor, add_claim}
use binda.Prelude.Sort.{insert_sorted}
use binda.Store.ClaimOrder.{claim_order-IsOrder}
use binda.Store.Names.{
  host, claims_of, Differ, Differ-flip-All, IsAcceptable, fresh-Apart, filter_first_few,
  values-retain, values-insert_new, insert-IsKeyed, sort_by-Pair,
}

module _ (x : Externals) (now : ℕ) where
  pub live_claims_acceptable :
      (m : HashMap DomainName RegistrationRumor)
      → All (IsAcceptable x now) (values m)
      → live_claims x now m ≡ m
  unfolding live_claims retain
  live_claims_acceptable [] h = refl
  live_claims_acceptable ((d, r) ∷ m) h = ground (arith, live_claims_acceptable m h.1, h.0.0, h.0.1)

  -- What a reconciliation leaves of a host's claims.
  abbrev pub keep : HashMap DomainName RegistrationRumor → HashMap DomainName RegistrationRumor
  keep m =
      let live = live_claims x now m in
      retain (λ d _. contains (rumor_domains (winners_of live)) d) live

  -- Claims of one host that are all acceptable, each under its own name and no two on one.
  pub record IsHolding (m : HashMap DomainName RegistrationRumor) : Type 0 where
    pub keyed : IsKeyed m
    pub acceptable : All (IsAcceptable x now) (values m)
    pub differ : Pair Differ (values m)

  abbrev is_winner : HashMap DomainName RegistrationRumor → RegistrationRumor → Bool
  is_winner m r = contains (rumor_domains (winners_of m)) r.domain

  values-keep :
      (m : HashMap DomainName RegistrationRumor)
      → IsHolding m
      → values (keep m) ≡ filter (is_winner m) (values m)
  values-keep m h =
      rw (live_claims_acceptable m h.acceptable)
        (values-retain (contains (rumor_domains (winners_of m))) m h.keyed)

  pub keep-IsHolding : (m : HashMap DomainName RegistrationRumor) → IsHolding m → IsHolding (keep m)
  keep-IsHolding m h = record {
    keyed =
        retain-IsKeyed (λ d _. contains (rumor_domains (winners_of (live_claims x now m))) d)
          (live_claims x now m) (live_claims-IsKeyed x now m h.keyed);
    acceptable =
        rw (values-keep m h)
          (All-filter (IsAcceptable x now) (is_winner m) (values m) h.acceptable);
    differ = rw (values-keep m h) (Pair-filter Differ (is_winner m) (values m) h.differ);
  }

  sort_by-keep :
      (m : HashMap DomainName RegistrationRumor)
      → IsHolding m
      → sort_by claim_order (values (keep m)) ≡ take 5 (sort_by claim_order (values m))
  unfolding winners_of
  sort_by-keep m h =
      ap (sort_by claim_order) (values-keep m h)
      ∙ sort_by-filter claim_order claim_order-IsOrder (is_winner m) (values m)
      ∙ filter_first_few 5 (sort_by claim_order (values m)) (sort_by-Pair (values m) h.differ)

  pub insert-IsHolding :
      (r : RegistrationRumor) (m : HashMap DomainName RegistrationRumor)
      → IsHolding m
      → IsAcceptable x now r
      → All (Differ r) (values m)
      → IsHolding (insert r.domain r m)
  insert-IsHolding r m h a f =
      let e = values-insert_new r m h.keyed f in
      record {
        keyed = insert-IsKeyed r m h.keyed;
        acceptable = rw e (All-append_one (IsAcceptable x now) (values m) r h.acceptable a);
        differ =
            rw e (Pair-append_one Differ (values m) r h.differ (Differ-flip-All r (values m) f));
      }

  pub claims_of-reconcile_quota :
      (quota q : Text) (s : RegistryStore)
      → claims_of q (reconcile_quota x quota now s) ≡ (
          if contains_key quota s.quota_claims && quota == q
          then keep (claims_of q s)
          else claims_of q s)
  unfolding reconcile_quota
  claims_of-reconcile_quota quota q s = elim (Option-cases (lookup quota s.quota_claims)) [
    | inl absent ↦
        rw (absent, reconcile_quota)
          (ground (arith, contains_key-lookup quota s.quota_claims, absent))
    | inr (m, held) ↦
        rw (held, reconcile_quota)
          (ground (
            arith,
            held,
            contains_key-lookup quota s.quota_claims,
            list_eq_iff quota q,
            lookup-insert quota q (keep m) s.quota_claims,
          ))
  ]

  pub add_claim_lem :
      (q : Text) (s : RegistryStore) (r : RegistrationRumor)
      → add_claim q r s.quota_claims ≡ insert q (insert r.domain r (claims_of q s)) s.quota_claims
  unfolding add_claim
  add_claim_lem q s r = elim (Option-cases (lookup q s.quota_claims)) [
    | inl absent ↦ rw (absent, add_claim, claims_of) refl
    | inr (m, held) ↦ rw (held, add_claim, claims_of) refl
  ]

  pub claims_of-add_claim :
      (q : Text) (s : RegistryStore) (r : RegistrationRumor)
      → claims_of q (record s { quota_claims = add_claim (host r) r s.quota_claims })
        ≡ (if host r == q then insert r.domain r (claims_of q s) else claims_of q s)
  claims_of-add_claim q s r = rw (add_claim_lem (host r) s r) (
      ground (
        arith,
        list_eq_iff (host r) q,
        lookup-insert (host r) q (insert r.domain r (claims_of (host r) s)) s.quota_claims,
      ))

  -- The host's claims after one more was adopted.
  pub claims_of-adopt_rumor :
      (q : Text) (s : RegistryStore) (r : RegistrationRumor)
      → IsAcceptable x now r
      → claims_of q (adopt_rumor x s r now).0
        ≡ (if host r == q then keep (insert r.domain r (claims_of q s)) else claims_of q s)
  unfolding adopt_rumor
  claims_of-adopt_rumor q s r a =
      rw
        (
          a.0,
          a.1,
          claims_of-reconcile_quota (host r) q
              (record s { quota_claims = add_claim (host r) r s.quota_claims }),
        )
        (ground (
          arith,
          claims_of-add_claim q s r,
          add_claim_lem (host r) s r,
          contains_key-insert (host r) (host r) (insert r.domain r (claims_of (host r) s))
              s.quota_claims,
          ==_refl (host r),
        ))

  -- A fresh claim takes its place among the host's first five.
  pub leases_of-keep :
      (r : RegistrationRumor) (m : HashMap DomainName RegistrationRumor)
      → IsHolding m
      → IsAcceptable x now r
      → All (Differ r) (values m)
      → sort_by claim_order (values (keep (insert r.domain r m)))
        ≡ take 5 (insert_sorted claim_order r (sort_by claim_order (values m)))
  leases_of-keep r m h a f =
      sort_by-keep (insert r.domain r m) (insert-IsHolding r m h a f)
      ∙ ap (λ vs. take 5 (sort_by claim_order vs)) (values-insert_new r m h.keyed f)
      ∙ ap (take 5) (
          sort_by-append_one claim_order claim_order-IsOrder (values m) r
            (fresh-Apart x now r (values m) a.2 h.acceptable f))

  -- The host's claims stay fit for the claims that are still to come.
  pub keep_fresh :
      (p : RegistrationRumor) (r : RegistrationRumor) (m : HashMap DomainName RegistrationRumor)
      → IsHolding m
      → IsAcceptable x now r
      → All (Differ r) (values m)
      → Differ p r
      → All (Differ p) (values m)
      → All (Differ p) (values (keep (insert r.domain r m)))
  keep_fresh p r m h a f e g =
      rw
        (
          values-keep (insert r.domain r m) (insert-IsHolding r m h a f),
          values-insert_new r m h.keyed f,
        )
        (All-filter (Differ p) (is_winner (insert r.domain r m)) (values m ++ (r ∷ []))
          (All-append_one (Differ p) (values m) r g e))
