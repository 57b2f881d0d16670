-- ===== src/Store/Names.antt =====
-- Claims of a host by their names: crates/binda-core/src/store.rs, the second `retain` of
-- `reconcile_quota`.
use binda.Prelude.{
  ℕ, zero, suc, ◌≡◌, refl, ap, ◌∙◌, Bool, true, false, none, some, List, [], ◌∷◌, ◌++◌, arith, ◌==◌,
  nat_eq, list_eq, list_eq_iff, ==_refl,
}
use binda.Prelude.All.{All}
use binda.Prelude.Ordered.{filter}
use binda.Prelude.Rearranged.{Pair, Apart, sort_by-permutes_self}
use binda.Store.{
  RegistryStore, claim_order, Externals, RegistrationRumor, Text, HashMap, is_authorized,
  quota_key_of, sort_by, take, DomainName, lease_is_live, values, lookup, contains, insert, retain,
}
use binda.Prelude.Map.{HashMap, lookup, values, insert, retain}
use binda.Gossip.{contains, rumor_domains}
use binda.Text.{Text, IsText}
use binda.Prelude.Rearranged.{permutes_sym, Pair-permutes}
use binda.Store.Claims.{IsKeyed}
use binda.Store.ClaimOrder.{claim_order-eq}

-- The host that a claim counts against.
abbrev pub host : RegistrationRumor → Text
host r = quota_key_of r.rdns

abbrev pub of_host : Text → List RegistrationRumor → List RegistrationRumor
of_host q rs = filter (λ r. host r == q) rs

-- What a host is to keep: of all its claims, the first five by token and name.
abbrev pub first_five : Text → List RegistrationRumor → List RegistrationRumor
first_five q rs = take 5 (sort_by claim_order (of_host q rs))

-- What the store keeps of the host's claims, in the order of the claims.
abbrev pub claims_of : Text → RegistryStore → HashMap DomainName RegistrationRumor
claims_of q s = elim (lookup q s.quota_claims) [ some m ↦ m | none ↦ [] ]

abbrev pub leases_of : Text → RegistryStore → List RegistrationRumor
leases_of q s = sort_by claim_order (values (claims_of q s))

-- The claims are on different names.
abbrev pub Differ : RegistrationRumor → RegistrationRumor → Type 0
Differ a b = (a.domain == b.domain) ≡ false

module _ (x : Externals) (now : ℕ) where
  -- The claim is signed by its owner, within its liveness window, and on a name of text.
  abbrev pub IsAcceptable : RegistrationRumor → Type 0
  IsAcceptable r = (is_authorized x r ≡ true) × (lease_is_live r now ≡ true) × IsText r.domain

  pub fresh-Apart :
      (r : RegistrationRumor) (cs : List RegistrationRumor)
      → IsText r.domain
      → All IsAcceptable cs
      → All (Differ r) cs
      → Apart claim_order r cs
  fresh-Apart r [] t h k = tt
  fresh-Apart r (c ∷ cs) t h k = (
    ground (arith, claim_order-eq r c t h.0.2, list_eq_iff r.domain c.domain, k.0),
    fresh-Apart r cs t h.1 k.1,
  )

-- Lists of claims and their names.
filter-none : (rs : List RegistrationRumor) → filter (λ r. contains [] r.domain) rs ≡ []
unfolding contains
filter-none [] = refl
filter-none (r ∷ rs) = filter-none rs

filter_agree :
    (p q : RegistrationRumor → Bool) (rs : List RegistrationRumor)
    → All (λ r. p r ≡ q r) rs
    → filter p rs ≡ filter q rs
filter_agree p q [] h = refl
filter_agree p q (r ∷ rs) h = rw (h.0, filter_agree p q rs h.1) refl

contains_skip :
    (r : RegistrationRumor) (ds : List DomainName) (rs : List RegistrationRumor)
    → All (Differ r) rs
    → All (λ c. contains (r.domain ∷ ds) c.domain ≡ contains ds c.domain) rs
unfolding contains
contains_skip r ds [] h = tt
contains_skip r ds (c ∷ cs) h = (ground (arith, h.0), contains_skip r ds cs h.1)

contains_head : (d : DomainName) (ds : List DomainName) → contains (d ∷ ds) d ≡ true
unfolding contains
contains_head d ds = ground (arith, ==_refl d)

-- The claims on the names of the first few are the first few.
pub filter_first_few :
    (n : ℕ) (rs : List RegistrationRumor)
    → Pair Differ rs
    → filter (λ r. contains (rumor_domains (take n rs)) r.domain) rs ≡ take n rs
filter_first_few zero rs h = filter-none rs
filter_first_few (suc n) [] h = refl
filter_first_few (suc n) (r ∷ rs) h =
    let ds = rumor_domains (take n rs) in
    rw (contains_head r.domain ds) (
      ap (◌∷◌ r) (
        filter_agree (λ c. contains (r.domain ∷ ds) c.domain) (λ c. contains ds c.domain) rs
          (contains_skip r ds rs h.0)
        ∙ filter_first_few n rs h.1))

pub values-retain :
    (p : DomainName → Bool) (m : HashMap DomainName RegistrationRumor)
    → IsKeyed m
    → values (retain (λ d _. p d) m) ≡ filter (λ r. p r.domain) (values m)
unfolding retain
values-retain p [] k = refl
values-retain p ((d, r) ∷ m) k = ground (arith, values-retain p m k.1, k.0)

pub values-insert_new :
    (r : RegistrationRumor) (m : HashMap DomainName RegistrationRumor)
    → IsKeyed m
    → All (Differ r) (values m)
    → values (insert r.domain r m) ≡ values m ++ (r ∷ [])
unfolding insert
values-insert_new r [] k h = refl
values-insert_new r ((d, c) ∷ m) k h = ground (
  arith,
  values-insert_new r m k.1 h.1,
  list_eq_iff d r.domain,
  list_eq_iff r.domain c.domain,
  k.0,
  h.0,
)

pub insert-IsKeyed :
    (r : RegistrationRumor) (m : HashMap DomainName RegistrationRumor)
    → IsKeyed m
    → IsKeyed (insert r.domain r m)
unfolding insert
insert-IsKeyed r [] k = (refl, tt)
insert-IsKeyed r ((d, c) ∷ m) k = ground (arith, insert-IsKeyed r m k.1, k.0)

pub Differ-flip : (a b : RegistrationRumor) → Differ a b → Differ b a
Differ-flip a b h = ground (arith, list_eq_iff a.domain b.domain, list_eq_iff b.domain a.domain, h)

pub Differ-flip-All :
    (r : RegistrationRumor) (rs : List RegistrationRumor)
    → All (Differ r) rs
    → All (λ c. Differ c r) rs
Differ-flip-All r [] h = tt
Differ-flip-All r (c ∷ cs) h = (Differ-flip r c h.0, Differ-flip-All r cs h.1)

pub sort_by-Pair :
    (rs : List RegistrationRumor) → Pair Differ rs → Pair Differ (sort_by claim_order rs)
sort_by-Pair rs h =
    Pair-permutes Differ Differ-flip (permutes_sym (sort_by-permutes_self claim_order rs)) h
