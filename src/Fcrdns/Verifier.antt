-- ===== src/Fcrdns/Verifier.antt =====
-- What checks a claimed hostname: crates/binda-core/src/fcrdns.rs. The datagrams to and from a
-- resolver are a parameter, and the random identifiers of the queries another.
use binda.Prelude.{ℕ, Bool, true, Option, List, [], ◌∷◌, nat_eq, list_eq}
use binda.Text.{Text, codes}
use binda.Fcrdns.{encode_query}
use binda.Fcrdns.Response.{query}
use binda.Fcrdns.{IpAddr}
use binda.Fcrdns.Lookup.{Ask, is_forward_confirmed}

-- `send_and_receive`, of a resolver and a request
abbrev pub Send : Type 0
Send = Text → List ℕ → Option (List ℕ)

unfoldable pub default_resolvers : List Text
default_resolvers = codes "1.1.1.1:53" ∷ codes "8.8.8.8:53" ∷ codes "9.9.9.9:53" ∷ []

-- What each resolver sends back.
unfoldable pub replies : Send → List ℕ → List Text → List (Option (List ℕ))
replies send request [] = []
replies send request (resolver ∷ resolvers) = send resolver request ∷ replies send request resolvers

-- `query`, with the request that it encodes.
unfoldable pub ask_resolvers : Send → (Text → ℕ → ℕ) → List Text → Ask
unfolding query replies encode_query
ask_resolvers send ids resolvers name qtype =
    let id = ids name qtype in query id (replies send (encode_query id name qtype) resolvers)

pub data RdnsVerifier : Type 0 where
  fcrdns_verifier allow_all_verifier : RdnsVerifier

unfoldable pub verify : Send → (Text → ℕ → ℕ) → RdnsVerifier → IpAddr → Text → Bool
unfolding is_forward_confirmed ask_resolvers default_resolvers
verify send ids fcrdns_verifier source_ip claimed_rdns =
    is_forward_confirmed (ask_resolvers send ids default_resolvers) source_ip claimed_rdns
verify send ids allow_all_verifier source_ip claimed_rdns = true
