-- ===== src/Cli/Flags.antt =====
-- What the arguments can switch off: crates/binda/src/main.rs.
use binda.Prelude.{
  ◌≡◌, refl, ◌∙◌, ◌≢◌, inl, inr, false, Option, List, [], ◌∷◌, arith, Bool-cases, Option-cases,
  ◌==◌, nat_eq, list_eq,
}
use binda.Text.{Text, codes}
use binda.Cli.{
  Args, Flag, gossip, resolver, api, dns, peer, insecure_skip_rdns_verification, unrecognized,
  flag_of, parsed, store_addr, takes_address, set_flag, parse_loop, parse_args_from,
}

-- The text is not among the arguments.
abbrev pub Lacks : Text → List Text → Type 0
Lacks t [] = Unit
Lacks t (s ∷ ss) = ((s == t) ≡ false) × Lacks t ss

abbrev pub insecure : Text
insecure = codes "--insecure-skip-rdns-verification"

flag_of-insecure :
    (s : Text) → (s == insecure) ≡ false → flag_of s ≢ insecure_skip_rdns_verification
unfolding flag_of
flag_of-insecure s h e = ground (arith, h, e)

-- Setting a flag other than the insecure one leaves the verification on.
set_flag-secure :
    {K : Type 0} (f : Flag) (args : Args K)
    → f ≢ insecure_skip_rdns_verification
    → (set_flag f args).insecure_skip_rdns_verification ≡ args.insecure_skip_rdns_verification
unfolding set_flag
set_flag-secure insecure_skip_rdns_verification args n = absurd (n refl)
set_flag-secure gossip args n = refl
set_flag-secure resolver args n = refl
set_flag-secure api args n = refl
set_flag-secure dns args n = refl
set_flag-secure peer args n = refl
set_flag-secure unrecognized args n = refl

store_addr-secure :
    {K : Type 0} (f : Flag) (addr : K) (args : Args K)
    → (store_addr f addr args).insecure_skip_rdns_verification
      ≡ args.insecure_skip_rdns_verification
unfolding store_addr
store_addr-secure gossip addr args = refl
store_addr-secure resolver addr args = refl
store_addr-secure api addr args = refl
store_addr-secure dns addr args = refl
store_addr-secure peer addr args = refl
store_addr-secure insecure_skip_rdns_verification addr args = refl
store_addr-secure unrecognized addr args = refl

parse_loop-secure :
    {K : Type 0} (parse : Text → Option K) (args result : Args K) (ss : List Text)
    → Lacks insecure ss
    → parse_loop parse args ss ≡ parsed result
    → result.insecure_skip_rdns_verification ≡ args.insecure_skip_rdns_verification
unfolding parse_loop
parse_loop-secure parse args result [] l h = ground (arith, h)
parse_loop-secure parse args result (flag ∷ []) l h =
    let off = set_flag-secure (flag_of flag) args (flag_of-insecure flag l.0) in
    elim (Bool-cases (takes_address (flag_of flag))) [
      | inl q ↦ absurd (ground (arith, q, h))
      | inr q ↦ ground (arith, q, h, off)
    ]
parse_loop-secure parse args result (flag ∷ value ∷ rest) l h =
    let f = flag_of flag in
    elim (Bool-cases (takes_address f)) [
      | inr q ↦
          parse_loop-secure parse (set_flag f args) result (value ∷ rest) l.1 (ground (arith, q, h))
          ∙ set_flag-secure f args (flag_of-insecure flag l.0)
      | inl q ↦ elim (Option-cases (parse value)) [
        | inl p ↦ absurd (ground (arith, q, p, h))
        | inr (addr, p) ↦
            parse_loop-secure parse (store_addr f addr args) result rest l.1.1
              (ground (arith, q, p, h))
            ∙ store_addr-secure f addr args
      ]
    ]

-- Unless the flag that switches the verification of hostnames off is among the arguments, word for
-- word, a node that starts has it on.
pub parse_args_from-secure :
    {K : Type 0} (parse : Text → Option K) (gossip_addr resolver_addr api_addr : K) (ss : List Text)
    (result : Args K)
    → Lacks insecure ss
    → parse_args_from parse gossip_addr resolver_addr api_addr ss ≡ parsed result
    → result.insecure_skip_rdns_verification ≡ false
unfolding parse_args_from
parse_args_from-secure parse g r a ss result l h = parse_loop-secure parse _ result ss l h
