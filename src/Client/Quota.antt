-- ===== src/Client/Quota.antt =====
-- The keys under which clients and hosts are counted: crates/binda-core/src/client.rs.
use binda.Prelude.{
  ℕ, ◌/◌, ◌%◌, ◌<◌, ◌≡◌, refl, Bool, List, [], ◌∷◌, ◌++◌, map, arith, length, ◌==◌, nat_eq, list_eq,
}
use binda.Prelude.Bytes.{IsBytes}
use binda.Text.{
  Text, trim_end_matches, drop_while, to_ascii_lowercase, ascii_lower, is_whitespace, hex_digit,
}
use binda.Client.{quota_key_of, hex_encode, key, ClientIdentity}

-- A test that letter case does not change.
abbrev Caseless : (ℕ → Bool) → Type 0
Caseless p = (c : ℕ) → p (ascii_lower c) ≡ p c

drop_while-lower :
    (p : ℕ → Bool) (s : Text)
    → Caseless p
    → drop_while p (map ascii_lower s) ≡ map ascii_lower (drop_while p s)
unfolding drop_while
drop_while-lower p [] h = refl
drop_while-lower p (c ∷ s) h = ground (arith, drop_while-lower p s h, h c)

trim_end_matches-lower :
    (p : ℕ → Bool) (s : Text)
    → Caseless p
    → trim_end_matches p (map ascii_lower s) ≡ map ascii_lower (trim_end_matches p s)
unfolding trim_end_matches
trim_end_matches-lower p [] h = refl
trim_end_matches-lower p (c ∷ s) h = ground (arith, trim_end_matches-lower p s h, h c)

is_whitespace-Caseless : Caseless is_whitespace
unfolding is_whitespace ascii_lower
is_whitespace-Caseless c = ground arith

dot-Caseless : Caseless (λ c. c == b'.')
unfolding ascii_lower
dot-Caseless c = ground arith

lower_idem : (s : Text) → map ascii_lower (map ascii_lower s) ≡ map ascii_lower s
unfolding ascii_lower
lower_idem [] = refl
lower_idem (c ∷ s) = ground (arith, lower_idem s)

-- Letter case does not split a host's quota: a hostname and its lower-case form have one quota key.
pub quota_key_of-lower : (rdns : Text) → quota_key_of (to_ascii_lowercase rdns) ≡ quota_key_of rdns
unfolding quota_key_of
quota_key_of-lower rdns = simp (
  drop_while-lower is_whitespace rdns is_whitespace-Caseless,
  trim_end_matches-lower is_whitespace (drop_while is_whitespace rdns) is_whitespace-Caseless,
  trim_end_matches-lower (λ c. c == b'.')
      (trim_end_matches is_whitespace (drop_while is_whitespace rdns)) dot-Caseless,
  lower_idem,
)

hex_digit-injective : (a b : ℕ) → a < 16 → b < 16 → hex_digit a ≡ hex_digit b → a ≡ b
unfolding hex_digit
hex_digit-injective a b ha hb e = ground arith

hex_encode-injective :
    (k k' : List ℕ) (s s' : Text)
    → IsBytes k
    → IsBytes k'
    → length k ≡ length k'
    → hex_encode k ++ s ≡ hex_encode k' ++ s'
    → (k ≡ k') × (s ≡ s')
unfolding hex_encode
hex_encode-injective [] [] s s' h h' l e = (refl, e)
hex_encode-injective [] (b' ∷ k') s s' h h' l e = absurd (omega arith)
hex_encode-injective (b ∷ k) [] s s' h h' l e = absurd (omega arith)
hex_encode-injective (b ∷ k) (b' ∷ k') s s' h h' l e = ground (
  arith,
  hex_encode-injective k k' s s' h.1 h'.1,
  hex_digit-injective (b / 16) (b' / 16),
  hex_digit-injective (b % 16) (b' % 16),
)

-- Clients with 32-byte keys have one string key only if they are one client: a hostname does not
-- stand for another key's client, and no two pairs run together.
pub key-injective :
    (c d : ClientIdentity)
    → IsBytes c.verifying_key
    → IsBytes d.verifying_key
    → length c.verifying_key ≡ 32
    → length d.verifying_key ≡ 32
    → key c ≡ key d
    → c ≡ d
unfolding key
key-injective c d hc hd lc ld e =
    ground
      (arith, hex_encode-injective c.verifying_key d.verifying_key (b'@' ∷ c.rdns) (b'@' ∷ d.rdns))
