-- ===== src/ClientApi/Messages.antt =====
-- A signature covers one request only: crates/binda-core/src/client_api.rs.
use binda.Prelude.{
  ℕ, ◌^◌, ◌<◌, ◌≡◌, refl, ◌≢◌, Bool, true, ◌&&◌, [], ◌∷◌, ◌++◌, arith, nat_eq, list_eq,
}
use binda.Text.{Text, IsText, codes, is_scalar}
use binda.Text.Decimal.{decimal, decimal-Avoids, decimal-IsText, read_decimal-decimal, last_field}
use binda.Text.Utf8.{as_bytes, as_bytes-injective, encode_char}
use binda.Domain.{DomainName}
use binda.ClientApi.{probe_message, register_message}

IsText-append : (s t : Text) → IsText s → IsText t → IsText (s ++ t)
IsText-append [] t h k = k
IsText-append (c ∷ s) t h k = (h.0, IsText-append s t h.1 k)

abbrev all_scalar : Text → Bool
all_scalar [] = true
all_scalar (c ∷ s) = is_scalar c && all_scalar s

IsText-of_all : (s : Text) → all_scalar s ≡ true → IsText s
IsText-of_all [] h = tt
IsText-of_all (c ∷ s) h = ground (arith, IsText-of_all s)

decimal-injective : (m n : ℕ) → m < 2 ^ 64 → n < 2 ^ 64 → decimal m ≡ decimal n → m ≡ n
decimal-injective m n hm hn e = cc (read_decimal-decimal m hm, read_decimal-decimal n hn)

prefix_injective : (p s t : Text) → p ++ s ≡ p ++ t → s ≡ t
prefix_injective [] s t e = e
prefix_injective (c ∷ p) s t e = prefix_injective p s t (ground arith)

register_text : DomainName → ℕ → Text
register_text d t = codes "binda-register:" ++ (d ++ (b':' ∷ decimal t))

register_text-IsText : (d : DomainName) (t : ℕ) → IsText d → IsText (register_text d t)
unfolding register_text
register_text-IsText d t h =
    IsText-append (codes "binda-register:") (d ++ (b':' ∷ decimal t))
      (IsText-of_all (codes "binda-register:") refl)
      (IsText-append d (b':' ∷ decimal t) h (refl, decimal-IsText t))

-- Two registration requests have the same signed bytes only if they are for the same name at the
-- same time, whatever characters the names hold.
pub register_message-injective :
    (d e : DomainName) (s t : ℕ)
    → IsText d
    → IsText e
    → s < 2 ^ 64
    → t < 2 ^ 64
    → register_message d s ≡ register_message e t
    → (d ≡ e) × (s ≡ t)
unfolding register_message register_text
register_message-injective d e s t hd he hs ht eq =
    let same =
      prefix_injective (codes "binda-register:") (d ++ (b':' ∷ decimal s)) (e ++ (b':' ∷ decimal t))
        (as_bytes-injective (register_text d s) (register_text e t) (register_text-IsText d s hd)
          (register_text-IsText e t he) eq) in
    let (names, stamps) =
      last_field b':' d e (decimal s) (decimal t) (decimal-Avoids s) (decimal-Avoids t) same in
    (names, decimal-injective s t hs ht stamps)

-- Two probes have the same signed bytes only if they are of the same time.
pub probe_message-injective :
    (s t : ℕ) → s < 2 ^ 64 → t < 2 ^ 64 → probe_message s ≡ probe_message t → s ≡ t
unfolding probe_message
probe_message-injective s t hs ht eq = decimal-injective s t hs ht (
    prefix_injective (codes "binda-probe:") (decimal s) (decimal t) (
      as_bytes-injective (codes "binda-probe:" ++ decimal s) (codes "binda-probe:" ++ decimal t)
        (IsText-append (codes "binda-probe:") (decimal s)
          (IsText-of_all (codes "binda-probe:") refl) (decimal-IsText s))
        (IsText-append (codes "binda-probe:") (decimal t)
          (IsText-of_all (codes "binda-probe:") refl) (decimal-IsText t))
        eq))

-- A signature over a probe is no signature over a registration.
pub probe_message-ne-register_message :
    (s t : ℕ) (d : DomainName) → probe_message s ≢ register_message d t
unfolding probe_message register_message as_bytes encode_char
probe_message-ne-register_message s t d e = cc
