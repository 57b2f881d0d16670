-- ===== src/Wire/Tests.antt =====
-- Instances for crates/binda-core/src/wire.rs.
use binda.Prelude.{ℕ, ◌≤◌, ◌≡◌, refl, sym, some, List, [], ◌∷◌, length, nat_eq, list_eq}
use binda.Wire.{Json, IsJson, ok, encode, decode, max_datagram_bytes, decode-encode, limited}

-- Bytes as themselves.
abbrev plain : Json (List ℕ)
plain = record { to_vec = λ m. some m; from_slice = λ bytes. some bytes }

abbrev frame : List ℕ
frame = 1 ∷ 2 ∷ []

plain-IsJson : IsJson plain
plain-IsJson = record { from_slice-to_vec = λ m bytes h. sym h }

encoded : encode plain frame ≡ ok frame
unfolding encode limited
encoded = refl

decode-encode_example : (length frame ≤ max_datagram_bytes) × (decode plain frame ≡ ok frame)
decode-encode_example = decode-encode plain frame frame plain-IsJson encoded
