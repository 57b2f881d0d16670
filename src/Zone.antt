-- ===== src/Zone.antt =====
-- Zone data: crates/binda-core/src/zone.rs. TOML is another crate's: its two directions are a
-- parameter.
use binda.Prelude.{ℕ, ◌≡◌, refl, ◌⊎◌, inl, inr, List, nat_eq, list_eq}
use binda.Text.{Text}

pub record StartOfAuthority : Type 0 where
  pub primary_nameserver : Text
  pub admin_email : Text
  pub serial : ℕ
  pub refresh_secs : ℕ
  pub retry_secs : ℕ
  pub expire_secs : ℕ
  pub minimum_ttl_secs : ℕ

pub data RecordType : Type 0 where
  a aaaa cname mx txt ns : RecordType

pub record Record : Type 0 where
  pub name : Text
  pub record_type : RecordType
  pub ttl_secs : ℕ
  pub value : Text

pub record ZoneFile : Type 0 where
  pub soa : StartOfAuthority
  pub records : List Record

-- What the program calls of the toml crate: `from_str` and `to_string_pretty`, with their errors.
pub record Toml (E : Type 0) : Type 0 where
  pub from_str : Text → ZoneFile ⊎ E
  pub to_string_pretty : ZoneFile → Text ⊎ E

-- Zone data that toml writes reads back as it was.
pub record IsToml {E : Type 0} (t : Toml E) : Type 0 where
  pub from_str-to_string_pretty :
      (z : ZoneFile) (s : Text) → t.to_string_pretty z ≡ inl s → t.from_str s ≡ inl z

pub data ZoneFileError (E : Type 0) : Type 0 where
  parse : E → ZoneFileError E
  serialize : E → ZoneFileError E

unfoldable pub from_toml : {E : Type 0} → Toml E → Text → ZoneFile ⊎ ZoneFileError E
from_toml t input = elim (t.from_str input) [ inl z ↦ inl z | inr e ↦ inr (parse e) ]

unfoldable pub to_toml : {E : Type 0} → Toml E → ZoneFile → Text ⊎ ZoneFileError E
to_toml t z = elim (t.to_string_pretty z) [ inl s ↦ inl s | inr e ↦ inr (serialize e) ]

-- What was tried, and how it went.
abbrev pub Tried : {A B : Type 0} → A ⊎ B → Type 0
Tried {A} {B} r = ((a : A) × (r ≡ inl a)) ⊎ ((b : B) × (r ≡ inr b))

tried : {A B : Type 0} (r : A ⊎ B) → Tried r
tried (inl good) = inl (good, refl)
tried (inr bad) = inr (bad, refl)

-- A zone file is written so that it reads back as it was; if it is not, the error is one of writing.
pub from_toml-to_toml :
    {E : Type 0} (t : Toml E) (z : ZoneFile)
    → IsToml t
    → ((s : Text) × (to_toml t z ≡ inl s) × (from_toml t s ≡ inl z))
      ⊎ ((e : E) × (to_toml t z ≡ inr (serialize e)))
unfolding from_toml to_toml
from_toml-to_toml t z law = elim (tried (t.to_string_pretty z)) [
  | inl (s, q) ↦
      inl (s, rw (q, to_toml) refl, rw (law.from_str-to_string_pretty z s q, from_toml) refl)
  | inr (e, q) ↦ inr (e, rw (q, to_toml) refl)
]
