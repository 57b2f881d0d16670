-- ===== src/ClientApi/Auth.antt =====
-- What `authenticate` lets through: crates/binda-core/src/client_api.rs.
use binda.Prelude.{
  ℕ, ◌+◌, ◌≤◌, ◌<◌, ◌≡◌, sym, ap, ◌∙◌, ◌↔◌, ◌⊎◌, true, List, arith, length, nat_eq, list_eq,
}
use binda.Client.{Externals, ClientIdentity}
use binda.ClientApi.{SignedEnvelope, stale, ok, err, authenticate}

-- A request that may be acted on at `now`: its timestamp lies within ten seconds of `now` on either
-- side, its key and signature are well formed, and the signature verifies.
pub record IsAuthentic {T : Type 0} (x : Externals) (e : SignedEnvelope T) (message : List ℕ)
    (now : ℕ) : Type 0 where
  pub not_old : now ≤ e.timestamp_millis + 10_000
  pub not_early : e.timestamp_millis ≤ now + 10_000
  pub key_len : length e.verifying_key ≡ 32
  pub key_valid : x.valid_key e.verifying_key ≡ true
  pub signature_valid : x.valid_signature e.signature ≡ true
  pub signed : x.verify e.verifying_key message e.signature ≡ true

abbrev pub identity_of : {T : Type 0} → SignedEnvelope T → ClientIdentity
identity_of e = record { verifying_key = e.verifying_key; rdns = e.rdns }

module _ {T : Type 0} (x : Externals) (e : SignedEnvelope T) (message : List ℕ) (now : ℕ) where
  pub authenticate-ok_sound :
      (i : ClientIdentity)
      → authenticate x e message now ≡ ok i
      → IsAuthentic x e message now × (i ≡ identity_of e)
  unfolding authenticate
  authenticate-ok_sound i h = ground arith

  pub authenticate-ok_complete :
      IsAuthentic x e message now → authenticate x e message now ≡ ok (identity_of e)
  unfolding authenticate
  authenticate-ok_complete h = ground arith

  -- `authenticate` succeeds exactly on the authentic requests, with the key and hostname that the
  -- request names.
  pub authenticate-ok_iff :
      (i : ClientIdentity)
      → (authenticate x e message now ≡ ok i) ↔ (IsAuthentic x e message now × (i ≡ identity_of e))
  authenticate-ok_iff i =
      (authenticate-ok_sound i, λ h. authenticate-ok_complete h.0 ∙ ap ok (sym h.1))

  -- The freshness test comes first: a request more than ten seconds off is refused as stale, be its
  -- key and signature valid or not, and no other request is refused as stale.
  pub authenticate-stale_iff :
      (authenticate x e message now ≡ err stale)
      ↔ ((e.timestamp_millis + 10_000 < now) ⊎ (now + 10_000 < e.timestamp_millis))
  unfolding authenticate
  authenticate-stale_iff = ground arith
