-- ===== src/Ids.antt =====
-- The identifiers of operations, contracts and codexes (src/operation.rs, src/issue.rs,
-- src/codex.rs): 32 bytes each, compared bytewise.
use ultrasonic.Prelude.{Result, ok, err, ◌≡◌, ◌↔◌, Bool, true, ap, Bytes, bytes_eq, bytes_eq_iff}

pub record Opid : Type 0 where
  pub bytes : Bytes

pub record ContractId : Type 0 where
  pub bytes : Bytes

pub record CodexId : Type 0 where
  pub bytes : Bytes

-- `From<Opid> for [u8; 32]`
unfoldable pub opid_to_array : Opid → Bytes
opid_to_array opid = opid.bytes

-- `From<Sha256>` for each of them, with the 32 bytes that `Sha256::finish` gives.
module _ {Sha256 : Type 0} (finish : Sha256 → Bytes) where
  unfoldable pub opid_from_sha256 : Sha256 → Opid
  opid_from_sha256 hasher = record { bytes = finish hasher }

  unfoldable pub contract_id_from_sha256 : Sha256 → ContractId
  contract_id_from_sha256 hasher = record { bytes = finish hasher }

  unfoldable pub codex_id_from_sha256 : Sha256 → CodexId
  codex_id_from_sha256 hasher = record { bytes = finish hasher }

copied : {FromSliceError : Type 0} → Result Bytes FromSliceError → Result Opid FromSliceError
copied (ok bytes) = ok (record { bytes = bytes })
copied (err e) = err e

-- `Opid::copy_from_slice`, over that of `Bytes32`
unfoldable pub copy_from_slice :
    {FromSliceError : Type 0}
    → (Bytes → Result Bytes FromSliceError)
    → Bytes
    → Result Opid FromSliceError
unfolding copied
copy_from_slice copy_bytes slice = copied (copy_bytes slice)

-- The derived `PartialEq`.
abbrev pub opid_eq : Opid → Opid → Bool
opid_eq a b = bytes_eq a.bytes b.bytes

abbrev pub contract_id_eq : ContractId → ContractId → Bool
contract_id_eq a b = bytes_eq a.bytes b.bytes

abbrev pub codex_id_eq : CodexId → CodexId → Bool
codex_id_eq a b = bytes_eq a.bytes b.bytes

pub opid_eq_iff : (a b : Opid) → (opid_eq a b ≡ true) ↔ (a ≡ b)
opid_eq_iff a b =
    let (to, from) = bytes_eq_iff a.bytes b.bytes in
    (λ h i. record { bytes = to h i }, λ e. from (ap (λ (x : Opid). x.bytes) e))

pub contract_id_eq_iff : (a b : ContractId) → (contract_id_eq a b ≡ true) ↔ (a ≡ b)
contract_id_eq_iff a b =
    let (to, from) = bytes_eq_iff a.bytes b.bytes in
    (λ h i. record { bytes = to h i }, λ e. from (ap (λ (x : ContractId). x.bytes) e))

pub codex_id_eq_iff : (a b : CodexId) → (codex_id_eq a b ≡ true) ↔ (a ≡ b)
codex_id_eq_iff a b =
    let (to, from) = bytes_eq_iff a.bytes b.bytes in
    (λ h i. record { bytes = to h i }, λ e. from (ap (λ (x : CodexId). x.bytes) e))
