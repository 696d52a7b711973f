-- ===== src/Operation/Commit/Binding.antt =====
-- What an operation id binds (src/operation.rs): all of the operation, unless two of the inputs that are
-- hashed for it collide.
use mathlib.Core.HLevel.{Discrete}
use mathlib.Core.List.Memᴰ.{Memᴰ}
use native.Mathlib.Decide.{ℕ_discrete}
use ultrasonic.Prelude.{◌≡◌, ◌↔◌, ◌⊎◌, inl, refl, sym, ap, true, [], ◌∷◌, Option, none, some, Bytes}
use ultrasonic.Externals.{Externals}
use ultrasonic.Ids.{Opid, ContractId, opid_eq_iff}
use ultrasonic.State.{StateCell, StateData}
use ultrasonic.Operation.{CellAddr, Input, Genesis, Operation, to_operation}
use ultrasonic.Operation.Commit.{
  serialized, Hasher, Encoders, opid_tag, raw_chunk, data_commit_encode, input_id, addr_id, cell_id,
  data_id, commit_encode, opid, genesis_opid, operation_eq,
}
use ultrasonic.Operation.Commit.Collision.{
  Feed, tagged, as_merkle, as_strict, Clash, ◌>>=◌, unless_map, unless_clash, map_unless,
  iff_unless,
}

abbrev pub IsInjective {ℓ κ} : {A : Type ℓ} {B : Type κ} → (A → B) → Type (ℓ ⊔ κ)
IsInjective {A = A} f = (x y : A) → f x ≡ f y → x ≡ y

-- Strict encoding is unambiguous.
pub record Unambiguous {E : Externals} (encode : Encoders E) : Type 0 where
  pub version : IsInjective encode.version
  pub contract_id : IsInjective encode.contract_id
  pub call_id : IsInjective encode.call_id
  pub nonce : IsInjective encode.nonce
  pub input : IsInjective encode.input
  pub addr : IsInjective encode.addr
  pub cell : IsInjective encode.cell
  pub value : IsInjective encode.value
  pub raw : IsInjective encode.raw

-- Two genesis that agree in what `to_operation` keeps.
pub record SameForm {E : Externals} (g h : Genesis E) : Type 0 where
  pub version : g.version ≡ h.version
  pub call_id : g.call_id ≡ h.call_id
  pub nonce : g.nonce ≡ h.nonce
  pub destructible_out : g.destructible_out ≡ h.destructible_out
  pub immutable_out : g.immutable_out ≡ h.immutable_out

-- The inputs that are hashed for the id of an operation: its own, those of its items, and those of
-- the raw data in them.
pub data Fed {E : Externals} (hasher : Hasher) (encode : Encoders E) (a : Operation E)
    : Feed → Type 0 where
  whole : Fed hasher encode a (tagged opid_tag (commit_encode hasher encode a))
  input :
      {item : Input E.Fe}
      → Memᴰ item a.destructible_in
      → Fed hasher encode a (as_merkle (serialized (encode.input item) ∷ []))
  addr :
      {item : CellAddr}
      → Memᴰ item a.immutable_in
      → Fed hasher encode a (as_merkle (serialized (encode.addr item) ∷ []))
  cell :
      {item : StateCell E}
      → Memᴰ item a.destructible_out
      → Fed hasher encode a (as_merkle (serialized (encode.cell item) ∷ []))
  datum :
      {item : StateData E.Fe}
      → Memᴰ item a.immutable_out
      → Fed hasher encode a (as_merkle (data_commit_encode hasher encode item))
  raw :
      {item : StateData E.Fe} {raw : Bytes}
      → Memᴰ item a.immutable_out
      → item.raw ≡ some raw
      → Fed hasher encode a (as_strict (serialized (encode.raw raw) ∷ []))

opid-discrete : Discrete Opid
opid-discrete = hlevel ℕ_discrete

-- A collision between the inputs hashed for two operations.
abbrev pub Clashing : {E : Externals} → Hasher → Encoders E → Operation E → Operation E → Type 0
Clashing hasher encode a b = Clash hasher (Fed hasher encode a) (Fed hasher encode b)

module _ {E : Externals} (hasher : Hasher) {encode : Encoders E} (clear : Unambiguous encode)
    (a b : Operation E) where
  -- Items whose ids are those of their strict encoding.
  strict_unless :
      {A : Type 0} (code : A → Bytes)
      → IsInjective code
      → (x y : A) → Fed hasher encode a (as_merkle (serialized (code x) ∷ []))
      → Fed hasher encode b (as_merkle (serialized (code y) ∷ []))
      → hasher.merkle_hash (serialized (code x) ∷ [])
        ≡ hasher.merkle_hash (serialized (code y) ∷ [])
      → (x ≡ y) ⊎ Clashing hasher encode a b
  strict_unless code injective x y fx fy e = do
    same ←
        unless_clash {hasher = hasher} (as_merkle (serialized (code x) ∷ []))
          (as_merkle (serialized (code y) ∷ [])) fx fy e
    inl (injective x y (cc))

  raw_unless :
      (r s : Option Bytes)
      → ((x : Bytes)
          → r ≡ some x
          → Fed hasher encode a (as_strict (serialized (encode.raw x) ∷ [])))
      → ((y : Bytes)
          → s ≡ some y
          → Fed hasher encode b (as_strict (serialized (encode.raw y) ∷ [])))
      → raw_chunk hasher encode r ≡ raw_chunk hasher encode s
      → (r ≡ s) ⊎ Clashing hasher encode a b
  unfolding raw_chunk
  raw_unless none none fr fs e = inl refl
  raw_unless none (some y) fr fs e = absurd (cc)
  raw_unless (some x) none fr fs e = absurd (cc)
  raw_unless (some x) (some y) fr fs e = do
    same ←
        unless_clash {hasher = hasher} (as_strict (serialized (encode.raw x) ∷ []))
          (as_strict (serialized (encode.raw y) ∷ [])) (fr x refl) (fs y refl) (cc)
    let code : encode.raw x ≡ encode.raw y = cc
    inl (ap some (clear.raw x y code))

  data_unless :
      (x y : StateData E.Fe)
      → Memᴰ x a.immutable_out
      → Memᴰ y b.immutable_out
      → data_id hasher encode x ≡ data_id hasher encode y
      → (x ≡ y) ⊎ Clashing hasher encode a b
  unfolding data_id data_commit_encode
  data_unless x y mx my e = do
    same ←
        unless_clash {hasher = hasher} (as_merkle (data_commit_encode hasher encode x))
          (as_merkle (data_commit_encode hasher encode y)) (Fed.datum mx) (Fed.datum my) e
    let value : x.value ≡ y.value = clear.value _ _ (cc)
    blob ← raw_unless x.raw y.raw (λ r h. Fed.raw mx h) (λ r h. Fed.raw my h) (cc)
    inl (λ i. record { value = value i; raw = blob i })

  -- Operations with one id are one operation, in every field, unless two of the inputs hashed for them
  -- differ and hash alike. Encodings are unambiguous.
  pub opid-injective :
      opid hasher encode a ≡ opid hasher encode b → (a ≡ b) ⊎ Clashing hasher encode a b
  unfolding opid commit_encode input_id addr_id cell_id
  opid-injective e = do
    same ←
        unless_clash {hasher = hasher} (tagged opid_tag (commit_encode hasher encode a))
          (tagged opid_tag (commit_encode hasher encode b)) Fed.whole Fed.whole
          (ap (λ (o : Opid). o.bytes) e)
    let version : a.version ≡ b.version = clear.version _ _ (cc)
    let contract_id : a.contract_id ≡ b.contract_id = clear.contract_id _ _ (cc)
    let call_id : a.call_id ≡ b.call_id = clear.call_id _ _ (cc)
    let nonce : a.nonce ≡ b.nonce = clear.nonce _ _ (cc)
    destructible_in ←
        map_unless _ a.destructible_in b.destructible_in
          (λ x y mx my. strict_unless encode.input clear.input x y (Fed.input mx) (Fed.input my))
          (cc)
    immutable_in ←
        map_unless _ a.immutable_in b.immutable_in
          (λ x y mx my. strict_unless encode.addr clear.addr x y (Fed.addr mx) (Fed.addr my)) (cc)
    destructible_out ←
        map_unless _ a.destructible_out b.destructible_out
          (λ x y mx my. strict_unless encode.cell clear.cell x y (Fed.cell mx) (Fed.cell my)) (cc)
    immutable_out ← map_unless _ a.immutable_out b.immutable_out data_unless (cc)
    inl (λ i. record {
      version = version i;
      contract_id = contract_id i;
      call_id = call_id i;
      nonce = nonce i;
      destructible_in = destructible_in i;
      immutable_in = immutable_in i;
      destructible_out = destructible_out i;
      immutable_out = immutable_out i;
    })

  -- The equality test of operations, which compares their ids, is true just of equal operations, unless
  -- two of the inputs hashed for them differ and hash alike. Encodings are unambiguous.
  pub operation_eq_iff :
      ((operation_eq hasher encode a b ≡ true) ↔ (a ≡ b)) ⊎ Clashing hasher encode a b
  unfolding operation_eq
  operation_eq_iff =
      let (to, from) = opid_eq_iff (opid hasher encode a) (opid hasher encode b) in
      unless_map (iff_unless (opid-discrete _ _) opid-injective (ap (opid hasher encode)))
        (λ h. (λ t. h.0 (to t), λ e. from (h.1 e)))

module _ {E : Externals} (g : Genesis E) (c : ContractId) where
  pub same_form :
      (h : Genesis E) (d : ContractId)
      → to_operation g c ≡ to_operation h d
      → SameForm g h × (c ≡ d)
  unfolding to_operation
  same_form h d same = (
    record {
      version = ap (λ (o : Operation E). o.version) same;
      call_id = ap (λ (o : Operation E). o.call_id) same;
      nonce = ap (λ (o : Operation E). o.nonce) same;
      destructible_out = ap (λ (o : Operation E). o.destructible_out) same;
      immutable_out = ap (λ (o : Operation E). o.immutable_out) same;
    },
    ap (λ (o : Operation E). o.contract_id) same,
  )

  pub same_operation :
      (h : Genesis E) (d : ContractId)
      → SameForm g h × (c ≡ d)
      → to_operation g c ≡ to_operation h d
  unfolding to_operation
  same_operation h d (same, contract) = λ i. record {
    version = same.version i;
    contract_id = contract i;
    call_id = same.call_id i;
    nonce = same.nonce i;
    destructible_in = [];
    immutable_in = [];
    destructible_out = same.destructible_out i;
    immutable_out = same.immutable_out i;
  }

module _ {E : Externals} (hasher : Hasher) {encode : Encoders E} (clear : Unambiguous encode)
    (g : Genesis E) (c : ContractId) where
  -- Two genesis ids are equal just if the contracts are and the genesis agree in what the operation
  -- form keeps: all but the codex id and the reserved blanks. No operation with inputs has such an
  -- id. Each holds unless two of the inputs hashed for the two ids differ and hash alike. Encodings are
  -- unambiguous.
  pub genesis_opid_exact :
      (h : Genesis E) (d : ContractId) (operation : Operation E)
      → (((genesis_opid hasher encode g c ≡ genesis_opid hasher encode h d)
            ↔ (SameForm g h × (c ≡ d)))
          ⊎ Clashing hasher encode (to_operation g c) (to_operation h d))
        × (genesis_opid hasher encode g c ≡ opid hasher encode operation
            → ((operation.destructible_in ≡ []) × (operation.immutable_in ≡ []))
              ⊎ Clashing hasher encode (to_operation g c) operation)
  unfolding genesis_opid to_operation
  genesis_opid_exact h d operation = (
    iff_unless (opid-discrete _ _)
        (λ e.
          unless_map (opid-injective hasher clear (to_operation g c) (to_operation h d) e)
            (same_form g c h d))
        (λ same. ap (opid hasher encode) (same_operation g c h d same)),
    λ e. unless_map (opid-injective hasher clear (to_operation g c) operation e) (λ same. (
      ap (λ (o : Operation E). o.destructible_in) (sym same),
      ap (λ (o : Operation E). o.immutable_in) (sym same),
    )),
  )
