-- ===== src/Codex/Armed.antt =====
-- What a lock script finds in the registers (src/codex.rs): the token of the cell and the witness of the
-- input, and nothing else.
use mathlib.Core.Path.{subst}
use ultrasonic.Prelude.{
  ℕ, zero, suc, ◌+◌, ◌≡◌, ◌≢◌, refl, sym, ap, ap₂, ◌∙◌, none, some, Option-cases, List, [], ◌∷◌,
  All, get_elem?, arith, inl, inr,
}
use ultrasonic.Externals.{Externals}
use ultrasonic.State.{StateCell}
use ultrasonic.State.Value
use ultrasonic.State.Value.{StateValue, into_iter}
use ultrasonic.State.Value.RoundTrip.{get-into_iter}
use ultrasonic.State.Auth.{to_fe256}
use ultrasonic.Codex.{Codex, LibRepo, VmApi, Runtime}
use ultrasonic.Codex.Verify.{put_witness, armed}
use ultrasonic.Codex.Spec.{fresh}

-- What zk-aluvm documents of the registers of a machine: none is set when it is made, one that was set is
-- read back, and no other changes.
pub record RegisterLaws {E : Externals} {Context : Type 0} (api : VmApi E Context) : Type 0 where
  pub get-with_config :
      (c : E.CoreConfig) (n : ℕ) (r : E.RegE) → api.get (api.with_config c n) r ≡ none
  pub get-set_self : (vm : api.Vm) (r : E.RegE) (v : E.Fe) → api.get (api.set vm r v) r ≡ some v
  pub get-set_ne :
      (vm : api.Vm) (r s : E.RegE) (v : E.Fe) → r ≢ s → api.get (api.set vm r v) s ≡ api.get vm s

-- Registers that are all different.
abbrev pub AllDiffer : {R : Type 0} → List R → Type 0
AllDiffer [] = Unit
AllDiffer (r ∷ rest) = All (λ s. r ≢ s) rest × AllDiffer rest

-- An item of a list has what all of them have.
All-get_elem? {ℓ κ} :
    {A : Type ℓ} (P : A → Type κ) (xs : List A) (i : ℕ) {x : A}
    → All P xs
    → get_elem? xs i ≡ some x
    → P x
All-get_elem? P [] i h e = absurd (cc)
All-get_elem? P (y ∷ ys) zero {x} h e = let same : y ≡ x = cc in subst P same h.0
All-get_elem? P (y ∷ ys) (suc i) h e = All-get_elem? P ys i h.1 e

turned : {R : Type 0} (r : R) (rest : List R) → All (λ s. r ≢ s) rest → All (λ s. s ≢ r) rest
turned r [] h = tt
turned r (s ∷ rest) h = ((λ e. h.0 (sym e)), turned r rest h.1)

-- A list that has no item at an index has none at a later one.
get_elem?-later {ℓ} :
    {A : Type ℓ} (xs : List A) (i k : ℕ) → get_elem? xs i ≡ none → get_elem? xs (i + k) ≡ none
get_elem?-later [] i k e = refl
get_elem?-later (x ∷ xs) zero k e = absurd (cc)
get_elem?-later (x ∷ xs) (suc i) k e =
    let shift : suc i + k ≡ suc (i + k) = omega arith in
    ap (get_elem? (x ∷ xs)) shift ∙ get_elem?-later xs i k e

module _ {E : Externals} (runtime : Runtime E) (repo : LibRepo E)
    (laws : RegisterLaws runtime.lock_vm) (witness : StateValue E.Fe) where
  open runtime use {lock_vm}

  abbrev put : List E.RegE → lock_vm.Vm → ℕ → lock_vm.Vm
  put regs vm number = put_witness runtime repo vm witness number regs

  -- The elements of a value are the first ones.
  get-later : (i k : ℕ) → Value.get witness i ≡ none → Value.get witness (i + k) ≡ none
  get-later i k absent =
      get-into_iter witness (i + k)
      ∙ get_elem?-later (into_iter witness) i k (sym (get-into_iter witness i) ∙ absent)

  -- One round of the loop.
  stopped :
      (reg : E.RegE) (rest : List E.RegE) (vm : lock_vm.Vm) (number : ℕ)
      → Value.get witness number ≡ none
      → put (reg ∷ rest) vm number ≡ vm
  unfolding put_witness
  stopped reg rest vm number absent =
      ap (λ o. elim o [ none ↦ vm | some el ↦ put rest (lock_vm.set vm reg el) (number + 1) ])
        absent

  went_on :
      (reg : E.RegE) (rest : List E.RegE) (vm : lock_vm.Vm) (number : ℕ) (el : E.Fe)
      → Value.get witness number ≡ some el
      → put (reg ∷ rest) vm number ≡ put rest (lock_vm.set vm reg el) (number + 1)
  unfolding put_witness
  went_on reg rest vm number el present =
      ap (λ o. elim o [ none ↦ vm | some el ↦ put rest (lock_vm.set vm reg el) (number + 1) ])
        present

  -- Registers that are not in the list stay.
  put_witness-ne :
      (regs : List E.RegE) (vm : lock_vm.Vm) (number : ℕ) (r : E.RegE)
      → All (λ s. s ≢ r) regs
      → lock_vm.get (put regs vm number) r ≡ lock_vm.get vm r
  unfolding put_witness
  put_witness-ne [] vm number r h = refl
  put_witness-ne (reg ∷ rest) vm number r h = elim (Option-cases (Value.get witness number)) [
    | inl absent ↦ ap (λ v. lock_vm.get v r) (stopped reg rest vm number absent)
    | inr (el, present) ↦
        ap (λ v. lock_vm.get v r) (went_on reg rest vm number el present)
        ∙ put_witness-ne rest (lock_vm.set vm reg el) (number + 1) r h.1
        ∙ laws.get-set_ne vm reg r el h.0
  ]

  -- Setting one register leaves the others unset.
  still_unset :
      (rest : List E.RegE) (vm : lock_vm.Vm) (reg : E.RegE) (el : E.Fe)
      → All (λ s. reg ≢ s) rest
      → All (λ s. lock_vm.get vm s ≡ none) rest
      → All (λ s. lock_vm.get (lock_vm.set vm reg el) s ≡ none) rest
  still_unset [] vm reg el differ unset = tt
  still_unset (s ∷ rest) vm reg el differ unset =
      (laws.get-set_ne vm reg s el differ.0 ∙ unset.0, still_unset rest vm reg el differ.1 unset.1)

  -- The registers of the list hold the elements in order, and are absent where there is none.
  put_witness-get :
      (regs : List E.RegE) (vm : lock_vm.Vm) (number k : ℕ) {r : E.RegE}
      → AllDiffer regs
      → All (λ s. lock_vm.get vm s ≡ none) regs
      → get_elem? regs k ≡ some r
      → lock_vm.get (put regs vm number) r ≡ Value.get witness (number + k)
  put_witness-get [] vm number k differ unset e = absurd (cc)
  put_witness-get (reg ∷ rest) vm number zero {r} differ unset e =
      let here : reg ≡ r = cc in
      let plain : number + 0 ≡ number = omega arith in
      elim (Option-cases (Value.get witness number)) [
        | inl absent ↦
            ap₂ lock_vm.get (stopped reg rest vm number absent) (sym here)
            ∙ unset.0
            ∙ sym (ap (Value.get witness) plain ∙ absent)
        | inr (el, present) ↦
            ap₂ lock_vm.get (went_on reg rest vm number el present) (sym here)
            ∙ put_witness-ne rest (lock_vm.set vm reg el) (number + 1) reg (turned _ rest differ.0)
            ∙ laws.get-set_self vm reg el
            ∙ sym (ap (Value.get witness) plain ∙ present)
      ]
  put_witness-get (reg ∷ rest) vm number (suc k) {r} differ unset e =
      elim (Option-cases (Value.get witness number)) [
        | inl absent ↦
            ap (λ v. lock_vm.get v r) (stopped reg rest vm number absent)
            ∙ All-get_elem? (λ s. lock_vm.get vm s ≡ none) rest k unset.1 e
            ∙ sym (get-later number (suc k) absent)
        | inr (el, present) ↦
            let shift : number + 1 + k ≡ number + suc k = omega arith in
            ap (λ v. lock_vm.get v r) (went_on reg rest vm number el present)
            ∙ put_witness-get rest (lock_vm.set vm reg el) (number + 1) k differ.1
                (still_unset rest vm reg el differ.0 unset.1) e
            ∙ ap (Value.get witness) shift
      ]

module _ {E : Externals} (runtime : Runtime E) where
  open runtime use {lock_vm, regs}
  open regs use {e1, e2, e3, e4, e5}

  -- The token of the cell in `E1`, the elements of the witness in `E2` to `E5`, in order and absent where
  -- it has no more, and no other register set.
  abbrev pub Holds : lock_vm.Vm → StateCell E → StateValue E.Fe → Type 0
  Holds vm cell witness =
      (lock_vm.get vm e1 ≡ some (to_fe256 cell.auth))
      × ((k : ℕ) (r : E.RegE)
          → get_elem? (e2 ∷ e3 ∷ e4 ∷ e5 ∷ []) k ≡ some r
          → lock_vm.get vm r ≡ get_elem? (into_iter witness) k)
      × ((r : E.RegE) → All (λ s. s ≢ r) (e1 ∷ e2 ∷ e3 ∷ e4 ∷ e5 ∷ []) → lock_vm.get vm r ≡ none)

module _ {E : Externals} (runtime : Runtime E) (repo : LibRepo E) (codex : Codex E)
    (laws : RegisterLaws runtime.lock_vm) where
  open runtime use {lock_vm, regs}
  open regs use {e1, e2, e3, e4, e5}

  -- A machine as it was made, set up for a lock, holds the token and the witness and nothing else.
  pub armed-registers :
      (cell : StateCell E) (witness : StateValue E.Fe)
      → AllDiffer (e1 ∷ e2 ∷ e3 ∷ e4 ∷ e5 ∷ [])
      → Holds runtime (armed runtime repo (fresh runtime repo codex) cell witness) cell witness
  unfolding armed
  armed-registers cell witness differ =
      let first : lock_vm.Vm = fresh runtime repo codex in
      let token : E.Fe = to_fe256 cell.auth in
      let started : lock_vm.Vm = lock_vm.set first e1 token in
      let none_set : (r : E.RegE) → lock_vm.get first r ≡ none =
        λ r. laws.get-with_config codex.input_config codex.field_order r in
      let rest : List E.RegE = e2 ∷ e3 ∷ e4 ∷ e5 ∷ [] in
      (
        put_witness-ne runtime repo laws witness rest started 0 e1 (turned _ rest differ.0)
            ∙ laws.get-set_self first e1 token,
        (λ k r e.
            put_witness-get runtime repo laws witness rest started 0 k differ.1
              (still_unset runtime repo laws witness rest first e1 token differ.0
                (none_set e2, (none_set e3, (none_set e4, (none_set e5, tt)))))
              e
            ∙ ap (Value.get witness) (zero_plus k)
            ∙ get-into_iter witness k),
        λ r others.
            put_witness-ne runtime repo laws witness rest started 0 r others.1
            ∙ laws.get-set_ne first e1 r token others.0
            ∙ none_set r,
      )
    where
      zero_plus : (k : ℕ) → 0 + k ≡ k
      zero_plus k = omega arith

-- What setting a register does not change is the same once a machine is set up for a lock.
module _ {E : Externals} (runtime : Runtime E) (repo : LibRepo E) {X : Type 0}
    (view : runtime.lock_vm.Vm → X)
    (kept : (vm : runtime.lock_vm.Vm) (r : E.RegE) (v : E.Fe)
      → view (runtime.lock_vm.set vm r v) ≡ view vm)
    (witness : StateValue E.Fe) where
  put_witness-keeps :
      (regs : List E.RegE) (vm : runtime.lock_vm.Vm) (number : ℕ)
      → view (put_witness runtime repo vm witness number regs) ≡ view vm
  unfolding put_witness
  put_witness-keeps [] vm number = refl
  put_witness-keeps (reg ∷ rest) vm number =
      elim (Value.get witness number)
        as (λ found.
          view (elim found [
            | none ↦ vm
            | some el ↦
                put_witness runtime repo (runtime.lock_vm.set vm reg el) witness (number + 1) rest
          ])
          ≡ view vm) [
            | none ↦ refl
            | some el ↦
                put_witness-keeps rest (runtime.lock_vm.set vm reg el) (number + 1) ∙ kept vm reg el
          ]

  pub armed-keeps :
      (vm : runtime.lock_vm.Vm) (cell : StateCell E)
      → view (armed runtime repo vm cell witness) ≡ view vm
  unfolding armed
  armed-keeps vm cell =
      let token : E.Fe = to_fe256 cell.auth in
      put_witness-keeps (runtime.regs.e2 ∷ runtime.regs.e3 ∷ runtime.regs.e4 ∷ runtime.regs.e5 ∷ [])
        (runtime.lock_vm.set vm runtime.regs.e1 token) 0
      ∙ kept vm runtime.regs.e1 token
