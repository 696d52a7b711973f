-- ===== src/Codex/Locks.antt =====
-- One lock of one input (src/codex.rs): how its script ends, and that it leaves a fresh machine.
use ultrasonic.Prelude.{
  ℕ, ◌+◌, ◌≡◌, refl, ap, ap₂, ◌∙◌, Option, none, some, List, [], ◌∷◌, Partial, done,
}
use ultrasonic.Externals.{Externals, Status}
use ultrasonic.State.{StateCell}
use ultrasonic.State.Value
use ultrasonic.State.Value.{StateValue}
use ultrasonic.State.Auth.{to_fe256}
use ultrasonic.Codex.{Codex, LibRepo, Runtime}
use ultrasonic.Codex.Outcome.{ok, err, CallError, lock}
use ultrasonic.Codex.Verify.{put_witness, armed, resolver, lock_result, run_lock}
use ultrasonic.Codex.Spec.{ResetLaws, fresh, Ends, LockHolds}

module _ {E : Externals} (runtime : Runtime E) (repo : LibRepo E) (codex : Codex E)
    (laws : ResetLaws runtime.lock_vm) where
  open runtime use {lock_vm}

  abbrev Made : lock_vm.Vm → Type 0
  Made vm = (laws.config_of vm ≡ codex.input_config) × (laws.order_of vm ≡ codex.field_order)

  Made-set : (vm : lock_vm.Vm) (r : E.RegE) (v : E.Fe) → Made vm → Made (lock_vm.set vm r v)
  Made-set vm r v h = (laws.config_of-set vm r v ∙ h.0, laws.order_of-set vm r v ∙ h.1)

  Made-put_witness :
      (regs : List E.RegE) (vm : lock_vm.Vm) (witness : StateValue E.Fe) (number : ℕ)
      → Made vm
      → Made (put_witness runtime repo vm witness number regs)
  unfolding put_witness
  Made-put_witness [] vm witness number h = h
  Made-put_witness (r ∷ rest) vm witness number h =
      elim (Value.get witness number)
        as (λ found. Made (elim found [
          | none ↦ vm
          | some el ↦ put_witness runtime repo (lock_vm.set vm r el) witness (number + 1) rest
        ])) [
          | none ↦ h
          | some el ↦
              Made-put_witness rest (lock_vm.set vm r el) witness (number + 1) (Made-set vm r el h)
        ]

  Made-armed :
      (vm : lock_vm.Vm) (cell : StateCell E) (witness : StateValue E.Fe)
      → Made vm
      → Made (armed runtime repo vm cell witness)
  unfolding armed
  Made-armed vm cell witness h =
      let (e1, token) : E.RegE × E.Fe = (runtime.regs.e1, to_fe256 cell.auth) in
      Made-put_witness (runtime.regs.e2 ∷ runtime.regs.e3 ∷ runtime.regs.e4 ∷ runtime.regs.e5 ∷ [])
        (lock_vm.set vm e1 token) witness 0 (Made-set vm e1 token h)

  -- After a lock script has run on a fresh machine, a reset makes the machine fresh again.
  pub reset-fresh :
      (cell : StateCell E) (witness : StateValue E.Fe) (site : E.LibSite) (status : Status)
      (vm : lock_vm.Vm)
      → Ends runtime repo codex cell witness site status vm
      → lock_vm.reset vm ≡ fresh runtime repo codex
  reset-fresh cell witness site status vm ends =
      let start : _ =
        Made-armed (fresh runtime repo codex) cell witness
          (laws.config_of-with_config _ _, laws.order_of-with_config _ _) in
      let kept : _ = laws.exec-keeps _ site tt (resolver runtime repo) status vm ends in
      laws.reset_lem vm ∙ ap₂ lock_vm.with_config (kept.0 ∙ start.0) (kept.1 ∙ start.1)

  lock_result-ok :
      (r : Partial (Status × lock_vm.Vm)) {vm : lock_vm.Vm}
      → lock_result runtime repo r ≡ ok vm
      → (ended : lock_vm.Vm) × (r ≡ done (Status.ok, ended)) × (vm ≡ lock_vm.reset ended)
  unfolding lock_result
  lock_result-ok Partial.panicked h = cc
  lock_result-ok (done (Status.fail, ended)) h = cc
  lock_result-ok (done (Status.ok, ended)) h = (ended, refl, cc)

  lock_result-err :
      (r : Partial (Status × lock_vm.Vm)) {e : CallError E.Fe}
      → lock_result runtime repo r ≡ err e
      → (ended : lock_vm.Vm) × (r ≡ done (Status.fail, ended))
        × (e ≡ lock (lock_vm.get ended runtime.regs.e8))
  unfolding lock_result
  lock_result-err Partial.panicked h = cc
  lock_result-err (done (Status.ok, ended)) h = cc
  lock_result-err (done (Status.fail, ended)) h = (ended, refl, cc)

  pub run_lock-ok :
      (cell : StateCell E) (witness : StateValue E.Fe) (site : Option E.LibSite) {vm : lock_vm.Vm}
      → run_lock runtime repo (fresh runtime repo codex) cell witness site ≡ ok vm
      → (vm ≡ fresh runtime repo codex) × LockHolds runtime repo codex cell witness site
  unfolding run_lock
  run_lock-ok cell witness none h = (cc, tt)
  run_lock-ok cell witness (some site) h =
      let (ended, ends, is_reset) = lock_result-ok _ h in
      (is_reset ∙ reset-fresh cell witness site Status.ok ended ends, (ended, ends))

  pub run_lock-holds :
      (cell : StateCell E) (witness : StateValue E.Fe) (site : Option E.LibSite)
      → LockHolds runtime repo codex cell witness site
      → run_lock runtime repo (fresh runtime repo codex) cell witness site
        ≡ ok (fresh runtime repo codex)
  unfolding run_lock lock_result
  run_lock-holds cell witness none h = refl
  run_lock-holds cell witness (some site) (ended, ends) =
      rw ends (ap ok (reset-fresh cell witness site Status.ok ended ends))

  pub run_lock-err :
      (cell : StateCell E) (witness : StateValue E.Fe) (lk : Option E.LibSite) {e : CallError E.Fe}
      → run_lock runtime repo (fresh runtime repo codex) cell witness lk ≡ err e
      → (site : E.LibSite) × (ended : lock_vm.Vm) × (lk ≡ some site)
        × Ends runtime repo codex cell witness site Status.fail ended
        × (e ≡ lock (lock_vm.get ended runtime.regs.e8))
  unfolding run_lock
  run_lock-err cell witness none h = cc
  run_lock-err cell witness (some site) h =
      let (ended, ends, code) = lock_result-err _ h in (site, ended, refl, ends, code)

  -- A lock script that fails.
  pub run_lock-fails :
      (cell : StateCell E) (witness : StateValue E.Fe) (lk : Option E.LibSite) (site : E.LibSite)
      (vm : lock_vm.Vm)
      → lk ≡ some site
      → Ends runtime repo codex cell witness site Status.fail vm
      → run_lock runtime repo (fresh runtime repo codex) cell witness lk
        ≡ err (lock (lock_vm.get vm runtime.regs.e8))
  unfolding run_lock lock_result
  run_lock-fails cell witness lk site vm same ends = rw same (rw ends refl)
