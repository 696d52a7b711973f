-- ===== src/Codex/Stand/Steps.antt =====
-- The instructions of the lock script of the test stand (`lib_lock` of src/codex.rs), run: its comparisons
-- with the secret and its tests of what is not to be set.
use ultrasonic.Prelude.{
  ℕ, ◌+◌, ◌<◌, ◌≡◌, ◌≢◌, sym, ap, ◌∙◌, none, some, Option-cases, List, [], ◌∷◌, All, inl, inr, done,
  arith,
}
use ultrasonic.Externals.{Externals, Status, ok, fail}
use ultrasonic.Codex.{Runtime}
use ultrasonic.Codex.Spec.{ResetLaws}
use ultrasonic.Codex.Armed.{RegisterLaws}
use ultrasonic.Codex.Stand.{Bench, secret}
use ultrasonic.Codex.Stand.Script.{flip, CodeApi, CodeLaws, Halts, total}

module _ {E : Externals} (runtime : Runtime E) (bench : Bench E)
    (resets : ResetLaws runtime.lock_vm) (code : CodeApi runtime bench)
    (laws : CodeLaws runtime bench resets code) (registers : RegisterLaws runtime.lock_vm)
    (lim : ℕ) where
  open runtime use {lock_vm, regs}
  open regs use {ea, e8}
  open bench use {fe256, asm}
  open asm use {Instr, chk, not_co, put, eq, test}
  open code use {cost, run, co, set_co, ck}

  abbrev pub key : E.Fe
  key = fe256 secret

  -- A machine that is to halt on a failed check and has failed none, and what code costs.
  abbrev pub Ready : lock_vm.Vm → Type 0
  Ready vm = Halts runtime bench resets code lim vm

  abbrev pub sum : List Instr → ℕ
  sum instrs = total runtime bench resets code instrs

  pub Ready-set : (vm : lock_vm.Vm) (r : E.RegE) (v : E.Fe) → Ready vm → Ready (lock_vm.set vm r v)
  Ready-set vm r v ready = (resets.config_of-set vm r v ∙ ready.0, laws.ck-set vm r v ∙ ready.1)

  Ready-set_co : (vm : lock_vm.Vm) (s : Status) → Ready vm → Ready (set_co vm s)
  Ready-set_co vm s ready = (laws.config_of-set_co vm s ∙ ready.0, laws.ck-set_co vm s ∙ ready.1)

  -- One comparison with the secret.
  abbrev pub compared : E.RegE → ℕ → List Instr → List Instr
  compared r k rest = eq ea r ∷ put e8 (fe256 k) ∷ chk ∷ rest

  -- What was spent after it, and the machine.
  abbrev pub paid : ℕ → E.RegE → ℕ → ℕ
  paid n r k = n + cost (eq ea r) + cost (put e8 (fe256 k)) + cost chk

  abbrev pub noted : lock_vm.Vm → Status → ℕ → lock_vm.Vm
  noted vm s k = lock_vm.set (set_co vm s) e8 (fe256 k)

  pub Ready-noted : (vm : lock_vm.Vm) (s : Status) (k : ℕ) → Ready vm → Ready (noted vm s k)
  Ready-noted vm s k ready = Ready-set (set_co vm s) e8 (fe256 k) (Ready-set_co vm s ready)

  co-noted : (vm : lock_vm.Vm) (s : Status) (k : ℕ) → co (noted vm s k) ≡ s
  co-noted vm s k = laws.co-set (set_co vm s) e8 (fe256 k) ∙ laws.co-set_co vm s

  pub get-noted :
      (vm : lock_vm.Vm) (s : Status) (k : ℕ) (r : E.RegE)
      → e8 ≢ r
      → lock_vm.get (noted vm s k) r ≡ lock_vm.get vm r
  get-noted vm s k r other =
      registers.get-set_ne (set_co vm s) e8 r (fe256 k) other ∙ laws.get-set_co vm s r

  pub compared-same :
      (n : ℕ) (vm : lock_vm.Vm) (r : E.RegE) (k : ℕ) (rest : List Instr)
      → Ready vm
      → n + sum (compared r k rest) < lim
      → lock_vm.get vm ea ≡ some key
      → lock_vm.get vm r ≡ some key
      → run n (compared r k rest) vm ≡ run (paid n r k) rest (noted vm ok k)
  compared-same n vm r k rest ready enough left right =
      laws.run-eq_same lim n vm ea r key _ ready (omega (arith, enough)) left right
      ∙ laws.run-put lim _ (set_co vm ok) e8 (fe256 k) _ (Ready-set_co vm ok ready)
          (omega (arith, enough))
      ∙ laws.run-chk_ok lim _ (noted vm ok k) rest (Ready-noted vm ok k ready)
          (omega (arith, enough)) (co-noted vm ok k)

  pub compared-other :
      (n : ℕ) (vm : lock_vm.Vm) (r : E.RegE) (k : ℕ) (rest : List Instr)
      → Ready vm
      → n + sum (compared r k rest) < lim
      → lock_vm.get vm ea ≡ some key
      → lock_vm.get vm r ≢ some key
      → (after : lock_vm.Vm) × (run n (compared r k rest) vm ≡ done (fail, after))
        × (lock_vm.get after e8 ≡ some (fe256 k))
  compared-other n vm r k rest ready enough left right =
      let (after, ends, kept) =
        laws.run-chk_fail lim (n + cost (eq ea r) + cost (put e8 (fe256 k))) (noted vm fail k) rest
          (Ready-noted vm fail k ready) (omega (arith, enough)) (co-noted vm fail k) in
      (
        after,
        laws.run-eq_other lim n vm ea r _ ready (omega (arith, enough)) (λ e. right (sym e ∙ left))
            ∙ laws.run-put lim _ (set_co vm fail) e8 (fe256 k) _ (Ready-set_co vm fail ready)
                (omega (arith, enough))
            ∙ ends,
        kept e8 ∙ registers.get-set_self (set_co vm fail) e8 (fe256 k),
      )

  -- The tests that registers are not set.
  unfoldable pub unset_tests : List E.RegE → List Instr
  unset_tests [] = []
  unset_tests (r ∷ rest) = test r ∷ not_co ∷ chk ∷ unset_tests rest

  abbrev pub Unset : lock_vm.Vm → List E.RegE → Type 0
  Unset vm rs = All (λ r. lock_vm.get vm r ≡ none) rs

  -- The machine after a test and `not`.
  abbrev turned : lock_vm.Vm → Status → lock_vm.Vm
  turned vm s = set_co (set_co vm s) (flip s)

  Ready-turned : (vm : lock_vm.Vm) (s : Status) → Ready vm → Ready (turned vm s)
  Ready-turned vm s ready = Ready-set_co (set_co vm s) (flip s) (Ready-set_co vm s ready)

  get-turned :
      (vm : lock_vm.Vm) (s : Status) (r : E.RegE) → lock_vm.get (turned vm s) r ≡ lock_vm.get vm r
  get-turned vm s r = laws.get-set_co (set_co vm s) (flip s) r ∙ laws.get-set_co vm s r

  run-turned :
      (n : ℕ) (vm : lock_vm.Vm) (s : Status) (rest : List Instr)
      → Ready vm
      → n + cost not_co < lim
      → run n (not_co ∷ rest) (set_co vm s) ≡ run (n + cost not_co) rest (turned vm s)
  run-turned n vm s rest ready enough =
      laws.run-not lim n (set_co vm s) rest (Ready-set_co vm s ready) enough
      ∙ ap (λ t. run (n + cost not_co) rest (set_co (set_co vm s) (flip t))) (laws.co-set_co vm s)

  abbrev tried : ℕ → E.RegE → ℕ
  tried n r = n + cost (test r) + cost not_co

  tested-none :
      (n : ℕ) (vm : lock_vm.Vm) (r : E.RegE) (rest : List E.RegE)
      → Ready vm
      → n + sum (unset_tests (r ∷ rest)) < lim
      → lock_vm.get vm r ≡ none
      → run n (unset_tests (r ∷ rest)) vm
        ≡ run (tried n r + cost chk) (unset_tests rest) (turned vm fail)
  unfolding unset_tests
  tested-none n vm r rest ready enough absent =
      laws.run-test_none lim n vm r _ ready (omega (arith, enough)) absent
      ∙ run-turned (n + cost (test r)) vm fail _ ready (omega (arith, enough))
      ∙ laws.run-chk_ok lim (tried n r) (turned vm fail) _ (Ready-turned vm fail ready)
          (omega (arith, enough)) (laws.co-set_co (set_co vm fail) ok)

  tested-some :
      (n : ℕ) (vm : lock_vm.Vm) (r : E.RegE) (v : E.Fe) (rest : List E.RegE)
      → Ready vm
      → n + sum (unset_tests (r ∷ rest)) < lim
      → lock_vm.get vm r ≡ some v
      → (after : lock_vm.Vm) × (run n (unset_tests (r ∷ rest)) vm ≡ done (fail, after))
        × (lock_vm.get after e8 ≡ lock_vm.get vm e8)
  unfolding unset_tests
  tested-some n vm r v rest ready enough present =
      let (after, ends, kept) =
        laws.run-chk_fail lim (tried n r) (turned vm ok) (unset_tests rest)
          (Ready-turned vm ok ready) (omega (arith, enough)) (laws.co-set_co (set_co vm ok) fail) in
      (
        after,
        laws.run-test_some lim n vm r v _ ready (omega (arith, enough)) present
            ∙ run-turned (n + cost (test r)) vm ok _ ready (omega (arith, enough))
            ∙ ends,
        kept e8 ∙ get-turned vm ok e8,
      )

  pub Unset-kept :
      (vm vm' : lock_vm.Vm) (rs : List E.RegE)
      → All (λ r. lock_vm.get vm' r ≡ lock_vm.get vm r) rs
      → Unset vm rs
      → Unset vm' rs
  Unset-kept vm vm' [] same unset = tt
  Unset-kept vm vm' (r ∷ rest) same unset =
      (same.0 ∙ unset.0, Unset-kept vm vm' rest same.1 unset.1)

  everywhere :
      (vm vm' : lock_vm.Vm) (rs : List E.RegE)
      → ((r : E.RegE) → lock_vm.get vm' r ≡ lock_vm.get vm r)
      → All (λ r. lock_vm.get vm' r ≡ lock_vm.get vm r) rs
  everywhere vm vm' [] same = tt
  everywhere vm vm' (r ∷ rest) same = (same r, everywhere vm vm' rest same)

  pub unset_tests-pass :
      (rs : List E.RegE) (n : ℕ) (vm : lock_vm.Vm)
      → Ready vm
      → n + sum (unset_tests rs) < lim
      → Unset vm rs
      → (after : lock_vm.Vm) × (run n (unset_tests rs) vm ≡ done (ok, after))
  unfolding unset_tests
  unset_tests-pass [] n vm ready enough unset = laws.run-end lim n vm ready
  unset_tests-pass (r ∷ rest) n vm ready enough unset =
      let (after, ends) =
        unset_tests-pass rest (tried n r + cost chk) (turned vm fail) (Ready-turned vm fail ready)
          (omega (arith, enough))
          (Unset-kept vm _ rest (everywhere vm _ rest (get-turned vm fail)) unset.1) in
      (after, tested-none n vm r rest ready enough unset.0 ∙ ends)

  pub unset_tests-fail :
      (rs : List E.RegE) (n : ℕ) (vm : lock_vm.Vm)
      → Ready vm
      → n + sum (unset_tests rs) < lim
      → ¬ Unset vm rs
      → (after : lock_vm.Vm) × (run n (unset_tests rs) vm ≡ done (fail, after))
        × (lock_vm.get after e8 ≡ lock_vm.get vm e8)
  unfolding unset_tests
  unset_tests-fail [] n vm ready enough broken = absurd (broken tt)
  unset_tests-fail (r ∷ rest) n vm ready enough broken = elim (Option-cases (lock_vm.get vm r)) [
    | inl absent ↦
        let same : (r : E.RegE) → lock_vm.get vm r ≡ lock_vm.get (turned vm fail) r =
          λ r. sym (get-turned vm fail r) in
        let (after, ends, kept) =
          unset_tests-fail rest (tried n r + cost chk) (turned vm fail) (Ready-turned vm fail ready)
            (omega (arith, enough))
            (λ unset. broken (absent, Unset-kept _ vm rest (everywhere _ vm rest same) unset)) in
        (after, tested-none n vm r rest ready enough absent ∙ ends, kept ∙ get-turned vm fail e8)
    | inr (v, present) ↦ tested-some n vm r v rest ready enough present
  ]
