-- ===== src/Codex/Stand/Body.antt =====
-- The whole lock script of the test stand (`lib_lock` of src/codex.rs), run from its second instruction.
use ultrasonic.Prelude.{
  ℕ, ◌+◌, ◌<◌, ◌≡◌, ◌≢◌, sym, ◌∙◌, none, some, List, [], ◌∷◌, All, done, arith,
}
use ultrasonic.Externals.{Externals, Status, ok, fail}
use ultrasonic.Codex.{Runtime}
use ultrasonic.Codex.Spec.{ResetLaws}
use ultrasonic.Codex.Armed.{RegisterLaws, AllDiffer}
use ultrasonic.Codex.Stand.{Bench, lock_body}
use ultrasonic.Codex.Stand.Script.{
  Faulty, no_token, no_witness, too_much, CodeApi, CodeLaws, Halts, total,
}
use ultrasonic.Codex.Stand.Steps

module _ {E : Externals} (runtime : Runtime E) (bench : Bench E)
    (resets : ResetLaws runtime.lock_vm) (code : CodeApi runtime bench)
    (laws : CodeLaws runtime bench resets code) (registers : RegisterLaws runtime.lock_vm)
    (lim n : ℕ) (vm : runtime.lock_vm.Vm) where
  open runtime use {lock_vm, regs}
  open regs use {ea, e1, e2, e3, e4, e5, e8}
  open bench use {fe256, asm}
  open asm use {Instr, put}
  open code use {cost, run}

  abbrev key : E.Fe
  key = Steps.key runtime bench resets code laws registers lim

  abbrev compared : E.RegE → ℕ → List Instr → List Instr
  compared = Steps.compared runtime bench resets code laws registers lim

  abbrev paid : ℕ → E.RegE → ℕ → ℕ
  paid = Steps.paid runtime bench resets code laws registers lim

  abbrev noted : lock_vm.Vm → Status → ℕ → lock_vm.Vm
  noted = Steps.noted runtime bench resets code laws registers lim

  abbrev unset_tests : List E.RegE → List Instr
  unset_tests = Steps.unset_tests runtime bench resets code laws registers lim

  module _ (free : AllDiffer (ea ∷ e8 ∷ e1 ∷ e2 ∷ e3 ∷ e4 ∷ e5 ∷ []))
      (ready : Halts runtime bench resets code lim vm)
      (enough : n + total runtime bench resets code (lock_body runtime bench) < lim) where
    abbrev with_secret : lock_vm.Vm
    with_secret = lock_vm.set vm ea key

    abbrev after_token : lock_vm.Vm
    after_token = noted with_secret ok 1

    abbrev after_witness : lock_vm.Vm
    after_witness = noted after_token ok 2

    abbrev last : lock_vm.Vm
    last = lock_vm.set after_witness e8 (fe256 3)

    abbrev Ready : lock_vm.Vm → Type 0
    Ready vm' = Halts runtime bench resets code lim vm'

    with_secret-Ready : Ready with_secret
    with_secret-Ready = Steps.Ready-set runtime bench resets code laws registers lim vm ea key ready

    after_token-Ready : Ready after_token
    after_token-Ready =
        Steps.Ready-noted runtime bench resets code laws registers lim with_secret ok 1
          with_secret-Ready

    after_witness-Ready : Ready after_witness
    after_witness-Ready =
        Steps.Ready-noted runtime bench resets code laws registers lim after_token ok 2
          after_token-Ready

    -- What was spent before the first comparison, the second, and the tests.
    abbrev cost₁ : ℕ
    cost₁ = n + cost (put ea key)

    abbrev cost₂ : ℕ
    cost₂ = paid cost₁ e1 1

    abbrev cost₃ : ℕ
    cost₃ = paid cost₂ e2 2 + cost (put e8 (fe256 3))

    abbrev others : List E.RegE
    others = e3 ∷ e4 ∷ e5 ∷ []

    abbrev Same : lock_vm.Vm → E.RegE → Type 0
    Same vm' r = lock_vm.get vm' r ≡ lock_vm.get vm r

    first-Same : (r : E.RegE) → ea ≢ r → Same with_secret r
    first-Same r other = registers.get-set_ne vm ea r key other

    token-Same : (r : E.RegE) → ea ≢ r → e8 ≢ r → Same after_token r
    token-Same r other other' =
        Steps.get-noted runtime bench resets code laws registers lim with_secret ok 1 r other'
        ∙ first-Same r other

    last-Same : (r : E.RegE) → ea ≢ r → e8 ≢ r → Same last r
    last-Same r other other' =
        registers.get-set_ne after_witness e8 r (fe256 3) other'
        ∙ Steps.get-noted runtime bench resets code laws registers lim after_token ok 2 r other'
        ∙ token-Same r other other'

    secret_there : lock_vm.get with_secret ea ≡ some key
    secret_there = registers.get-set_self vm ea key

    secret_kept : lock_vm.get after_token ea ≡ some key
    secret_kept =
        Steps.get-noted runtime bench resets code laws registers lim with_secret ok 1 ea
          (λ e. free.0.0 (sym e))
        ∙ secret_there

    others-Same : All (Same last) others
    others-Same =
        let far = free.0.1.1.1 in
        let far' = free.1.0.1.1 in
        (
          last-Same e3 far.0 far'.0,
          (last-Same e4 far.1.0 far'.1.0, (last-Same e5 far.1.1.0 far'.1.1.0, tt)),
        )

    abbrev after_first : List Instr
    after_first = compared e2 2 (put e8 (fe256 3) ∷ unset_tests others)

    begun : run n (lock_body runtime bench) vm ≡ run cost₁ (compared e1 1 after_first) with_secret
    unfolding lock_body Steps.unset_tests
    begun = laws.run-put lim n vm ea key _ ready (omega (arith, enough))

    token_passed :
        lock_vm.get vm e1 ≡ some key
        → run n (lock_body runtime bench) vm ≡ run cost₂ after_first after_token
    unfolding lock_body Steps.unset_tests
    token_passed token =
        begun
        ∙ Steps.compared-same runtime bench resets code laws registers lim cost₁ with_secret e1 1 _
            with_secret-Ready (omega (arith, enough)) secret_there
            (first-Same e1 free.0.1.0 ∙ token)

    witness_passed :
        lock_vm.get vm e1 ≡ some key
        → lock_vm.get vm e2 ≡ some key
        → run n (lock_body runtime bench) vm ≡ run cost₃ (unset_tests others) last
    unfolding lock_body Steps.unset_tests
    witness_passed token first =
        token_passed token
        ∙ Steps.compared-same runtime bench resets code laws registers lim cost₂ after_token e2 2 _
            after_token-Ready (omega (arith, enough)) secret_kept
            (token-Same e2 free.0.1.1.0 free.1.0.1.0 ∙ first)
        ∙ laws.run-put lim _ after_witness e8 (fe256 3) _ after_witness-Ready
            (omega (arith, enough))

    last-Ready : Ready last
    last-Ready =
        Steps.Ready-set runtime bench resets code laws registers lim after_witness e8 (fe256 3)
          after_witness-Ready

    affordable : cost₃ + total runtime bench resets code (unset_tests others) < lim
    unfolding lock_body Steps.unset_tests
    affordable = omega (arith, enough)

    abbrev Unset : Type 0
    Unset = All (λ r. lock_vm.get vm r ≡ none) others

    pub lock_body-passes :
        lock_vm.get vm e1 ≡ some key
        → lock_vm.get vm e2 ≡ some key
        → Unset
        → (after : lock_vm.Vm) × (run n (lock_body runtime bench) vm ≡ done (ok, after))
    lock_body-passes token first unset =
        let (after, ends) =
          Steps.unset_tests-pass runtime bench resets code laws registers lim others cost₃ last
            last-Ready affordable
            (Steps.Unset-kept runtime bench resets code laws registers lim vm last others
              others-Same unset) in
        (after, witness_passed token first ∙ ends)

    pub lock_body-fails :
        (k : ℕ)
        → Faulty key (lock_vm.get vm e1) (lock_vm.get vm e2) (¬ Unset) k
        → (after : lock_vm.Vm) × (run n (lock_body runtime bench) vm ≡ done (fail, after))
          × (lock_vm.get after e8 ≡ some (fe256 k))
    unfolding lock_body Steps.unset_tests
    lock_body-fails _ (no_token other) =
        let (after, ends, code) =
          Steps.compared-other runtime bench resets code laws registers lim cost₁ with_secret e1 1
            after_first with_secret-Ready (omega (arith, enough)) secret_there
            (λ e. other (sym (first-Same e1 free.0.1.0) ∙ e)) in
        (after, begun ∙ ends, code)
    lock_body-fails _ (no_witness token other) =
        let (after, ends, code) =
          Steps.compared-other runtime bench resets code laws registers lim cost₂ after_token e2 2
            (put e8 (fe256 3) ∷ unset_tests others) after_token-Ready (omega (arith, enough))
            secret_kept (λ e. other (sym (token-Same e2 free.0.1.1.0 free.1.0.1.0) ∙ e)) in
        (after, token_passed token ∙ ends, code)
    lock_body-fails _ (too_much token first more) =
        let back : All (λ r. lock_vm.get vm r ≡ lock_vm.get last r) others =
          (sym others-Same.0, (sym others-Same.1.0, (sym others-Same.1.1.0, tt))) in
        let (after, ends, kept) =
          Steps.unset_tests-fail runtime bench resets code laws registers lim others cost₃ last
            last-Ready affordable
            (λ unset. more (
              Steps.Unset-kept runtime bench resets code laws registers lim last vm others back
                unset)) in
        (
          after,
          witness_passed token first ∙ ends,
          kept ∙ registers.get-set_self after_witness e8 (fe256 3),
        )
