-- ===== src/Codex/Reads.antt =====
-- The loop over the immutable inputs (src/codex.rs) against its specification.
use mathlib.Core.List.{append-nil, append_assoc}
use ultrasonic.Prelude.{
  ◌+◌, ◌≤◌, ◌<◌, ◌≡◌, sym, ap, ◌∙◌, List, [], ◌∷◌, ◌++◌, length, length-append, arith, inl, inr,
}
use ultrasonic.Externals.{Externals}
use ultrasonic.State.Value.{StateValue}
use ultrasonic.Operation.{CellAddr}
use ultrasonic.Codex.{Memory, LibRepo, Runtime, Codex}
use ultrasonic.Codex.Outcome.{ok, err, >>=-eq-ok, >>=-eq-err, CallError, no_immutable_input}
use ultrasonic.Codex.Verify.{ok_or, read_immutable}
use ultrasonic.Codex.Spec.{Reads, Unread}
use ultrasonic.Codex.Inputs.{push_lem, ok_or-ok, ok_or-err}

module _ {E : Externals} (runtime : Runtime E) (repo : LibRepo E) (codex : Codex E)
    (memory : Memory E) where
  pub read_immutable-ok :
      (addrs : List CellAddr) (acc : List (StateValue E.Fe)) {result : List (StateValue E.Fe)}
      → length acc + length addrs ≤ 65535
      → read_immutable runtime repo memory addrs acc ≡ ok result
      → (values : List (StateValue E.Fe)) × Reads runtime repo codex memory addrs values
        × (result ≡ acc ++ values)
  unfolding read_immutable
  read_immutable-ok [] acc room h = ([], tt, cc (h, append-nil acc))
  read_immutable-ok (addr ∷ rest) acc room h =
      let space : length acc < 65535 = omega arith in
      let (value, found, h₁) = >>=-eq-ok _ _ h in
      let pushed : _ = push_lem acc value space in
      let (values, others, whole) =
        read_immutable-ok rest (acc ++ value ∷ []) (omega (arith, length-append acc (value ∷ [])))
          (sym (ap (read_immutable runtime repo memory rest) pushed) ∙ h₁) in
      (
        value ∷ values,
        (ok_or-ok runtime repo _ _ found, others),
        whole ∙ append_assoc acc (value ∷ []) values,
      )

  pub read_immutable-Reads :
      (addrs : List CellAddr) (acc values : List (StateValue E.Fe))
      → length acc + length addrs ≤ 65535
      → Reads runtime repo codex memory addrs values
      → read_immutable runtime repo memory addrs acc ≡ ok (acc ++ values)
  unfolding read_immutable ok_or
  read_immutable-Reads [] acc [] room h = rw (append-nil acc)
  read_immutable-Reads [] acc (value ∷ values) room h = absurd h
  read_immutable-Reads (addr ∷ rest) acc [] room h = absurd h
  read_immutable-Reads (addr ∷ rest) acc (value ∷ values) room (found, others) =
      rw (found, push_lem acc value (omega arith))
        (read_immutable-Reads rest (acc ++ value ∷ []) values
            (omega (arith, length-append acc (value ∷ []))) others
          ∙ ap ok (append_assoc acc (value ∷ []) values))

  pub read_immutable-err :
      (addrs : List CellAddr) (acc : List (StateValue E.Fe)) {e : CallError E.Fe}
      → length acc + length addrs ≤ 65535
      → read_immutable runtime repo memory addrs acc ≡ err e
      → (addr : CellAddr) × Unread runtime repo codex memory addrs addr
        × (e ≡ no_immutable_input addr)
  unfolding read_immutable
  read_immutable-err [] acc room h = cc
  read_immutable-err (addr ∷ rest) acc room h =
      let split = >>=-eq-err _ _ h in
      elim split [
        | inl absent ↦
            let (gone, code) = ok_or-err runtime repo _ absent in (addr, Unread.here gone, code)
        | inr (value, found, h₁) ↦
            let (missed, later, code) =
              read_immutable-err rest (acc ++ value ∷ [])
                (omega (arith, length-append acc (value ∷ [])))
                (sym (
                    ap (read_immutable runtime repo memory rest) (push_lem acc value (omega arith)))
                  ∙ h₁) in
            (missed, Unread.there value (ok_or-ok runtime repo _ _ found) later, code)
      ]

  pub read_immutable-Unread :
      (addrs : List CellAddr) (acc : List (StateValue E.Fe)) (addr : CellAddr)
      → length acc + length addrs ≤ 65535
      → Unread runtime repo codex memory addrs addr
      → read_immutable runtime repo memory addrs acc ≡ err (no_immutable_input addr)
  unfolding read_immutable ok_or
  read_immutable-Unread [] acc addr room h = elim h [ ]
  read_immutable-Unread (first ∷ rest) acc addr room (Unread.here gone) = rw gone
  read_immutable-Unread (first ∷ rest) acc addr room (Unread.there value found later) =
      rw (found, push_lem acc value (omega arith))
        (read_immutable-Unread rest (acc ++ value ∷ []) addr
          (omega (arith, length-append acc (value ∷ []))) later)
