-- ===== src/Isa/Masm.antt =====
-- The macro `instr!` of src/isa/masm.rs, which `uasm!` applies to each line. The `instr!` of zk-aluvm,
-- to which it leaves all other lines, is a parameter. Words are lists of code points.
use ultrasonic.Prelude.{
  ℕ, ◌≡◌, ◌≢◌, ◌↔◌, ◌⊎◌, inl, inr, refl, sym, ap, ◌∙◌, Bool, true, false, ◌&&◌, Option, some, List,
  [], ◌∷◌, if◌then◌else◌, bytes_eq, bytes_eq→eq, Bool-cases, arith,
}
use ultrasonic.Isa.Instr.{
  UsonicInstr, Instr, usonic, ck_nx_i_ro, ck_nx_i_ao, ck_nx_o_ro, ck_nx_o_ao, ld_i_ro, ld_i_ao,
  ld_o_ro, ld_o_ao, rst_i_ro, rst_i_ao, rst_o_ro, rst_o_ao,
}

-- A token tree; of a group nothing is read.
pub data Token (Group : Type 0) : Type 0 where
  ident : List ℕ → Token Group
  punct : ℕ → Token Group
  literal : List ℕ → Token Group
  group : Group → Token Group

abbrev pub cknxi : List ℕ
cknxi = b'c' ∷ b'k' ∷ b'n' ∷ b'x' ∷ b'i' ∷ []

abbrev pub cknxo : List ℕ
cknxo = b'c' ∷ b'k' ∷ b'n' ∷ b'x' ∷ b'o' ∷ []

abbrev pub ldi : List ℕ
ldi = b'l' ∷ b'd' ∷ b'i' ∷ []

abbrev pub ldo : List ℕ
ldo = b'l' ∷ b'd' ∷ b'o' ∷ []

abbrev pub rsti : List ℕ
rsti = b'r' ∷ b's' ∷ b't' ∷ b'i' ∷ []

abbrev pub rsto : List ℕ
rsto = b'r' ∷ b's' ∷ b't' ∷ b'o' ∷ []

abbrev pub destructible : List ℕ
destructible =
    b'd' ∷ b'e' ∷ b's' ∷ b't' ∷ b'r' ∷ b'u' ∷ b'c' ∷ b't' ∷ b'i' ∷ b'b' ∷ b'l' ∷ b'e' ∷ []

abbrev pub immutable : List ℕ
immutable = b'i' ∷ b'm' ∷ b'm' ∷ b'u' ∷ b't' ∷ b'a' ∷ b'b' ∷ b'l' ∷ b'e' ∷ []

module _ {Group : Type 0} where
  -- Whether the line is that of an arm of two words.
  unfoldable pub arm : List ℕ → List ℕ → List (Token Group) → Bool
  arm mnemonic operand (ident a ∷ ident b ∷ []) = bytes_eq a mnemonic && bytes_eq b operand
  arm mnemonic operand _ = false

  module _ {Ctrl Field Reserved : Type 0}
      (aluvm : List (Token Group) → Option (Instr Ctrl Field Reserved)) where
    -- The arms of `instr!` in their order; a line that does not compile gives nothing.
    unfoldable pub instr : List (Token Group) → Option (Instr Ctrl Field Reserved)
    instr line =
        if arm cknxi destructible line
        then some (usonic ck_nx_i_ro)
        else if arm cknxi immutable line
        then some (usonic ck_nx_i_ao)
        else if arm cknxo destructible line
        then some (usonic ck_nx_o_ro)
        else if arm cknxo immutable line
        then some (usonic ck_nx_o_ao)
        else if arm ldi destructible line
        then some (usonic ld_i_ro)
        else if arm ldi immutable line
        then some (usonic ld_i_ao)
        else if arm ldo destructible line
        then some (usonic ld_o_ro)
        else if arm ldo immutable line
        then some (usonic ld_o_ao)
        else if arm rsti destructible line
        then some (usonic rst_i_ro)
        else if arm rsti immutable line
        then some (usonic rst_i_ao)
        else if arm rsto destructible line
        then some (usonic rst_o_ro)
        else if arm rsto immutable line
        then some (usonic rst_o_ao)
        else aluvm line

  -- How an instruction is written: its mnemonic, and which cells it is about.
  unfoldable pub line_of : UsonicInstr → List (Token Group)
  line_of ck_nx_i_ro = ident cknxi ∷ ident destructible ∷ []
  line_of ck_nx_i_ao = ident cknxi ∷ ident immutable ∷ []
  line_of ck_nx_o_ro = ident cknxo ∷ ident destructible ∷ []
  line_of ck_nx_o_ao = ident cknxo ∷ ident immutable ∷ []
  line_of ld_i_ro = ident ldi ∷ ident destructible ∷ []
  line_of ld_i_ao = ident ldi ∷ ident immutable ∷ []
  line_of ld_o_ro = ident ldo ∷ ident destructible ∷ []
  line_of ld_o_ao = ident ldo ∷ ident immutable ∷ []
  line_of rst_i_ro = ident rsti ∷ ident destructible ∷ []
  line_of rst_i_ao = ident rsti ∷ ident immutable ∷ []
  line_of rst_o_ro = ident rsto ∷ ident destructible ∷ []
  line_of rst_o_ao = ident rsto ∷ ident immutable ∷ []

  arm-cases :
      (mnemonic operand : List ℕ) (line : List (Token Group))
      → ((arm mnemonic operand line ≡ true) × (line ≡ ident mnemonic ∷ ident operand ∷ []))
        ⊎ (arm mnemonic operand line ≡ false)
  unfolding arm
  arm-cases m o (ident a ∷ ident b ∷ []) = elim (Bool-cases (bytes_eq a m && bytes_eq b o)) [
    | inr differs ↦ inr differs
    | inl same ↦
        let first : bytes_eq a m ≡ true = ground (arith, same) in
        let second : bytes_eq b o ≡ true = ground (arith, same) in
        let x : a ≡ m = bytes_eq→eq a m first in
        let y : b ≡ o = bytes_eq→eq b o second in inl (same, rw (x, y) refl)
  ]
  arm-cases m o [] = inr refl
  arm-cases m o (ident a ∷ []) = inr refl
  arm-cases m o (punct a ∷ rest) = inr refl
  arm-cases m o (literal a ∷ rest) = inr refl
  arm-cases m o (group a ∷ rest) = inr refl
  arm-cases m o (ident a ∷ punct b ∷ rest) = inr refl
  arm-cases m o (ident a ∷ literal b ∷ rest) = inr refl
  arm-cases m o (ident a ∷ group b ∷ rest) = inr refl
  arm-cases m o (ident a ∷ ident b ∷ c ∷ rest) = inr refl

  module _ {Ctrl Field Reserved : Type 0}
      (aluvm : List (Token Group) → Option (Instr Ctrl Field Reserved)) where
    -- Every line of an instruction of this set assembles to it.
    instr-line_of : (i : UsonicInstr) → instr aluvm (line_of i) ≡ some (usonic i)
    unfolding instr line_of arm bytes_eq
    instr-line_of ck_nx_i_ro = refl
    instr-line_of ck_nx_i_ao = refl
    instr-line_of ck_nx_o_ro = refl
    instr-line_of ck_nx_o_ao = refl
    instr-line_of ld_i_ro = refl
    instr-line_of ld_i_ao = refl
    instr-line_of ld_o_ro = refl
    instr-line_of ld_o_ao = refl
    instr-line_of rst_i_ro = refl
    instr-line_of rst_i_ao = refl
    instr-line_of rst_o_ro = refl
    instr-line_of rst_o_ao = refl

    past :
        (mnemonic operand : List ℕ) (i : UsonicInstr)
        → line_of i ≡ ident mnemonic ∷ ident operand ∷ []
        → (line : List (Token Group)) (rest : Option (Instr Ctrl Field Reserved))
        → ((j : UsonicInstr) × (line ≡ line_of j)) ⊎ (rest ≡ aluvm line)
        → ((j : UsonicInstr) × (line ≡ line_of j))
          ⊎ ((if arm mnemonic operand line then some (usonic i) else rest) ≡ aluvm line)
    past mnemonic operand i written line rest later = elim (arm-cases mnemonic operand line) [
      | inl (taken, e) ↦ inl (i, e ∙ sym written)
      | inr missed ↦ rw missed later
    ]

    -- Which arm a line takes.
    instr-cases :
        (line : List (Token Group))
        → ((i : UsonicInstr) × (line ≡ line_of i)) ⊎ (instr aluvm line ≡ aluvm line)
    unfolding instr line_of
    instr-cases line = past cknxi destructible ck_nx_i_ro refl line _ (
        past cknxi immutable ck_nx_i_ao refl line _ (
          past cknxo destructible ck_nx_o_ro refl line _ (
            past cknxo immutable ck_nx_o_ao refl line _ (
              past ldi destructible ld_i_ro refl line _ (
                past ldi immutable ld_i_ao refl line _ (
                  past ldo destructible ld_o_ro refl line _ (
                    past ldo immutable ld_o_ao refl line _ (
                      past rsti destructible rst_i_ro refl line _ (
                        past rsti immutable rst_i_ao refl line _ (
                          past rsto destructible rst_o_ro refl line _
                            (past rsto immutable rst_o_ao refl line _ (inr refl))))))))))))

    -- A line assembles to an instruction of this set just if it is the line of that instruction. Every
    -- line that is that of none of them is left to zk-aluvm. The macro of zk-aluvm makes no instruction
    -- of this set.
    pub instr_iff :
        ((line : List (Token Group)) (i : UsonicInstr) → aluvm line ≢ some (usonic i))
        → (line : List (Token Group))
        → ((i : UsonicInstr) → (instr aluvm line ≡ some (usonic i)) ↔ (line ≡ line_of i))
          × (((i : UsonicInstr) → line ≢ line_of i) → instr aluvm line ≡ aluvm line)
    instr_iff foreign line = (
      λ i. (
        λ h. elim (instr-cases line) [
          | inr left ↦ absurd (foreign line i (sym left ∙ h))
          | inl (j, e) ↦
              let made : some (usonic j) ≡ some (usonic i) =
                sym (instr-line_of j) ∙ ap (instr aluvm) (sym e) ∙ h in
              let same : j ≡ i = cc in e ∙ ap line_of same
        ],
        λ e. ap (instr aluvm) e ∙ instr-line_of i,
      ),
      λ other. elim (instr-cases line) [ inl (i, e) ↦ absurd (other i e) | inr left ↦ left ],
    )
