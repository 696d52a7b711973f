-- ===== src/State/Auth/RoundTrip.antt =====
-- The 30 bytes of an `AuthToken` (src/state.rs).
use ultrasonic.Prelude.{
  All-append, All-take, ℕ, ◌+◌, ◌*◌, ◌^◌, ◌%◌, ◌≤◌, ◌<◌, ◌≡◌, refl, ◌∙◌, Bool, true, false, List,
  [], ◌∷◌, ◌++◌, arith, length, take, drop, All, done, panicked, bytes_eq, bytes_eq→eq, ltb,
  bytes_eq_refl, le_value, le_value-append, le_value-lt, le_value-injective, IsByte,
  take-append-drop, length-take_le, length-drop, take-length_append, drop-length_append,
  length-append, ap, Bytes, ◌==◌,
}
use ultrasonic.Externals.{FieldApi, FieldLaws}
use ultrasonic.State.Auth.{AuthToken, from_byte_array, to_byte_array}

abbrev zeros : Bytes
zeros = 0 ∷ 0 ∷ []

le_value-zeros : le_value zeros ≡ 0
unfolding le_value
le_value-zeros = refl

-- The assertion of `to_byte_array` tests whether the two top bytes have the value 0.
zeros_test : (xs : Bytes) → length xs ≡ 2 → bytes_eq xs zeros ≡ (le_value xs == 0)
unfolding bytes_eq le_value
zeros_test [] l = absurd (omega arith)
zeros_test (x ∷ []) l = absurd (omega arith)
zeros_test (x ∷ y ∷ []) l = ground arith
zeros_test (x ∷ y ∷ z ∷ xs) l = absurd (omega arith)

module _ {Fe : Type 0} {api : FieldApi Fe} (laws : FieldLaws api) where
  open laws use {
    to_u256-from_le_bytes, to_u256-lt, to_u256-injective, length-to_le_bytes, to_le_bytes-IsByte,
    le_value-to_le_bytes,
  }

  abbrev buffer : AuthToken Fe → Bytes
  buffer token = api.to_le_bytes (api.to_u256 token.fe)

  low_length : (token : AuthToken Fe) → length (take 30 (buffer token)) ≡ 30
  low_length token = length-take_le 30 _ (omega (arith, length-to_le_bytes (api.to_u256 token.fe)))

  -- The buffer's value is the token's: the first 30 bytes are its remainder by 2 ^ 240.
  split_value :
      (token : AuthToken Fe)
      → le_value (take 30 (buffer token)) + 2 ^ 240 * le_value (drop 30 (buffer token))
        ≡ api.to_u256 token.fe
  split_value token =
      let n : ℕ = api.to_u256 token.fe in
      let all : Bytes = buffer token in
      omega (
        arith,
        le_value-to_le_bytes n (to_u256-lt token.fe),
        ap le_value (take-append-drop 30 all),
        le_value-append (take 30 all) (drop 30 all),
        ap (λ (k : ℕ). 256 ^ k * le_value (drop 30 all)) (low_length token),
      )

  top_length : (token : AuthToken Fe) → length (drop 30 (buffer token)) ≡ 2
  top_length token =
      omega (arith, length-drop 30 (buffer token), length-to_le_bytes (api.to_u256 token.fe))

  low-lt : (token : AuthToken Fe) → le_value (take 30 (buffer token)) < 2 ^ 240
  low-lt token =
      let low : Bytes = take 30 (buffer token) in
      omega (
        arith,
        le_value-lt low (All-take IsByte 30 _ (to_le_bytes-IsByte _)),
        ap (λ (k : ℕ). 256 ^ k) (low_length token),
      )

  -- The assertion passes just below 2 ^ 240.
  assertion :
      (token : AuthToken Fe)
      → bytes_eq (drop 30 (buffer token)) zeros ≡ ltb (api.to_u256 token.fe) (2 ^ 240)
  assertion token =
      rw (zeros_test _ (top_length token)) (ground (arith, split_value token, low-lt token))

  value-append_zeros : (bytes : Bytes) → le_value (bytes ++ zeros) ≡ le_value bytes
  value-append_zeros bytes =
      omega
        (arith, le_value-append bytes zeros, ap (λ (v : ℕ). 256 ^ length bytes * v) le_value-zeros)

  buffer-from_byte_array :
      (bytes : Bytes)
      → length bytes ≡ 30
      → All IsByte bytes
      → buffer (from_byte_array api bytes) ≡ bytes ++ zeros
  unfolding from_byte_array
  buffer-from_byte_array bytes l h =
      let all : Bytes = bytes ++ zeros in
      let size : length all ≡ 32 = omega (arith, length-append bytes zeros) in
      let bytewise : All IsByte all = All-append IsByte bytes zeros h (omega arith) in
      let fits : le_value all < 2 ^ 240 =
        omega (arith, value-append_zeros bytes, le_value-lt bytes h, ap (λ (k : ℕ). 256 ^ k) l) in
      let n : api.to_u256 (api.from_le_bytes all) ≡ le_value all =
        to_u256-from_le_bytes all size bytewise fits in
      le_value-injective _ all (to_le_bytes-IsByte _) bytewise
        (omega (arith, length-to_le_bytes (api.to_u256 (api.from_le_bytes all))))
        (le_value-to_le_bytes _ (to_u256-lt _) ∙ n)

  -- A token made of 30 bytes gives those bytes back, in debug and in release builds.
  -- Field elements are taken to be read and written least significant byte first.
  pub to_byte_array-from_byte_array :
      (debug : Bool) (bytes : List ℕ)
      → length bytes ≡ 30
      → All IsByte bytes
      → to_byte_array api debug (from_byte_array api bytes) ≡ done bytes
  unfolding to_byte_array from_byte_array
  to_byte_array-from_byte_array debug bytes l h =
      rw
        (
          buffer-from_byte_array bytes l h,
          drop-length_append 30 bytes zeros l,
          take-length_append 30 bytes zeros l,
        )
        (ground (arith, bytes_eq_refl zeros))

  -- On any token: below 2 ^ 240 the 30 bytes are written and have the token's value, in every
  -- build. From there on a debug build panics, and a release build writes the remainder by 2 ^ 240.
  -- Field elements are taken to be read and written least significant byte first.
  pub to_byte_array_exact :
      (debug : Bool) (token : AuthToken Fe)
      → (api.to_u256 token.fe < 2 ^ 240
          → (b : Bytes) × (to_byte_array api debug token ≡ done b)
            × (length b ≡ 30)
            × (le_value b ≡ api.to_u256 token.fe))
        × (2 ^ 240 ≤ api.to_u256 token.fe → to_byte_array api true token ≡ panicked)
        × ((b : Bytes) × (to_byte_array api false token ≡ done b)
            × (le_value b ≡ api.to_u256 token.fe % 2 ^ 240))
  unfolding to_byte_array
  to_byte_array_exact debug token =
      let s : _ = split_value token in
      let l : _ = low-lt token in
      (
        λ h. (
          take 30 (buffer token),
          ground (arith, assertion token),
          low_length token,
          ground (arith, s, l),
        ),
        λ h. ground (arith, assertion token),
        (take 30 (buffer token), refl, ground (arith, s, l)),
      )

  written :
      (token : AuthToken Fe) (bytes : Bytes)
      → to_byte_array api true token ≡ done bytes
      → (bytes_eq (drop 30 (buffer token)) zeros ≡ true) × (bytes ≡ take 30 (buffer token))
  unfolding to_byte_array
  written token bytes h = ground arith

  -- A token that is written without a panic in a debug build is read back from its bytes.
  -- Field elements are taken to be read and written least significant byte first.
  pub from_byte_array-to_byte_array :
      (token : AuthToken Fe) (bytes : List ℕ)
      → to_byte_array api true token ≡ done bytes
      → from_byte_array api bytes ≡ token
  unfolding to_byte_array from_byte_array
  from_byte_array-to_byte_array token bytes h =
      let (top, low) = written token bytes h in
      let all : bytes ++ zeros ≡ buffer token =
        rw (low, ← bytes_eq→eq _ zeros top) (take-append-drop 30 (buffer token)) in
      let value : le_value (buffer token) ≡ api.to_u256 token.fe =
        le_value-to_le_bytes _ (to_u256-lt token.fe) in
      let fits : le_value (buffer token) < 2 ^ 240 = ground (arith, assertion token) in
      let same : api.from_le_bytes (buffer token) ≡ token.fe =
        to_u256-injective _ token.fe
          (to_u256-from_le_bytes _ (length-to_le_bytes _) (to_le_bytes-IsByte _) fits ∙ value) in
      cc (all, same)
