-- ===== src/Framing/Encode.antt =====
-- What `TcpEncoder::encode` writes.
use scrimmage.Prelude.{
  ℕ, zero, suc, ◌+◌, ◌-◌, ◌%◌, ◌^◌, ◌≡◌, refl, sym, ap, ◌∙◌, List, [], ◌∷◌, ◌++◌, arith, length,
  replicate, length-append, length-replicate, append_assoc, append-nil,
}
use scrimmage.Framing.{grow, copy_at, bytes_16, encode}

copy_at-length : (src dst : List ℕ) (i : ℕ) → length (copy_at i src dst) ≡ length dst
unfolding copy_at
copy_at-length [] dst zero = refl
copy_at-length (x ∷ src) [] zero = refl
copy_at-length (x ∷ src) (y ∷ dst) zero = ap suc (copy_at-length src dst zero)
copy_at-length [] [] (suc i) = refl
copy_at-length (x ∷ src) [] (suc i) = refl
copy_at-length [] (y ∷ dst) (suc i) = ap suc (copy_at-length [] dst i)
copy_at-length (x ∷ src) (y ∷ dst) (suc i) = ap suc (copy_at-length (x ∷ src) dst i)

-- A copy into a part of its own length replaces it.
copy_at-lem :
    (before src old after : List ℕ)
    → length src ≡ length old
    → copy_at (length before) src (before ++ (old ++ after)) ≡ before ++ (src ++ after)
unfolding copy_at
copy_at-lem [] [] [] after e = refl
copy_at-lem [] [] (y ∷ old) after e = absurd (omega arith)
copy_at-lem [] (x ∷ src) [] after e = absurd (omega arith)
copy_at-lem [] (x ∷ src) (y ∷ old) after e = ap (◌∷◌ x) (copy_at-lem [] src old after (omega arith))
copy_at-lem (b ∷ before) src old after e = ap (◌∷◌ b) (copy_at-lem before src old after e)

module _ (payload out : List ℕ) where
  abbrev blank : List ℕ
  blank = replicate (length payload) 0

  abbrev size : List ℕ
  size = bytes_16 (length payload % 2 ^ 16)

  grown_lem : grow (length out + 2 + length payload) out ≡ out ++ ((0 ∷ 0 ∷ []) ++ blank)
  unfolding grow
  grown_lem =
      let room : length out + 2 + length payload - length out ≡ suc (suc (length payload)) =
        omega arith in
      rw room

  header_lem :
      copy_at
        (length (out ++ ((0 ∷ 0 ∷ []) ++ blank)) - (2 + length payload))
        size
        (out ++ ((0 ∷ 0 ∷ []) ++ blank))
      ≡ (out ++ size) ++ (blank ++ [])
  header_lem =
      let at_end : length (out ++ ((0 ∷ 0 ∷ []) ++ blank)) - (2 + length payload) ≡ length out =
        omega (
          arith,
          length-append {0} out ((0 ∷ 0 ∷ []) ++ blank),
          length-replicate {0} {A = ℕ} (length payload) 0,
        ) in
      rw at_end (
        copy_at-lem out size (0 ∷ 0 ∷ []) blank refl
        ∙ sym (append_assoc out size blank)
        ∙ ap (λ xs. (out ++ size) ++ xs) (sym (append-nil blank)))

  payload_lem :
      copy_at
        (length ((out ++ size) ++ (blank ++ [])) - length payload)
        payload
        ((out ++ size) ++ (blank ++ []))
      ≡ out ++ (size ++ payload)
  payload_lem =
      let at_end : length ((out ++ size) ++ (blank ++ [])) - length payload ≡ length (out ++ size) =
        omega (
          arith,
          length-append {0} (out ++ size) (blank ++ []),
          length-append {0} blank [],
          length-replicate {0} {A = ℕ} (length payload) 0,
        ) in
      rw at_end (
        copy_at-lem (out ++ size) payload blank [] (sym (length-replicate (length payload) 0))
        ∙ ap (λ xs. (out ++ size) ++ xs) (append-nil payload)
        ∙ append_assoc out size payload)

  -- `encode` leaves what `out` held and appends the two bytes of the length, cut to 16 bits, and the
  -- payload.
  pub encode_lem : encode payload out ≡ out ++ (size ++ payload)
  unfolding encode
  encode_lem = rw (grown_lem, header_lem) payload_lem
